-- ===== src/Subscriptions/Purge.antt =====
-- The states that crud/subscription_manager.cpp reaches, and what is left after a purge.
use bluzelle.Base.{ℕ, ◌≡◌, refl, Bool, [], ◌∷◌, Option, none, some, if◌then◌else◌}
use bluzelle.Bytes.{Bytes}
use bluzelle.Bytes.Order.{bytes_ordered, number_ordered}
use bluzelle.Map.{Map, lookup, inner, rebuild}
use bluzelle.Map.Sorted.{IsSorted}
use bluzelle.Map.Nested.{Each, bind, lookup-rebuild}
use bluzelle.Subscriptions.{
  Subscriptions, Transactions, Sessions, Keys, nonempty, purge_transactions, purge_sessions,
  purge_keys, purge_closed_sessions,
}
use bluzelle.Subscriptions.Membership.{subscriber, in_keys, in_sessions}

-- What becomes of a subscription: it stays as long as its session exists.
abbrev pub keep : (ℕ → Bool) → ℕ → Option ℕ
keep alive h = if alive h then some h else none

abbrev pub TransactionsOrdered : Sessions → Type 0
TransactionsOrdered = Each IsSorted

abbrev pub SessionsOrdered : Keys → Type 0
SessionsOrdered = Each TransactionsOrdered

-- Every map in it has its keys in strict order.
pub record IsOrdered (m : Subscriptions) : Type 0 where
  pub ordered : Each SessionsOrdered m.subscribers

inner-nonempty : {K V : Type 0} (m : Map K V) → inner (nonempty m) ≡ m
inner-nonempty [] = refl
inner-nonempty (e ∷ m) = refl

module _ (alive : ℕ → Bool) where
  lookup-purge_transactions :
      (t : ℕ) (ts : Transactions)
      → IsSorted ts
      → lookup t (inner (purge_transactions alive ts)) ≡ bind (lookup t ts) (keep alive)
  unfolding purge_transactions
  lookup-purge_transactions t ts s =
      rw (inner-nonempty (rebuild (keep alive) ts)) (lookup-rebuild (keep alive) t ts s)

  in_sessions-purge_sessions :
      (s t : ℕ) (ss : Sessions)
      → TransactionsOrdered ss
      → in_sessions (inner (purge_sessions alive ss)) s t ≡ bind (in_sessions ss s t) (keep alive)
  unfolding in_sessions purge_sessions lookup
  in_sessions-purge_sessions s t ss h =
      rw
        (
          inner-nonempty (rebuild (purge_transactions alive) ss),
          lookup-rebuild (purge_transactions alive) s ss h.sorted,
        )
        (go (lookup s ss) (h.values s))
    where
      go :
          (o : Option Transactions)
          → ((ts : Transactions) → o ≡ some ts → IsSorted ts)
          → lookup t (inner (bind o (purge_transactions alive)))
            ≡ bind (lookup t (inner o)) (keep alive)
      go none p = refl
      go (some ts) p = lookup-purge_transactions t ts (p ts refl)

  in_keys-purge_keys :
      (k : Bytes) (s t : ℕ) (ks : Keys)
      → SessionsOrdered ks
      → in_keys (inner (purge_keys alive ks)) k s t ≡ bind (in_keys ks k s t) (keep alive)
  unfolding in_keys in_sessions purge_keys lookup
  in_keys-purge_keys k s t ks h =
      rw
        (
          inner-nonempty (rebuild (purge_sessions alive) ks),
          lookup-rebuild (purge_sessions alive) k ks h.sorted,
        )
        (go (lookup k ks) (h.values k))
    where
      go :
          (o : Option Sessions)
          → ((ss : Sessions) → o ≡ some ss → TransactionsOrdered ss)
          → in_sessions (inner (bind o (purge_sessions alive))) s t
            ≡ bind (in_sessions (inner o) s t) (keep alive)
      go none p = refl
      go (some ss) p = in_sessions-purge_sessions s t ss (p ss refl)

  pub subscriber-purge :
      (m : Subscriptions) (u k : Bytes) (s t : ℕ)
      → IsOrdered m
      → subscriber (purge_closed_sessions alive m) u k s t
        ≡ bind (subscriber m u k s t) (keep alive)
  unfolding subscriber in_keys in_sessions purge_closed_sessions lookup
  subscriber-purge m u k s t h =
      rw (lookup-rebuild (purge_keys alive) u m.subscribers h.ordered.sorted)
        (go (lookup u m.subscribers) (h.ordered.values u))
    where
      go :
          (o : Option Keys)
          → ((ks : Keys) → o ≡ some ks → SessionsOrdered ks)
          → in_keys (inner (bind o (purge_keys alive))) k s t
            ≡ bind (in_keys (inner o) k s t) (keep alive)
      go none p = refl
      go (some ks) p = in_keys-purge_keys k s t ks (p ks refl)

-- ===== src/Subscriptions/Reachable.antt =====
-- The states that crud/subscription_manager.cpp reaches from its start, by any sequence of
-- subscriptions, cancellations, commits and purges.
use bluzelle.Base.{
  ℕ, false-ne-true, none-ne-some, ◌≡◌, refl, ap, sym, ◌∙◌, Bool, true, false, [], ◌∷◌, Option, none,
  some, arith, ==_iff, if◌then◌else◌, Bool-cases, inl, inr, subst,
}
use mathlib.Core.Option.{some-injective}
use bluzelle.Bytes.{Bytes}
use bluzelle.Bytes.Order.{bytes_ordered, number_ordered, bytes_eq_iff}
use bluzelle.Map.{Map, lookup, insert, erase, inner}
use bluzelle.Map.Sorted.{IsSorted, insert-IsSorted, erase-IsSorted}
use bluzelle.Map.Nested.{Each, bind, insert-Each, Each-empty, rebuild-Each, rebuild-IsSorted}
use mathlib.Core.List.{Memᴰ}
use bluzelle.Protocol.{Request, Event}
use bluzelle.Subscriptions.{
  Subscriptions, Transactions, Sessions, Keys, empty, subscribe, unsubscribe, inspect_commit,
  nonempty, add_subscriber, add_key, purge_transactions, purge_sessions, purge_keys,
  purge_closed_sessions, notice,
}
use bluzelle.Subscriptions.Membership.{
  subscriber, in_keys, in_sessions, subscribe_cases, unsubscribe_cases, without, subscriber-same,
  subscriber-add_subscriber, subscriber-without, same_place, present, subscribe_lem,
}
use bluzelle.Subscriptions.Notify.{
  inspect_commit-subscribers, change_of, next_seq, inspect_commit-Mem,
}
use bluzelle.Subscriptions.Purge.{
  IsOrdered, SessionsOrdered, TransactionsOrdered, subscriber-purge, keep,
}

pub data Reachable : Subscriptions → Type 0 where
  started : Reachable empty
  subscribed :
      {m : Subscriptions} (u k : Bytes) (t s : ℕ) → Reachable m → Reachable (subscribe m u k t s).0
  unsubscribed :
      {m : Subscriptions} (u k : Bytes) (t s : ℕ)
      → Reachable m
      → Reachable (unsubscribe m u k t s).0
  committed :
      {m : Subscriptions} (alive : ℕ → Bool) (r : Request)
      → Reachable m
      → Reachable (inspect_commit alive m r).0
  purged :
      {m : Subscriptions} (alive : ℕ → Bool)
      → Reachable m
      → Reachable (purge_closed_sessions alive m)

-- A property of the map that is found, or of the empty one.
inner_of :
    {K V : Type 0} (P : Map K V → Type 0) (o : Option (Map K V))
    → P []
    → ((m : Map K V) → o ≡ some m → P m)
    → P (inner o)
inner_of P none e f = e
inner_of P (some m) e f = f m refl

sessions_in :
    (ks : Keys) (k : Bytes) → SessionsOrdered ks → TransactionsOrdered (inner (lookup k ks))
sessions_in ks k h = inner_of TransactionsOrdered (lookup k ks) (Each-empty IsSorted) (h.values k)

transactions_in : (ss : Sessions) (s : ℕ) → TransactionsOrdered ss → IsSorted (inner (lookup s ss))
transactions_in ss s h = inner_of IsSorted (lookup s ss) tt (h.values s)

keys_in :
    (m : Subscriptions) (u : Bytes) → IsOrdered m → SessionsOrdered (inner (lookup u m.subscribers))
keys_in m u h =
    inner_of SessionsOrdered (lookup u m.subscribers) (Each-empty TransactionsOrdered)
      (h.ordered.values u)

-- The entry of a session below a key of a database is replaced.
replaced :
    (m : Subscriptions) (u k : Bytes) (s : ℕ) (ts : Transactions)
    → IsOrdered m
    → IsSorted ts
    → Each SessionsOrdered (
        insert u
          (insert k
            (insert s ts (inner (lookup k (inner (lookup u m.subscribers)))))
            (inner (lookup u m.subscribers)))
          m.subscribers)
replaced m u k s ts h o =
    let ks = inner (lookup u m.subscribers) in
    insert-Each SessionsOrdered u _ m.subscribers h.ordered (
      insert-Each TransactionsOrdered k _ ks (keys_in m u h)
        (insert-Each IsSorted s ts (inner (lookup k ks)) (sessions_in ks k (keys_in m u h)) o))

add_subscriber-Each :
    (m : Subscriptions) (u k : Bytes) (s t : ℕ)
    → IsOrdered m
    → Each SessionsOrdered (add_subscriber m u k s t).subscribers
unfolding add_subscriber add_key
add_subscriber-Each m u k s t h =
    let ss = inner (lookup k (inner (lookup u m.subscribers))) in
    replaced m u k s (insert t s (inner (lookup s ss))) h (
      insert-IsSorted t s (inner (lookup s ss))
        (transactions_in ss s (sessions_in _ k (keys_in m u h))))

without-Each :
    (m : Subscriptions) (u k : Bytes) (s t : ℕ)
    → IsOrdered m
    → Each SessionsOrdered (without m u k s t).subscribers
unfolding without
without-Each m u k s t h =
    let ss = inner (lookup k (inner (lookup u m.subscribers))) in
    replaced m u k s (erase t (inner (lookup s ss))) h (
      erase-IsSorted t (inner (lookup s ss))
        (transactions_in ss s (sessions_in _ k (keys_in m u h))))

nonempty_kept :
    {K V : Type 0} (P : Map K V → Type 0) (m w : Map K V) → nonempty m ≡ some w → P m → P w
nonempty_kept P [] w e p = cc
nonempty_kept P (x ∷ m) w e p = subst P (some-injective (x ∷ m) w e) p

purge-Each :
    (alive : ℕ → Bool) (m : Subscriptions)
    → IsOrdered m
    → Each SessionsOrdered (purge_closed_sessions alive m).subscribers
unfolding purge_closed_sessions purge_keys purge_sessions purge_transactions
purge-Each alive m h =
    rebuild-Each (purge_keys alive) SessionsOrdered SessionsOrdered m.subscribers h.ordered
      λ ks w o e. nonempty_kept SessionsOrdered _ w e (
        rebuild-Each (purge_sessions alive) TransactionsOrdered TransactionsOrdered ks o
          λ ss w' o' e'. nonempty_kept TransactionsOrdered _ w' e' (
            rebuild-Each (purge_transactions alive) IsSorted IsSorted ss o' λ ts w'' o'' e''.
              nonempty_kept IsSorted _ w'' e'' (rebuild-IsSorted (keep alive) ts o'')))

pub Reachable-IsOrdered : {m : Subscriptions} → Reachable m → IsOrdered m
Reachable-IsOrdered started = record { ordered = Each-empty SessionsOrdered }
Reachable-IsOrdered (subscribed {m} u k t s r) =
    subscribe_cases (λ x. IsOrdered x.0) m u k t s
      (λ _ m' e. record {
        ordered =
            subst (Each SessionsOrdered) (sym e)
              (add_subscriber-Each m u k s t (Reachable-IsOrdered r));
      })
      (λ _. Reachable-IsOrdered r)
Reachable-IsOrdered (unsubscribed {m} u k t s r) =
    unsubscribe_cases (λ x. IsOrdered x.0) m u k t s (λ _. Reachable-IsOrdered r)
      (λ _. record { ordered = without-Each m u k s t (Reachable-IsOrdered r) })
Reachable-IsOrdered (committed {m} alive q r) = record {
  ordered =
      subst (Each SessionsOrdered) (sym (inspect_commit-subscribers alive m q))
        (Reachable-IsOrdered r).ordered;
}
Reachable-IsOrdered (purged {m} alive r) = record {
  ordered = purge-Each alive m (Reachable-IsOrdered r);
}

-- Every subscription holds the session that it was made by.
abbrev Own : Subscriptions → Type 0
Own m = (u k : Bytes) (s t h : ℕ) → subscriber m u k s t ≡ some h → h ≡ s

own_if :
    (b : Bool) (s s' h : ℕ) (o : Option ℕ)
    → (if b then some s else o) ≡ some h
    → (b ≡ true → s ≡ s')
    → (o ≡ some h → h ≡ s')
    → h ≡ s'
own_if true s s' h o e p q = sym (some-injective s h e) ∙ p refl
own_if false s s' h o e p q = q e

kept_if : (b : Bool) (h : ℕ) (o : Option ℕ) → (if b then none else o) ≡ some h → o ≡ some h
kept_if true h o e = cc
kept_if false h o e = e

bind-keep : (alive : ℕ → Bool) (o : Option ℕ) (h : ℕ) → bind o (keep alive) ≡ some h → o ≡ some h
bind-keep alive none h e = cc
bind-keep alive (some x) h e = elim (Bool-cases (alive x)) [
  | inl a ↦ rw a at e
  | inr a ↦ absurd (none-ne-some (rw a at e))
]

Reachable-Own : {m : Subscriptions} → Reachable m → Own m
unfolding subscriber in_keys in_sessions lookup same_place
Reachable-Own started u k s t h e = cc
Reachable-Own (subscribed {m} v j t' s' r) u k s t h e =
    subscribe_cases (λ x. subscriber x.0 u k s t ≡ some h → h ≡ s) m v j t' s'
      (λ _ m' q e'.
        own_if (same_place v u j k s' s t' t) s' s h (subscriber m u k s t)
          (sym (
              subscriber-same (add_subscriber m v j s' t') m' u k s t q
              ∙ subscriber-add_subscriber m v u j k s' s t' t)
            ∙ e')
          (λ p. ground (arith, ==_iff s' s)) (Reachable-Own r u k s t h))
      (λ _. Reachable-Own r u k s t h) e
Reachable-Own (unsubscribed {m} v j t' s' r) u k s t h e =
    unsubscribe_cases (λ x. subscriber x.0 u k s t ≡ some h → h ≡ s) m v j t' s'
      (λ _. Reachable-Own r u k s t h)
      (λ _ e'. Reachable-Own r u k s t h (
        kept_if (same_place v u j k s' s t' t) h (subscriber m u k s t)
          (sym (subscriber-without m v u j k s' s t' t) ∙ e')))
      e
Reachable-Own (committed {m} alive q r) u k s t h e = Reachable-Own r u k s t h (
    sym (
      subscriber-same m (inspect_commit alive m q).0 u k s t (inspect_commit-subscribers alive m q))
    ∙ e)
Reachable-Own (purged {m} alive r) u k s t h e = Reachable-Own r u k s t h (
    bind-keep alive (subscriber m u k s t) h
      (sym (subscriber-purge alive m u k s t (Reachable-IsOrdered r)) ∙ e))

-- In a state that is reached from the start, a purge drops the subscriptions of the sessions that
-- are gone, and keeps every other.
pub purge_closed_sessions_lem :
    {m : Subscriptions} (alive : ℕ → Bool) (u k : Bytes) (s t : ℕ)
    → Reachable m
    → subscriber (purge_closed_sessions alive m) u k s t
      ≡ (if alive s then subscriber m u k s t else none)
purge_closed_sessions_lem {m} alive u k s t r =
    subscriber-purge alive m u k s t (Reachable-IsOrdered r)
    ∙ go (subscriber m u k s t) (Reachable-Own r u k s t)
  where
    go :
        (o : Option ℕ)
        → ((h : ℕ) → o ≡ some h → h ≡ s)
        → bind o (keep alive) ≡ (if alive s then o else none)
    go none p = ground arith
    go (some h) p = rw (p h refl)

same_place_self : (u k : Bytes) (s t : ℕ) → same_place u u k k s s t t ≡ true
unfolding same_place
same_place_self u k s t = ground (arith, bytes_eq_iff u u, bytes_eq_iff k k, ==_iff s s, ==_iff t t)

present-some :
    (o : Option ℕ) (s : ℕ) → present o ≡ true → ((h : ℕ) → o ≡ some h → h ≡ s) → o ≡ some s
present-some none s p q = absurd (false-ne-true p)
present-some (some h) s p q = ap some (q h refl)

-- In a state that is reached from the start, when a session subscribes to a key of a database and
-- still exists when a request that creates, updates or deletes a record of that key is committed,
-- it is sent the notification, with the transaction of its subscription and the next sequence
-- number of the key.
pub subscribe_then_commit :
    {m : Subscriptions} (alive : ℕ → Bool) (r : Request) (k v : Bytes) (upd : Bool) (s t : ℕ)
    → Reachable m
    → change_of r.msg ≡ some (upd, k, v)
    → alive s ≡ true
    → let m' = (subscribe m r.header.db_uuid k t s).0 in
      Memᴰ
        (Event.notification s (notice r.header.db_uuid k v upd (next_seq m' r.header.db_uuid k) t))
        (inspect_commit alive m' r).1
subscribe_then_commit {m} alive r k v upd s t reached c a =
    inspect_commit-Mem alive (subscribe m r.header.db_uuid k t s).0 r k v upd s t s c held a
  where
    there :
        present (subscriber (subscribe m r.header.db_uuid k t s).0 r.header.db_uuid k s t) ≡ true
    there =
        (subscribe_lem m r.header.db_uuid k t s).0 r.header.db_uuid k s t
        ∙ ground (arith, same_place_self r.header.db_uuid k s t)

    held : subscriber (subscribe m r.header.db_uuid k t s).0 r.header.db_uuid k s t ≡ some s
    held =
        present-some _ s there
          (Reachable-Own (subscribed r.header.db_uuid k t s reached) r.header.db_uuid k s t)

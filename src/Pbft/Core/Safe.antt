-- ===== src/Pbft/Core/Safe.antt =====
-- The invariant of a node: what it holds and has sent agrees with the preprepares that it accepted.
use bluzelle.Base.{
  ℕ, ◌≡◌, refl, subst, Bool, true, false, List, [], ◌∷◌, ◌++◌, Option, some, All, if◌then◌else◌,
  Option-cases, inl, inr, false-ne-true,
}
use mathlib.Core.Option.{some-injective}
use bluzelle.Bytes.{Bytes}
use bluzelle.Bytes.Order.{bytes_ordered, number_ordered}
use bluzelle.Map.{Map, lookup}
use bluzelle.Map.Laws.{lookup-insert}
use bluzelle.Pbft.Operation.{
  MsgType, Operation, construct, is_preprepared, is_prepared, is_committed,
}
use bluzelle.Pbft.Operation.Stages.{World, Reachable, constructed}
use bluzelle.Pbft.Manager.{
  OperationKey, operation_key_ordered, get_operation_key, find_or_construct, update_operation,
}
use bluzelle.Pbft.Manager.Holding.{IsKeyed, insert-IsKeyed}
use bluzelle.Pbft.Messages.{
  PbftMsg, Effect, broadcast, audit_commit, audit_failure, apply_operation, forward, error_response,
  primary_status, send_state, set_service_state, relay,
}
use bluzelle.Pbft.Core.{LogKey, log_key_ordered, msg_key}

-- The preprepare with this key is the one that was accepted for its view and sequence number.
abbrev pub Accepted : Map LogKey OperationKey → OperationKey → Type 0
Accepted accepted k = lookup (k.0, k.1.0) accepted ≡ some k

abbrev pub Keeps : Map LogKey OperationKey → Map LogKey OperationKey → Type 0
Keeps a b = (k : OperationKey) → Accepted a k → Accepted b k

module _ {D C : Type 0} (parse_db : Bytes → D × Bool) (parse_config : Bytes → C × Bool)
    (w : World) where
  pub record Settled (accepted : Map LogKey OperationKey) (o : Operation D C) : Type 0 where
    pub reachable : Reachable parse_db parse_config w o
    pub accepted_first : is_preprepared o ≡ true → Accepted accepted (get_operation_key o)

  -- An operation that this node had brought to a stage.
  abbrev pub HasPrepared : OperationKey → Type 0
  HasPrepared k =
      (o : Operation D C) × Reachable parse_db parse_config w o
      × (is_prepared o ≡ true)
      × (get_operation_key o ≡ k)

  abbrev pub HasCommitted : ℕ → ℕ → Type 0
  HasCommitted view sequence =
      (o : Operation D C) × Reachable parse_db parse_config w o
      × (is_committed o ≡ true)
      × (o.view ≡ view)
      × (o.sequence ≡ sequence)

  abbrev pub Vote : Map LogKey OperationKey → PbftMsg → MsgType → Type 0
  Vote accepted m MsgType.prepare = Accepted accepted (msg_key m)
  Vote accepted m MsgType.commit = Accepted accepted (msg_key m) × HasPrepared (msg_key m)
  Vote accepted m _ = Unit {0}

  -- What a node may send: prepares and commits for what it accepted, commits for what it prepared,
  -- and to its service what it committed.
  abbrev pub Justified : Map LogKey OperationKey → Effect D C → Type 0
  Justified accepted (broadcast m requests) = Vote accepted m m.type
  Justified accepted (apply_operation o session) = HasCommitted o.view o.sequence
  Justified accepted _ = Unit {0}

  -- The operations that are held, the accepted preprepares, and what was sent.
  pub record IsSafe (held : Map OperationKey (Operation D C)) (accepted : Map LogKey OperationKey)
      (sent : List (Effect D C)) : Type 0 where
    pub keyed : IsKeyed held
    pub settled :
        (k : OperationKey) (o : Operation D C) → lookup k held ≡ some o → Settled accepted o
    pub matching :
        (k : LogKey) (v : OperationKey) → lookup k accepted ≡ some v → (v.0 ≡ k.0) × (v.1.0 ≡ k.1)
    pub justified : All (Justified accepted) sent

  Vote-Keeps :
      (a b : Map LogKey OperationKey) (m : PbftMsg) (t : MsgType)
      → Keeps a b
      → Vote a m t
      → Vote b m t
  Vote-Keeps a b m MsgType.prepare h v = h (msg_key m) v
  Vote-Keeps a b m MsgType.commit h (v, p) = (h (msg_key m) v, p)
  Vote-Keeps a b m MsgType.preprepare h v = tt
  Vote-Keeps a b m MsgType.viewchange h v = tt
  Vote-Keeps a b m MsgType.newview h v = tt
  Vote-Keeps a b m MsgType.undefined h v = tt

  Justified-Keeps :
      (a b : Map LogKey OperationKey) (e : Effect D C) → Keeps a b → Justified a e → Justified b e
  Justified-Keeps a b (broadcast m requests) h j = Vote-Keeps a b m m.type h j
  Justified-Keeps a b (apply_operation o session) h j = j
  Justified-Keeps a b (audit_commit x y) h j = tt
  Justified-Keeps a b audit_failure h j = tt
  Justified-Keeps a b (forward x y) h j = tt
  Justified-Keeps a b (error_response x y z) h j = tt
  Justified-Keeps a b (primary_status x y) h j = tt
  Justified-Keeps a b (send_state x y) h j = tt
  Justified-Keeps a b (set_service_state x y) h j = tt
  Justified-Keeps a b (relay x y) h j = tt

  All-Keeps :
      (a b : Map LogKey OperationKey) (sent : List (Effect D C))
      → Keeps a b
      → All (Justified a) sent
      → All (Justified b) sent
  All-Keeps a b [] h j = tt
  All-Keeps a b (e ∷ es) h j = (Justified-Keeps a b e h j.0, All-Keeps a b es h j.1)

  All-snoc :
      (a : Map LogKey OperationKey) (sent : List (Effect D C)) (e : Effect D C)
      → All (Justified a) sent
      → Justified a e
      → All (Justified a) (sent ++ e ∷ [])
  All-snoc a [] e h j = (j, tt)
  All-snoc a (x ∷ xs) e h j = (h.0, All-snoc a xs e h.1 j)

  pub send-IsSafe :
      (held : Map OperationKey (Operation D C)) (a : Map LogKey OperationKey)
      (sent : List (Effect D C)) (e : Effect D C)
      → IsSafe held a sent
      → Justified a e
      → IsSafe held a (sent ++ e ∷ [])
  send-IsSafe held a sent e h j = record {
    keyed = h.keyed;
    settled = h.settled;
    matching = h.matching;
    justified = All-snoc a sent e h.justified j;
  }

  -- The invariant for more accepted preprepares.
  pub IsSafe-Keeps :
      (held : Map OperationKey (Operation D C)) (a b : Map LogKey OperationKey)
      (sent : List (Effect D C))
      → IsSafe held a sent
      → Keeps a b
      → ((k : LogKey) (v : OperationKey) → lookup k b ≡ some v → (v.0 ≡ k.0) × (v.1.0 ≡ k.1))
      → IsSafe held b sent
  IsSafe-Keeps held a b sent h k m = record {
    keyed = h.keyed;
    settled = λ j o e.
        let s = h.settled j o e in
        record {
          reachable = s.reachable;
          accepted_first = λ p. k (get_operation_key o) (s.accepted_first p);
        };
    matching = m;
    justified = All-Keeps a b sent k h.justified;
  }

  if-Settled :
      (a : Map LogKey OperationKey) (b : Bool) (o x : Operation D C)
      (other : Option (Operation D C))
      → (if b then some o else other) ≡ some x
      → Settled a o
      → (other ≡ some x → Settled a x)
      → Settled a x
  if-Settled a true o x other e p q = subst (Settled a) (some-injective o x e) p
  if-Settled a false o x other e p q = q e

  pub update_operation-IsSafe :
      (held : Map OperationKey (Operation D C)) (a : Map LogKey OperationKey)
      (sent : List (Effect D C)) (o : Operation D C)
      → IsSafe held a sent
      → Settled a o
      → IsSafe (update_operation held o) a sent
  unfolding update_operation
  update_operation-IsSafe held a sent o h s = record {
    keyed = insert-IsKeyed held (get_operation_key o) o h.keyed refl;
    settled = λ k x e.
        if-Settled a (operation_key_ordered.eq (get_operation_key o) k) o x (lookup k held)
          (rw lookup-insert at e) s (h.settled k x);
    matching = h.matching;
    justified = h.justified;
  }

  -- What `find_or_construct` leaves, and the operation that it returns.
  pub record Found (a : Map LogKey OperationKey) (sent : List (Effect D C)) (k : OperationKey)
      (r : Map OperationKey (Operation D C) × Operation D C) : Type 0 where
    pub safe : IsSafe r.0 a sent
    pub settled : Settled a r.1
    pub key : get_operation_key r.1 ≡ k

  pub find_or_construct-IsSafe :
      (d : D) (c : C) (held : Map OperationKey (Operation D C)) (a : Map LogKey OperationKey)
      (sent : List (Effect D C)) (k : OperationKey)
      → IsSafe held a sent
      → Found a sent k (find_or_construct d c held k)
  unfolding find_or_construct construct update_operation
  find_or_construct-IsSafe d c held a sent k h = elim (Option-cases (lookup k held)) [
    | inl e ↦
        rw (find_or_construct, e)
          (record {
            safe = update_operation-IsSafe held a sent fresh h fresh-Settled;
            settled = fresh-Settled;
            key = refl;
          })
    | inr (o, e) ↦
        rw (find_or_construct, e)
          (record { safe = h; settled = h.settled k o e; key = h.keyed.keyed k o e })
  ]
    where
      fresh : Operation D C
      fresh = construct d c k.0 k.1.0 k.1.1

      fresh-Settled : Settled a fresh
      fresh-Settled = record {
        reachable = constructed d c k.0 k.1.0 k.1.1;
        accepted_first = λ e. absurd (false-ne-true e);
      }

-- ===== src/Pbft/Service/Order.antt =====
-- The histories of the queue: operations come in any order, some of them again, and sessions open and
-- close in between.
use bluzelle.Base.{
  ℕ, suc, ◌^◌, ◌≤◌, ◌<◌, ◌≡◌, refl, sym, ap, ◌∙◌, subst, Bool, List, [], ◌∷◌, Option, none, some,
  All-Mem, length, length-append, ltb, arith, Bool-cases, inl, inr, none-ne-some,
}
use mathlib.Core.List.{Memᴰ}
use bluzelle.Bytes.{Bytes, size}
use bluzelle.Storage.{MemStorage, read, max_value_size}
use bluzelle.Pbft.Operation.{Envelope, Operation, get_database_msg}
use bluzelle.Pbft.Service.{
  CrudBase, Wire, Awaited, Service, Outcome, finished, failed, unfinished, apply_operation,
  apply_operation_now, save_service_state_at, new_service,
}
use bluzelle.Pbft.Service.Queue.{
  Executed, nothing, request, snapshot, direct, ReadsBack, at_number, IsKept, Ends,
}
use bluzelle.Pbft.Service.Loop.{IsDrained}
use bluzelle.Pbft.Service.Arrival.{apply_operation-Ends}
use bluzelle.Pbft.Service.Entry.{while, new_service-Ends, apply_operation_now-Ends, while-IsDrained}

module _ {K D C : Type 0} (wire : Wire D) (base : CrudBase K D) where
  -- The states of a service on a storage without records of its own. The list holds the sequence
  -- numbers of the operations that came in.
  pub data Served (start : K) : List ℕ → Service K D C → Type 0 where
    started :
        {s : Service K D C} (uuid : Bytes) (storage : MemStorage)
        → ((key : Bytes) → read storage uuid key ≡ none)
        → new_service wire base uuid storage start ≡ finished s
        → Served start [] s
    applied :
        {asked : List ℕ} {s t : Service K D C} (alive : ℕ → Bool) (o : Operation D C)
        (session : Option ℕ) (d : D)
        → Served start asked s
        → get_database_msg o ≡ some d
        → size (wire.serialize d) ≤ max_value_size
        → o.sequence < 2 ^ 64
        → apply_operation (while wire alive) base (o, session) s ≡ finished t
        → Served start (o.sequence ∷ asked) t
    applied_now :
        {asked : List ℕ} {s t : Service K D C} (alive : ℕ → Bool) (e : Envelope)
        (session : Option ℕ)
        → Served start asked s
        → (apply_operation_now (while wire alive) base e session s).0 ≡ finished t
        → Served start asked t
    marked :
        {asked : List ℕ} {s : Service K D C} (sequence : ℕ)
        → Served start asked s
        → Served start asked (save_service_state_at wire base sequence s)

  Served-IsDrained :
      (start : K) (asked : List ℕ) (s : Service K D C)
      → ReadsBack wire
      → Served start asked s
      → IsDrained wire base start asked s
  unfolding save_service_state_at
  Served-IsDrained start asked s back (started uuid storage empty e) =
      subst (Ends wire base (IsDrained wire base start [])) e
        (new_service-Ends C wire base uuid storage start empty)
  Served-IsDrained start asked s back
        (applied {asked = before} {s = r} alive o session d h g fits small e) =
      while-IsDrained wire base alive wire.is_open start asked s (
        subst (Ends (while wire alive) base (IsDrained (while wire alive) base start asked)) e (
          apply_operation-Ends (while wire alive) base start before o session d r back
            (while-IsDrained wire base wire.is_open alive start before r
              (Served-IsDrained start before r back h))
            g fits small))
  Served-IsDrained start asked s back (applied_now {s = r} alive e session h f) =
      while-IsDrained wire base alive wire.is_open start asked s (
        subst (Ends (while wire alive) base (IsDrained (while wire alive) base start asked)) f (
          apply_operation_now-Ends (while wire alive) base start asked e session r (
            while-IsDrained wire base wire.is_open alive start asked r
              (Served-IsDrained start asked r back h))))
  Served-IsDrained start asked s back (marked {s = r} sequence h) =
      let (n, q, idle) = Served-IsDrained start asked r back h in
      (n, record { executed = q.executed; next = q.next; known = q.known; kept = q.kept }, idle)

  Executed-length :
      (start : K) (n : ℕ) (ops : List (Awaited D C)) (k : K)
      → Executed base wire.set_request_hash wire.is_direct start n ops k
      → length ops ≡ n
  Executed-length start n ops k nothing = refl
  Executed-length start n ops k (request {n = m} {ops = before} {k = j} o session shown e h p q r) =
      let rest = Executed-length start m before j h in
      omega (arith, length-append before ((o, session) ∷ []), rest)
  Executed-length start n ops k (snapshot {k = j} h) = Executed-length start n ops j h
  Executed-length start n ops k (direct {k = j} sender msg session d h) =
      Executed-length start n ops j h

  -- If protobuf reads back what it wrote, then in every state that a service on an empty storage
  -- reaches, by operations that come in with any sequence numbers in any order, by messages that go
  -- past the queue, and by marks for checkpoints: the state of crud comes from its first one by the
  -- requests of the executed operations with their hashes, which are all those with the sequence
  -- numbers from 1 up to their count (modulo 2^64), in this order and each once, and between them
  -- only by saving its state and by messages that go past the queue.
  pub executed_in_order :
      {start : K} {asked : List ℕ} {s : Service K D C}
      → ReadsBack wire
      → Served start asked s
      → Executed base wire.set_request_hash wire.is_direct start
          (length s.executed)
          s.executed
          s.crud
  executed_in_order {start} {asked} {s} back h =
      let (n, q, idle) = Served-IsDrained start asked s back h in
      subst (λ m. Executed base wire.set_request_hash wire.is_direct start m s.executed s.crud)
        (sym (Executed-length start n s.executed s.crud q.executed)) q.executed

  -- If protobuf reads back what it wrote, then in every state that a service on an empty storage
  -- reaches, where operations for all the sequence numbers from 1 up to a given one have come in,
  -- in any order, at least that many are executed.
  pub executed_all :
      {start : K} {asked : List ℕ} {s : Service K D C} (m : ℕ)
      → ReadsBack wire
      → Served start asked s
      → ((k : ℕ) → 1 ≤ k → k ≤ m → Memᴰ k asked)
      → m ≤ length s.executed
  executed_all {start} {asked} {s} m back h all =
      let (n, q, idle) = Served-IsDrained start asked s back h in
      let counted = Executed-length start n s.executed s.crud q.executed in
      elim (Bool-cases (ltb n m)) [
        | inr z ↦ ground (arith, counted, z)
        | inl z ↦
            let (small, kept) =
              All-Mem (IsKept n s) (suc n) asked q.kept
                (all (suc n) (omega arith) (ground (arith, z))) in
            let next : s.next_request_sequence ≡ suc n = omega (arith, q.next, small) in
            elim kept [
              | inl (v, e) ↦ absurd (none-ne-some (sym idle ∙ ap (at_number s) next ∙ e))
              | inr le ↦ absurd (omega (arith, le))
            ]
      ]

  -- If protobuf reads back what it wrote, then in every state that a service on an empty storage
  -- reaches, an operation with a request that is not too large for the storage either is taken in,
  -- and the call ends in a state where nothing is stored for the next sequence number, or crud has
  -- thrown an exception; the loop never runs out of rounds.
  pub apply_operation-Served :
      {start : K} {asked : List ℕ} {s : Service K D C} (alive : ℕ → Bool) (o : Operation D C)
      (session : Option ℕ) (d : D)
      → ReadsBack wire
      → Served start asked s
      → get_database_msg o ≡ some d
      → size (wire.serialize d) ≤ max_value_size
      → o.sequence < 2 ^ 64
      → Ends wire base
          (λ t. Served start (o.sequence ∷ asked) t × (at_number t t.next_request_sequence ≡ none))
          (apply_operation (while wire alive) base (o, session) s)
  apply_operation-Served {start} {asked} {s} alive o session d back h g fits small =
      go (apply_operation (while wire alive) base (o, session) s) refl (
        apply_operation-Ends (while wire alive) base start asked o session d s back
          (while-IsDrained wire base wire.is_open alive start asked s
            (Served-IsDrained start asked s back h))
          g fits small)
    where
      go :
          (r : Outcome (Service K D C))
          → apply_operation (while wire alive) base (o, session) s ≡ r
          → Ends
              (while wire alive)
              base
              (IsDrained (while wire alive) base start (o.sequence ∷ asked))
              r
          → Ends wire base
              (λ t.
                Served start (o.sequence ∷ asked) t × (at_number t t.next_request_sequence ≡ none))
              r
      go (finished t) e (n, q, idle) = (applied alive o session d h g fits small e, idle)
      go (failed x t) e k = k
      go (unfinished t) e k = k

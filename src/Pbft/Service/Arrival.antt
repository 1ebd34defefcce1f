-- ===== src/Pbft/Service/Arrival.antt =====
-- What becomes of an operation that comes in: it is stored, or it was stored before, and then the loop
-- takes its course.
use bluzelle.Base.{
  ℕ, zero, suc, ◌^◌, ◌≤◌, ◌<◌, ◌≡◌, refl, sym, ap, ◌∙◌, true, false, List, [], ◌∷◌, Option, none,
  some, All-map, ltb, if◌then◌else◌, arith, Bool-cases, Option-cases, inl, inr, none-ne-some,
}
use mathlib.Core.Option.{some-injective}
use bluzelle.Bytes.{Bytes, size, bytes_eq}
use bluzelle.Bytes.Order.{bytes_eq_iff, number_ordered}
use bluzelle.Map.{insert}
use bluzelle.Map.Laws.{lookup-insert}
use bluzelle.Storage.{StorageResult, ok, exists, create, max_value_size, max_key_size}
use bluzelle.Storage.Lookup.{read-create, create_result}
use bluzelle.Pbft.Operation.{Envelope, Operation, get_database_msg, has_db_request, holds_database}
use bluzelle.Pbft.Service.{to_string, CrudBase, Wire, Service, apply_operation}
use bluzelle.Pbft.Service.Keys.{to_string_injective, length-to_string}
use bluzelle.Pbft.Service.Queue.{ReadsBack, Known, at_number, IsKept, IsQueued, Ends}
use bluzelle.Pbft.Service.Loop.{self, IsDrained, process_awaiting_operations-Ends}

requested :
    {D C : Type 0} (o : Operation D C) (d : D)
    → get_database_msg o ≡ some d
    → (o.parsed_db ≡ d) × ((e : Envelope) × (o.request ≡ some e))
unfolding get_database_msg has_db_request
requested o d h = elim (Option-cases o.request) [
  | inl e ↦
      absurd
        (none-ne-some (sym (ap (λ r. if holds_database r then some o.parsed_db else none) e) ∙ h))
  | inr (env, e) ↦ elim (Bool-cases (holds_database o.request)) [
    | inl z ↦ (
      some-injective o.parsed_db d (sym (ap (λ b. if b then some o.parsed_db else none) z) ∙ h),
      (env, e),
    )
    | inr z ↦ absurd (none-ne-some (sym (ap (λ b. if b then some o.parsed_db else none) z) ∙ h))
  ]
]

module _ {K D C : Type 0} (wire : Wire D) (base : CrudBase K D) where
  -- The service as it is before the loop of `apply_operation`.
  abbrev queued : Operation D C → Option ℕ → D → Service K D C → Service K D C
  queued o session d s = record s {
    unstable_storage =
        (create s.unstable_storage s.uuid (to_string o.sequence) (wire.serialize d)).0;
    operations_awaiting_result = insert o.sequence (o, session) s.operations_awaiting_result;
  }

  at_number-queued :
      (o : Operation D C) (session : Option ℕ) (d : D) (s : Service K D C) (n : ℕ)
      → (create s.unstable_storage s.uuid (to_string o.sequence) (wire.serialize d)).1 ≡ ok
      → at_number (queued o session d s) n ≡ (
          if bytes_eq (to_string o.sequence) (to_string n)
          then some (wire.serialize d)
          else at_number s n)
  at_number-queued o session d s n e =
      read-create s.unstable_storage s.uuid (to_string o.sequence) (wire.serialize d) s.uuid
        (to_string n)
      ∙ rw (e, self s.uuid) refl

  Known-queued :
      (o : Operation D C) (session : Option ℕ) (d : D) (s : Service K D C) (n : ℕ) (v : Bytes)
      → (create s.unstable_storage s.uuid (to_string o.sequence) (wire.serialize d)).1 ≡ ok
      → get_database_msg o ≡ some d
      → o.sequence < 2 ^ 64
      → n < 2 ^ 64
      → (at_number s n ≡ some v → Known wire base s.operations_awaiting_result n v)
      → at_number (queued o session d s) n ≡ some v
      → Known wire base (insert o.sequence (o, session) s.operations_awaiting_result) n v
  Known-queued o session d s n v e g small small' h f =
      elim (Bool-cases (bytes_eq (to_string o.sequence) (to_string n))) [
        | inl z ↦
            let same : o.sequence ≡ n =
              to_string_injective o.sequence n small small'
                ((bytes_eq_iff (to_string o.sequence) (to_string n)).0 z) in
            let (parsed, (env, r)) = requested o d g in
            record {
              operation = (o, session);
              envelope = env;
              found =
                  lookup-insert o.sequence n (o, session) s.operations_awaiting_result
                  ∙ rw ((number_ordered.eq_iff o.sequence n).1 same) refl;
              sequence = same;
              request = r;
              stored =
                  sym (
                    some-injective (wire.serialize d) v
                      (sym (at_number-queued o session d s n e ∙ rw z refl) ∙ f))
                  ∙ ap wire.serialize (sym parsed);
            }
        | inr z ↦
            let k = h (sym (at_number-queued o session d s n e ∙ rw z refl) ∙ f) in
            let other : (bluzelle.Base.◌==◌ o.sequence n) ≡ false =
              elim (Bool-cases (bluzelle.Base.◌==◌ o.sequence n)) [
                | inl y ↦ absurd (
                    cc (
                      sym z
                      ∙ (bytes_eq_iff (to_string o.sequence) (to_string n)).1
                          (ap to_string ((number_ordered.eq_iff o.sequence n).0 y))))
                | inr y ↦ y
              ] in
            record {
              operation = k.operation;
              envelope = k.envelope;
              found =
                  lookup-insert o.sequence n (o, session) s.operations_awaiting_result
                  ∙ rw other k.found;
              sequence = k.sequence;
              request = k.request;
              stored = k.stored;
            }
      ]

  stored_result :
      (s : Service K D C) (o : Operation D C) (d : D)
      → size (wire.serialize d) ≤ max_value_size
      → (create s.unstable_storage s.uuid (to_string o.sequence) (wire.serialize d)).1
        ≡ elim (at_number s o.sequence) as (λ _. StorageResult) [ none ↦ ok | some _ ↦ exists ]
  stored_result s o d fits =
      let value : ltb max_value_size (size (wire.serialize d)) ≡ false = ground (arith, fits) in
      let key : ltb max_key_size (size (to_string o.sequence)) ≡ false =
        ground (arith, length-to_string o.sequence) in
      create_result s.unstable_storage s.uuid (to_string o.sequence) (wire.serialize d)
      ∙ rw (value, key) refl

  IsKept-queued :
      (o : Operation D C) (session : Option ℕ) (d : D) (s : Service K D C) (n i : ℕ)
      → (create s.unstable_storage s.uuid (to_string o.sequence) (wire.serialize d)).1 ≡ ok
      → IsKept n s i
      → IsKept n (queued o session d s) i
  IsKept-queued o session d s n i e (small, inr le) = (small, inr le)
  IsKept-queued o session d s n i e (small, inl (w, f)) =
      elim (Bool-cases (bytes_eq (to_string o.sequence) (to_string i))) [
        | inl z ↦ (small, inl (wire.serialize d, at_number-queued o session d s i e ∙ rw z refl))
        | inr z ↦ (small, inl (w, at_number-queued o session d s i e ∙ rw z f))
      ]

  queued-IsQueued :
      (start : K) (n : ℕ) (asked : List ℕ) (o : Operation D C) (session : Option ℕ) (d : D)
      (s : Service K D C)
      → IsQueued wire base start n asked s
      → get_database_msg o ≡ some d
      → o.sequence < 2 ^ 64
      → (create s.unstable_storage s.uuid (to_string o.sequence) (wire.serialize d)).1 ≡ ok
      → IsQueued wire base start n (o.sequence ∷ asked) (queued o session d s)
  queued-IsQueued start n asked o session d s q g small e = record {
    executed = q.executed;
    next = q.next;
    known = λ k v small' f. Known-queued o session d s k v e g small small' (q.known k v small') f;
    kept = (
      (
        small,
        inl (
          wire.serialize d,
          at_number-queued o session d s o.sequence e ∙ rw (self (to_string o.sequence)) refl,
        ),
      ),
      All-map (IsKept n s) (IsKept n (queued o session d s)) asked
          (λ i h. IsKept-queued o session d s n i e h) q.kept,
    );
  }

  pub apply_operation-Ends :
      (start : K) (asked : List ℕ) (o : Operation D C) (session : Option ℕ) (d : D)
      (s : Service K D C)
      → ReadsBack wire
      → IsDrained wire base start asked s
      → get_database_msg o ≡ some d
      → size (wire.serialize d) ≤ max_value_size
      → o.sequence < 2 ^ 64
      → Ends wire base
          (IsDrained wire base start (o.sequence ∷ asked))
          (apply_operation wire base (o, session) s)
  unfolding apply_operation
  apply_operation-Ends start asked o session d s back (n, q, idle) g fits small =
      elim (Option-cases (at_number s o.sequence)) [
        | inl e ↦
            let created : (create s.unstable_storage s.uuid (to_string o.sequence)
                  (wire.serialize d)).1
                ≡ ok =
              stored_result s o d fits ∙ rw e refl in
            rw (apply_operation, g, created)
              (process_awaiting_operations-Ends wire base start n (o.sequence ∷ asked)
                (queued o session d s) back
                (queued-IsQueued start n asked o session d s q g small created))
        | inr (w, e) ↦
            let there : (create s.unstable_storage s.uuid (to_string o.sequence)
                  (wire.serialize d)).1
                ≡ exists =
              stored_result s o d fits ∙ rw e refl in
            rw (apply_operation, g, there)
              (
                n,
                record {
                  executed = q.executed;
                  next = q.next;
                  known = q.known;
                  kept = ((small, inl (w, e)), q.kept);
                },
                idle,
              )
      ]

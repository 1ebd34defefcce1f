-- ===== src/Pbft/Service/Entry.antt =====
-- The other calls of the service: the start, and the messages that go past the queue.
use bluzelle.Base.{
  ℕ, ◌≡◌, refl, sym, ◌∙◌, Bool, false, List, [], Option, none, ltb, arith, Bool-cases, inl, inr,
  none-ne-some,
}
use bluzelle.Bytes.{Bytes, size}
use bluzelle.Storage.{MemStorage, ok, read, create, max_value_size}
use bluzelle.Storage.Lookup.{read-create, create_result}
use bluzelle.Pbft.Operation.{Payload, Envelope}
use bluzelle.Pbft.Service.{
  to_string, next_request_sequence_key, CrudBase, Wire, Service, apply_operation_now, new_service,
  load_next_request_sequence,
}
use bluzelle.Pbft.Service.Keys.{length-to_string}
use bluzelle.Pbft.Service.Queue.{nothing, direct, Ends}
use bluzelle.Pbft.Service.Loop.{self, not_number, IsDrained}

-- The wire while these sessions are open.
abbrev pub while : {D : Type 0} → Wire D → (ℕ → Bool) → Wire D
while wire alive = record wire { is_open = alive }

module _ {K D : Type 0} (C : Type 0) (wire : Wire D) (base : CrudBase K D) where
  pub new_service-Ends :
      (uuid : Bytes) (storage : MemStorage) (start : K)
      → ((key : Bytes) → read storage uuid key ≡ none)
      → Ends wire base
          (IsDrained {C = C} wire base start [])
          (new_service wire base uuid storage start)
  unfolding new_service load_next_request_sequence
  new_service-Ends uuid storage start empty =
      let r = create storage uuid next_request_sequence_key (to_string 1) in
      let value : ltb max_value_size (size (to_string 1)) ≡ false =
        ground (arith, length-to_string 1) in
      let made : r.1 ≡ ok =
        create_result storage uuid next_request_sequence_key (to_string 1)
        ∙ rw (value, empty next_request_sequence_key) refl in
      let still : (n : ℕ) → read r.0 uuid (to_string n) ≡ none = λ n.
        read-create storage uuid next_request_sequence_key (to_string 1) uuid (to_string n)
        ∙ rw (made, not_number n, self uuid) (empty (to_string n)) in
      rw (new_service, load_next_request_sequence, empty next_request_sequence_key, made)
        (
          0,
          record {
            executed = nothing;
            next = omega arith;
            known = λ k v small f. absurd (none-ne-some (sym (still k) ∙ f));
            kept = tt;
          },
          still 1,
        )

module _ {K D C : Type 0} (wire : Wire D) (base : CrudBase K D) where
  pub apply_operation_now-Ends :
      (start : K) (asked : List ℕ) (e : Envelope) (session : Option ℕ) (s : Service K D C)
      → IsDrained wire base start asked s
      → Ends wire base
          (IsDrained wire base start asked)
          (apply_operation_now wire base e session s).0
  unfolding apply_operation_now
  apply_operation_now-Ends start asked e session s (n, q, idle) =
      let text = elim e.payload as (λ _. Bytes) [ Payload.database_msg t ↦ t | _ ↦ [] ] in
      let msg = (wire.parse_db text).0 in
      elim (Bool-cases (wire.parse_db text).1) [
        | inr z ↦ rw (apply_operation_now, z) (n, q, idle)
        | inl z ↦ elim (Bool-cases (wire.is_direct msg)) [
          | inr y ↦ rw (apply_operation_now, z, y) (n, q, idle)
          | inl y ↦ elim (Bool-cases (base.handle_request e.sender msg session s.crud).1) [
            | inr x ↦ rw (apply_operation_now, z, y, x) refl
            | inl x ↦
                rw (apply_operation_now, z, y, x)
                  (
                    n,
                    record {
                      executed = direct e.sender msg session y q.executed;
                      next = q.next;
                      known = q.known;
                      kept = q.kept;
                    },
                    idle,
                  )
          ]
        ]
      ]

  pub while-IsDrained :
      (alive still_alive : ℕ → Bool) (start : K) (asked : List ℕ) (s : Service K D C)
      → IsDrained (while wire alive) base start asked s
      → IsDrained (while wire still_alive) base start asked s
  while-IsDrained alive still_alive start asked s (n, q, idle) = (
    n,
    record {
      executed = q.executed;
      next = q.next;
      known = λ k v small f.
          let h = q.known k v small f in
          record {
            operation = h.operation;
            envelope = h.envelope;
            found = h.found;
            sequence = h.sequence;
            request = h.request;
            stored = h.stored;
          };
      kept = q.kept;
    },
    idle,
  )

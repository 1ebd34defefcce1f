-- ===== src/Pbft/Service/Loop.antt =====
-- The loop of `process_awaiting_operations`: each round keeps the invariant of the queue and takes one
-- request from the storage, so the loop ends.
use bluzelle.Base.{
  ℕ, zero, suc, ◌+◌, ◌%◌, ◌^◌, ◌<◌, ◌≡◌, ◌⊎◌, refl, sym, ap, ◌∙◌, Bool, true, false, not, List, [],
  ◌∷◌, ◌++◌, Option, none, some, All-map, if◌then◌else◌, arith, Bool-cases, Option-cases, inl, inr,
  none-ne-some,
}
use bluzelle.Bytes.{Bytes, bytes_eq}
use bluzelle.Bytes.Order.{bytes_eq_iff}
use bluzelle.Storage.{MemStorage, StorageResult, ok, read, update, remove}
use bluzelle.Storage.Lookup.{read-update, read-remove, has-read, at}
use bluzelle.Pbft.Service.{
  to_string, next_request_sequence_key, CrudBase, Wire, Awaited, Service, Outcome, finished, failed,
  unfinished, open_session, then_do, process_one, process, backlog, process_awaiting_operations,
  save_next_request_sequence, is_due,
}
use bluzelle.Pbft.Service.Keys.{to_string_injective, to_string_other}
use bluzelle.Pbft.Service.Backlog.{waiting-remove, waiting-save, is_request_key}
use bluzelle.Pbft.Service.Queue.{
  Executed, request, snapshot, ReadsBack, Known, at_number, IsKept, IsQueued, Ends, given, handled,
  advanced, process_one-Ends, removed,
}

-- What a write changes, where the result does not matter.
either :
    {A : Type 0} (r : StorageResult) (b : Bool) (x y : A)
    → b ≡ false
    → elim r as (λ _. A) [ ok ↦ if b then y else x | _ ↦ x ] ≡ x
either ok b x y e = rw e refl
either _ b x y e = refl

not_next : (n : ℕ) → bytes_eq (to_string n) next_request_sequence_key ≡ false
not_next n = elim (Bool-cases (bytes_eq (to_string n) next_request_sequence_key)) [
  | inl z ↦ absurd (to_string_other n ((bytes_eq_iff (to_string n) next_request_sequence_key).0 z))
  | inr z ↦ z
]

pub not_number : (n : ℕ) → bytes_eq next_request_sequence_key (to_string n) ≡ false
not_number n = elim (Bool-cases (bytes_eq next_request_sequence_key (to_string n))) [
  | inl z ↦
      absurd (to_string_other n (sym ((bytes_eq_iff next_request_sequence_key (to_string n)).0 z)))
  | inr z ↦ z
]

pub number-IsRequest : (n : ℕ) → is_request_key (to_string n) ≡ true
number-IsRequest n = ap not (not_next n)

pub self : (u : Bytes) → bytes_eq u u ≡ true
self u = (bytes_eq_iff u u).1 refl

-- The saved sequence number is not among the requests.
pub read-saved :
    (s : MemStorage) (u v : Bytes) (n : ℕ)
    → read (update s u next_request_sequence_key v).0 u (to_string n) ≡ read s u (to_string n)
read-saved s u v n =
    read-update s u next_request_sequence_key v u (to_string n)
    ∙ either (update s u next_request_sequence_key v).1
        (at u next_request_sequence_key u (to_string n)) (read s u (to_string n)) (some v)
        (rw (self u, not_number n) refl)

read-removed :
    (s : MemStorage) (u k v : Bytes) (n : ℕ)
    → read s u k ≡ some v
    → read (remove s u k).0 u (to_string n)
      ≡ (if bytes_eq k (to_string n) then none else read s u (to_string n))
read-removed s u k v n e = read-remove s u k u (to_string n) ∙ rw (removed s u k v e, self u) refl

open_session_cases :
    {D : Type 0} (wire : Wire D) (session : Option ℕ)
    → (open_session wire session ≡ none) ⊎ (open_session wire session ≡ session)
open_session_cases wire none = inl refl
open_session_cases wire (some id) = elim (Bool-cases (wire.is_open id)) [
  | inl z ↦ inr (rw z refl)
  | inr z ↦ inl (rw z refl)
]

module _ {K D C : Type 0} (wire : Wire D) (base : CrudBase K D) where
  if-Executed :
      (start : K) (n : ℕ) (ops : List (Awaited D C)) (k : K) (b : Bool)
      → Executed base wire.set_request_hash wire.is_direct start n ops k
      → Executed base wire.set_request_hash wire.is_direct start n ops
          (if b then (base.save_state k).0 else k)
  if-Executed start n ops k true h = snapshot h
  if-Executed start n ops k false h = h

  at_number-advanced :
      (s : Service K D C) (v : Bytes) (n : ℕ)
      → at_number s s.next_request_sequence ≡ some v
      → at_number (advanced wire base s) n ≡ (
          if bytes_eq (to_string s.next_request_sequence) (to_string n)
          then none
          else at_number s n)
  unfolding save_next_request_sequence
  at_number-advanced s v n e =
      let st = (remove s.unstable_storage s.uuid (to_string s.next_request_sequence)).0 in
      read-saved st s.uuid (to_string ((s.next_request_sequence + 1) % 2 ^ 64)) n
      ∙ read-removed s.unstable_storage s.uuid (to_string s.next_request_sequence) v n e

  IsKept-advanced :
      (s : Service K D C) (v : Bytes) (n i : ℕ)
      → s.next_request_sequence ≡ (n + 1) % 2 ^ 64
      → at_number s s.next_request_sequence ≡ some v
      → IsKept n s i
      → IsKept (suc n) (advanced wire base s) i
  IsKept-advanced s v n i q e (small, inr le) = (small, inr (omega (arith, le)))
  IsKept-advanced s v n i q e (small, inl (w, f)) =
      elim (Bool-cases (bytes_eq (to_string s.next_request_sequence) (to_string i))) [
        | inl z ↦
            let same : s.next_request_sequence ≡ i =
              to_string_injective s.next_request_sequence i (omega (arith, q)) small
                ((bytes_eq_iff (to_string s.next_request_sequence) (to_string i)).0 z) in
            (small, inr (omega (arith, same, q)))
        | inr z ↦ (small, inl (w, at_number-advanced s v i e ∙ rw z f))
      ]

  Known-advanced :
      (s : Service K D C) (v : Bytes) (i : ℕ) (w : Bytes)
      → at_number s s.next_request_sequence ≡ some v
      → (at_number s i ≡ some w → Known wire base s.operations_awaiting_result i w)
      → at_number (advanced wire base s) i ≡ some w
      → Known wire base s.operations_awaiting_result i w
  Known-advanced s v i w e h f =
      elim (Bool-cases (bytes_eq (to_string s.next_request_sequence) (to_string i))) [
        | inl z ↦ absurd (none-ne-some (sym (at_number-advanced s v i e ∙ rw z refl) ∙ f))
        | inr z ↦ h (sym (at_number-advanced s v i e ∙ rw z refl) ∙ f)
      ]

  round-IsQueued :
      (start : K) (n : ℕ) (asked : List ℕ) (s : Service K D C) (v : Bytes)
      → (q : IsQueued wire base start n asked s) → at_number s s.next_request_sequence ≡ some v
      → (k : Known wire base s.operations_awaiting_result s.next_request_sequence v)
      → IsQueued wire base start
          (suc n)
          asked
          (advanced wire base (handled wire base k.operation k.envelope s))
  unfolding save_next_request_sequence
  round-IsQueued start n asked s v q e k =
      let t = handled wire base k.operation k.envelope s in
      record {
        executed =
            if-Executed start (suc n) (s.executed ++ k.operation ∷ [])
              (given wire base k.operation k.envelope s).0 (is_due wire base s)
              (request k.operation.0 k.operation.1 (open_session wire k.operation.1) k.envelope
                q.executed (k.sequence ∙ q.next) k.request (open_session_cases wire k.operation.1));
        next = omega (arith, q.next);
        known = λ i w small f. Known-advanced t v i w e (q.known i w small) f;
        kept =
            All-map (IsKept n s) (IsKept (suc n) (advanced wire base t)) asked
              (λ i h. IsKept-advanced t v n i q.next e h) q.kept;
      }

  backlog-advanced :
      (s : Service K D C) (v : Bytes)
      → at_number s s.next_request_sequence ≡ some v
      → backlog wire base (advanced wire base s) < backlog wire base s
  unfolding backlog save_next_request_sequence
  backlog-advanced s v e =
      let k = to_string s.next_request_sequence in
      let fewer =
        waiting-remove s.unstable_storage s.uuid k (number-IsRequest s.next_request_sequence)
          (removed s.unstable_storage s.uuid k v e) in
      let same =
        waiting-save (remove s.unstable_storage s.uuid k).0 s.uuid
          (to_string ((s.next_request_sequence + 1) % 2 ^ 64)) in
      omega (arith, fewer, same)

  Ends-then :
      (P Q : Service K D C → Type 0) (r : Outcome (Service K D C))
      (f : Service K D C → Outcome (Service K D C))
      → Ends wire base P r
      → ((s : Service K D C) → P s → Ends wire base Q (f s))
      → Ends wire base Q (then_do r f)
  Ends-then P Q (finished s) f h g = g s h
  Ends-then P Q (failed e s) f h g = h
  Ends-then P Q (unfinished s) f h g = h

  -- Nothing is stored for the next number.
  abbrev pub IsDrained : K → List ℕ → Service K D C → Type 0
  IsDrained start asked s =
      (n : ℕ) × IsQueued wire base start n asked s × (at_number s s.next_request_sequence ≡ none)

  abbrev IsShorter : K → List ℕ → Service K D C → Service K D C → Type 0
  IsShorter start asked s t =
      (n : ℕ) × IsQueued wire base start n asked t × (backlog wire base t < backlog wire base s)

  process-Ends :
      (fuel : ℕ) (start : K) (n : ℕ) (asked : List ℕ) (s : Service K D C)
      → ReadsBack wire
      → IsQueued wire base start n asked s
      → backlog wire base s < fuel
      → Ends wire base (IsDrained start asked) (process wire base fuel s)
  unfolding process backlog
  process-Ends zero start n asked s back q h = absurd (omega (arith, h))
  process-Ends (suc fuel) start n asked s back q h =
      let st = s.unstable_storage in
      let key = to_string s.next_request_sequence in
      elim (Option-cases (at_number s s.next_request_sequence)) [
        | inl e ↦ rw (process, has-read st s.uuid key, e) (n, q, e)
        | inr (v, e) ↦
            let k = q.known s.next_request_sequence v (omega (arith, q.next)) e in
            rw (process, has-read st s.uuid key, e)
              (Ends-then (IsShorter start asked s) (IsDrained start asked) (process_one wire base s)
                (process wire base fuel)
                (process_one-Ends wire base (IsShorter start asked s) s v back e k (λ _. (
                  suc n,
                  round-IsQueued start n asked s v q e k,
                  backlog-advanced (handled wire base k.operation k.envelope s) v e,
                )))
                (λ t (m, r, l). process-Ends fuel start m asked t back r (omega (arith, l, h))))
      ]

  pub process_awaiting_operations-Ends :
      (start : K) (n : ℕ) (asked : List ℕ) (s : Service K D C)
      → ReadsBack wire
      → IsQueued wire base start n asked s
      → Ends wire base (IsDrained start asked) (process_awaiting_operations wire base s)
  unfolding process_awaiting_operations
  process_awaiting_operations-Ends start n asked s back q =
      process-Ends (suc (backlog wire base s)) start n asked s back q (omega arith)

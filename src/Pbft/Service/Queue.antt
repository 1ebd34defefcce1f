-- ===== src/Pbft/Service/Queue.antt =====
-- The invariant of the queue: what was executed is an unbroken sequence, and every other operation
-- that came in is stored.
use bluzelle.Base.{
  ℕ, suc, ◌+◌, ◌%◌, ◌^◌, ◌≤◌, ◌<◌, ◌≡◌, ◌⊎◌, refl, ap, ◌∙◌, Bool, true, List, [], ◌∷◌, ◌++◌, Option,
  none, some, All, Bool-cases, inl, inr,
}
use bluzelle.Bytes.{Bytes}
use bluzelle.Bytes.Order.{number_ordered}
use bluzelle.Map.{Map, lookup}
use bluzelle.Storage.{MemStorage, ok, read, remove}
use bluzelle.Storage.Lookup.{remove_result}
use bluzelle.Pbft.Operation.{Envelope, Operation}
use bluzelle.Pbft.Service.{
  to_string, crud_failed, CrudBase, Wire, Awaited, Service, Outcome, finished, failed, unfinished,
  open_session, checkpoint_now, post, key_of, no_request, serve, execute, advance, process_one,
  save_next_request_sequence,
}

module _ {K D C : Type 0} (base : CrudBase K D) (set_request_hash : Bytes → D → D)
    (is_direct : D → Bool) where
  abbrev pub run : Operation D C → Envelope → Option ℕ → K → K × Bool
  run o e shown k =
      base.handle_request e.sender (set_request_hash o.request_hash o.parsed_db) shown k

  -- How crud comes to its state: the requests in the order of their sequence numbers from 1 on, each
  -- once, with the session or without it; between them it may save its state and handle messages
  -- that go past the queue.
  pub data Executed (start : K) : ℕ → List (Awaited D C) → K → Type 0 where
    nothing : Executed start 0 [] start
    request :
        {n : ℕ} {ops : List (Awaited D C)} {k : K} (o : Operation D C) (session shown : Option ℕ)
        (e : Envelope)
        → Executed start n ops k
        → o.sequence ≡ (n + 1) % 2 ^ 64
        → o.request ≡ some e
        → (shown ≡ none) ⊎ (shown ≡ session)
        → Executed start (suc n) (ops ++ (o, session) ∷ []) (run o e shown k).0
    snapshot :
        {n : ℕ} {ops : List (Awaited D C)} {k : K}
        → Executed start n ops k
        → Executed start n ops (base.save_state k).0
    direct :
        {n : ℕ} {ops : List (Awaited D C)} {k : K} (sender : Bytes) (msg : D) (session : Option ℕ)
        → is_direct msg ≡ true
        → Executed start n ops k
        → Executed start n ops (base.handle_request sender msg session k).0

-- protobuf reads back what it wrote.
abbrev pub ReadsBack : {D : Type 0} → Wire D → Type 0
ReadsBack {D} wire = (d : D) → wire.parse_db (wire.serialize d) ≡ (d, true)

module _ {K D C : Type 0} where
  abbrev pub at_number : Service K D C → ℕ → Option Bytes
  at_number s k = read s.unstable_storage s.uuid (to_string k)

  -- An operation that came in is stored or was executed.
  abbrev pub IsKept : ℕ → Service K D C → ℕ → Type 0
  IsKept n s k = (k < 2 ^ 64) × (((v : Bytes) × (at_number s k ≡ some v)) ⊎ (k ≤ n))

pub removed : (s : MemStorage) (u k v : Bytes) → read s u k ≡ some v → (remove s u k).1 ≡ ok
removed s u k v e = remove_result s u k ∙ rw e refl

module _ {K D C : Type 0} (wire : Wire D) (base : CrudBase K D) where
  pub record Known (m : Map ℕ (Awaited D C)) (k : ℕ) (v : Bytes) : Type 0 where
    pub operation : Awaited D C
    pub envelope : Envelope
    pub found : lookup k m ≡ some operation
    pub sequence : operation.0.sequence ≡ k
    pub request : operation.0.request ≡ some envelope
    pub stored : v ≡ wire.serialize operation.0.parsed_db

  pub record IsQueued (start : K) (n : ℕ) (asked : List ℕ) (s : Service K D C) : Type 0 where
    pub executed : Executed base wire.set_request_hash wire.is_direct start n s.executed s.crud
    pub next : s.next_request_sequence ≡ (n + 1) % 2 ^ 64
    pub known :
        (k : ℕ) (v : Bytes)
        → k < 2 ^ 64
        → at_number s k ≡ some v
        → Known s.operations_awaiting_result k v
    pub kept : All (IsKept n s) asked

  -- The call ends with a state like this, or by an exception of crud.
  abbrev pub Ends : (Service K D C → Type 0) → Outcome (Service K D C) → Type 0
  Ends P (finished s) = P s
  Ends P (failed e s) = e ≡ crud_failed
  Ends P (unfinished s) = ⊥

  abbrev pub given : Awaited D C → Envelope → Service K D C → K × Bool
  given a e s = run base wire.set_request_hash wire.is_direct a.0 e (open_session wire a.1) s.crud

  abbrev pub handled : Awaited D C → Envelope → Service K D C → Service K D C
  handled a e s = post wire base a (checkpoint_now wire base (record s { crud = (given a e s).0 }))

  execute-serve :
      (s : Service K D C) (a : Awaited D C) (e : Envelope) (d : D)
      → lookup s.next_request_sequence s.operations_awaiting_result ≡ some a
      → a.0.request ≡ some e
      → execute wire base d s ≡ serve wire base a e d s
  unfolding execute
  execute-serve s a e d f r =
      rw (execute, f)
        (ap
          (λ q. elim q as (λ _. Outcome (Service K D C)) [
            | none ↦ failed no_request s
            | some e ↦ serve wire base a e d s
          ])
          r)

  abbrev pub advanced : Service K D C → Service K D C
  advanced s = save_next_request_sequence wire base (record s {
    unstable_storage = (remove s.unstable_storage s.uuid (key_of wire base s)).0;
    next_request_sequence = (s.next_request_sequence + 1) % 2 ^ 64;
  })

  advance-finished :
      (s : Service K D C) (v : Bytes)
      → read s.unstable_storage s.uuid (key_of wire base s) ≡ some v
      → advance wire base s ≡ finished (advanced s)
  unfolding advance
  advance-finished s v e =
      rw (advance, removed s.unstable_storage s.uuid (key_of wire base s) v e) refl

  -- The body of the loop, if something is stored for the next number.
  pub process_one-Ends :
      (P : Service K D C → Type 0) (s : Service K D C) (v : Bytes)
      → ReadsBack wire
      → at_number s s.next_request_sequence ≡ some v
      → (k : Known s.operations_awaiting_result s.next_request_sequence v)
      → ((given k.operation k.envelope s).1 ≡ true
          → P (advanced (handled k.operation k.envelope s)))
      → Ends P (process_one wire base s)
  unfolding process_one serve
  process_one-Ends P s v back e k h =
      let a = k.operation in
      elim (Bool-cases (given a k.envelope s).1) [
        | inl z ↦
            rw
              (
                process_one,
                e,
                k.stored,
                back a.0.parsed_db,
                execute-serve s a k.envelope a.0.parsed_db k.found k.request,
                serve,
                z,
                advance-finished (handled a k.envelope s) v e,
              )
              (h z)
        | inr z ↦
            rw
              (
                process_one,
                e,
                k.stored,
                back a.0.parsed_db,
                execute-serve s a k.envelope a.0.parsed_db k.found k.request,
                serve,
                z,
              )
              refl
      ]

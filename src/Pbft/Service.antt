-- ===== src/Pbft/Service.antt =====
-- pbft/database_pbft_service.cpp: the queue between pbft and crud. Operations come in any order; they
-- are stored until their turn and are executed in the order of their sequence numbers. The timer of
-- the monitor is left out.
pub mod Keys
pub mod Backlog
pub mod Queue
pub mod Loop
pub mod Arrival
pub mod Entry
pub mod Order
use bluzelle.Base.{
  ℕ, zero, suc, ◌+◌, ◌-◌, ◌/◌, ◌%◌, ◌^◌, Bool, true, false, not, ◌&&◌, List, [], ◌∷◌, ◌++◌, Option,
  none, some, ltb, ◌==◌, filter, length, if◌then◌else◌,
}
use bluzelle.Bytes.{Bytes, bytes, bytes_eq}
use bluzelle.Bytes.Order.{number_ordered}
use bluzelle.Map.{Map, lookup, insert}
use bluzelle.Storage.{
  MemStorage, StorageResult, ok, exists, create, read, update, remove, get_keys, has,
}
use bluzelle.Pbft.Operation.{Payload, Envelope, Operation, get_database_msg}

-- `std::to_string` of a `uint64_t`, which has at most twenty digits.
unfoldable pub digits : ℕ → ℕ → Bytes
digits zero n = []
digits (suc f) n =
    let rest = digits f (n / 10) in if ltb n 10 then (48 + n) ∷ [] else rest ++ (48 + n % 10) ∷ []

unfoldable pub to_string : ℕ → Bytes
unfolding digits
to_string n = digits 20 n

abbrev pub next_request_sequence_key : Bytes
next_request_sequence_key = bytes "next_request_sequence"

-- What the code throws, or an exception that crud throws.
pub data ServiceError : Type 0 where
  no_request not_stored not_read not_parsed not_removed not_created bad_sequence : ServiceError
  crud_failed : ServiceError

-- crud/crud_base.hpp as the service calls it: a call returns the new state, and whether it ended
-- without an exception.
pub record CrudBase (K D : Type 0) : Type 0 where
  pub handle_request : Bytes → D → Option ℕ → K → K × Bool
  pub save_state : K → K × Bool
  pub get_saved_state : K → Option Bytes
  pub load_state : Bytes → K → K × Bool

-- protobuf and boost::lexical_cast; `is_direct` says that a message is a quick read, a subscription
-- or the end of one. `is_open` is the session's.
pub record Wire (D : Type 0) : Type 0 where
  pub serialize : D → Bytes
  pub parse_db : Bytes → D × Bool
  pub set_request_hash : Bytes → D → D
  pub is_direct : D → Bool
  pub lexical_cast : Bytes → Option ℕ
  pub is_open : ℕ → Bool

-- An operation with the session that waits for it.
abbrev pub Awaited : Type 0 → Type 0 → Type 0
Awaited D C = Operation D C × Option ℕ

pub record Service (K D C : Type 0) : Type 0 where
  pub uuid : Bytes
  pub unstable_storage : MemStorage
  pub crud : K
  pub next_request_sequence : ℕ
  pub operations_awaiting_result : Map ℕ (Awaited D C)
  pub next_checkpoint : ℕ
  pub last_checkpoint : ℕ
  -- what was posted to the execute handler, oldest first
  pub executed : List (Awaited D C)

-- A call ends normally or by an exception, with the state that it leaves; `unfinished` is a loop out
-- of fuel.
pub data Outcome (S : Type 0) : Type 0 where
  finished : S → Outcome S
  failed : ServiceError → S → Outcome S
  unfinished : S → Outcome S

abbrev pub then_do : {S : Type 0} → Outcome S → (S → Outcome S) → Outcome S
then_do (finished s) f = f s
then_do (failed e s) f = failed e s
then_do (unfinished s) f = unfinished s

abbrev pub is_ok : StorageResult → Bool
is_ok ok = true
is_ok _ = false

abbrev pub is_existing : StorageResult → Bool
is_existing exists = true
is_existing _ = false

-- The session, if it is still open.
abbrev pub open_session : {D : Type 0} → Wire D → Option ℕ → Option ℕ
open_session wire none = none
open_session wire (some id) = if wire.is_open id then some id else none

module _ {K D C : Type 0} (wire : Wire D) (base : CrudBase K D) where
  abbrev pub key_of : Service K D C → Bytes
  key_of s = to_string s.next_request_sequence

  unfoldable pub save_next_request_sequence : Service K D C → Service K D C
  save_next_request_sequence s = record s {
    unstable_storage = (update s.unstable_storage s.uuid next_request_sequence_key (key_of s)).0;
  }

  unfoldable pub load_next_request_sequence : Service K D C → Outcome (Service K D C)
  load_next_request_sequence s = elim (read s.unstable_storage s.uuid next_request_sequence_key) [
    | some text ↦ elim (wire.lexical_cast text) [
      | none ↦ failed bad_sequence s
      | some n ↦ finished (record s { next_request_sequence = n })
    ]
    | none ↦
        let (storage, result) =
          create s.unstable_storage s.uuid next_request_sequence_key (key_of s) in
        if is_ok result
        then finished (record s { unstable_storage = storage })
        else failed not_created s
  ]

  abbrev pub is_due : Service K D C → Bool
  is_due s = s.next_request_sequence == s.next_checkpoint

  -- Saves the state of crud, if it is time to.
  abbrev pub checkpoint_now : Service K D C → Service K D C
  checkpoint_now s = record s {
    crud = if is_due s then (base.save_state s.crud).0 else s.crud;
    last_checkpoint =
        if is_due s && (base.save_state s.crud).1
        then s.next_request_sequence
        else s.last_checkpoint;
  }

  abbrev pub post : Awaited D C → Service K D C → Service K D C
  post a s = record s { executed = s.executed ++ a ∷ [] }

  -- What crud makes of the request, and what follows if it does not throw.
  unfoldable pub serve : Awaited D C → Envelope → D → Service K D C → Outcome (Service K D C)
  serve a e request s =
      let (crud, returned) =
        base.handle_request e.sender (wire.set_request_hash a.0.request_hash request)
          (open_session wire a.1) s.crud in
      let s' : Service K D C = record s { crud = crud } in
      if returned then finished (post a (checkpoint_now s')) else failed crud_failed s'

  -- The request is handled if its operation is still known.
  unfoldable pub execute : D → Service K D C → Outcome (Service K D C)
  unfolding serve
  execute request s = elim (lookup s.next_request_sequence s.operations_awaiting_result) [
    | none ↦ finished s
    | some a ↦ elim a.0.request [ none ↦ failed no_request s | some e ↦ serve a e request s ]
  ]

  -- The stored request goes, and the next one has its turn.
  unfoldable pub advance : Service K D C → Outcome (Service K D C)
  unfolding save_next_request_sequence
  advance s =
      let (storage, result) = remove s.unstable_storage s.uuid (key_of s) in
      if is_ok result
      then finished (
          save_next_request_sequence (record s {
            unstable_storage = storage;
            next_request_sequence = (s.next_request_sequence + 1) % 2 ^ 64;
          }))
      else failed not_removed s

  -- The body of the loop.
  unfoldable pub process_one : Service K D C → Outcome (Service K D C)
  unfolding execute advance
  process_one s = elim (read s.unstable_storage s.uuid (key_of s)) [
    | none ↦ failed not_read s
    | some text ↦
        let (request, parsed) = wire.parse_db text in
        if parsed then then_do (execute request s) advance else failed not_parsed s
  ]

  unfoldable pub process : ℕ → Service K D C → Outcome (Service K D C)
  unfolding process_one
  process zero s = unfinished s
  process (suc fuel) s = elim (has s.unstable_storage s.uuid (key_of s)) [
    | false ↦ finished s
    | true ↦ then_do (process_one s) (process fuel)
  ]

  -- The stored requests: the keys other than that of the sequence number.
  unfoldable pub backlog : Service K D C → ℕ
  backlog s = length (
      filter (λ k. not (bytes_eq k next_request_sequence_key)) (get_keys s.unstable_storage s.uuid))

  unfoldable pub process_awaiting_operations : Service K D C → Outcome (Service K D C)
  unfolding process backlog
  process_awaiting_operations s = process (suc (backlog s)) s

  unfoldable pub apply_operation : Awaited D C → Service K D C → Outcome (Service K D C)
  unfolding process_awaiting_operations
  apply_operation (o, session) s = elim (get_database_msg o) [
    | none ↦ failed no_request s
    | some msg ↦
        let (storage, result) =
          create s.unstable_storage s.uuid (to_string o.sequence) (wire.serialize msg) in
        if is_ok result
        then process_awaiting_operations (record s {
          unstable_storage = storage;
          operations_awaiting_result = insert o.sequence (o, session) s.operations_awaiting_result;
        })
        else if is_existing result
        then finished s
        else failed not_stored s
  ]

  -- Whether the message was one for this call.
  unfoldable pub apply_operation_now :
      Envelope → Option ℕ → Service K D C → Outcome (Service K D C) × Bool
  apply_operation_now e session s =
      let (msg, parsed) = wire.parse_db (elim e.payload [ Payload.database_msg t ↦ t | _ ↦ [] ]) in
      if parsed
      then (if wire.is_direct msg
          then (let (crud, returned) = base.handle_request e.sender msg session s.crud in
              let s' : Service K D C = record s { crud = crud } in
              (if returned then finished s' else failed crud_failed s', true))
          else (finished s, false))
      else (finished s, false)

  unfoldable pub get_service_state : ℕ → Service K D C → Option Bytes
  get_service_state sequence s =
      if sequence == s.last_checkpoint then base.get_saved_state s.crud else none

  -- The requests with `rounds` numbers from `i` on go.
  unfoldable pub remove_backlog : ℕ → ℕ → Service K D C → Service K D C
  remove_backlog zero i s = s
  remove_backlog (suc rounds) i s =
      remove_backlog rounds (i + 1)
        (record s { unstable_storage = (remove s.unstable_storage s.uuid (to_string i)).0 })

  -- The answer of the code is whether the state could be loaded; it is false where nothing changes
  -- but crud. A sequence number of 2^64 - 1, at which the loop would not end, is taken not to occur.
  unfoldable pub set_service_state : ℕ → Bytes → Service K D C → Outcome (Service K D C) × Bool
  unfolding remove_backlog process_awaiting_operations
  set_service_state sequence state s =
      if ltb sequence s.next_request_sequence
      then (finished s, true)
      else (let (crud, loaded) = base.load_state state s.crud in
          if loaded
          then (
            process_awaiting_operations
                (record (remove_backlog (sequence + 1 - s.next_request_sequence)
                  s.next_request_sequence (record s { crud = crud; last_checkpoint = sequence })) {
                    next_request_sequence = sequence + 1;
                  }),
            true,
          )
          else (finished (record s { crud = crud }), false))

  unfoldable pub save_service_state_at : ℕ → Service K D C → Service K D C
  save_service_state_at sequence s = record s { next_checkpoint = sequence }

  unfoldable pub applied_requests_count : Service K D C → ℕ
  applied_requests_count s = (s.next_request_sequence + 2 ^ 64 - 1) % 2 ^ 64

  -- The constructor.
  unfoldable pub new_service : Bytes → MemStorage → K → Outcome (Service K D C)
  unfolding load_next_request_sequence
  new_service uuid storage crud = load_next_request_sequence (record {
    uuid = uuid;
    unstable_storage = storage;
    crud = crud;
    next_request_sequence = 1;
    operations_awaiting_result = [];
    next_checkpoint = 0;
    last_checkpoint = 0;
    executed = [];
  })

-- ===== src/Pbft/Persistent.antt =====
-- pbft/operations/pbft_persistent_operation.cpp: the calls of an operation that is kept in the
-- storage. A call that throws is `none`; the requests that a node has read are kept beside the keys.
-- Stages are read from texts that these calls wrote, on which std::stoi is std::stoul.
pub mod Held
use bluzelle.Base.{
  ℕ, suc, ◌+◌, ◌%◌, Bool, true, false, not, ◌&&◌, ◌||◌, [], ◌∷◌, ◌++◌, Option, none, some, ltb, leb,
  ◌==◌, length, if◌then◌else◌,
}
use bluzelle.Bytes.{Bytes}
use bluzelle.Bytes.Order.{bytes_ordered}
use bluzelle.Storage.{MemStorage, StorageResult, value_too_large, create, read, update}
use bluzelle.Storage.Range.{get_keys_if}
use bluzelle.Storage.Range
use bluzelle.Pbft.Operation.{Payload, Envelope, MsgType, Stage, holds_database, holds_config}
use bluzelle.Pbft.Quorum.{honest_majority_size}
use bluzelle.Pbft.Service.{to_string, is_ok, is_existing}
use bluzelle.Pbft.Stored.{
  underscore, stage_key, request_key, operations_uuid, generate_prefix, generate_key, stoul,
}

-- protobuf: an envelope and its text, and the requests in it.
pub record Encoding (D C : Type 0) : Type 0 where
  pub no_db : D
  pub no_config : C
  pub serialize : Envelope → Bytes
  pub parse_envelope : Bytes → Envelope × Bool
  pub parse_db : Bytes → D
  pub parse_config : Bytes → C

-- `transient_request` is none while `transient_request_available` is false.
pub record PersistentOperation (D C : Type 0) : Type 0 where
  pub view : ℕ
  pub sequence : ℕ
  pub request_hash : Bytes
  pub prefix : Bytes
  pub transient_request : Option Envelope
  pub transient_database_request : D
  pub transient_config_request : C

abbrev pub stage_number : Stage → ℕ
stage_number Stage.prepare = 0
stage_number Stage.commit = 1
stage_number Stage.execute = 2

abbrev pub type_number : MsgType → ℕ
type_number MsgType.undefined = 0
type_number MsgType.preprepare = 2
type_number MsgType.prepare = 3
type_number MsgType.commit = 4
type_number MsgType.viewchange = 8
type_number MsgType.newview = 9

-- On a `char`, whose largest value is 127.
unfoldable pub increment_prefix : Bytes → Bytes
increment_prefix [] = []
increment_prefix (c ∷ []) = if ltb c 127 || leb 128 c then ((c + 1) % 256) ∷ [] else c ∷ 1 ∷ []
increment_prefix (c ∷ d ∷ cs) = c ∷ increment_prefix (d ∷ cs)

abbrev pub is_too_large : StorageResult → Bool
is_too_large value_too_large = true
is_too_large _ = false

module _ {D C : Type 0} (enc : Encoding D C) where
  -- The constructor for an operation that is stored, and the members that both constructors set.
  abbrev pub fields : ℕ → ℕ → Bytes → PersistentOperation D C
  fields view sequence request_hash = record {
    view = view;
    sequence = sequence;
    request_hash = request_hash;
    prefix = generate_prefix view sequence request_hash;
    transient_request = none;
    transient_database_request = enc.no_db;
    transient_config_request = enc.no_config;
  }

  -- The constructor that writes the first stage, unless the operation is stored.
  unfoldable pub new_operation :
      ℕ → ℕ → Bytes → MemStorage → Option (MemStorage × PersistentOperation D C)
  new_operation view sequence request_hash s =
      let o = fields view sequence request_hash in
      let (s', response) =
        create s operations_uuid (generate_key o.prefix stage_key)
          (to_string (stage_number Stage.prepare)) in
      if is_ok response || is_existing response then some (s', o) else none

  abbrev pub typed_prefix : PersistentOperation D C → MsgType → Bytes
  typed_prefix o type = o.prefix ++ (underscore ∷ to_string (type_number type))

  abbrev pub is_recorded_type : MsgType → Bool
  is_recorded_type MsgType.preprepare = true
  is_recorded_type MsgType.prepare = true
  is_recorded_type MsgType.commit = true
  is_recorded_type _ = false

  unfoldable pub record_pbft_msg :
      MsgType → Envelope → PersistentOperation D C → MemStorage → Option MemStorage
  record_pbft_msg type e o s =
      if not (is_recorded_type type)
      then some s
      else (let (s', response) =
            create s operations_uuid (generate_key (typed_prefix o type) e.sender)
              (enc.serialize e) in
          if is_ok response || is_existing response then some s' else none)

  -- The number of the stage.
  unfoldable pub get_stage : PersistentOperation D C → MemStorage → Option ℕ
  get_stage o s = elim (read s operations_uuid (generate_key o.prefix stage_key)) [
    | none ↦ none
    | some text ↦ stoul text
  ]

  abbrev pub is_stage : Option ℕ → Stage → Bool
  is_stage none stage = false
  is_stage (some n) stage = n == stage_number stage

  -- How many keys are stored in the range that begins with the prefix of the type.
  unfoldable pub senders_count : MsgType → PersistentOperation D C → MemStorage → ℕ
  unfolding increment_prefix
  senders_count type o s = length (
      get_keys_if s operations_uuid (typed_prefix o type) (increment_prefix (typed_prefix o type))
        none)

  unfoldable pub is_preprepared : PersistentOperation D C → MemStorage → Bool
  unfolding senders_count
  is_preprepared o s = ltb 0 (senders_count MsgType.preprepare o s)

  unfoldable pub is_prepared : PersistentOperation D C → MemStorage → Option Bool
  unfolding get_stage
  is_prepared o s = elim (get_stage o s) [
    | none ↦ none
    | some n ↦ some (not (n == stage_number Stage.prepare))
  ]

  unfoldable pub is_committed : PersistentOperation D C → MemStorage → Option Bool
  unfolding get_stage
  is_committed o s = elim (get_stage o s) [
    | none ↦ none
    | some n ↦ some (n == stage_number Stage.execute)
  ]

  unfoldable pub load_transient_request :
      MemStorage → PersistentOperation D C → PersistentOperation D C
  load_transient_request s o = elim o.transient_request [
    | some e ↦ o
    | none ↦ elim (read s operations_uuid (generate_key o.prefix request_key)) [
      | none ↦ o
      | some text ↦
          let e = (enc.parse_envelope text).0 in
          let o' : PersistentOperation D C = record o { transient_request = some e } in
          elim e.payload [
            | Payload.database_msg t ↦ record o' { transient_database_request = enc.parse_db t }
            | Payload.pbft_internal_request t ↦ record o' {
              transient_config_request = enc.parse_config t;
            }
            | _ ↦ o'
          ]
    ]
  ]

  -- The request, with the operation after the call.
  unfoldable pub has_request :
      MemStorage → PersistentOperation D C → PersistentOperation D C × Option Envelope
  unfolding load_transient_request
  has_request s o = let o' = load_transient_request s o in (o', o'.transient_request)

  unfoldable pub has_db_request : MemStorage → PersistentOperation D C → Bool
  unfolding has_request
  has_db_request s o = holds_database (has_request s o).1

  unfoldable pub has_config_request : MemStorage → PersistentOperation D C → Bool
  unfolding has_request
  has_config_request s o = holds_config (has_request s o).1

  unfoldable pub get_database_msg : MemStorage → PersistentOperation D C → Option D
  unfolding has_db_request load_transient_request
  get_database_msg s o =
      if has_db_request s o
      then some (load_transient_request s o).transient_database_request
      else none

  unfoldable pub get_config_request : MemStorage → PersistentOperation D C → Option C
  unfolding has_config_request load_transient_request
  get_config_request s o =
      if has_config_request s o
      then some (load_transient_request s o).transient_config_request
      else none

  abbrev pub is_there : Option Envelope → Bool
  is_there none = false
  is_there (some e) = true

  unfoldable pub is_ready_for_commit : ℕ → PersistentOperation D C → MemStorage → Bool
  unfolding senders_count is_preprepared has_request
  is_ready_for_commit peers o s =
      leb (honest_majority_size peers) (senders_count MsgType.prepare o s)
      && (is_preprepared o s && is_there (has_request s o).1)

  -- `none` if the stage has to be read and cannot be.
  unfoldable pub is_ready_for_execute : ℕ → PersistentOperation D C → MemStorage → Option Bool
  unfolding senders_count is_prepared
  is_ready_for_execute peers o s =
      if leb (honest_majority_size peers) (senders_count MsgType.commit o s)
      then is_prepared o s
      else some false

  abbrev pub is_yes : Option Bool → Bool
  is_yes none = false
  is_yes (some b) = b

  -- The stage that a stage follows, and whether the operation is ready for the move.
  abbrev pub may_advance : ℕ → Stage → PersistentOperation D C → MemStorage → Bool
  may_advance peers Stage.prepare o s = false
  may_advance peers Stage.commit o s =
      is_ready_for_commit peers o s && is_stage (get_stage o s) Stage.prepare
  may_advance peers Stage.execute o s =
      is_yes (is_ready_for_execute peers o s) && is_stage (get_stage o s) Stage.commit

  unfoldable pub advance_operation_stage :
      ℕ → Stage → PersistentOperation D C → MemStorage → Option MemStorage
  unfolding is_ready_for_commit is_ready_for_execute get_stage
  advance_operation_stage peers new_stage o s =
      if may_advance peers new_stage o s
      then (let (s', response) =
            update s operations_uuid (generate_key o.prefix stage_key)
              (to_string (stage_number new_stage)) in
          if is_ok response then some s' else none)
      else none

  -- A request that is too large for the storage is not kept.
  unfoldable pub record_request :
      Envelope
      → MemStorage
      → PersistentOperation D C
      → Option (MemStorage × PersistentOperation D C)
  unfolding load_transient_request
  record_request e s o = elim o.transient_request [
    | some old ↦ some (s, o)
    | none ↦
        let (s', response) =
          create s operations_uuid (generate_key o.prefix request_key) (enc.serialize e) in
        if is_ok response || (is_existing response || is_too_large response)
        then some (s', load_transient_request s' o)
        else none
  ]

-- ===== src/Pbft/Operation.antt =====
-- pbft/operations/pbft_operation.cpp and pbft_memory_operation.cpp: one operation of the protocol,
-- kept in memory. A call that throws changes nothing and is `none`. What protobuf makes of a text,
-- and whether it could be parsed, is a parameter.
pub mod Stages
use bluzelle.Base.{
  ℕ, Bool, true, false, ◌&&◌, List, [], Option, none, some, leb, length, if◌then◌else◌,
}
use bluzelle.Bytes.{Bytes}
use bluzelle.Bytes.Order.{bytes_ordered}
use bluzelle.Map.{Map, insert}
use bluzelle.Sets
use bluzelle.Pbft.Quorum.{honest_majority_size}

-- The `oneof` of bzn_envelope, as far as operations look at it.
pub data Payload : Type 0 where
  database_msg pbft_internal_request pbft checkpoint_msg : Bytes → Payload
  other : Payload

pub record Envelope : Type 0 where
  pub sender : Bytes
  pub payload : Payload
  pub signature : Bytes
  pub timestamp : ℕ

-- pbft_msg_type
pub data MsgType : Type 0 where
  preprepare prepare commit viewchange newview undefined : MsgType

-- pbft_operation_stage
pub data Stage : Type 0 where
  prepare commit execute : Stage

-- `D` and `C` are the parsed requests, of clients and for the configuration.
pub record Operation (D C : Type 0) : Type 0 where
  pub view : ℕ
  pub sequence : ℕ
  pub request_hash : Bytes
  pub stage : Stage
  pub preprepare_message : Option Envelope
  pub prepares_seen : List Bytes
  pub prepare_messages : Map Bytes Envelope
  pub commits_seen : List Bytes
  -- `request` and `request_saved`
  pub request : Option Envelope
  pub parsed_db : D
  pub parsed_config : C

abbrev pub is_some : {A : Type 0} → Option A → Bool
is_some none = false
is_some (some a) = true

abbrev pub holds_database : Option Envelope → Bool
holds_database none = false
holds_database (some e) = elim e.payload [ database_msg t ↦ true | _ ↦ false ]

abbrev pub holds_config : Option Envelope → Bool
holds_config none = false
holds_config (some e) = elim e.payload [ pbft_internal_request t ↦ true | _ ↦ false ]

abbrev pub past_prepare : Stage → Bool
past_prepare Stage.prepare = false
past_prepare _ = true

abbrev pub at_execute : Stage → Bool
at_execute Stage.execute = true
at_execute _ = false

abbrev pub at_prepare : Stage → Bool
at_prepare Stage.prepare = true
at_prepare _ = false

abbrev pub at_commit : Stage → Bool
at_commit Stage.commit = true
at_commit _ = false

module _ {D C : Type 0} where
  -- `no_db` and `no_config` are the messages without fields.
  unfoldable pub construct : D → C → ℕ → ℕ → Bytes → Operation D C
  construct no_db no_config view sequence request_hash = record {
    view = view;
    sequence = sequence;
    request_hash = request_hash;
    stage = Stage.prepare;
    preprepare_message = none;
    prepares_seen = [];
    prepare_messages = [];
    commits_seen = [];
    request = none;
    parsed_db = no_db;
    parsed_config = no_config;
  }

  abbrev pub has_request : Operation D C → Bool
  has_request o = is_some o.request

  unfoldable pub has_db_request : Operation D C → Bool
  has_db_request o = holds_database o.request

  unfoldable pub has_config_request : Operation D C → Bool
  has_config_request o = holds_config o.request

  unfoldable pub get_database_msg : Operation D C → Option D
  get_database_msg o = if has_db_request o then some o.parsed_db else none

  unfoldable pub get_config_request : Operation D C → Option C
  get_config_request o = if has_config_request o then some o.parsed_config else none

  unfoldable pub record_request :
      (Bytes → D × Bool) → (Bytes → C × Bool) → Operation D C → Envelope → Operation D C
  record_request parse_db parse_config o e = elim e.payload [
    | database_msg text ↦
        let (parsed, good) = parse_db text in
        if good
        then record o { parsed_db = parsed; request = some e }
        else record o { parsed_db = parsed }
    | pbft_internal_request text ↦
        let (parsed, good) = parse_config text in
        if good
        then record o { parsed_config = parsed; request = some e }
        else record o { parsed_config = parsed }
    | _ ↦ o
  ]

  unfoldable pub record_pbft_msg : Operation D C → MsgType → Envelope → Option (Operation D C)
  record_pbft_msg o MsgType.preprepare e = some (record o { preprepare_message = some e })
  record_pbft_msg o MsgType.prepare e = some (record o {
    prepares_seen = Sets.insert e.sender o.prepares_seen;
    prepare_messages = insert e.sender e o.prepare_messages;
  })
  record_pbft_msg o MsgType.commit e =
      some (record o { commits_seen = Sets.insert e.sender o.commits_seen })
  record_pbft_msg o MsgType.viewchange e = none
  record_pbft_msg o MsgType.newview e = none
  record_pbft_msg o MsgType.undefined e = none

  abbrev pub is_preprepared : Operation D C → Bool
  is_preprepared o = is_some o.preprepare_message

  unfoldable pub is_prepared : Operation D C → Bool
  is_prepared o = past_prepare o.stage

  unfoldable pub is_committed : Operation D C → Bool
  is_committed o = at_execute o.stage

  -- `peers` is the number of peers at the time.
  unfoldable pub is_ready_for_commit : ℕ → Operation D C → Bool
  is_ready_for_commit peers o =
      has_request o
      && (is_preprepared o && leb (honest_majority_size peers) (length o.prepares_seen))

  unfoldable pub is_ready_for_execute : ℕ → Operation D C → Bool
  is_ready_for_execute peers o =
      is_prepared o && leb (honest_majority_size peers) (length o.commits_seen)

  unfoldable pub advance_operation_stage : ℕ → Operation D C → Stage → Option (Operation D C)
  advance_operation_stage peers o Stage.prepare = none
  advance_operation_stage peers o Stage.commit =
      if is_ready_for_commit peers o && at_prepare o.stage
      then some (record o { stage = Stage.commit })
      else none
  advance_operation_stage peers o Stage.execute =
      if is_ready_for_execute peers o && at_commit o.stage
      then some (record o { stage = Stage.execute })
      else none

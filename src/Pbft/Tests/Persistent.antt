-- ===== src/Pbft/Tests/Persistent.antt =====
-- An operation in the storage of a node that is alone in its swarm: it goes to the commit stage.
use bluzelle.Base.{ℕ, ◌≡◌, refl, true, [], Option, none, some, length, arith}
use bluzelle.Bytes.{Bytes, bytes, bytes_lt, bytes_eq}
use bluzelle.Bytes.Order.{bytes_ordered}
use bluzelle.Map.{lookup, insert}
use bluzelle.Storage
use bluzelle.Storage.{MemStorage}
use bluzelle.Storage.Range
use bluzelle.Pbft.Operation.{Payload, Envelope, MsgType, Stage}
use bluzelle.Pbft.Quorum.{honest_majority_size, faulty_nodes_bound}
use bluzelle.Pbft.Service.{to_string, digits}
use bluzelle.Pbft.Stored.{
  padded, generate_prefix, generate_key, well_formed, parse_prefix, stoul, skip_spaces, read_signed,
  read_digits, leading,
}
use bluzelle.Pbft.Stored.Prefix.{parse_prefix-generate_prefix}
use bluzelle.Pbft.Persistent.{
  Encoding, PersistentOperation, new_operation, record_pbft_msg, record_request,
  advance_operation_stage, is_ready_for_commit, is_preprepared, has_request, load_transient_request,
  senders_count, get_stage, increment_prefix, fields,
}

-- The hash has the separator in it.
parse_prefix-generate_prefix_example :
    parse_prefix (generate_prefix 3 41 (bytes "a_b")) ≡ well_formed 3 41 (bytes "a_b")
parse_prefix-generate_prefix_example =
    parse_prefix-generate_prefix 3 41 (bytes "a_b") (omega arith) (omega arith)

abbrev envelope : Bytes → Envelope
envelope text = record {
  sender = bytes "a";
  payload = Payload.database_msg text;
  signature = [];
  timestamp = 0;
}

-- The text of an envelope is that of its request.
abbrev enc : Encoding ℕ ℕ
enc = record {
  no_db = 0;
  no_config = 0;
  serialize = λ e. elim e.payload [ Payload.database_msg t ↦ t | _ ↦ [] ];
  parse_envelope = λ t. (envelope t, true);
  parse_db = λ t. length t;
  parse_config = λ t. length t;
}

abbrev or_empty : {A : Type 0} → Option (MemStorage × A) → MemStorage
or_empty none = Storage.empty
or_empty (some r) = r.0

abbrev or_same : MemStorage → Option MemStorage → MemStorage
or_same s none = s
or_same s (some t) = t

abbrev operation : PersistentOperation ℕ ℕ
operation = fields enc 1 5 (bytes "h")

abbrev begun : MemStorage
begun = or_empty (new_operation enc 1 5 (bytes "h") Storage.empty)

abbrev preprepared : MemStorage
preprepared =
    or_same begun (record_pbft_msg enc MsgType.preprepare (envelope (bytes "p")) operation begun)

abbrev voted : MemStorage
voted =
    or_same preprepared
      (record_pbft_msg enc MsgType.prepare (envelope (bytes "v")) operation preprepared)

abbrev ready : MemStorage
ready = or_empty (record_request enc (envelope (bytes "r")) voted operation)

abbrev moved : MemStorage
moved = or_same ready (advance_operation_stage enc 1 Stage.commit operation ready)

moved_to_commit : advance_operation_stage enc 1 Stage.commit operation ready ≡ some moved
unfolding new_operation record_pbft_msg record_request advance_operation_stage is_ready_for_commit
    is_preprepared has_request load_transient_request senders_count get_stage increment_prefix
    to_string digits generate_prefix generate_key padded stoul skip_spaces read_signed read_digits
    leading Storage.create Storage.read Storage.update Storage.add_record Storage.replace_record
    Storage.add32 Storage.sub32 Range.get_keys_if Range.do_if Range.do_until Range.lower_bound
    lookup insert bytes_lt bytes_eq honest_majority_size faulty_nodes_bound bluzelle.Policy.sub64
moved_to_commit = refl

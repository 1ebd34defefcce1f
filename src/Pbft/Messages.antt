-- ===== src/Pbft/Messages.antt =====
-- proto/pbft.proto after decoding, what a node sends, and what pbft/pbft.cpp sees of its
-- surroundings. The requests that ride on an envelope stand beside it. Peers are their identifiers;
-- their addresses are taken to resolve.
use bluzelle.Base.{ℕ, Bool, false, List, [], Option, none}
use bluzelle.Bytes.{Bytes}
use bluzelle.Pbft.Operation.{Envelope, MsgType, Operation}

-- An envelope with its `piggybacked_requests`.
pub record WireMessage : Type 0 where
  pub envelope : Envelope
  pub piggybacked_requests : List Envelope

-- prepared_proof
pub record PreparedProof : Type 0 where
  pub pre_prepare : Envelope
  pub prepare : List Envelope

-- pbft_msg. A request without a payload is `none`; `internal` says that the request type is
-- PBFT_REQUEST_INTERNAL.
pub record PbftMsg : Type 0 where
  pub type : MsgType
  pub view : ℕ
  pub sequence : ℕ
  pub request_hash : Bytes
  pub request : Option Envelope
  pub internal : Bool
  pub checkpoint_messages : List Envelope
  pub prepared_proofs : List PreparedProof
  pub viewchange_messages : List Envelope
  pub pre_prepare_messages : List WireMessage

abbrev pub empty_msg : PbftMsg
empty_msg = record {
  type = MsgType.undefined;
  view = 0;
  sequence = 0;
  request_hash = [];
  request = none;
  internal = false;
  checkpoint_messages = [];
  prepared_proofs = [];
  viewchange_messages = [];
  pre_prepare_messages = [];
}

-- The errors that a client is told of.
pub data RequestError : Type 0 where
  timestamp_error too_large too_busy duplicate : RequestError

-- pbft_membership_msg, as far as it is about the state. A message without a newview is `none`.
pub data MembershipType : Type 0 where
  get_state set_state other : MembershipType

pub record MembershipMsg : Type 0 where
  pub type : MembershipType
  pub sequence : ℕ
  pub state_hash : Bytes
  pub state_data : Bytes
  pub checkpoint_proof : List Envelope
  pub newview_msg : Option Envelope

-- What a node does to others: messages for all peers, with the requests that ride on them; records
-- for the audit; operations posted to the service, with the session that waits for the result; a
-- request passed on to the primary; an answer to a client; the status of the primary for the audit; the
-- state for a node that asked for it; a state for the service to load; an answer that is passed on.
pub data Effect (D C : Type 0) : Type 0 where
  broadcast : PbftMsg → List Envelope → Effect D C
  audit_commit : Bytes → ℕ → Effect D C
  audit_failure : Effect D C
  apply_operation : Operation D C → Option ℕ → Effect D C
  forward : Bytes → Envelope → Effect D C
  error_response : ℕ → Bytes → RequestError → Effect D C
  primary_status : ℕ → Bytes → Effect D C
  send_state : ℕ → MembershipMsg → Effect D C
  set_service_state : ℕ → Bytes → Effect D C
  relay : ℕ → Envelope → Effect D C

-- What a call sees: the parsers of protobuf, the cryptography, the options, the clock, and the peers
-- as they are now. `sign` is `wrap_message` for a pbft_msg.
pub record Surroundings (D C : Type 0) : Type 0 where
  pub no_db : D
  pub no_config : C
  pub parse_db : Bytes → D × Bool
  pub parse_config : Bytes → C × Bool
  pub parse_pbft : Envelope → Option PbftMsg
  pub parse_checkpoint : Envelope → Option (ℕ × Bytes)
  pub parse_membership : Envelope → Option MembershipMsg
  -- the hash of the request that a database_response or a swarm_error answers
  pub parse_response : Envelope → Option Bytes
  pub parse_error : Envelope → Option Bytes
  -- an envelope with a database_msg whose content is a nullmsg
  pub null_request : Envelope
  pub hash : Envelope → Bytes
  pub verify : Envelope → Bool
  pub sign : PbftMsg → Envelope
  pub peer_message_signing : Bool
  pub admission_window : ℕ
  pub now : ℕ
  -- the random number that `send_state_request` draws
  pub selected : ℕ
  -- `get_service_state` of the service
  pub service_state : ℕ → Option Bytes
  -- `current()` and `ordered()` of the beacon
  pub peers : List Bytes
  pub ordered_peers : List Bytes

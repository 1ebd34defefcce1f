-- ===== src/Pbft/Tests/Agreement.antt =====
-- A swarm of four peers that all accept a preprepare, and the theorems on the agreement for it.
use bluzelle.Base.{
  ℕ, ◌<◌, ◌≡◌, refl, Bool, true, false, List, [], ◌∷◌, none, some, length, inl, arith,
}
use mathlib.Core.List.{Memᴰ}
use bluzelle.Bytes.{Bytes, bytes, bytes_lt, bytes_eq}
use bluzelle.Bytes.Order.{bytes_ordered}
use bluzelle.Map.{insert, lookup}
use bluzelle.Sets
use bluzelle.Pbft.Quorum.{honest_majority_size, honest_member_size, faulty_nodes_bound}
use bluzelle.Pbft.Operation.{
  Payload, Envelope, MsgType, Operation, Stage, construct, record_request, record_pbft_msg,
  advance_operation_stage, is_ready_for_commit, is_ready_for_execute, is_prepared,
}
use bluzelle.Pbft.Manager.{OperationKey, operation_key_ordered, find_or_construct, update_operation}
use bluzelle.Pbft.Messages.{WireMessage, PbftMsg, broadcast, empty_msg, Surroundings}
use bluzelle.Pbft.Core.{
  Node, is_admitted, preliminary_filter_msg, is_peer, handle_preprepare, accept, do_preprepared,
  do_prepared, handle_prepare, maybe_advance_operation_state, maybe_record_request,
}
use bluzelle.Pbft.Handlers.{handle_message}
use bluzelle.Pbft.Clients.{new_node}
use bluzelle.Pbft.Agreement.{Moment, at, Reached, started, received, VotedFor, votes_agree}
use bluzelle.Pbft.Agreement.Safety.{in_swarm, number_of, prepared_agree, commits_agree}

abbrev pub envelope : Bytes → Payload → Envelope
envelope sender payload = record {
  sender = sender;
  payload = payload;
  signature = [];
  timestamp = 0;
}

abbrev pub ctx : Surroundings ℕ ℕ
ctx = record {
  no_db = 0;
  no_config = 0;
  parse_db = λ t. (length t, true);
  parse_config = λ t. (length t, true);
  parse_pbft = λ e. none;
  parse_checkpoint = λ e. none;
  parse_membership = λ e. none;
  parse_response = λ e. none;
  parse_error = λ e. none;
  null_request = envelope [] (Payload.database_msg []);
  hash = λ e. bytes "hash";
  verify = λ e. true;
  sign = λ m. envelope (bytes "a") (Payload.pbft []);
  peer_message_signing = true;
  admission_window = 20;
  now = 0;
  selected = 0;
  service_state = λ i. none;
  peers = [];
  ordered_peers = [];
}

abbrev pub peers : List Bytes
peers = bytes "a" ∷ bytes "b" ∷ bytes "c" ∷ bytes "d" ∷ []

abbrev noon : Moment
noon = record {
  now = 5000000;
  selected = 0;
  service_state = λ i. none;
  peers = peers;
  ordered_peers = peers;
}

abbrev preprepare : PbftMsg
preprepare = record empty_msg {
  type = MsgType.preprepare;
  view = 1;
  sequence = 5;
  request_hash = bytes "hash";
}

abbrev from_primary : WireMessage
from_primary = record {
  envelope = envelope (bytes "b") (Payload.pbft []);
  piggybacked_requests = envelope (bytes "client") (Payload.database_msg (bytes "create")) ∷ [];
}

abbrev prepare : PbftMsg
prepare = record preprepare { type = MsgType.prepare }

abbrev prepare_of : Bytes → WireMessage
prepare_of p = record { envelope = envelope p (Payload.pbft []); piggybacked_requests = [] }

-- What comes to a node: the preprepare of the primary, and the prepares of the peers.
data Arrives : PbftMsg → WireMessage → Type 0 where
  the_preprepare : Arrives preprepare from_primary
  a_prepare : (p : Bytes) → Arrives prepare (prepare_of p)

-- A node that got the preprepare and then the prepares of three peers.
abbrev get_prepare : Bytes → Node ℕ ℕ → Node ℕ ℕ
get_prepare p n = handle_message (at ctx noon) prepare (prepare_of p) n

abbrev node : Bytes → Node ℕ ℕ
node p = get_prepare (bytes "c") (
    get_prepare (bytes "b") (
      get_prepare (bytes "a")
        (handle_message (at ctx noon) preprepare from_primary (new_node (at ctx noon) p))))

node-Reached : (p : Bytes) → Reached ctx (in_swarm peers Arrives) (node p)
node-Reached p = received noon prepare (prepare_of (bytes "c")) refl (a_prepare (bytes "c")) (
    received noon prepare (prepare_of (bytes "b")) refl (a_prepare (bytes "b")) (
      received noon prepare (prepare_of (bytes "a")) refl (a_prepare (bytes "a"))
        (received noon preprepare from_primary refl the_preprepare (started noon p))))

abbrev key : OperationKey
key = (1, (5, bytes "hash"))

node-sent : (p : Bytes) → Memᴰ (broadcast prepare []) (node p).sent
unfolding handle_message is_admitted preliminary_filter_msg is_peer handle_preprepare accept
    do_preprepared do_prepared maybe_advance_operation_state maybe_record_request new_node
    find_or_construct update_operation construct record_request record_pbft_msg
    advance_operation_stage is_ready_for_commit is_ready_for_execute is_prepared handle_prepare
    Sets.member Sets.insert lookup insert bytes_lt bytes_eq honest_majority_size faulty_nodes_bound
    bluzelle.Policy.sub64
node-sent p = Memᴰ.head refl

node-VotedFor : (p : Bytes) → VotedFor ctx (node p) key
node-VotedFor p = record {
  msg = prepare;
  requests = [];
  sent = node-sent p;
  vote = inl refl;
  key = refl;
}

votes_agree_example : key ≡ key
votes_agree_example =
    votes_agree ctx key key (node-Reached (bytes "a")) (node-VotedFor (bytes "a"))
      (node-VotedFor (bytes "a")) refl refl

abbrev request : Envelope
request = envelope (bytes "client") (Payload.database_msg (bytes "create"))

abbrev operation : Operation ℕ ℕ
operation = record (construct 0 0 1 5 (bytes "hash")) {
  stage = Stage.commit;
  preprepare_message = some from_primary.envelope;
  prepares_seen = bytes "a" ∷ bytes "b" ∷ bytes "c" ∷ [];
  prepare_messages =
      (bytes "a", (prepare_of (bytes "a")).envelope)
      ∷ (bytes "b", (prepare_of (bytes "b")).envelope)
      ∷ (bytes "c", (prepare_of (bytes "c")).envelope)
      ∷ [];
  parsed_db = 6;
  request = some request;
}

node-holds : (p : Bytes) → lookup key (node p).operations ≡ some operation
unfolding handle_message is_admitted preliminary_filter_msg is_peer handle_preprepare accept
    do_preprepared do_prepared maybe_advance_operation_state maybe_record_request new_node
    find_or_construct update_operation construct record_request record_pbft_msg
    advance_operation_stage is_ready_for_commit is_ready_for_execute is_prepared handle_prepare
    Sets.member Sets.insert lookup insert bytes_lt bytes_eq honest_majority_size faulty_nodes_bound
    bluzelle.Policy.sub64
node-holds p = refl

operation-prepared : is_prepared operation ≡ true
unfolding is_prepared construct
operation-prepared = refl

abbrev nobody : Bytes → Bool
nobody p = false

authentic :
    (p q : Bytes) (msg : PbftMsg) (m : WireMessage)
    → nobody p ≡ false
    → nobody q ≡ false
    → Arrives msg m
    → msg.type ≡ MsgType.prepare
    → m.envelope.sender ≡ p
    → (requests : List Envelope) × Memᴰ (broadcast msg requests) (node p).sent
authentic p q msg m f g the_preprepare t s = absurd (cc t)
authentic p q msg m f g (a_prepare x) t s = ([], node-sent p)

few_faulty : number_of {D = ℕ} {C = ℕ} ctx nobody peers < honest_member_size (length peers)
unfolding honest_member_size faulty_nodes_bound bluzelle.Policy.sub64 bluzelle.Bytes.Counts.sum
few_faulty = omega arith

prepared_agree_example : operation.request_hash ≡ operation.request_hash
prepared_agree_example =
    prepared_agree ctx peers nobody node (λ p. Arrives) refl (omega arith) few_faulty
      (λ p f. node-Reached p) authentic (bytes "a") (bytes "d") key key operation operation refl
      refl (node-holds (bytes "a")) (node-holds (bytes "d")) operation-prepared operation-prepared
      refl refl

abbrev commit : PbftMsg
commit = record preprepare { type = MsgType.commit }

node-committed : (p : Bytes) → Memᴰ (broadcast commit []) (node p).sent
unfolding handle_message is_admitted preliminary_filter_msg is_peer handle_preprepare accept
    do_preprepared do_prepared maybe_advance_operation_state maybe_record_request new_node
    find_or_construct update_operation construct record_request record_pbft_msg
    advance_operation_stage is_ready_for_commit is_ready_for_execute is_prepared handle_prepare
    Sets.member Sets.insert lookup insert bytes_lt bytes_eq honest_majority_size faulty_nodes_bound
    bluzelle.Policy.sub64
node-committed p = Memᴰ.tail (Memᴰ.head refl)

commits_agree_example : commit.request_hash ≡ commit.request_hash
commits_agree_example =
    commits_agree ctx peers nobody node (λ p. Arrives) refl (omega arith) few_faulty
      (λ p f. node-Reached p) authentic (bytes "a") (bytes "d") commit commit [] [] refl refl
      (node-committed (bytes "a")) (node-committed (bytes "d")) refl refl refl refl

-- ===== src/Pbft/Tests/Views.antt =====
-- A view change with proofs for the numbers 3 and 5, checkpoints, and the theorems on them.
use bluzelle.Base.{ℕ, ◌≡◌, refl, true, false, List, [], ◌∷◌, Option, some, arith}
use bluzelle.Bytes.{Bytes, bytes, bytes_lt, bytes_eq}
use bluzelle.Bytes.Order.{bytes_ordered, number_ordered}
use bluzelle.Map.{insert, lookup}
use bluzelle.Sets
use bluzelle.Pbft.Operation.{Payload, Envelope, MsgType}
use bluzelle.Pbft.Messages.{PreparedProof, PbftMsg, empty_msg, Surroundings}
use bluzelle.Pbft.NewView.{pre_prepares_for}
use bluzelle.Pbft.NewView.Proofs.{envelope_of}
use bluzelle.Pbft.NewView.Chosen.{expected, newview_lem}
use bluzelle.Pbft.Checkpoints.{checkpoint_ordered, Checkpoints, initial, handle_checkpoint_message}
use bluzelle.Pbft.Checkpoints.Proven.{
  IsProven, Handled, handle_checkpoint_message_lem, initial-IsProven,
}
use bluzelle.Pbft.Tests.Agreement.{ctx as quiet, envelope, peers}

-- A preprepare bears its number as its time.
abbrev read_preprepare : Envelope → PbftMsg
read_preprepare e = record empty_msg {
  type = MsgType.preprepare;
  view = 1;
  sequence = e.timestamp;
  request_hash = e.sender;
}

abbrev preprepare_for : ℕ → Envelope
preprepare_for i = record (envelope (bytes "b") (Payload.pbft [])) { timestamp = i }

abbrev proof_for : ℕ → PreparedProof
proof_for i = record { pre_prepare = preprepare_for i; prepare = [] }

abbrev viewchange : PbftMsg
viewchange = record empty_msg {
  type = MsgType.viewchange;
  view = 2;
  sequence = 2;
  prepared_proofs = proof_for 3 ∷ proof_for 5 ∷ [];
}

abbrev parse_pbft : Envelope → Option PbftMsg
parse_pbft e = elim e.payload [
  | Payload.checkpoint_msg t ↦ some viewchange
  | _ ↦ some (read_preprepare e)
]

-- A checkpoint message names its sequence number by its time.
abbrev ctx : Surroundings ℕ ℕ
ctx = record quiet {
  parse_pbft = parse_pbft;
  parse_checkpoint = λ e. some (e.timestamp, bytes "state");
  peers = peers;
}

abbrev viewchanges : List Envelope
viewchanges = envelope (bytes "c") (Payload.checkpoint_msg []) ∷ []

newview_lem_example :
    envelope_of (lookup 4 (pre_prepares_for ctx 2 viewchanges true []).0)
    ≡ expected ctx 2 viewchanges 4
newview_lem_example = newview_lem ctx 2 viewchanges true [] 4

abbrev claim : Bytes → ℕ → Envelope
claim sender sequence = record (envelope sender (Payload.checkpoint_msg [])) {
  timestamp = sequence;
}

-- One peer has vouched for the checkpoint at 100.
abbrev waiting : Checkpoints
waiting = handle_checkpoint_message ctx (claim (bytes "a") 100) initial

waiting-IsProven : IsProven ctx waiting
waiting-IsProven =
    (handle_checkpoint_message_lem ctx (claim (bytes "a") 100) initial
      (initial-IsProven ctx)).proven

handle_checkpoint_message_lem_example :
    Handled ctx waiting (handle_checkpoint_message ctx (claim (bytes "b") 100) waiting)
handle_checkpoint_message_lem_example =
    handle_checkpoint_message_lem ctx (claim (bytes "b") 100) waiting waiting-IsProven

-- A late claim of two peers takes a node that is behind back to an older checkpoint.
abbrev late : Checkpoints
late = handle_checkpoint_message ctx (claim (bytes "d") 100) (
    handle_checkpoint_message ctx (claim (bytes "c") 100) (
      handle_checkpoint_message ctx (claim (bytes "b") 300)
        (handle_checkpoint_message ctx (claim (bytes "a") 300) waiting)))

stable_goes_back : late.latest_stable_checkpoint.0 ≡ 100
unfolding handle_checkpoint_message bluzelle.Pbft.Checkpoints.add_partial
    bluzelle.Pbft.Checkpoints.maybe_stabilize_checkpoint
    bluzelle.Pbft.Checkpoints.stabilize_checkpoint bluzelle.Pbft.Checkpoints.newer
    bluzelle.Pbft.Checkpoints.attestants bluzelle.Pbft.Checkpoints.reconcile
    bluzelle.Pbft.Checkpoints.send_state_request lookup insert bytes_lt bytes_eq Sets.member
    bluzelle.Base.filter bluzelle.Pbft.Quorum.honest_member_size
    bluzelle.Pbft.Quorum.faulty_nodes_bound bluzelle.Policy.sub64
stable_goes_back = refl

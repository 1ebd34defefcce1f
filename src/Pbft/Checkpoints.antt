-- ===== src/Pbft/Checkpoints.antt =====
-- pbft/pbft_checkpoint_manager.cpp: the checkpoints that this node has reached, the one that the
-- swarm vouches for, and the messages that prove it. Envelopes stand for their texts.
pub mod Proven
use bluzelle.Base.{
  ℕ, zero, suc, Bool, not, true, false, ◌&&◌, List, [], ◌∷◌, ◌++◌, Option, none, some, ltb, leb,
  ◌==◌, filter, length, if◌then◌else◌,
}
use bluzelle.Bytes.{Bytes, bytes, bytes_eq}
use bluzelle.Bytes.Order.{Ordered, bytes_ordered, number_ordered, pair_ordered}
use bluzelle.Map.{Map, lookup, insert, inner, keys}
use bluzelle.Sets
use bluzelle.Pbft.Operation.{Envelope}
use bluzelle.Pbft.Messages.{Surroundings}
use bluzelle.Pbft.Quorum.{honest_member_size}

-- checkpoint_t: a sequence number and the hash of the state.
abbrev pub Checkpoint : Type 0
Checkpoint = ℕ × Bytes

instance abbrev pub checkpoint_ordered : Ordered Checkpoint
checkpoint_ordered = pair_ordered ⦃a = number_ordered⦄ ⦃b = bytes_ordered⦄

-- A message for all peers, a request for the state to one of them, and the timer after which it is
-- sent if this node is still behind.
pub data StateRequest : Type 0 where
  announce : Checkpoint → StateRequest
  get_state : Checkpoint → Bytes → StateRequest
  get_state_later : Checkpoint → StateRequest

pub record Checkpoints : Type 0 where
  pub latest_local_checkpoint : Checkpoint
  pub latest_stable_checkpoint : Checkpoint
  pub latest_stable_checkpoint_proof : Map Bytes Envelope
  pub partial_checkpoint_proofs : Map Checkpoint (Map Bytes Envelope)
  -- what was sent, oldest first
  pub requested : List StateRequest

abbrev pub ask : Checkpoints → StateRequest → Checkpoints
ask c r = record c { requested = c.requested ++ r ∷ [] }

abbrev pub nth : List Bytes → ℕ → Option Bytes
nth [] i = none
nth (x ∷ xs) zero = some x
nth (x ∷ xs) (suc i) = nth xs i

abbrev pub same_hash : Checkpoint → Checkpoint → Bool
same_hash a b = bytes_eq a.1 b.1

abbrev pub initial_checkpoint : Checkpoint
initial_checkpoint = (0, bytes "<null db state>")

abbrev pub initial : Checkpoints
initial = record {
  latest_local_checkpoint = initial_checkpoint;
  latest_stable_checkpoint = initial_checkpoint;
  latest_stable_checkpoint_proof = [];
  partial_checkpoint_proofs = [];
  requested = [];
}

module _ {D C : Type 0} (ctx : Surroundings D C) where
  unfoldable pub send_state_request : Checkpoints → Checkpoints
  send_state_request c = elim (nth (keys c.latest_stable_checkpoint_proof) ctx.selected) [
    | none ↦ c
    | some peer ↦ ask c (StateRequest.get_state c.latest_stable_checkpoint peer)
  ]

  -- `none` where the code throws.
  unfoldable pub local_checkpoint_reached : Checkpoint → Checkpoints → Option Checkpoints
  unfolding send_state_request
  local_checkpoint_reached cp c =
      if leb cp.0 c.latest_local_checkpoint.0
      then none
      else let c' : Checkpoints =
          ask (record c { latest_local_checkpoint = cp }) (StateRequest.announce cp) in
        some (
          if cp.0 == c'.latest_local_checkpoint.0 && not (same_hash cp c'.latest_local_checkpoint)
          then send_state_request c'
          else c')

  -- Drops the partial proofs for checkpoints up to the one that is stable now.
  unfoldable pub newer :
      Checkpoint → Map Checkpoint (Map Bytes Envelope) → Map Checkpoint (Map Bytes Envelope)
  newer cp partial = filter (λ (e : Checkpoint × Map Bytes Envelope). ltb cp.0 e.0.0) partial

  unfoldable pub stabilize_checkpoint : Checkpoint → Checkpoints → Checkpoints
  unfolding newer
  stabilize_checkpoint cp c = record c {
    latest_stable_checkpoint = cp;
    latest_stable_checkpoint_proof = inner (lookup cp c.partial_checkpoint_proofs);
    partial_checkpoint_proofs = newer cp c.partial_checkpoint_proofs;
  }

  -- How many of those who vouch for a checkpoint are peers now.
  unfoldable pub attestants : Map Bytes Envelope → ℕ
  attestants proof = length (filter (λ sender. Sets.member sender ctx.peers) (keys proof))

  -- What a node does when it is behind the checkpoint, or disagrees with it.
  unfoldable pub reconcile : Checkpoint → Checkpoints → Checkpoints
  unfolding send_state_request
  reconcile cp c =
      if ltb c.latest_local_checkpoint.0 cp.0
      then ask c (StateRequest.get_state_later cp)
      else if c.latest_local_checkpoint.0 == cp.0 && not (same_hash c.latest_stable_checkpoint cp)
      then send_state_request c
      else c

  unfoldable pub maybe_stabilize_checkpoint : Checkpoint → Checkpoints → Checkpoints
  unfolding stabilize_checkpoint reconcile attestants
  maybe_stabilize_checkpoint cp c =
      if leb (honest_member_size (length ctx.peers))
        (attestants (inner (lookup cp c.partial_checkpoint_proofs)))
      then reconcile cp (stabilize_checkpoint cp c)
      else c

  -- The sender's message for the checkpoint, unless there is one.
  unfoldable pub add_partial : Checkpoint → Envelope → Checkpoints → Checkpoints
  add_partial cp msg c =
      let proof = inner (lookup cp c.partial_checkpoint_proofs) in
      record c {
        partial_checkpoint_proofs =
            insert cp
              (elim (lookup msg.sender proof) [
                | none ↦ insert msg.sender msg proof
                | some old ↦ proof
              ])
              c.partial_checkpoint_proofs;
      }

  unfoldable pub handle_checkpoint_message : Envelope → Checkpoints → Checkpoints
  unfolding add_partial maybe_stabilize_checkpoint
  handle_checkpoint_message msg c = elim (ctx.parse_checkpoint msg) [
    | none ↦ c
    | some cp ↦
        if ltb cp.0 c.latest_local_checkpoint.0
        then c
        else if cp.0 == c.latest_stable_checkpoint.0
        then (if same_hash cp c.latest_stable_checkpoint
            then record c {
              latest_stable_checkpoint_proof =
                  insert msg.sender msg c.latest_stable_checkpoint_proof;
            }
            else c)
        else maybe_stabilize_checkpoint cp (add_partial cp msg c)
  ]

  -- The end of the timer that `get_state_later` starts.
  unfoldable pub catchup_timeout : Checkpoint → Checkpoints → Checkpoints
  unfolding send_state_request
  catchup_timeout cp c = if ltb c.latest_local_checkpoint.0 cp.0 then send_state_request c else c

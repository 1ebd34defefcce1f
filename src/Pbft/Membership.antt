-- ===== src/Pbft/Membership.antt =====
-- pbft/pbft.cpp: the transfer of the state to a node that is behind, the messages of the database and
-- the answers to them, and the heartbeat for the audit. Timers are left out.
pub mod Safe
use bluzelle.Base.{
  ℕ, ◌==◌, ltb, Bool, true, false, not, ◌&&◌, ◌||◌, List, [], ◌∷◌, Option, none, some,
  if◌then◌else◌,
}
use bluzelle.Bytes.{Bytes}
use bluzelle.Bytes.Order.{bytes_ordered}
use bluzelle.Map.{lookup}
use bluzelle.Pbft.Operation.{Payload, Envelope}
use bluzelle.Pbft.Checkpoints.{Checkpoint, checkpoint_ordered, handle_checkpoint_message}
use bluzelle.Pbft.Messages.{
  WireMessage, MembershipType, MembershipMsg, primary_status, send_state, set_service_state, relay,
  Surroundings,
}
use bluzelle.Pbft.Core.{Node, send, has_bad_signature}
use bluzelle.Pbft.ViewChange.{map_values, set_primary_from_newview}
use bluzelle.Pbft.Handlers.{is_me, handle_message}
use bluzelle.Pbft.Clients.{handle_request}

-- Whether a saved message is one of pbft.
abbrev pub holds_pbft : Option Envelope → Bool
holds_pbft none = false
holds_pbft (some e) = elim e.payload [ Payload.pbft t ↦ true | _ ↦ false ]

abbrev pub same_checkpoint : Checkpoint → Checkpoint → Bool
same_checkpoint a b = checkpoint_ordered.eq a b

module _ {D C : Type 0} (ctx : Surroundings D C) where
  abbrev pub get_checkpoint_state : Checkpoint → Option Bytes
  get_checkpoint_state cp = ctx.service_state cp.0

  abbrev pub set_checkpoint_state : Checkpoint → Bytes → Node D C → Node D C
  set_checkpoint_state cp state n = send n (set_service_state cp.0 state)

  unfoldable pub state_reply : Checkpoint → Bytes → Node D C → MembershipMsg
  state_reply cp state n = record {
    type = MembershipType.set_state;
    sequence = cp.0;
    state_hash = cp.1;
    state_data = state;
    checkpoint_proof = map_values n.checkpoints.latest_stable_checkpoint_proof;
    newview_msg = if holds_pbft n.saved_newview then n.saved_newview else none;
  }

  unfoldable pub handle_get_state : MembershipMsg → ℕ → Node D C → Node D C
  unfolding state_reply
  handle_get_state msg session n =
      let cp : Checkpoint = (msg.sequence, msg.state_hash) in
      if not (same_checkpoint n.checkpoints.latest_stable_checkpoint cp)
      then n
      else elim (get_checkpoint_state cp) [
        | none ↦ n
        | some state ↦
            if ltb 1 n.view && not (holds_pbft n.saved_newview)
            then n
            else send n (send_state session (state_reply cp state n))
      ]

  -- The checkpoint messages that come with the state. Their signatures are not tested.
  unfoldable pub take_proof : List Envelope → Node D C → Node D C
  take_proof [] n = n
  take_proof (e ∷ es) n =
      take_proof es (record n { checkpoints = handle_checkpoint_message ctx e n.checkpoints })

  abbrev pub adopt_newview : Option Envelope → Node D C → Node D C
  adopt_newview none n = n
  adopt_newview (some e) n = elim (ctx.parse_pbft e) [
    | none ↦ n
    | some newview ↦ set_primary_from_newview ctx e (record n { view = newview.view })
  ]

  unfoldable pub handle_set_state : MembershipMsg → Node D C → Node D C
  unfolding take_proof
  handle_set_state msg n =
      let cp : Checkpoint = (msg.sequence, msg.state_hash) in
      let n' = take_proof msg.checkpoint_proof n in
      if not (same_checkpoint n'.checkpoints.latest_stable_checkpoint cp)
        || (same_checkpoint n'.checkpoints.latest_local_checkpoint cp
            || ltb msg.sequence n'.checkpoints.latest_local_checkpoint.0)
      then n'
      else adopt_newview msg.newview_msg (set_checkpoint_state cp msg.state_data n')

  unfoldable pub handle_membership_message : Envelope → ℕ → Node D C → Node D C
  unfolding handle_get_state handle_set_state
  handle_membership_message e session n = elim (ctx.parse_membership e) [
    | none ↦ n
    | some msg ↦ if has_bad_signature ctx e then n else elim msg.type [
      | MembershipType.get_state ↦ handle_get_state msg session n
      | MembershipType.set_state ↦ handle_set_state msg n
      | MembershipType.other ↦ n
    ]
  ]

  -- Messages that cannot be parsed are dropped.
  unfoldable pub handle_bzn_message : WireMessage → Node D C → Node D C
  handle_bzn_message m n = elim (ctx.parse_pbft m.envelope) [
    | none ↦ n
    | some msg ↦ handle_message ctx msg m n
  ]

  -- `answered` is what `apply_operation_now` of the service says.
  unfoldable pub handle_database_message : Bool → Envelope → ℕ → Node D C → Node D C
  handle_database_message answered e session n =
      if answered
      then n
      else handle_request ctx (if e.timestamp == 0 then record e { timestamp = ctx.now } else e)
          (some session) n

  -- To the session that waits for the answer to the request.
  abbrev pub pass_on : Option Bytes → Envelope → Node D C → Node D C
  pass_on none e n = n
  pass_on (some hash) e n = elim (lookup hash n.sessions_waiting) [
    | none ↦ n
    | some session ↦ send n (relay session e)
  ]

  unfoldable pub handle_database_response_message : Envelope → Node D C → Node D C
  handle_database_response_message e n = pass_on (ctx.parse_response e) e n

  unfoldable pub handle_swarm_error_response_message : Envelope → Node D C → Node D C
  handle_swarm_error_response_message e n = pass_on (ctx.parse_error e) e n

  unfoldable pub handle_audit_heartbeat_timeout : Node D C → Node D C
  handle_audit_heartbeat_timeout n =
      if is_me n.pinned_primary n.uuid && n.audit_enabled
      then send n (primary_status n.view n.uuid)
      else n

-- ===== src/Pbft/Membership/Safe.antt =====
-- The transfer of the state, the answers and the heartbeat keep the invariant of Core.Safe.
use bluzelle.Base.{
  ℕ, ltb, Bool, true, false, not, ◌&&◌, List, [], ◌∷◌, Option, none, some, if◌then◌else◌,
  Option-cases, inl, inr,
}
use bluzelle.Bytes.{Bytes}
use bluzelle.Bytes.Order.{bytes_ordered}
use bluzelle.Map.{lookup}
use bluzelle.Pbft.Operation.{Envelope}
use bluzelle.Pbft.Operation.Stages.{World}
use bluzelle.Pbft.Messages.{
  MembershipType, MembershipMsg, Effect, primary_status, send_state, set_service_state, relay,
  Surroundings,
}
use bluzelle.Pbft.Core.{Node, send, has_bad_signature}
use bluzelle.Pbft.Core.Safe.{Justified, send-IsSafe}
use bluzelle.Pbft.Core.Advance.{IsSafeNode}
use bluzelle.Pbft.Handlers.{is_me}
use bluzelle.Pbft.Handlers.Saved.{if-IsSafe, set_primary-IsSafe}
use bluzelle.Pbft.Clients.Safe.{handle_request-IsSafe}
use bluzelle.Pbft.Membership.{
  same_checkpoint, holds_pbft, state_reply, handle_get_state, take_proof, adopt_newview,
  handle_set_state, handle_membership_message, handle_database_message, pass_on,
  handle_database_response_message, handle_swarm_error_response_message,
  handle_audit_heartbeat_timeout,
}

module _ {D C : Type 0} (ctx : Surroundings D C) (w : World) where
  sent-IsSafe :
      (n : Node D C) (e : Effect D C)
      → IsSafeNode ctx w n
      → Justified ctx.parse_db ctx.parse_config w n.accepted_preprepares e
      → IsSafeNode ctx w (send n e)
  sent-IsSafe n e h j =
      send-IsSafe ctx.parse_db ctx.parse_config w n.operations n.accepted_preprepares n.sent e h j

  handle_get_state-IsSafe :
      (msg : MembershipMsg) (session : ℕ) (n : Node D C)
      → IsSafeNode ctx w n
      → IsSafeNode ctx w (handle_get_state ctx msg session n)
  unfolding handle_get_state
  handle_get_state-IsSafe msg session n h =
      if-IsSafe ctx w
        (not
          (same_checkpoint n.checkpoints.latest_stable_checkpoint (msg.sequence, msg.state_hash)))
        n _ h (answer (ctx.service_state msg.sequence))
    where
      answer :
          (o : Option Bytes)
          → IsSafeNode ctx w (elim o as (λ _. Node D C) [
            | none ↦ n
            | some state ↦
                if ltb 1 n.view && not (holds_pbft n.saved_newview)
                then n
                else send n
                    (send_state session (state_reply ctx (msg.sequence, msg.state_hash) state n))
          ])
      answer none = h
      answer (some state) =
          if-IsSafe ctx w (ltb 1 n.view && not (holds_pbft n.saved_newview)) n _ h (
            sent-IsSafe n
              (send_state session (state_reply ctx (msg.sequence, msg.state_hash) state n)) h tt)

  take_proof-IsSafe :
      (es : List Envelope) (n : Node D C)
      → IsSafeNode ctx w n
      → IsSafeNode ctx w (take_proof ctx es n)
  unfolding take_proof
  take_proof-IsSafe [] n h = h
  take_proof-IsSafe (e ∷ es) n h = take_proof-IsSafe es _ h

  adopt-IsSafe :
      (o : Option Envelope) (n : Node D C)
      → IsSafeNode ctx w n
      → IsSafeNode ctx w (adopt_newview ctx o n)
  adopt-IsSafe none n h = h
  adopt-IsSafe (some e) n h = elim (Option-cases (ctx.parse_pbft e)) [
    | inl z ↦ rw (adopt_newview, z) h
    | inr (newview, z) ↦
        rw (adopt_newview, z) (set_primary-IsSafe ctx w e (record n { view = newview.view }) h)
  ]

  handle_set_state-IsSafe :
      (msg : MembershipMsg) (n : Node D C)
      → IsSafeNode ctx w n
      → IsSafeNode ctx w (handle_set_state ctx msg n)
  unfolding handle_set_state
  handle_set_state-IsSafe msg n h =
      let m = take_proof ctx msg.checkpoint_proof n in
      let k = take_proof-IsSafe msg.checkpoint_proof n h in
      if-IsSafe ctx w _ m _ k (
        adopt-IsSafe msg.newview_msg (send m (set_service_state msg.sequence msg.state_data))
          (sent-IsSafe m (set_service_state msg.sequence msg.state_data) k tt))

  pub handle_membership_message-IsSafe :
      (e : Envelope) (session : ℕ) (n : Node D C)
      → IsSafeNode ctx w n
      → IsSafeNode ctx w (handle_membership_message ctx e session n)
  unfolding handle_membership_message
  handle_membership_message-IsSafe e session n h = elim (Option-cases (ctx.parse_membership e)) [
    | inl z ↦ rw (handle_membership_message, z) h
    | inr (msg, z) ↦
        rw (handle_membership_message, z)
          (if-IsSafe ctx w (has_bad_signature ctx e) n _ h (by_type msg msg.type))
  ]
    where
      by_type :
          (msg : MembershipMsg) (t : MembershipType)
          → IsSafeNode ctx w (elim t as (λ _. Node D C) [
            | MembershipType.get_state ↦ handle_get_state ctx msg session n
            | MembershipType.set_state ↦ handle_set_state ctx msg n
            | MembershipType.other ↦ n
          ])
      by_type msg MembershipType.get_state = handle_get_state-IsSafe msg session n h
      by_type msg MembershipType.set_state = handle_set_state-IsSafe msg n h
      by_type msg MembershipType.other = h

  pub handle_database_message-IsSafe :
      (answered : Bool) (e : Envelope) (session : ℕ) (n : Node D C)
      → IsSafeNode ctx w n
      → IsSafeNode ctx w (handle_database_message ctx answered e session n)
  unfolding handle_database_message
  handle_database_message-IsSafe true e session n h = h
  handle_database_message-IsSafe false e session n h =
      handle_request-IsSafe ctx w _ (some session) n h

  pass_on-IsSafe :
      (o : Option Bytes) (e : Envelope) (n : Node D C)
      → IsSafeNode ctx w n
      → IsSafeNode ctx w (pass_on ctx o e n)
  pass_on-IsSafe none e n h = h
  pass_on-IsSafe (some hash) e n h = elim (Option-cases (lookup hash n.sessions_waiting)) [
    | inl z ↦ rw (pass_on, z) h
    | inr (session, z) ↦ rw (pass_on, z) (sent-IsSafe n (relay session e) h tt)
  ]

  pub handle_response-IsSafe :
      (e : Envelope) (n : Node D C)
      → IsSafeNode ctx w n
      → IsSafeNode ctx w (handle_database_response_message ctx e n)
  unfolding handle_database_response_message
  handle_response-IsSafe e n h = pass_on-IsSafe (ctx.parse_response e) e n h

  pub handle_swarm_error-IsSafe :
      (e : Envelope) (n : Node D C)
      → IsSafeNode ctx w n
      → IsSafeNode ctx w (handle_swarm_error_response_message ctx e n)
  unfolding handle_swarm_error_response_message
  handle_swarm_error-IsSafe e n h = pass_on-IsSafe (ctx.parse_error e) e n h

  pub handle_heartbeat-IsSafe :
      (n : Node D C) → IsSafeNode ctx w n → IsSafeNode ctx w (handle_audit_heartbeat_timeout ctx n)
  unfolding handle_audit_heartbeat_timeout
  handle_heartbeat-IsSafe n h =
      if-IsSafe ctx w (is_me n.pinned_primary n.uuid && n.audit_enabled) _ n
        (sent-IsSafe n (primary_status n.view n.uuid) h tt) h

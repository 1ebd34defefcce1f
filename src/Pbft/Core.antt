-- ===== src/Pbft/Core.antt =====
-- pbft/pbft.cpp: how a node handles the three messages by which the peers agree on a request. The
-- fields that are `persistent` are plain here. A handler that throws leaves what it had changed.
pub mod Safe
pub mod Kept
pub mod Acceptance
pub mod Advance
pub mod Steps
use bluzelle.Base.{
  ℕ, ◌+◌, Bool, true, false, not, ◌&&◌, List, [], ◌∷◌, ◌++◌, Option, none, some, ◌==◌, length,
  if◌then◌else◌,
}
use bluzelle.Bytes.{Bytes, bytes_eq, is_empty}
use bluzelle.Bytes.Order.{Ordered, bytes_ordered, number_ordered, pair_ordered}
use bluzelle.Map.{Map, lookup, insert}
use bluzelle.Sets
use bluzelle.Pbft.Operation.{
  Envelope, MsgType, Operation, Stage, construct, record_request, record_pbft_msg,
  advance_operation_stage, has_db_request, is_ready_for_commit, is_ready_for_execute, at_prepare,
  at_commit,
}
use bluzelle.Pbft.Manager.{
  OperationKey, operation_key_ordered, get_operation_key, find_or_construct, update_operation,
}
use bluzelle.Pbft.Checkpoints.{Checkpoints}
use bluzelle.Pbft.Messages.{
  WireMessage, PbftMsg, empty_msg, Effect, broadcast, audit_commit, apply_operation, Surroundings,
}

-- log_key_t: view and sequence
abbrev pub LogKey : Type 0
LogKey = ℕ × ℕ

instance abbrev pub log_key_ordered : Ordered LogKey
log_key_ordered = pair_ordered ⦃a = number_ordered⦄ ⦃b = number_ordered⦄

-- The members of class pbft, with everything that the node has sent, oldest first.
pub record Node (D C : Type 0) : Type 0 where
  pub uuid : Bytes
  pub view : ℕ
  pub view_is_valid : Bool
  pub last_view_sent : ℕ
  pub next_issued_sequence_number : ℕ
  pub last_executed_sequence_number : ℕ
  pub pinned_primary : Option Bytes
  pub audit_enabled : Bool
  pub accepted_preprepares : Map LogKey OperationKey
  pub operations : Map OperationKey (Operation D C)
  pub checkpoints : Checkpoints
  pub valid_viewchange_messages_for_view : Map ℕ (Map Bytes Envelope)
  pub saved_newview : Option Envelope
  pub recent_requests : List (ℕ × (Bytes × Bytes))
  pub sessions_waiting : Map Bytes ℕ
  pub sent : List (Effect D C)

abbrev pub first_of : List Envelope → Option Envelope
first_of [] = none
first_of (e ∷ es) = some e

abbrev pub msg_key : PbftMsg → OperationKey
msg_key msg = (msg.view, (msg.sequence, msg.request_hash))

module _ {D C : Type 0} where
  abbrev pub send : Node D C → Effect D C → Node D C
  send n e = record n { sent = n.sent ++ e ∷ [] }

  abbrev pub set_operation : Node D C → Operation D C → Node D C
  set_operation n o = record n { operations = update_operation n.operations o }

  abbrev pub common_message_setup : Operation D C → MsgType → PbftMsg
  common_message_setup o type = record empty_msg {
    type = type;
    view = o.view;
    sequence = o.sequence;
    request_hash = o.request_hash;
  }

  unfoldable pub do_preprepared : Operation D C → Node D C → Node D C
  do_preprepared o n = send n (broadcast (common_message_setup o MsgType.prepare) [])

module _ {D C : Type 0} (ctx : Surroundings D C) where
  -- The operation and the node after the call.
  unfoldable pub do_prepared : Operation D C → Node D C → Operation D C × Node D C
  do_prepared o n = elim (advance_operation_stage (length ctx.peers) o Stage.commit) [
    | none ↦ (o, n)
    | some o' ↦
        (o', send (set_operation n o') (broadcast (common_message_setup o' MsgType.commit) []))
  ]

  -- What the service gets: the operation with the session that waits for it, or an empty request in
  -- its place, so that the sequence has no hole.
  unfoldable pub executed : Operation D C → Node D C → Effect D C
  executed o n =
      if has_db_request o
      then apply_operation o (lookup o.request_hash n.sessions_waiting)
      else apply_operation
          (record_request ctx.parse_db ctx.parse_config
            (construct ctx.no_db ctx.no_config o.view o.sequence (ctx.hash ctx.null_request))
            ctx.null_request)
          none

  abbrev pub audit : Operation D C → Node D C → Node D C
  audit o n = if n.audit_enabled then send n (audit_commit o.request_hash o.sequence) else n

  unfoldable pub do_committed : Operation D C → Node D C → Node D C
  unfolding executed
  do_committed o n = elim (advance_operation_stage (length ctx.peers) o Stage.execute) [
    | none ↦ n
    | some o' ↦ send (audit o' (set_operation n o')) (executed o' n)
  ]

  abbrev pub commit_step : Operation D C → Node D C → Operation D C × Node D C
  commit_step o n =
      if at_prepare o.stage && is_ready_for_commit (length ctx.peers) o
      then do_prepared o n
      else (o, n)

  abbrev pub execute_step : Operation D C → Node D C → Node D C
  execute_step o n =
      if at_commit o.stage && is_ready_for_execute (length ctx.peers) o then do_committed o n else n

  unfoldable pub maybe_advance_operation_state : Operation D C → Node D C → Node D C
  unfolding do_prepared do_committed
  maybe_advance_operation_state o n = let (o', n') = commit_step o n in execute_step o' n'

  unfoldable pub maybe_record_request : Option Envelope → Operation D C → Operation D C
  maybe_record_request none o = o
  maybe_record_request (some e) o =
      if bytes_eq (ctx.hash e) o.request_hash
      then record_request ctx.parse_db ctx.parse_config o e
      else o

  -- `find_or_construct` and `record_pbft_msg`, and what the handler does with the operation.
  abbrev pub with_recorded :
      PbftMsg → Envelope → Node D C → (Operation D C → Node D C → Node D C) → Node D C
  with_recorded msg e n f =
      let (held, o) = find_or_construct ctx.no_db ctx.no_config n.operations (msg_key msg) in
      let found : Node D C = record n { operations = held } in
      elim (record_pbft_msg o msg.type e) [ none ↦ found | some o' ↦ f o' (set_operation found o') ]

  unfoldable pub accept : PbftMsg → List Envelope → Operation D C → Node D C → Node D C
  unfolding do_preprepared maybe_advance_operation_state maybe_record_request
  accept msg requests o n =
      let o' = maybe_record_request (first_of requests) (maybe_record_request msg.request o) in
      let n' : Node D C = record (set_operation n o') {
        accepted_preprepares =
            insert (msg.view, msg.sequence) (get_operation_key o') n.accepted_preprepares;
      } in
      maybe_advance_operation_state o' (do_preprepared o' n')

  unfoldable pub handle_preprepare : PbftMsg → WireMessage → Node D C → Node D C
  unfolding accept
  handle_preprepare msg m n = elim (lookup (msg.view, msg.sequence) n.accepted_preprepares) [
    | none ↦ with_recorded msg m.envelope n (accept msg m.piggybacked_requests)
    | some key ↦
        if bytes_eq key.1.1 msg.request_hash
        then with_recorded msg m.envelope n (accept msg m.piggybacked_requests)
        else n
  ]

  unfoldable pub handle_prepare : PbftMsg → WireMessage → Node D C → Node D C
  unfolding maybe_advance_operation_state
  handle_prepare msg m n = with_recorded msg m.envelope n maybe_advance_operation_state

  unfoldable pub handle_commit : PbftMsg → WireMessage → Node D C → Node D C
  unfolding maybe_advance_operation_state
  handle_commit msg m n = with_recorded msg m.envelope n maybe_advance_operation_state

  abbrev pub is_view_message : MsgType → Bool
  is_view_message MsgType.viewchange = true
  is_view_message MsgType.newview = true
  is_view_message _ = false

  abbrev pub is_agreement_message : MsgType → Bool
  is_agreement_message MsgType.preprepare = true
  is_agreement_message MsgType.prepare = true
  is_agreement_message MsgType.commit = true
  is_agreement_message _ = false

  unfoldable pub preliminary_filter_msg : PbftMsg → Node D C → Bool
  preliminary_filter_msg msg n =
      if not n.view_is_valid && not (is_view_message msg.type)
      then false
      else if is_agreement_message msg.type
      then msg.view == n.view
      else true

  unfoldable pub is_peer : Bytes → Bool
  is_peer sender = Sets.member sender ctx.peers

  -- The test of a signature; messages without a sender are let through.
  abbrev pub has_bad_signature : Envelope → Bool
  has_bad_signature e = not (is_empty e.sender) && (ctx.peer_message_signing && not (ctx.verify e))

  -- What `handle_message` tests before it looks at the type.
  unfoldable pub is_admitted : PbftMsg → WireMessage → Node D C → Bool
  unfolding preliminary_filter_msg is_peer
  is_admitted msg m n =
      is_peer m.envelope.sender
      && (preliminary_filter_msg msg n && not (has_bad_signature m.envelope))

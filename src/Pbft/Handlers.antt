-- ===== src/Pbft/Handlers.antt =====
-- pbft/pbft.cpp: the messages that change the view, and the table of handlers.
pub mod Saved
pub mod Safe
use bluzelle.Base.{
  ℕ, ◌+◌, ◌-◌, ◌*◌, Bool, true, false, not, ◌&&◌, List, [], ◌∷◌, Option, none, some, ltb, ◌==◌,
  length, if◌then◌else◌,
}
use bluzelle.Bytes.{Bytes, bytes_eq}
use bluzelle.Bytes.Order.{bytes_ordered, number_ordered}
use bluzelle.Map.{Map, lookup, insert, inner}
use bluzelle.Pbft.Operation.{Envelope, MsgType, record_request}
use bluzelle.Pbft.Manager.{operation_key_ordered, find_or_construct}
use bluzelle.Pbft.Checkpoints.{handle_checkpoint_message}
use bluzelle.Pbft.Messages.{WireMessage, PreparedProof, PbftMsg, broadcast, Surroundings}
use bluzelle.Pbft.Core.{
  Node, send, set_operation, handle_preprepare, handle_prepare, handle_commit, is_admitted,
}
use bluzelle.Pbft.ViewChange.{
  parse_or_empty, max_faulty_nodes, is_valid_viewchange_message, initiate_viewchange,
  set_primary_from_newview,
}
use bluzelle.Pbft.NewView.{predict_primary, build_newview, is_valid_newview_message}

abbrev pub is_me : Option Bytes → Bytes → Bool
is_me none uuid = false
is_me (some p) uuid = bytes_eq p uuid

module _ {D C : Type 0} (ctx : Surroundings D C) where
  unfoldable pub save_checkpoint : List Envelope → Node D C → Node D C
  save_checkpoint [] n = n
  save_checkpoint (e ∷ es) n = save_checkpoint es (
      if ctx.peer_message_signing && not (ctx.verify e)
      then n
      else record n { checkpoints = handle_checkpoint_message ctx e n.checkpoints })

  -- The request with the hash, the last one if there are several.
  unfoldable pub map_request_to_hash : Bytes → List Envelope → Option Envelope
  map_request_to_hash hash [] = none
  map_request_to_hash hash (r ∷ rs) = elim (map_request_to_hash hash rs) [
    | some later ↦ some later
    | none ↦ if bytes_eq (ctx.hash r) hash then some r else none
  ]

  unfoldable pub save_request : List Envelope → PreparedProof → Node D C → Node D C
  unfolding map_request_to_hash
  save_request requests proof n =
      let p = parse_or_empty ctx proof.pre_prepare in
      elim (map_request_to_hash p.request_hash requests) [
        | none ↦ n
        | some r ↦
            let (held, o) =
              find_or_construct ctx.no_db ctx.no_config n.operations
                (p.view, (p.sequence, p.request_hash)) in
            set_operation (record n { operations = held })
              (record_request ctx.parse_db ctx.parse_config o r)
      ]

  unfoldable pub save_all_requests : List Envelope → List PreparedProof → Node D C → Node D C
  unfolding save_request
  save_all_requests requests [] n = n
  save_all_requests requests (p ∷ ps) n = save_all_requests requests ps (save_request requests p n)

  abbrev pub save_viewchange : PbftMsg → Envelope → Node D C → Node D C
  save_viewchange msg e n = record n {
    valid_viewchange_messages_for_view =
        insert msg.view
          (insert e.sender e (inner (lookup msg.view n.valid_viewchange_messages_for_view)))
          n.valid_viewchange_messages_for_view;
  }

  -- Joins a change of the view once enough others have asked for it.
  unfoldable pub join_viewchange : PbftMsg → Node D C → Node D C
  unfolding max_faulty_nodes initiate_viewchange
  join_viewchange msg n =
      if n.view_is_valid
        && (length (inner (lookup msg.view n.valid_viewchange_messages_for_view))
              == max_faulty_nodes ctx + 1
            && ltb n.last_view_sent msg.view)
      then initiate_viewchange ctx (some msg.view) n
      else n

  -- The first view that this node is to open.
  unfoldable pub view_to_open : Map ℕ (Map Bytes Envelope) → Node D C → Option ℕ
  unfolding predict_primary max_faulty_nodes
  view_to_open [] n = none
  view_to_open ((v, messages) ∷ rest) n =
      if is_me (predict_primary ctx v n) n.uuid
        && (ltb n.view v && length messages == 2 * max_faulty_nodes ctx + 1)
      then some v
      else view_to_open rest n

  -- Opens the view with the messages for the view of `msg`.
  unfoldable pub open_view : PbftMsg → Node D C → Node D C
  unfolding view_to_open build_newview
  open_view msg n = elim (view_to_open n.valid_viewchange_messages_for_view n) [
    | none ↦ n
    | some v ↦
        let (newview, held) =
          build_newview ctx v (inner (lookup msg.view n.valid_viewchange_messages_for_view)) true
            n.operations in
        send (record n { operations = held }) (broadcast newview [])
  ]

  unfoldable pub handle_viewchange : PbftMsg → WireMessage → Node D C → Node D C
  unfolding is_valid_viewchange_message save_all_requests save_checkpoint join_viewchange open_view
  handle_viewchange msg m n =
      if is_valid_viewchange_message ctx msg m.envelope n
      then open_view msg (
          join_viewchange msg (
            save_checkpoint msg.checkpoint_messages (
              save_viewchange msg m.envelope
                (save_all_requests m.piggybacked_requests msg.prepared_proofs n))))
      else n

  unfoldable pub process_preprepares : List WireMessage → Node D C → Node D C
  process_preprepares [] n = n
  process_preprepares (m ∷ ms) n = elim (ctx.parse_pbft m.envelope) [
    | none ↦ process_preprepares ms n
    | some msg ↦
        process_preprepares ms (record (handle_preprepare ctx msg m n) {
          next_issued_sequence_number = msg.sequence + 1;
        })
  ]

  abbrev pub first_viewchange : List Envelope → PbftMsg
  first_viewchange [] = bluzelle.Pbft.Messages.empty_msg
  first_viewchange (e ∷ es) = parse_or_empty ctx e

  -- The node with the checkpoints, the first sequence number and the primary of the new view.
  unfoldable pub prepare_view : PbftMsg → Envelope → Node D C → Node D C
  unfolding save_checkpoint set_primary_from_newview
  prepare_view msg e n =
      let viewchange = first_viewchange msg.viewchange_messages in
      set_primary_from_newview ctx e (record (save_checkpoint viewchange.checkpoint_messages n) {
        next_issued_sequence_number = viewchange.sequence + 1;
      })

  abbrev pub enter_view : ℕ → Node D C → Node D C
  enter_view view n = record n { view = view; view_is_valid = true }

  unfoldable pub handle_newview : PbftMsg → WireMessage → Node D C → Node D C
  unfolding is_valid_newview_message prepare_view process_preprepares
  handle_newview msg m n =
      if is_valid_newview_message ctx msg m.envelope n
      then record (process_preprepares msg.pre_prepare_messages
          (enter_view msg.view (prepare_view msg m.envelope n))) { saved_newview = some m.envelope }
      else n

  -- The type selects the handler; the code throws for any other type.
  unfoldable pub handle_message : PbftMsg → WireMessage → Node D C → Node D C
  unfolding is_admitted handle_preprepare handle_prepare handle_commit handle_viewchange
      handle_newview
  handle_message msg m n =
      if is_admitted ctx msg m n
      then elim msg.type [
        | MsgType.preprepare ↦ handle_preprepare ctx msg m n
        | MsgType.prepare ↦ handle_prepare ctx msg m n
        | MsgType.commit ↦ handle_commit ctx msg m n
        | MsgType.viewchange ↦ handle_viewchange msg m n
        | MsgType.newview ↦ handle_newview msg m n
        | MsgType.undefined ↦ n
      ]
      else n

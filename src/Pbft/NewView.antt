-- ===== src/Pbft/NewView.antt =====
-- pbft/pbft.cpp: the message that opens a new view, how the primary builds it and how the others
-- test it. A sequence number of 2^64 - 1, at which the loop over the sequence would not end, is
-- taken not to occur.
pub mod Proofs
pub mod Chosen
use bluzelle.Base.{
  ℕ, zero, suc, ◌+◌, ◌-◌, ◌*◌, ◌%◌, Bool, true, false, not, ◌&&◌, ◌||◌, List, [], ◌∷◌, ◌++◌, Option,
  none, some, ltb, leb, ◌==◌, length, if◌then◌else◌,
}
use bluzelle.Bytes.{Bytes, bytes_eq}
use bluzelle.Bytes.Order.{bytes_ordered, number_ordered}
use bluzelle.Map.{Map, lookup, insert}
use bluzelle.Sets
use bluzelle.Pbft.Operation.{Envelope, MsgType, Operation}
use bluzelle.Pbft.Manager.{OperationKey, operation_key_ordered, find_or_construct}
use bluzelle.Pbft.Messages.{WireMessage, PreparedProof, PbftMsg, empty_msg, Surroundings}
use bluzelle.Pbft.Core.{Node}
use bluzelle.Pbft.ViewChange.{
  map_values, same_type, parse_or_empty, max_faulty_nodes, is_valid_viewchange_message,
}

abbrev pub nth_peer : List Bytes → ℕ → Option Bytes
nth_peer [] i = none
nth_peer (p ∷ ps) zero = some p
nth_peer (p ∷ ps) (suc i) = nth_peer ps i

abbrev pub max : ℕ → ℕ → ℕ
max a b = if ltb a b then b else a

abbrev pub is_in : {V : Type 0} → Option V → Bool
is_in none = false
is_in (some v) = true

abbrev pub as_list : Option Envelope → List Envelope
as_list none = []
as_list (some e) = e ∷ []

module _ {D C : Type 0} (ctx : Surroundings D C) where
  unfoldable pub predict_primary : ℕ → Node D C → Option Bytes
  predict_primary view n = if view == n.view then n.pinned_primary else elim ctx.ordered_peers [
    | [] ↦ none
    | p ∷ ps ↦ nth_peer (p ∷ ps) (view % length (p ∷ ps))
  ]

  -- The sequence number of the latest checkpoint that the messages name.
  unfoldable pub max_checkpoint_sequence : List Envelope → ℕ → ℕ
  max_checkpoint_sequence [] m = m
  max_checkpoint_sequence (e ∷ es) m =
      max_checkpoint_sequence es (max m (parse_or_empty ctx e).sequence)

  -- The requests that are attached to a preprepare, and the operations after the call.
  abbrev pub attached :
      Bool
      → PbftMsg
      → Map OperationKey (Operation D C)
      → Map OperationKey (Operation D C) × List Envelope
  attached attach_reqs p held =
      if not p.internal && attach_reqs
      then (let (held', o) =
            find_or_construct ctx.no_db ctx.no_config held (p.view, (p.sequence, p.request_hash)) in
          (held', as_list o.request))
      else (held, [])

  unfoldable pub add_proof :
      ℕ
      → ℕ
      → Bool
      → PreparedProof
      → Map ℕ WireMessage × Map OperationKey (Operation D C)
      → Map ℕ WireMessage × Map OperationKey (Operation D C)
  add_proof new_view max_checkpoint attach_reqs proof (pre_prepares, held) =
      let p = parse_or_empty ctx proof.pre_prepare in
      if is_in (lookup p.sequence pre_prepares) || leb p.sequence max_checkpoint
      then (pre_prepares, held)
      else (let (held', requests) = attached attach_reqs p held in
          let m : WireMessage = record {
            envelope = ctx.sign (record p { view = new_view });
            piggybacked_requests = requests;
          } in
          (insert p.sequence m pre_prepares, held'))

  unfoldable pub add_proofs :
      ℕ
      → ℕ
      → Bool
      → List PreparedProof
      → Map ℕ WireMessage × Map OperationKey (Operation D C)
      → Map ℕ WireMessage × Map OperationKey (Operation D C)
  unfolding add_proof
  add_proofs new_view max_checkpoint attach_reqs [] s = s
  add_proofs new_view max_checkpoint attach_reqs (p ∷ ps) s =
      add_proofs new_view max_checkpoint attach_reqs ps
        (add_proof new_view max_checkpoint attach_reqs p s)

  -- The proofs of all the messages, in their order.
  unfoldable pub all_proofs : List Envelope → List PreparedProof
  all_proofs [] = []
  all_proofs (e ∷ es) = (parse_or_empty ctx e).prepared_proofs ++ all_proofs es

  unfoldable pub last_sequence_number : Map ℕ WireMessage → ℕ → ℕ
  last_sequence_number [] m = m
  last_sequence_number ((i, e) ∷ pre_prepares) m = last_sequence_number pre_prepares (max m i)

  -- A preprepare for a request that does nothing.
  abbrev pub no_op : ℕ → ℕ → WireMessage
  no_op new_view i = record {
    envelope = ctx.sign (record empty_msg {
      view = new_view;
      sequence = i;
      type = MsgType.preprepare;
      request_hash = ctx.hash ctx.null_request;
    });
    piggybacked_requests = ctx.null_request ∷ [];
  }

  -- The loop of `fill_in_missing_pre_prepares`: `rounds` numbers from `i` on.
  unfoldable pub fill : ℕ → ℕ → ℕ → Map ℕ WireMessage → Map ℕ WireMessage
  fill new_view i zero pre_prepares = pre_prepares
  fill new_view i (suc rounds) pre_prepares = fill new_view (i + 1) rounds (
      if is_in (lookup i pre_prepares)
      then pre_prepares
      else insert i (no_op new_view i) pre_prepares)

  unfoldable pub fill_in_missing_pre_prepares : ℕ → ℕ → Map ℕ WireMessage → Map ℕ WireMessage
  unfolding fill last_sequence_number
  fill_in_missing_pre_prepares max_checkpoint new_view pre_prepares =
      fill new_view (max_checkpoint + 1) (last_sequence_number pre_prepares 0 - max_checkpoint)
        pre_prepares

  unfoldable pub make_newview : ℕ → Map Bytes Envelope → Map ℕ WireMessage → PbftMsg
  make_newview new_view_index viewchange_envelopes pre_prepares = record empty_msg {
    type = MsgType.newview;
    view = new_view_index;
    viewchange_messages = map_values viewchange_envelopes;
    pre_prepare_messages = map_values pre_prepares;
  }

  unfoldable pub pre_prepares_for :
      ℕ
      → List Envelope
      → Bool
      → Map OperationKey (Operation D C)
      → Map ℕ WireMessage × Map OperationKey (Operation D C)
  unfolding max_checkpoint_sequence add_proofs all_proofs fill_in_missing_pre_prepares
  pre_prepares_for new_view envelopes attach_reqs held =
      let m = max_checkpoint_sequence envelopes 0 in
      let (pre_prepares, held') =
        add_proofs new_view m attach_reqs (all_proofs envelopes) ([], held) in
      (fill_in_missing_pre_prepares m new_view pre_prepares, held')

  -- The message, and the operations after the call.
  unfoldable pub build_newview :
      ℕ
      → Map Bytes Envelope
      → Bool
      → Map OperationKey (Operation D C)
      → PbftMsg × Map OperationKey (Operation D C)
  unfolding pre_prepares_for make_newview
  build_newview new_view viewchange_envelopes attach_reqs held =
      let (pre_prepares, held') =
        pre_prepares_for new_view (map_values viewchange_envelopes) attach_reqs held in
      (make_newview new_view viewchange_envelopes pre_prepares, held')

  unfoldable pub valid_viewchanges : PbftMsg → List Envelope → Node D C → Bool
  unfolding is_valid_viewchange_message
  valid_viewchanges theirs [] n = true
  valid_viewchanges theirs (e ∷ es) n =
      elim (ctx.parse_pbft e) [
        | none ↦ false
        | some m ↦
            same_type m.type MsgType.viewchange
            && (is_valid_viewchange_message ctx m e n && m.view == theirs.view)
      ]
      && valid_viewchanges theirs es n

  abbrev pub senders_of : List Envelope → List Bytes → List Bytes
  senders_of [] s = s
  senders_of (e ∷ es) s = senders_of es (Sets.insert e.sender s)

  abbrev pub by_sender : List Envelope → Map Bytes Envelope → Map Bytes Envelope
  by_sender [] m = m
  by_sender (e ∷ es) m = by_sender es (insert e.sender e m)

  -- The comparison of a preprepare of theirs with ours.
  unfoldable pub same_preprepare : Bytes → WireMessage → WireMessage → Bool
  same_preprepare sender ours theirs =
      not (ctx.peer_message_signing && not (ctx.verify theirs.envelope))
      && (bytes_eq theirs.envelope.sender sender
          && (let a = parse_or_empty ctx ours.envelope in
              let b = parse_or_empty ctx theirs.envelope in
              same_type a.type b.type
              && (same_type b.type MsgType.preprepare
                  && (a.view == b.view
                      && (a.sequence == b.sequence && bytes_eq a.request_hash b.request_hash)))))

  -- The tests of the numbers and of all the pairs.
  unfoldable pub same_preprepares : Bytes → List WireMessage → List WireMessage → Bool
  unfolding same_preprepare
  same_preprepares sender [] [] = true
  same_preprepares sender [] (b ∷ theirs) = false
  same_preprepares sender (a ∷ ours) [] = false
  same_preprepares sender (a ∷ ours) (b ∷ theirs) =
      same_preprepare sender a b && same_preprepares sender ours theirs

  unfoldable pub is_valid_newview_message : PbftMsg → Envelope → Node D C → Bool
  unfolding predict_primary valid_viewchanges same_preprepares build_newview max_faulty_nodes
  is_valid_newview_message theirs original n =
      let ours =
        (build_newview theirs.view (by_sender theirs.viewchange_messages []) false
          n.operations).0 in
      elim (predict_primary theirs.view n) [
        | none ↦ false
        | some primary ↦
            bytes_eq original.sender primary
            && (leb (2 * max_faulty_nodes ctx + 1) (length theirs.viewchange_messages)
                && (valid_viewchanges theirs theirs.viewchange_messages n
                    && (length (senders_of theirs.viewchange_messages [])
                          == length theirs.viewchange_messages
                        && same_preprepares original.sender ours.pre_prepare_messages
                            theirs.pre_prepare_messages)))
      ]

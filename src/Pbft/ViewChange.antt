-- ===== src/Pbft/ViewChange.antt =====
-- pbft/pbft.cpp: what a message for a change of the view has to show, and how one is made.
use bluzelle.Base.{
  ℕ, ◌+◌, ◌*◌, Bool, true, false, not, ◌&&◌, ◌||◌, List, [], ◌∷◌, Option, none, some, ltb, leb,
  ◌==◌, filter, length, if◌then◌else◌,
}
use bluzelle.Bytes.{Bytes, bytes_eq}
use bluzelle.Bytes.Order.{bytes_ordered, number_ordered}
use bluzelle.Map.{Map, lookup, insert}
use bluzelle.Sets
use bluzelle.Pbft.Quorum.{faulty_nodes_bound, honest_member_size}
use bluzelle.Pbft.Operation.{Envelope, MsgType, Operation, has_config_request}
use bluzelle.Pbft.Checkpoints.{Checkpoint, checkpoint_ordered}
use bluzelle.Pbft.Messages.{
  PreparedProof, PbftMsg, empty_msg, broadcast, audit_failure, Surroundings,
}
use bluzelle.Pbft.Manager.{prepared_operations_since}
use bluzelle.Pbft.Core.{Node, send, is_peer}

abbrev pub map_values : {K V : Type 0} → Map K V → List V
map_values [] = []
map_values ((k, v) ∷ m) = v ∷ map_values m

abbrev pub elements : Option (List Bytes) → List Bytes
elements none = []
elements (some s) = s

abbrev pub same_type : MsgType → MsgType → Bool
same_type MsgType.preprepare MsgType.preprepare = true
same_type MsgType.prepare MsgType.prepare = true
same_type MsgType.commit MsgType.commit = true
same_type MsgType.viewchange MsgType.viewchange = true
same_type MsgType.newview MsgType.newview = true
same_type MsgType.undefined MsgType.undefined = true
same_type a b = false

module _ {D C : Type 0} (ctx : Surroundings D C) where
  unfoldable pub max_faulty_nodes : ℕ
  max_faulty_nodes = faulty_nodes_bound (length ctx.peers)

  -- A message that is not from a peer, or whose signature is tested and wrong.
  abbrev pub is_bad_envelope : Envelope → Bool
  unfolding is_peer
  is_bad_envelope e = not (is_peer ctx e.sender) || (ctx.peer_message_signing && not (ctx.verify e))

  -- What a failed parse leaves is an empty message.
  abbrev pub parse_or_empty : Envelope → PbftMsg
  parse_or_empty e = elim (ctx.parse_pbft e) [ none ↦ empty_msg | some m ↦ m ]

  -- The loop of `validate_and_extract_checkpoint_hashes`.
  unfoldable pub checkpoint_senders :
      List Envelope → Map Checkpoint (List Bytes) → Map Checkpoint (List Bytes)
  checkpoint_senders [] hashes = hashes
  checkpoint_senders (e ∷ es) hashes = checkpoint_senders es (
      if is_bad_envelope e then hashes else elim (ctx.parse_checkpoint e) [
        | none ↦ hashes
        | some cp ↦ insert cp (Sets.insert e.sender (elements (lookup cp hashes))) hashes
      ])

  unfoldable pub validate_and_extract_checkpoint_hashes : PbftMsg → Map Checkpoint (List Bytes)
  unfolding checkpoint_senders
  validate_and_extract_checkpoint_hashes msg =
      filter
        (λ (h : Checkpoint × List Bytes). leb (honest_member_size (length ctx.peers)) (length h.1))
        (checkpoint_senders msg.checkpoint_messages [])

  -- A prepare of the operation that the preprepare is about.
  unfoldable pub is_matching_prepare : PbftMsg → Envelope → Bool
  is_matching_prepare preprepare e = not (is_bad_envelope e) && elim (ctx.parse_pbft e) [
    | none ↦ false
    | some m ↦
        same_type m.type MsgType.prepare
        && (preprepare.sequence == m.sequence
            && (preprepare.view == m.view && bytes_eq preprepare.request_hash m.request_hash))
  ]

  -- The senders of the prepares, unless one of them does not match.
  unfoldable pub prepare_senders : PbftMsg → List Envelope → List Bytes → Option (List Bytes)
  unfolding is_matching_prepare
  prepare_senders preprepare [] senders = some senders
  prepare_senders preprepare (e ∷ es) senders =
      let rest = prepare_senders preprepare es (Sets.insert e.sender senders) in
      if is_matching_prepare preprepare e then rest else none

  unfoldable pub is_valid_prepared_proof : PreparedProof → ℕ → Bool
  unfolding prepare_senders max_faulty_nodes
  is_valid_prepared_proof proof valid_checkpoint_sequence =
      not (is_bad_envelope proof.pre_prepare) && elim (ctx.parse_pbft proof.pre_prepare) [
        | none ↦ false
        | some m ↦
            ltb valid_checkpoint_sequence m.sequence
            && (same_type m.type MsgType.preprepare && elim (prepare_senders m proof.prepare []) [
              | none ↦ false
              | some senders ↦ leb (2 * max_faulty_nodes + 1) (length senders)
            ])
      ]

  unfoldable pub all_valid_proofs : List PreparedProof → ℕ → Bool
  unfolding is_valid_prepared_proof
  all_valid_proofs [] valid_checkpoint_sequence = true
  all_valid_proofs (p ∷ ps) valid_checkpoint_sequence =
      is_valid_prepared_proof p valid_checkpoint_sequence
      && all_valid_proofs ps valid_checkpoint_sequence

  -- The sequence number of the first checkpoint that is proved, zero if none is.
  abbrev pub first_sequence : Map Checkpoint (List Bytes) → ℕ
  first_sequence [] = 0
  first_sequence ((cp, senders) ∷ m) = cp.0

  abbrev pub is_none : Map Checkpoint (List Bytes) → Bool
  is_none [] = true
  is_none (e ∷ m) = false

  unfoldable pub is_valid_viewchange_message : PbftMsg → Envelope → Node D C → Bool
  unfolding is_peer validate_and_extract_checkpoint_hashes all_valid_proofs
  is_valid_viewchange_message msg original n =
      let hashes = validate_and_extract_checkpoint_hashes msg in
      is_peer ctx original.sender
      && (ltb n.view msg.view
          && (not (is_none hashes && not (msg.sequence == 0))
              && (msg.sequence == first_sequence hashes
                  && all_valid_proofs msg.prepared_proofs (first_sequence hashes))))

  -- The proofs and the requests of the operations; `none` where the code throws for want of a
  -- preprepare or a request.
  unfoldable pub make_proofs : List (Operation D C) → Option (List PreparedProof × List Envelope)
  make_proofs [] = some ([], [])
  make_proofs (o ∷ os) = elim (make_proofs os) [
    | none ↦ none
    | some (proofs, requests) ↦ elim o.preprepare_message [
      | none ↦ none
      | some e ↦
          let proof : PreparedProof = record {
            pre_prepare = e;
            prepare = map_values o.prepare_messages;
          } in
          if has_config_request o
          then some (proof ∷ proofs, requests)
          else elim o.request [ none ↦ none | some r ↦ some (proof ∷ proofs, r ∷ requests) ]
    ]
  ]

  unfoldable pub make_viewchange :
      ℕ → ℕ → Map Bytes Envelope → Map ℕ (Operation D C) → Option (PbftMsg × List Envelope)
  unfolding make_proofs
  make_viewchange new_view base_sequence_number stable_checkpoint_proof prepared_operations =
      elim (make_proofs (map_values prepared_operations)) [
        | none ↦ none
        | some (proofs, requests) ↦ some (
          record empty_msg {
            type = MsgType.viewchange;
            view = new_view;
            sequence = base_sequence_number;
            checkpoint_messages = map_values stable_checkpoint_proof;
            prepared_proofs = proofs;
          },
          requests,
        )
      ]

  abbrev pub chosen_view : Option ℕ → Node D C → ℕ
  chosen_view none n = n.view + 1
  chosen_view (some v) n = v

  -- Where `make_viewchange` throws, for a prepared operation without a preprepare, the node stays as
  -- it is; the code leaves its caller too.
  unfoldable pub initiate_viewchange : Option ℕ → Node D C → Node D C
  unfolding make_viewchange
  initiate_viewchange opt_view n =
      let v = chosen_view opt_view n in
      if ltb n.last_view_sent v
      then (let base = n.checkpoints.latest_stable_checkpoint.0 in
          let n' : Node D C = record n { view_is_valid = false } in
          elim (make_viewchange v base n.checkpoints.latest_stable_checkpoint_proof
            (prepared_operations_since n.operations base)) [
              | none ↦ n'
              | some (msg, requests) ↦ record (send n' (broadcast msg requests)) {
                last_view_sent = v;
              }
            ])
      else n

  unfoldable pub notify_audit_failure_detected : Node D C → Node D C
  notify_audit_failure_detected n = if n.audit_enabled then send n audit_failure else n

  unfoldable pub handle_failure : Node D C → Node D C
  unfolding initiate_viewchange notify_audit_failure_detected
  handle_failure n = initiate_viewchange none (notify_audit_failure_detected n)

  unfoldable pub set_primary_from_newview : Envelope → Node D C → Node D C
  unfolding is_peer initiate_viewchange
  set_primary_from_newview new_view n =
      if is_peer ctx new_view.sender
      then record n { pinned_primary = some new_view.sender }
      else initiate_viewchange none (record n { pinned_primary = none })

-- ===== src/Pbft/Handlers/Safe.antt =====
-- Everything that a node does keeps the invariant of Core.Safe.
use bluzelle.Base.{
  ℕ, ◌+◌, ◌≡◌, refl, Bool, true, false, not, ◌&&◌, ◌||◌, List, [], ◌∷◌, some, leb, Bool-cases,
  Option-cases, inl, inr, All, length, arith, false-ne-true,
}
use bluzelle.Bytes.{Bytes}
use bluzelle.Sets
use bluzelle.Bytes.Order.{bytes_ordered, number_ordered}
use bluzelle.Map.{Map, lookup, inner}
use bluzelle.Pbft.Operation.{Envelope, MsgType, Operation}
use bluzelle.Pbft.Operation.Stages.{World}
use bluzelle.Pbft.Manager.{OperationKey, operation_key_ordered}
use bluzelle.Pbft.Messages.{WireMessage, PreparedProof, PbftMsg, Effect, Surroundings}
use bluzelle.Pbft.Core.{
  handle_preprepare, handle_prepare, handle_commit, Node, LogKey, is_admitted, is_peer, msg_key,
}
use bluzelle.Pbft.Core.Safe.{IsSafe, send-IsSafe, find_or_construct-IsSafe}
use bluzelle.Pbft.Core.Advance.{IsSafeNode}
use bluzelle.Pbft.Core.Steps.{handle_vote-IsSafe, handle_preprepare-IsSafe}
use bluzelle.Pbft.ViewChange.{same_type, parse_or_empty, is_valid_viewchange_message, map_values}
use bluzelle.Pbft.NewView.{
  make_newview, add_proof, add_proofs, all_proofs, attached, pre_prepares_for, build_newview,
  is_valid_newview_message, same_preprepare, same_preprepares, by_sender, predict_primary,
  max_checkpoint_sequence, is_in,
}
use bluzelle.Pbft.Handlers.{
  save_checkpoint, save_all_requests, save_viewchange, join_viewchange, view_to_open, open_view,
  handle_viewchange, process_preprepares, first_viewchange, prepare_view, enter_view,
  handle_newview, handle_message,
}
use bluzelle.Pbft.Handlers.Saved.{
  set_primary-IsSafe, if-IsSafe, join_viewchange-IsSafe, save_all_requests-IsSafe,
  save_checkpoint-IsSafe,
}

module _ {D C : Type 0} (ctx : Surroundings D C) (w : World)
    (fits : w.is_size (length ctx.peers)) where
  -- Every message that can be parsed is a preprepare.
  abbrev ArePreprepares : List WireMessage → Type 0
  ArePreprepares ms =
      All
        (λ (m : WireMessage).
          (msg : PbftMsg) → ctx.parse_pbft m.envelope ≡ some msg → msg.type ≡ MsgType.preprepare)
        ms

  same_type-preprepare :
      (t : MsgType) → same_type t MsgType.preprepare ≡ true → t ≡ MsgType.preprepare
  same_type-preprepare t e = ground arith

  -- What the test of a message for a new view shows of the preprepares in it.
  same_preprepares-ArePreprepares :
      (sender : Bytes) (ours theirs : List WireMessage)
      → same_preprepares ctx sender ours theirs ≡ true
      → ArePreprepares theirs
  unfolding same_preprepares same_preprepare
  same_preprepares-ArePreprepares sender [] [] e = tt
  same_preprepares-ArePreprepares sender [] (b ∷ theirs) e = absurd (false-ne-true e)
  same_preprepares-ArePreprepares sender (a ∷ ours) [] e = absurd (false-ne-true e)
  same_preprepares-ArePreprepares sender (a ∷ ours) (b ∷ theirs) e = (
    λ msg p. same_type-preprepare msg.type (ground (arith, e, p)),
    same_preprepares-ArePreprepares sender ours theirs (ground (arith, e)),
  )

  process_preprepares-IsSafe :
      (ms : List WireMessage) (n : Node D C)
      → ArePreprepares ms
      → IsSafeNode ctx w n
      → IsSafeNode ctx w (process_preprepares ctx ms n)
  unfolding process_preprepares
  process_preprepares-IsSafe [] n a h = h
  process_preprepares-IsSafe (m ∷ ms) n a h = elim (Option-cases (ctx.parse_pbft m.envelope)) [
    | inl e ↦ rw (process_preprepares, e) (process_preprepares-IsSafe ms n a.1 h)
    | inr (msg, e) ↦
        rw (process_preprepares, e)
          (process_preprepares-IsSafe ms _ a.1
            (handle_preprepare-IsSafe ctx w fits msg m n (a.0 msg e) h))
  ]

  prepare_view-IsSafe :
      (msg : PbftMsg) (e : Envelope) (n : Node D C)
      → IsSafeNode ctx w n
      → IsSafeNode ctx w (prepare_view ctx msg e n)
  unfolding prepare_view
  prepare_view-IsSafe msg e n h =
      let v = first_viewchange ctx msg.viewchange_messages in
      let saved = save_checkpoint ctx v.checkpoint_messages n in
      set_primary-IsSafe ctx w e (record saved { next_issued_sequence_number = v.sequence + 1 })
        (save_checkpoint-IsSafe ctx w v.checkpoint_messages n h)

  valid-ArePreprepares :
      (msg : PbftMsg) (e : Envelope) (n : Node D C)
      → is_valid_newview_message ctx msg e n ≡ true
      → ArePreprepares msg.pre_prepare_messages
  unfolding is_valid_newview_message
  valid-ArePreprepares msg e n z = elim (Option-cases (predict_primary ctx msg.view n)) [
    | inl q ↦ absurd (false-ne-true (rw (is_valid_newview_message, q) at z))
    | inr (primary, q) ↦
        same_preprepares-ArePreprepares e.sender
          (build_newview ctx msg.view (by_sender ctx msg.viewchange_messages []) false
            n.operations).0.pre_prepare_messages
          msg.pre_prepare_messages (ground (arith, z, q))
  ]

  handle_newview-IsSafe :
      (msg : PbftMsg) (m : WireMessage) (n : Node D C)
      → IsSafeNode ctx w n
      → IsSafeNode ctx w (handle_newview ctx msg m n)
  unfolding handle_newview
  handle_newview-IsSafe msg m n h =
      let entered = enter_view ctx msg.view (prepare_view ctx msg m.envelope n) in
      elim (Bool-cases (is_valid_newview_message ctx msg m.envelope n)) [
        | inl z ↦ rw z (
            process_preprepares-IsSafe msg.pre_prepare_messages entered
              (valid-ArePreprepares msg m.envelope n z) (prepare_view-IsSafe msg m.envelope n h))
        | inr z ↦ rw z h
      ]

  -- The operations that building a message for a new view leaves.
  abbrev HeldSafe :
      Map LogKey OperationKey → List (Effect D C) → Map OperationKey (Operation D C) → Type 0
  HeldSafe a sent held = IsSafe ctx.parse_db ctx.parse_config w held a sent

  attached-IsSafe :
      (a : Map LogKey OperationKey) (sent : List (Effect D C)) (b : Bool) (p : PbftMsg)
      (held : Map OperationKey (Operation D C))
      → HeldSafe a sent held
      → HeldSafe a sent (attached ctx b p held).0
  attached-IsSafe a sent b p held h = elim (Bool-cases (not p.internal && b)) [
    | inl z ↦
        rw z
          (find_or_construct-IsSafe ctx.parse_db ctx.parse_config w ctx.no_db ctx.no_config held a
            sent (p.view, (p.sequence, p.request_hash)) h).safe
    | inr z ↦ rw z h
  ]

  add_proof-IsSafe :
      (a : Map LogKey OperationKey) (sent : List (Effect D C)) (v m : ℕ) (b : Bool)
      (p : PreparedProof) (pre : Map ℕ WireMessage) (held : Map OperationKey (Operation D C))
      → HeldSafe a sent held
      → HeldSafe a sent (add_proof ctx v m b p (pre, held)).1
  unfolding add_proof
  add_proof-IsSafe a sent v m b p pre held h =
      let q = parse_or_empty ctx p.pre_prepare in
      elim (Bool-cases (is_in (lookup q.sequence pre) || leb q.sequence m)) [
        | inl z ↦ rw (add_proof, z) h
        | inr z ↦ rw (add_proof, z) (attached-IsSafe a sent b q held h)
      ]

  add_proofs-IsSafe :
      (a : Map LogKey OperationKey) (sent : List (Effect D C)) (v m : ℕ) (b : Bool)
      (ps : List PreparedProof) (s : Map ℕ WireMessage × Map OperationKey (Operation D C))
      → HeldSafe a sent s.1
      → HeldSafe a sent (add_proofs ctx v m b ps s).1
  unfolding add_proofs
  add_proofs-IsSafe a sent v m b [] s h = h
  add_proofs-IsSafe a sent v m b (p ∷ ps) s h =
      add_proofs-IsSafe a sent v m b ps _ (add_proof-IsSafe a sent v m b p s.0 s.1 h)

  open_view-IsSafe :
      (msg : PbftMsg) (n : Node D C) → IsSafeNode ctx w n → IsSafeNode ctx w (open_view ctx msg n)
  unfolding open_view build_newview pre_prepares_for make_newview
  open_view-IsSafe msg n h =
      elim (Option-cases (view_to_open ctx n.valid_viewchange_messages_for_view n)) [
        | inl e ↦ rw (open_view, e) h
        | inr (v, e) ↦
            let envelopes =
              map_values (inner (lookup msg.view n.valid_viewchange_messages_for_view)) in
            rw (open_view, e)
              (send-IsSafe ctx.parse_db ctx.parse_config w _ n.accepted_preprepares n.sent _
                (add_proofs-IsSafe n.accepted_preprepares n.sent v
                  (max_checkpoint_sequence ctx envelopes 0) true (all_proofs ctx envelopes)
                  ([], n.operations) h)
                tt)
      ]

  handle_viewchange-IsSafe :
      (msg : PbftMsg) (m : WireMessage) (n : Node D C)
      → IsSafeNode ctx w n
      → IsSafeNode ctx w (handle_viewchange ctx msg m n)
  unfolding handle_viewchange
  handle_viewchange-IsSafe msg m n h =
      let a = save_all_requests ctx m.piggybacked_requests msg.prepared_proofs n in
      let b = save_viewchange ctx msg m.envelope a in
      let c = save_checkpoint ctx msg.checkpoint_messages b in
      let d = join_viewchange ctx msg c in
      if-IsSafe ctx w (is_valid_viewchange_message ctx msg m.envelope n) (open_view ctx msg d) n
        (open_view-IsSafe msg d (
          join_viewchange-IsSafe ctx w msg c (
            save_checkpoint-IsSafe ctx w msg.checkpoint_messages b
              (save_all_requests-IsSafe ctx w m.piggybacked_requests msg.prepared_proofs n h))))
        h

  pub handle_message-IsSafe :
      (msg : PbftMsg) (m : WireMessage) (n : Node D C)
      → (msg.type ≡ MsgType.prepare
          → Sets.member m.envelope.sender ctx.peers ≡ true
          → w.backed (msg_key msg) m.envelope.sender)
      → IsSafeNode ctx w n
      → IsSafeNode ctx w (handle_message ctx msg m n)
  unfolding handle_message handle_prepare handle_commit is_admitted is_peer
  handle_message-IsSafe msg m n b h = elim (Bool-cases (is_admitted ctx msg m n)) [
    | inl z ↦ rw z (go (ground (arith, z)) msg.type refl)
    | inr z ↦ rw z h
  ]
    where
      go :
          Sets.member m.envelope.sender ctx.peers ≡ true
          → (t : MsgType) → msg.type ≡ t
          → IsSafeNode ctx w (elim t [
            | MsgType.preprepare ↦ handle_preprepare ctx msg m n
            | MsgType.prepare ↦ handle_prepare ctx msg m n
            | MsgType.commit ↦ handle_commit ctx msg m n
            | MsgType.viewchange ↦ handle_viewchange ctx msg m n
            | MsgType.newview ↦ handle_newview ctx msg m n
            | MsgType.undefined ↦ n
          ])
      go p MsgType.preprepare e = handle_preprepare-IsSafe ctx w fits msg m n e h
      go p MsgType.prepare e =
          handle_vote-IsSafe ctx w fits msg m.envelope n (λ q. cc (q, e)) (λ q. b q p) h
      go p MsgType.commit e =
          handle_vote-IsSafe ctx w fits msg m.envelope n (λ q. cc (q, e)) (λ q. cc (q, e)) h
      go p MsgType.viewchange e = handle_viewchange-IsSafe msg m n h
      go p MsgType.newview e = handle_newview-IsSafe msg m n h
      go p MsgType.undefined e = h

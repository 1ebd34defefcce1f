-- ===== src/Pbft/Core/Steps.antt =====
-- The handlers of preprepares, prepares and commits keep the invariant.
use bluzelle.Base.{
  ◌≡◌, refl, sym, ◌∙◌, ap, length, subst, List, some, Bool-cases, Option-cases, inl, inr,
}
use bluzelle.Bytes.{bytes_eq}
use bluzelle.Bytes.Order.{bytes_ordered, bytes_eq_iff}
use bluzelle.Map.{Map, lookup, insert}
use bluzelle.Pbft.Operation.{Envelope, MsgType, Operation, record_pbft_msg}
use bluzelle.Pbft.Operation.Stages.{World}
use bluzelle.Pbft.Manager.{
  OperationKey, operation_key_ordered, get_operation_key, find_or_construct, update_operation,
}
use bluzelle.Pbft.Messages.{WireMessage, PbftMsg, Surroundings}
use bluzelle.Pbft.Core.{
  Node, LogKey, log_key_ordered, do_preprepared, maybe_advance_operation_state,
  maybe_record_request, first_of, with_recorded, accept, handle_preprepare, msg_key,
}
use bluzelle.Pbft.Core.Safe.{
  Accepted, Settled, IsSafe, send-IsSafe, update_operation-IsSafe, Found, find_or_construct-IsSafe,
  IsSafe-Keeps,
}
use bluzelle.Pbft.Core.Acceptance.{IsFree, Extended, insert-Extended}
use bluzelle.Pbft.Core.Kept.{record_pbft_msg-Settled, maybe_record_request-Settled}
use bluzelle.Pbft.Core.Advance.{IsSafeNode, maybe_advance-IsSafe}

module _ {D C : Type 0} (ctx : Surroundings D C) (w : World)
    (fits : w.is_size (length ctx.peers)) where
  -- The end of `accept`: the operation has the key of the message, for which `a` is free.
  accept-IsSafe :
      (msg : PbftMsg) (requests : List Envelope) (o : Operation D C) (n : Node D C)
      (a : Map LogKey OperationKey)
      → IsSafe ctx.parse_db ctx.parse_config w n.operations a n.sent
      → Settled ctx.parse_db ctx.parse_config w a o
      → get_operation_key o ≡ msg_key msg
      → insert (msg.view, msg.sequence) (msg_key msg) n.accepted_preprepares ≡ a
      → Accepted a (msg_key msg)
      → IsSafeNode ctx w (accept ctx msg requests o n)
  unfolding accept do_preprepared
  accept-IsSafe msg requests o n a h s k same entered =
      let (s1, k1) = maybe_record_request-Settled ctx w a msg.request o s in
      let (s2, k2) =
        maybe_record_request-Settled ctx w a (first_of requests)
          (maybe_record_request ctx msg.request o) s1 in
      let o' =
        maybe_record_request ctx (first_of requests) (maybe_record_request ctx msg.request o) in
      let key : get_operation_key o' ≡ msg_key msg = k2 ∙ k1 ∙ k in
      let stored : insert (msg.view, msg.sequence) (get_operation_key o') n.accepted_preprepares
          ≡ a =
        ap (λ x. insert (msg.view, msg.sequence) x n.accepted_preprepares) key ∙ same in
      maybe_advance-IsSafe ctx w fits o' _
        (send-IsSafe ctx.parse_db ctx.parse_config w _ _ n.sent _
          (subst
            (λ x.
              IsSafe ctx.parse_db ctx.parse_config w (update_operation n.operations o') x n.sent)
            (sym stored)
            (update_operation-IsSafe ctx.parse_db ctx.parse_config w n.operations a n.sent o' h s2))
          (subst (λ x. Accepted x (get_operation_key o')) (sym stored)
            (subst (Accepted a) (sym key) entered)))
        (subst (λ x. Settled ctx.parse_db ctx.parse_config w x o') (sym stored) s2)

  -- Any handler that records the message of an operation in this way.
  with_recorded-IsSafe :
      (msg : PbftMsg) (e : Envelope) (n : Node D C) (a : Map LogKey OperationKey)
      (f : Operation D C → Node D C → Node D C)
      → IsSafe ctx.parse_db ctx.parse_config w n.operations a n.sent
      → (msg.type ≡ MsgType.preprepare → Accepted a (msg_key msg))
      → (msg.type ≡ MsgType.prepare → w.backed (msg_key msg) e.sender)
      → ((held : Map OperationKey (Operation D C))
          → IsSafe ctx.parse_db ctx.parse_config w held n.accepted_preprepares n.sent
          → IsSafeNode ctx w (record n { operations = held }))
      → ((o : Operation D C) (held : Map OperationKey (Operation D C))
          → IsSafe ctx.parse_db ctx.parse_config w held a n.sent
          → Settled ctx.parse_db ctx.parse_config w a o
          → get_operation_key o ≡ msg_key msg
          → IsSafeNode ctx w (f o (record n { operations = held })))
      → IsSafe ctx.parse_db ctx.parse_config w n.operations n.accepted_preprepares n.sent
      → IsSafeNode ctx w (with_recorded ctx msg e n f)
  with_recorded-IsSafe msg e n a f h p b plain next old =
      let r = find_or_construct ctx.no_db ctx.no_config n.operations (msg_key msg) in
      let x : Found ctx.parse_db ctx.parse_config w a n.sent (msg_key msg) r =
        find_or_construct-IsSafe ctx.parse_db ctx.parse_config w ctx.no_db ctx.no_config
          n.operations a n.sent (msg_key msg) h in
      let y : Found ctx.parse_db ctx.parse_config w n.accepted_preprepares n.sent (msg_key msg) r =
        find_or_construct-IsSafe ctx.parse_db ctx.parse_config w ctx.no_db ctx.no_config
          n.operations n.accepted_preprepares n.sent (msg_key msg) old in
      elim (Option-cases (record_pbft_msg r.1 msg.type e)) [
        | inl z ↦ rw (with_recorded, z) (plain r.0 y.safe)
        | inr (o, z) ↦
            let (s, k) =
              record_pbft_msg-Settled ctx.parse_db ctx.parse_config w a r.1 o msg.type e x.settled
                (λ t. subst (Accepted a) (sym x.key) (p t))
                (λ t. subst (λ k. w.backed k e.sender) (sym x.key) (b t)) z in
            rw (with_recorded, z)
              (next o (update_operation r.0 o)
                (update_operation-IsSafe ctx.parse_db ctx.parse_config w r.0 a n.sent o x.safe s) s
                (k ∙ x.key))
      ]

  pub handle_vote-IsSafe :
      (msg : PbftMsg) (e : Envelope) (n : Node D C)
      → (msg.type ≡ MsgType.preprepare → ⊥)
      → (msg.type ≡ MsgType.prepare → w.backed (msg_key msg) e.sender)
      → IsSafeNode ctx w n
      → IsSafeNode ctx w (with_recorded ctx msg e n (maybe_advance_operation_state ctx))
  handle_vote-IsSafe msg e n t b h =
      with_recorded-IsSafe msg e n n.accepted_preprepares (maybe_advance_operation_state ctx) h
        (λ p. absurd (t p)) b (λ held s. s)
        (λ o held s q k. maybe_advance-IsSafe ctx w fits o (record n { operations = held }) s q) h

  accepting-IsSafe :
      (msg : PbftMsg) (m : WireMessage) (n : Node D C)
      → msg.type ≡ MsgType.preprepare
      → IsSafeNode ctx w n
      → IsFree n.accepted_preprepares (msg_key msg)
      → IsSafeNode ctx w
          (with_recorded ctx msg m.envelope n (accept ctx msg m.piggybacked_requests))
  accepting-IsSafe msg m n type h free =
      let a = insert (msg.view, msg.sequence) (msg_key msg) n.accepted_preprepares in
      let x : Extended n.accepted_preprepares a (msg_key msg) =
        insert-Extended n.accepted_preprepares (msg_key msg) h.matching free in
      with_recorded-IsSafe msg m.envelope n a (accept ctx msg m.piggybacked_requests)
        (IsSafe-Keeps ctx.parse_db ctx.parse_config w n.operations n.accepted_preprepares a n.sent h
          x.keeps x.matching)
        (λ t. x.entered) (λ t. cc (t, type)) (λ held s. s)
        (λ o held s q k.
          accept-IsSafe msg m.piggybacked_requests o (record n { operations = held }) a s q k refl
            x.entered)
        h

  pub handle_preprepare-IsSafe :
      (msg : PbftMsg) (m : WireMessage) (n : Node D C)
      → msg.type ≡ MsgType.preprepare
      → IsSafeNode ctx w n
      → IsSafeNode ctx w (handle_preprepare ctx msg m n)
  unfolding handle_preprepare
  handle_preprepare-IsSafe msg m n type h =
      elim (Option-cases (lookup (msg.view, msg.sequence) n.accepted_preprepares)) [
        | inl e ↦ rw (handle_preprepare, e) (accepting-IsSafe msg m n type h (inl e))
        | inr (k, e) ↦ elim (Bool-cases (bytes_eq k.1.1 msg.request_hash)) [
          | inl z ↦
              let (v, s) = h.matching (msg.view, msg.sequence) k e in
              let q : k.1.1 ≡ msg.request_hash = (bytes_eq_iff k.1.1 msg.request_hash).0 z in
              let same : k ≡ msg_key msg = cc (v, s, q) in
              rw (handle_preprepare, e, z)
                (accepting-IsSafe msg m n type h (inr (e ∙ ap some same)))
          | inr z ↦ rw (handle_preprepare, e, z) h
        ]
      ]

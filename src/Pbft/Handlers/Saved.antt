-- ===== src/Pbft/Handlers/Saved.antt =====
-- What the handlers of Pbft.Handlers save, and the change of the view, keep the invariant of Core.Safe.
use bluzelle.Base.{
  ℕ, ◌≡◌, sym, ap, subst, Bool, true, false, not, ◌&&◌, List, [], ◌∷◌, Option, none, some,
  if◌then◌else◌, Bool-cases, Option-cases, inl, inr, none-ne-some, ltb,
}
use mathlib.Core.Option.{some-injective}
use bluzelle.Bytes.{Bytes}
use bluzelle.Bytes.Order.{bytes_ordered, number_ordered}
use bluzelle.Map.{Map}
use bluzelle.Pbft.Operation.{Envelope, MsgType, Operation}
use bluzelle.Pbft.Operation.Stages.{World}
use bluzelle.Pbft.Manager.{
  OperationKey, operation_key_ordered, find_or_construct, prepared_operations_since,
}
use bluzelle.Pbft.Messages.{PreparedProof, PbftMsg, broadcast, Surroundings}
use bluzelle.Pbft.Core.{Node, is_peer}
use bluzelle.Pbft.Core.Safe.{
  Vote, send-IsSafe, update_operation-IsSafe, Found, find_or_construct-IsSafe,
}
use bluzelle.Pbft.Core.Kept.{record_request-Settled}
use bluzelle.Pbft.Core.Advance.{IsSafeNode}
use bluzelle.Pbft.ViewChange.{
  parse_or_empty, make_viewchange, initiate_viewchange, set_primary_from_newview, chosen_view,
  make_proofs, map_values,
}
use bluzelle.Pbft.Handlers.{
  save_checkpoint, save_request, save_all_requests, map_request_to_hash, join_viewchange,
}

module _ {D C : Type 0} (ctx : Surroundings D C) (w : World) where
  pub if-IsSafe :
      (b : Bool) (x y : Node D C)
      → IsSafeNode ctx w x
      → IsSafeNode ctx w y
      → IsSafeNode ctx w (if b then x else y)
  if-IsSafe true x y h k = h
  if-IsSafe false x y h k = k

  pub save_checkpoint-IsSafe :
      (es : List Envelope) (n : Node D C)
      → IsSafeNode ctx w n
      → IsSafeNode ctx w (save_checkpoint ctx es n)
  unfolding save_checkpoint
  save_checkpoint-IsSafe [] n h = h
  save_checkpoint-IsSafe (e ∷ es) n h =
      elim (Bool-cases (ctx.peer_message_signing && not (ctx.verify e))) [
        | inl z ↦ rw (save_checkpoint, z) (save_checkpoint-IsSafe es n h)
        | inr z ↦ rw (save_checkpoint, z) (save_checkpoint-IsSafe es _ h)
      ]

  save_request-IsSafe :
      (rs : List Envelope) (p : PreparedProof) (n : Node D C)
      → IsSafeNode ctx w n
      → IsSafeNode ctx w (save_request ctx rs p n)
  unfolding save_request
  save_request-IsSafe rs p n h =
      elim (Option-cases
        (map_request_to_hash ctx (parse_or_empty ctx p.pre_prepare).request_hash rs)) [
          | inl e ↦ rw (save_request, e) h
          | inr (r, e) ↦
              let m = parse_or_empty ctx p.pre_prepare in
              let k : OperationKey = (m.view, (m.sequence, m.request_hash)) in
              let x : Found ctx.parse_db ctx.parse_config w n.accepted_preprepares n.sent k
                  (find_or_construct ctx.no_db ctx.no_config n.operations k) =
                find_or_construct-IsSafe ctx.parse_db ctx.parse_config w ctx.no_db ctx.no_config
                  n.operations n.accepted_preprepares n.sent k h in
              rw (save_request, e)
                (update_operation-IsSafe ctx.parse_db ctx.parse_config w _ n.accepted_preprepares
                  n.sent _ x.safe
                  (record_request-Settled ctx.parse_db ctx.parse_config w n.accepted_preprepares _ r
                    x.settled))
        ]

  pub save_all_requests-IsSafe :
      (rs : List Envelope) (ps : List PreparedProof) (n : Node D C)
      → IsSafeNode ctx w n
      → IsSafeNode ctx w (save_all_requests ctx rs ps n)
  unfolding save_all_requests
  save_all_requests-IsSafe rs [] n h = h
  save_all_requests-IsSafe rs (p ∷ ps) n h =
      save_all_requests-IsSafe rs ps _ (save_request-IsSafe rs p n h)

  make_viewchange-type :
      (v base : ℕ) (proof : Map Bytes Envelope) (ops : Map ℕ (Operation D C))
      (r : PbftMsg × List Envelope)
      → make_viewchange ctx v base proof ops ≡ some r
      → r.0.type ≡ MsgType.viewchange
  unfolding make_viewchange
  make_viewchange-type v base proof ops r e =
      elim (Option-cases (make_proofs ctx (map_values ops))) [
        | inl z ↦ absurd (none-ne-some (rw (make_viewchange, z) at e))
        | inr (q, z) ↦ ap (λ x. x.0.type) (sym (some-injective _ r (rw (make_viewchange, z) at e)))
      ]

  pub initiate_viewchange-IsSafe :
      (v : Option ℕ) (n : Node D C)
      → IsSafeNode ctx w n
      → IsSafeNode ctx w (initiate_viewchange ctx v n)
  unfolding initiate_viewchange
  initiate_viewchange-IsSafe v n h =
      elim (Bool-cases (ltb n.last_view_sent (chosen_view ctx v n))) [
        | inr z ↦ rw (initiate_viewchange, z) h
        | inl z ↦
            let base = n.checkpoints.latest_stable_checkpoint.0 in
            let proof = n.checkpoints.latest_stable_checkpoint_proof in
            let ops = prepared_operations_since n.operations base in
            elim (Option-cases (make_viewchange ctx (chosen_view ctx v n) base proof ops)) [
              | inl e ↦ rw (initiate_viewchange, z, e) h
              | inr (r, e) ↦
                  let t = make_viewchange-type (chosen_view ctx v n) base proof ops r e in
                  rw (initiate_viewchange, z, e)
                    (send-IsSafe ctx.parse_db ctx.parse_config w n.operations n.accepted_preprepares
                      n.sent (broadcast r.0 r.1) h
                      (subst
                        (Vote {D = D} {C = C} ctx.parse_db ctx.parse_config w n.accepted_preprepares
                          r.0)
                        (sym t) tt))
            ]
      ]

  pub join_viewchange-IsSafe :
      (msg : PbftMsg) (n : Node D C)
      → IsSafeNode ctx w n
      → IsSafeNode ctx w (join_viewchange ctx msg n)
  unfolding join_viewchange
  join_viewchange-IsSafe msg n h =
      if-IsSafe _ (initiate_viewchange ctx (some msg.view) n) n
        (initiate_viewchange-IsSafe (some msg.view) n h) h

  pub set_primary-IsSafe :
      (e : Envelope) (n : Node D C)
      → IsSafeNode ctx w n
      → IsSafeNode ctx w (set_primary_from_newview ctx e n)
  unfolding set_primary_from_newview
  set_primary-IsSafe e n h =
      if-IsSafe (is_peer ctx e.sender) _ _ h
        (initiate_viewchange-IsSafe none (record n { pinned_primary = none }) h)

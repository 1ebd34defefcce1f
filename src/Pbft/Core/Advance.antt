-- ===== src/Pbft/Core/Advance.antt =====
-- The moves of an operation to its next stage keep the invariant of Core.Safe.
use bluzelle.Base.{
  ◌≡◌, refl, sym, ◌∙◌, ap, Bool, true, false, ◌&&◌, [], length, if◌then◌else◌, Bool-cases,
  Option-cases, inl, inr,
}
use bluzelle.Bytes.Order.{bytes_ordered}
use bluzelle.Map.{Map}
use bluzelle.Pbft.Operation.{
  MsgType, Operation, Stage, construct, advance_operation_stage, has_db_request, is_prepared,
  is_committed, is_ready_for_commit, is_ready_for_execute, at_prepare, at_commit,
}
use bluzelle.Pbft.Operation.Stages.{World}
use bluzelle.Pbft.Manager.{OperationKey, operation_key_ordered}
use bluzelle.Pbft.Messages.{broadcast, Surroundings}
use bluzelle.Pbft.Core.{
  Node, LogKey, log_key_ordered, set_operation, do_prepared, executed, do_committed, commit_step,
  maybe_advance_operation_state, audit,
}
use bluzelle.Pbft.Core.Safe.{
  Settled, IsSafe, Justified, HasCommitted, send-IsSafe, update_operation-IsSafe,
}
use bluzelle.Pbft.Core.Kept.{record_request-Follows, Advanced, advance-Settled, prepared-Accepted}

module _ {D C : Type 0} (ctx : Surroundings D C) (w : World) where
  abbrev pub IsSafeNode : Node D C → Type 0
  IsSafeNode n = IsSafe ctx.parse_db ctx.parse_config w n.operations n.accepted_preprepares n.sent

  abbrev pub IsSettled : Node D C → Operation D C → Type 0
  IsSettled n o = Settled ctx.parse_db ctx.parse_config w n.accepted_preprepares o

-- The node takes a size that the swarm has.
module _ {D C : Type 0} (ctx : Surroundings D C) (w : World)
    (fits : w.is_size (length ctx.peers)) where
  -- The operation and the node after a step.
  record Stepped (n : Node D C) (r : Operation D C × Node D C) : Type 0 where
    safe : IsSafeNode ctx w r.1
    settled : IsSettled ctx w r.1 r.0

  do_prepared-Stepped :
      (o : Operation D C) (n : Node D C)
      → IsSafeNode ctx w n
      → IsSettled ctx w n o
      → Stepped n (do_prepared ctx o n)
  unfolding do_prepared is_prepared
  do_prepared-Stepped o n h s =
      elim (Option-cases (advance_operation_stage (length ctx.peers) o Stage.commit)) [
        | inl e ↦ rw (do_prepared, e) (record { safe = h; settled = s })
        | inr (o', e) ↦
            rw (do_prepared, e)
              (advanced o' (
                advance-Settled ctx.parse_db ctx.parse_config w n.accepted_preprepares
                  (length ctx.peers) o o' Stage.commit fits s e))
      ]
    where
      advanced :
          (o' : Operation D C)
          → Advanced ctx.parse_db ctx.parse_config w n.accepted_preprepares o o' Stage.commit
          → Stepped n (
            o',
            bluzelle.Pbft.Core.send
                (set_operation n o')
                (broadcast (bluzelle.Pbft.Core.common_message_setup o' MsgType.commit) []),
          )
      advanced o' v =
          let p : is_prepared o' ≡ true = rw (v.stage) refl in
          record {
            safe =
                send-IsSafe ctx.parse_db ctx.parse_config w _ n.accepted_preprepares n.sent _
                  (update_operation-IsSafe ctx.parse_db ctx.parse_config w n.operations
                    n.accepted_preprepares n.sent o' h v.settled)
                  (
                    prepared-Accepted ctx.parse_db ctx.parse_config w n.accepted_preprepares o'
                        v.settled p,
                    (o', v.settled.reachable, p, refl),
                  );
            settled = v.settled;
          }

  if-IsSafe :
      (b : Bool) (x y : Node D C)
      → IsSafeNode ctx w x
      → IsSafeNode ctx w y
      → IsSafeNode ctx w (if b then x else y)
  if-IsSafe true x y h k = h
  if-IsSafe false x y h k = k

  -- A committed operation goes to the service, or a request that does nothing in its place.
  executed-Justified :
      (a : Map LogKey OperationKey) (o : Operation D C) (n : Node D C)
      → HasCommitted ctx.parse_db ctx.parse_config w o.view o.sequence
      → Justified ctx.parse_db ctx.parse_config w a (executed ctx o n)
  unfolding executed construct
  executed-Justified a o n c = elim (Bool-cases (has_db_request o)) [
    | inl z ↦ rw z c
    | inr z ↦
        let fresh : Operation D C =
          construct ctx.no_db ctx.no_config o.view o.sequence (ctx.hash ctx.null_request) in
        let k = (record_request-Follows ctx.parse_db ctx.parse_config fresh ctx.null_request).key in
        let (o', r, p, v, q) = c in
        rw z (o', r, p, v ∙ ap (λ x. x.0) (sym k), q ∙ ap (λ x. x.1.0) (sym k))
  ]

  do_committed-IsSafe :
      (o : Operation D C) (n : Node D C)
      → IsSafeNode ctx w n
      → IsSettled ctx w n o
      → IsSafeNode ctx w (do_committed ctx o n)
  unfolding do_committed is_committed
  do_committed-IsSafe o n h s =
      elim (Option-cases (advance_operation_stage (length ctx.peers) o Stage.execute)) [
        | inl e ↦ rw (do_committed, e) h
        | inr (o', e) ↦
            rw (do_committed, e)
              (advanced o' (
                advance-Settled ctx.parse_db ctx.parse_config w n.accepted_preprepares
                  (length ctx.peers) o o' Stage.execute fits s e))
      ]
    where
      advanced :
          (o' : Operation D C)
          → Advanced ctx.parse_db ctx.parse_config w n.accepted_preprepares o o' Stage.execute
          → IsSafeNode ctx w
              (bluzelle.Pbft.Core.send (audit ctx o' (set_operation n o')) (executed ctx o' n))
      advanced o' v =
          let updated : IsSafeNode ctx w (set_operation n o') =
            update_operation-IsSafe ctx.parse_db ctx.parse_config w n.operations
              n.accepted_preprepares n.sent o' h v.settled in
          let p : is_committed o' ≡ true = rw (v.stage) refl in
          let c : HasCommitted ctx.parse_db ctx.parse_config w o'.view o'.sequence =
            (o', v.settled.reachable, p, refl, refl) in
          elim (Bool-cases n.audit_enabled) [
            | inl z ↦ rw z (
                send-IsSafe ctx.parse_db ctx.parse_config w _ n.accepted_preprepares _ _
                  (send-IsSafe ctx.parse_db ctx.parse_config w _ n.accepted_preprepares _ _ updated
                    tt)
                  (executed-Justified n.accepted_preprepares o' n c))
            | inr z ↦ rw z (
                send-IsSafe ctx.parse_db ctx.parse_config w _ n.accepted_preprepares _ _ updated
                  (executed-Justified n.accepted_preprepares o' n c))
          ]

  commit_step-Stepped :
      (o : Operation D C) (n : Node D C)
      → IsSafeNode ctx w n
      → IsSettled ctx w n o
      → Stepped n (commit_step ctx o n)
  commit_step-Stepped o n h s =
      elim (Bool-cases (at_prepare o.stage && is_ready_for_commit (length ctx.peers) o)) [
        | inl z ↦ rw z (do_prepared-Stepped o n h s)
        | inr z ↦ rw z (record { safe = h; settled = s })
      ]

  pub maybe_advance-IsSafe :
      (o : Operation D C) (n : Node D C)
      → IsSafeNode ctx w n
      → IsSettled ctx w n o
      → IsSafeNode ctx w (maybe_advance_operation_state ctx o n)
  unfolding maybe_advance_operation_state
  maybe_advance-IsSafe o n h s =
      let r = commit_step-Stepped o n h s in
      elim (Bool-cases (
        at_commit (commit_step ctx o n).0.stage
        && is_ready_for_execute (length ctx.peers) (commit_step ctx o n).0)) [
          | inl z ↦ rw z (do_committed-IsSafe _ (commit_step ctx o n).1 r.safe r.settled)
          | inr z ↦ rw z r.safe
        ]

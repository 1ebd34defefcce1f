-- ===== src/Pbft/Clients/Safe.antt =====
-- The requests of clients, and the other events of a node, keep the invariant of Core.Safe.
use bluzelle.Base.{
  ℕ, ◌-◌, ◌%◌, Bool, not, ◌&&◌, [], Option, none, some, leb, ◌==◌, if◌then◌else◌, Bool-cases,
  Option-cases, inl, inr, none-ne-some,
}
use bluzelle.Bytes.{Bytes, is_empty}
use bluzelle.Bytes.Order.{bytes_ordered, number_ordered}
use bluzelle.Map.{lookup}
use bluzelle.Storage.{max_value_size}
use bluzelle.Pbft.Operation.{Envelope, Operation, Payload}
use bluzelle.Pbft.Operation.Stages.{World}
use bluzelle.Pbft.Manager.{
  OperationKey, operation_key_ordered, find_or_construct, delete_operations_until,
}
use bluzelle.Pbft.Manager.Holding.{delete_operations_until_held, delete_operations_until-IsKeyed}
use bluzelle.Pbft.Checkpoints.{local_checkpoint_reached}
use bluzelle.Pbft.Messages.{RequestError, error_response, audit_failure, Surroundings}
use bluzelle.Pbft.Core.{Node, send}
use bluzelle.Pbft.Core.Safe.{send-IsSafe, update_operation-IsSafe, Found, find_or_construct-IsSafe}
use bluzelle.Pbft.Core.Kept.{record_request-Settled}
use bluzelle.Pbft.Core.Advance.{IsSafeNode}
use bluzelle.Pbft.ViewChange.{handle_failure, notify_audit_failure_detected}
use bluzelle.Pbft.Handlers.Saved.{if-IsSafe, initiate_viewchange-IsSafe}
use bluzelle.Pbft.Handlers.{is_me}
use bluzelle.Pbft.Clients.{
  send_error_response, wait_for, forward_request_to_primary, order_request, handle_request,
  already_seen_request, saw_request, setup_request_operation, do_preprepare, preprepare_of,
  is_timely, database_size, execute_handler, min, new_node,
}

module _ {D C : Type 0} (ctx : Surroundings D C) (w : World) where
  send_error-IsSafe :
      (e : Envelope) (session : Option ℕ) (hash : Bytes) (x : RequestError) (n : Node D C)
      → IsSafeNode ctx w n
      → IsSafeNode ctx w (send_error_response ctx e session hash x n)
  send_error-IsSafe e none hash x n h = h
  send_error-IsSafe e (some id) hash x n h = go e.payload
    where
      sent : (b : Bool) → IsSafeNode ctx w (if b then send n (error_response id hash x) else n)
      sent b =
          if-IsSafe ctx w b (send n (error_response id hash x)) n
            (send-IsSafe ctx.parse_db ctx.parse_config w n.operations n.accepted_preprepares n.sent
              (error_response id hash x) h tt)
            h

      go :
          (p : Payload)
          → IsSafeNode ctx w (send_error_response ctx (record e { payload = p }) (some id) hash x n)
      go (Payload.database_msg t) = sent (ctx.parse_db t).1
      go (Payload.pbft_internal_request t) = sent (ctx.parse_db []).1
      go (Payload.pbft t) = sent (ctx.parse_db []).1
      go (Payload.checkpoint_msg t) = sent (ctx.parse_db []).1
      go Payload.other = sent (ctx.parse_db []).1

  do_preprepare-IsSafe :
      (o : Operation D C) (n : Node D C)
      → IsSafeNode ctx w n
      → IsSafeNode ctx w (do_preprepare ctx o n)
  unfolding do_preprepare
  do_preprepare-IsSafe o n h = elim (Option-cases o.request) [
    | inl e ↦ rw (do_preprepare, e) h
    | inr (r, e) ↦ rw (do_preprepare, e) (go r r.payload)
  ]
    where
      go :
          (r : Envelope) (p : Payload)
          → IsSafeNode ctx w (send n (preprepare_of ctx o (record r { payload = p })))
      go r (Payload.database_msg t) =
          send-IsSafe ctx.parse_db ctx.parse_config w n.operations n.accepted_preprepares n.sent _ h
            tt
      go r (Payload.pbft_internal_request t) =
          send-IsSafe ctx.parse_db ctx.parse_config w n.operations n.accepted_preprepares n.sent _ h
            tt
      go r (Payload.pbft t) =
          send-IsSafe ctx.parse_db ctx.parse_config w n.operations n.accepted_preprepares n.sent _ h
            tt
      go r (Payload.checkpoint_msg t) =
          send-IsSafe ctx.parse_db ctx.parse_config w n.operations n.accepted_preprepares n.sent _ h
            tt
      go r Payload.other =
          send-IsSafe ctx.parse_db ctx.parse_config w n.operations n.accepted_preprepares n.sent _ h
            tt

  order_request-IsSafe :
      (e : Envelope) (session : Option ℕ) (hash : Bytes) (n : Node D C)
      → IsSafeNode ctx w n
      → IsSafeNode ctx w (order_request ctx e session hash n)
  unfolding order_request setup_request_operation saw_request
  order_request-IsSafe e session hash n h =
      let seen = saw_request ctx e hash n in
      let k : OperationKey = (n.view, (n.next_issued_sequence_number, hash)) in
      let x : Found ctx.parse_db ctx.parse_config w n.accepted_preprepares n.sent k
          (find_or_construct ctx.no_db ctx.no_config n.operations k) =
        find_or_construct-IsSafe ctx.parse_db ctx.parse_config w ctx.no_db ctx.no_config
          n.operations n.accepted_preprepares n.sent k h in
      let r = setup_request_operation ctx e hash seen in
      if-IsSafe ctx w _ (send_error_response ctx e session hash RequestError.too_busy n) _
        (send_error-IsSafe e session hash RequestError.too_busy n h)
        (if-IsSafe ctx w (already_seen_request ctx e hash n.recent_requests)
          (send_error_response ctx e session hash RequestError.duplicate n) _
          (send_error-IsSafe e session hash RequestError.duplicate n h)
          (if-IsSafe ctx w (not (is_empty e.sender) && not (ctx.verify e)) n
            (do_preprepare ctx r.0 r.1) h
            (do_preprepare-IsSafe r.0 r.1 (
              update_operation-IsSafe ctx.parse_db ctx.parse_config w _ n.accepted_preprepares
                n.sent _ x.safe
                (record_request-Settled ctx.parse_db ctx.parse_config w n.accepted_preprepares _ e
                  x.settled)))))

  wait_for-IsSafe :
      (session : Option ℕ) (hash : Bytes) (n : Node D C)
      → IsSafeNode ctx w n
      → IsSafeNode ctx w (wait_for ctx session hash n)
  wait_for-IsSafe none hash n h = h
  wait_for-IsSafe (some id) hash n h = elim (Option-cases (lookup hash n.sessions_waiting)) [
    | inl e ↦ rw (wait_for, e) h
    | inr (other, e) ↦ rw (wait_for, e) h
  ]

  forward-IsSafe :
      (e : Envelope) (n : Node D C)
      → IsSafeNode ctx w n
      → IsSafeNode ctx w (forward_request_to_primary ctx e n)
  forward-IsSafe e n h = elim (Option-cases n.pinned_primary) [
    | inl z ↦ rw z h
    | inr (p, z) ↦ rw z (
        send-IsSafe ctx.parse_db ctx.parse_config w n.operations n.accepted_preprepares n.sent _ h
          tt)
  ]

  pub handle_request-IsSafe :
      (e : Envelope) (session : Option ℕ) (n : Node D C)
      → IsSafeNode ctx w n
      → IsSafeNode ctx w (handle_request ctx e session n)
  unfolding handle_request
  handle_request-IsSafe e session n h =
      let hash = ctx.hash e in
      let n' = wait_for ctx session hash n in
      let waiting = wait_for-IsSafe session hash n h in
      let late = send_error_response ctx e session hash RequestError.timestamp_error n in
      let large = send_error_response ctx e session hash RequestError.too_large n in
      let ordered =
        if is_me n.pinned_primary n.uuid
        then order_request ctx e session hash n'
        else forward_request_to_primary ctx e n' in
      let fitting = if leb (max_value_size - 512) (database_size ctx e) then large else ordered in
      if-IsSafe ctx w (not (is_timely ctx e.timestamp)) late fitting
        (send_error-IsSafe e session hash RequestError.timestamp_error n h)
        (if-IsSafe ctx w (leb (max_value_size - 512) (database_size ctx e)) large ordered
          (send_error-IsSafe e session hash RequestError.too_large n h)
          (if-IsSafe ctx w (is_me n.pinned_primary n.uuid) (order_request ctx e session hash n')
            (forward_request_to_primary ctx e n') (order_request-IsSafe e session hash n' waiting)
            (forward-IsSafe e n' waiting)))

  notify-IsSafe :
      (n : Node D C) → IsSafeNode ctx w n → IsSafeNode ctx w (notify_audit_failure_detected ctx n)
  unfolding notify_audit_failure_detected
  notify-IsSafe n h =
      if-IsSafe ctx w n.audit_enabled (send n audit_failure) n
        (send-IsSafe ctx.parse_db ctx.parse_config w n.operations n.accepted_preprepares n.sent
          audit_failure h tt)
        h

  pub handle_failure-IsSafe :
      (n : Node D C) → IsSafeNode ctx w n → IsSafeNode ctx w (handle_failure ctx n)
  unfolding handle_failure
  handle_failure-IsSafe n h =
      initiate_viewchange-IsSafe ctx w none (notify_audit_failure_detected ctx n)
        (notify-IsSafe n h)

  delete-IsSafe :
      (sequence : ℕ) (n : Node D C)
      → IsSafeNode ctx w n
      → IsSafeNode ctx w (record n { operations = delete_operations_until n.operations sequence })
  delete-IsSafe sequence n h = record {
    keyed = delete_operations_until-IsKeyed n.operations sequence h.keyed;
    settled =
        λ k o e. h.settled k o (delete_operations_until_held n.operations sequence k o h.keyed e);
    matching = h.matching;
    justified = h.justified;
  }

  pub execute_handler-IsSafe :
      (sequence : ℕ) (n : Node D C)
      → IsSafeNode ctx w n
      → IsSafeNode ctx w (execute_handler ctx sequence n)
  unfolding execute_handler
  execute_handler-IsSafe sequence n h = elim (Bool-cases (sequence % 100 == 0)) [
    | inl z ↦ elim (Option-cases (local_checkpoint_reached ctx (sequence, []) n.checkpoints)) [
      | inl e ↦ rw (execute_handler, z, e) h
      | inr (c, e) ↦
          rw (execute_handler, z, e)
            (delete-IsSafe (min ctx c.latest_stable_checkpoint.0 c.latest_local_checkpoint.0) n h)
    ]
    | inr z ↦ rw (execute_handler, z) h
  ]

  pub start-IsSafe : (uuid : Bytes) → IsSafeNode ctx w (new_node ctx uuid)
  unfolding new_node lookup
  start-IsSafe uuid = record {
    keyed = record { sorted = tt; keyed = λ k o e. absurd (none-ne-some e) };
    settled = λ k o e. absurd (none-ne-some e);
    matching = λ k v e. absurd (none-ne-some e);
    justified = tt;
  }

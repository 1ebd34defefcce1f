-- ===== src/Pbft/Clients.antt =====
-- pbft/pbft.cpp: the requests of clients, what the service has executed, and the start.
pub mod Safe
use bluzelle.Base.{
  ℕ, ◌+◌, ◌-◌, ◌%◌, ◌^◌, Bool, true, false, not, ◌&&◌, ◌||◌, List, [], ◌∷◌, Option, none, some, ltb,
  leb, ◌==◌, filter, length, if◌then◌else◌,
}
use bluzelle.Bytes.{Bytes, bytes_eq, is_empty}
use bluzelle.Bytes.Order.{bytes_ordered, number_ordered}
use bluzelle.Map.{lookup, insert}
use bluzelle.Storage.{max_value_size}
use bluzelle.Policy.{sub64}
use bluzelle.Pbft.Operation.{Payload, Envelope, MsgType, Operation, record_request}
use bluzelle.Pbft.Manager.{operation_key_ordered, find_or_construct, delete_operations_until}
use bluzelle.Pbft.Checkpoints.{initial, local_checkpoint_reached}
use bluzelle.Pbft.Messages.{Effect, broadcast, forward, error_response, RequestError, Surroundings}
use bluzelle.Pbft.Core.{Node, send, set_operation, common_message_setup}
use bluzelle.Pbft.NewView.{nth_peer}
use bluzelle.Pbft.Handlers.{is_me}

module _ {D C : Type 0} (ctx : Surroundings D C) where
  abbrev pub max_request_age_ms : ℕ
  max_request_age_ms = 3600000

  -- On `uint64_t`: an hour before the start of the epoch wraps.
  unfoldable pub is_timely : ℕ → Bool
  is_timely timestamp = not (
      ltb timestamp (sub64 ctx.now max_request_age_ms)
      || ltb ((ctx.now + max_request_age_ms) % 2 ^ 64) timestamp)

  abbrev pub database_size : Envelope → ℕ
  database_size e = elim e.payload [ Payload.database_msg t ↦ length t | _ ↦ 0 ]

  unfoldable pub already_seen_request : Envelope → Bytes → List (ℕ × (Bytes × Bytes)) → Bool
  already_seen_request req hash [] = false
  already_seen_request req hash ((time, (sender, h)) ∷ recent) =
      (time == req.timestamp && (bytes_eq sender req.sender && bytes_eq h hash))
      || already_seen_request req hash recent

  -- The order of the multimap does not matter to its readers. Entries up to an hour old go.
  unfoldable pub saw_request : Envelope → Bytes → Node D C → Node D C
  saw_request req hash n = record n {
    recent_requests =
        filter (λ (r : ℕ × (Bytes × Bytes)). ltb (sub64 ctx.now max_request_age_ms) r.0)
          ((req.timestamp, (req.sender, hash)) ∷ n.recent_requests);
  }

  unfoldable pub setup_request_operation : Envelope → Bytes → Node D C → Operation D C × Node D C
  setup_request_operation request hash n =
      let (held, o) =
        find_or_construct ctx.no_db ctx.no_config n.operations
          (n.view, (n.next_issued_sequence_number, hash)) in
      let o' = record_request ctx.parse_db ctx.parse_config o request in
      (
        o',
        set_operation
            (record n {
              next_issued_sequence_number = n.next_issued_sequence_number + 1;
              operations = held;
            })
            o',
      )

  abbrev pub preprepare_of : Operation D C → Envelope → Effect D C
  preprepare_of o e =
      let msg = common_message_setup o MsgType.preprepare in
      elim e.payload [
        | Payload.pbft_internal_request t ↦
            broadcast (record msg { request = some e; internal = true }) []
        | _ ↦ broadcast msg (e ∷ [])
      ]

  -- The code throws if the operation has no request.
  unfoldable pub do_preprepare : Operation D C → Node D C → Node D C
  do_preprepare o n = elim o.request [ none ↦ n | some e ↦ send n (preprepare_of o e) ]

  -- An answer is sent if there is a session and the request can be parsed.
  abbrev pub send_error_response : Envelope → Option ℕ → Bytes → RequestError → Node D C → Node D C
  send_error_response e session hash error n = elim session [
    | none ↦ n
    | some id ↦ elim e.payload [
      | Payload.database_msg t ↦
          if (ctx.parse_db t).1 then send n (error_response id hash error) else n
      | _ ↦ if (ctx.parse_db []).1 then send n (error_response id hash error) else n
    ]
  ]

  abbrev pub wait_for : Option ℕ → Bytes → Node D C → Node D C
  wait_for none hash n = n
  wait_for (some id) hash n = elim (lookup hash n.sessions_waiting) [
    | some other ↦ n
    | none ↦ record n { sessions_waiting = insert hash id n.sessions_waiting }
  ]

  abbrev pub forward_request_to_primary : Envelope → Node D C → Node D C
  forward_request_to_primary e n = elim n.pinned_primary [
    | none ↦ n
    | some p ↦ send n (forward p e)
  ]

  -- What the primary does with a request that is timely and not too large.
  unfoldable pub order_request : Envelope → Option ℕ → Bytes → Node D C → Node D C
  unfolding already_seen_request saw_request setup_request_operation do_preprepare
  order_request e session hash n =
      if ltb ctx.admission_window
        (sub64 n.next_issued_sequence_number n.last_executed_sequence_number)
      then send_error_response e session hash RequestError.too_busy n
      else if already_seen_request e hash n.recent_requests
      then send_error_response e session hash RequestError.duplicate n
      else if not (is_empty e.sender) && not (ctx.verify e)
      then n
      else (let (o, n') = setup_request_operation e hash (saw_request e hash n) in
          do_preprepare o n')

  unfoldable pub handle_request : Envelope → Option ℕ → Node D C → Node D C
  unfolding is_timely order_request
  handle_request e session n =
      let hash = ctx.hash e in
      if not (is_timely e.timestamp)
      then send_error_response e session hash RequestError.timestamp_error n
      else if leb (max_value_size - 512) (database_size e)
      then send_error_response e session hash RequestError.too_large n
      else (let n' = wait_for session hash n in
          if is_me n.pinned_primary n.uuid
          then order_request e session hash n'
          else forward_request_to_primary e n')

  abbrev pub min : ℕ → ℕ → ℕ
  min a b = if ltb b a then b else a

  abbrev pub checkpoint_interval : ℕ
  checkpoint_interval = 100

  -- What `start` registers for operations that the service has executed. The hash of the state is
  -- empty, as `service_state_hash` gives it.
  unfoldable pub execute_handler : ℕ → Node D C → Node D C
  execute_handler sequence n =
      let n' : Node D C = record n { last_executed_sequence_number = sequence } in
      if sequence % checkpoint_interval == 0
      then elim (local_checkpoint_reached ctx (sequence, []) n.checkpoints) [
        | none ↦ n'
        | some c ↦ record n' {
          checkpoints = c;
          operations =
              delete_operations_until n.operations
                (min c.latest_stable_checkpoint.0 c.latest_local_checkpoint.0);
        }
      ]
      else n'

  -- A node without any history; `start` takes the primary from the ordered peers.
  unfoldable pub new_node : Bytes → Node D C
  new_node uuid = record {
    uuid = uuid;
    view = 1;
    view_is_valid = true;
    last_view_sent = 0;
    next_issued_sequence_number = 1;
    last_executed_sequence_number = 0;
    pinned_primary = nth_peer ctx.ordered_peers (1 % length ctx.ordered_peers);
    audit_enabled = true;
    accepted_preprepares = [];
    operations = [];
    checkpoints = initial;
    valid_viewchange_messages_for_view = [];
    saved_newview = none;
    recent_requests = [];
    sessions_waiting = [];
    sent = [];
  }

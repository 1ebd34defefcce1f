-- ===== src/Pbft/Agreement.antt =====
-- The histories of a node, and what it votes for in them.
pub mod Safety
use bluzelle.Base.{
  ℕ, refl, ◌≡◌, ◌⊎◌, sym, ◌∙◌, ap, subst, Bool, true, false, List, [], Option, some, All-Mem,
  length, arith, inl, inr,
}
use mathlib.Core.List.{Memᴰ}
use mathlib.Core.Option.{some-injective}
use bluzelle.Bytes.{Bytes}
use bluzelle.Bytes.Order.{bytes_ordered}
use bluzelle.Map.{lookup}
use bluzelle.Sets
use bluzelle.Pbft.Operation.{Envelope, MsgType}
use bluzelle.Pbft.Checkpoints.{Checkpoint, handle_checkpoint_message, catchup_timeout}
use bluzelle.Pbft.Operation.Stages.{World}
use bluzelle.Pbft.Manager.{OperationKey, operation_key_ordered}
use bluzelle.Pbft.Messages.{WireMessage, PbftMsg, broadcast, Surroundings}
use bluzelle.Pbft.Core.{Node, log_key_ordered, msg_key}
use bluzelle.Pbft.Core.Safe.{Accepted, Justified, Vote}
use bluzelle.Pbft.Core.Advance.{IsSafeNode}
use bluzelle.Pbft.ViewChange.{handle_failure}
use bluzelle.Pbft.Handlers.{handle_message}
use bluzelle.Pbft.Clients.{new_node, handle_request, execute_handler}
use bluzelle.Pbft.Handlers.Safe.{handle_message-IsSafe}
use bluzelle.Pbft.Membership.{
  handle_membership_message, handle_database_message, handle_database_response_message,
  handle_swarm_error_response_message, handle_audit_heartbeat_timeout,
}
use bluzelle.Pbft.Membership.Safe.{
  handle_membership_message-IsSafe, handle_database_message-IsSafe, handle_response-IsSafe,
  handle_swarm_error-IsSafe, handle_heartbeat-IsSafe,
}
use bluzelle.Pbft.Clients.Safe.{
  handle_request-IsSafe, handle_failure-IsSafe, execute_handler-IsSafe, start-IsSafe,
}

-- What may differ from one call to the next.
pub record Moment : Type 0 where
  pub now : ℕ
  pub selected : ℕ
  pub service_state : ℕ → Option Bytes
  pub peers : List Bytes
  pub ordered_peers : List Bytes

-- What may happen to a node: the moments at which messages of the agreement come, and the ones that
-- may come, as parsed and as on the wire.
pub record Setting : Type 1 where
  pub is_moment : Moment → Type 0
  pub arrives : PbftMsg → WireMessage → Type 0

-- A prepare for the operation with the key has come from the peer.
pub record Prepared (h : Setting) (k : OperationKey) (p : Bytes) : Type 0 where
  pub moment : Moment
  pub held : h.is_moment moment
  pub msg : PbftMsg
  pub message : WireMessage
  pub arrived : h.arrives msg message
  pub prepare : msg.type ≡ MsgType.prepare
  pub key : msg_key msg ≡ k
  pub sender : message.envelope.sender ≡ p
  pub peer : Sets.member message.envelope.sender moment.peers ≡ true

abbrev pub world : Setting → World
world h = record {
  is_size = λ n. (t : Moment) × h.is_moment t × (length t.peers ≡ n);
  backed = Prepared h;
}

module _ {D C : Type 0} (ctx : Surroundings D C) where
  abbrev pub at : Moment → Surroundings D C
  at t = record ctx {
    now = t.now;
    selected = t.selected;
    service_state = t.service_state;
    peers = t.peers;
    ordered_peers = t.ordered_peers;
  }

  -- The states of a node, by any sequence of messages of every kind, requests of clients, failures
  -- of the primary, executions, catch-up timers and heartbeats. `handle_bzn_message` passes on what
  -- it parsed as `received`.
  pub data Reached (h : Setting) : Node D C → Type 0 where
    started : (t : Moment) (uuid : Bytes) → Reached h (new_node (at t) uuid)
    received :
        {n : Node D C} (t : Moment) (msg : PbftMsg) (m : WireMessage)
        → h.is_moment t
        → h.arrives msg m
        → Reached h n
        → Reached h (handle_message (at t) msg m n)
    got_checkpoint :
        {n : Node D C} (t : Moment) (e : Envelope)
        → Reached h n
        → Reached h (record n { checkpoints = handle_checkpoint_message (at t) e n.checkpoints })
    caught_up :
        {n : Node D C} (t : Moment) (cp : Checkpoint)
        → Reached h n
        → Reached h (record n { checkpoints = catchup_timeout (at t) cp n.checkpoints })
    asked :
        {n : Node D C} (t : Moment) (e : Envelope) (session : Option ℕ)
        → Reached h n
        → Reached h (handle_request (at t) e session n)
    primary_failed : {n : Node D C} (t : Moment) → Reached h n → Reached h (handle_failure (at t) n)
    executed :
        {n : Node D C} (t : Moment) (sequence : ℕ)
        → Reached h n
        → Reached h (execute_handler (at t) sequence n)
    got_membership :
        {n : Node D C} (t : Moment) (e : Envelope) (session : ℕ)
        → Reached h n
        → Reached h (handle_membership_message (at t) e session n)
    got_database :
        {n : Node D C} (t : Moment) (answered : Bool) (e : Envelope) (session : ℕ)
        → Reached h n
        → Reached h (handle_database_message (at t) answered e session n)
    got_response :
        {n : Node D C} (t : Moment) (e : Envelope)
        → Reached h n
        → Reached h (handle_database_response_message (at t) e n)
    got_error :
        {n : Node D C} (t : Moment) (e : Envelope)
        → Reached h n
        → Reached h (handle_swarm_error_response_message (at t) e n)
    beat :
        {n : Node D C} (t : Moment)
        → Reached h n
        → Reached h (handle_audit_heartbeat_timeout (at t) n)

  pub Reached-IsSafe : {h : Setting} {n : Node D C} → Reached h n → IsSafeNode ctx (world h) n
  Reached-IsSafe {h} (started t uuid) = start-IsSafe (at t) (world h) uuid
  Reached-IsSafe {h} (received {n} t msg m i a r) =
      handle_message-IsSafe (at t) (world h) (t, i, refl) msg m n
        (λ e p. record {
          moment = t;
          held = i;
          msg = msg;
          message = m;
          arrived = a;
          prepare = e;
          key = refl;
          sender = refl;
          peer = p;
        })
        (Reached-IsSafe r)
  Reached-IsSafe {h} (got_checkpoint t e r) = Reached-IsSafe r
  Reached-IsSafe {h} (caught_up t cp r) = Reached-IsSafe r
  Reached-IsSafe {h} (asked {n} t e session r) =
      handle_request-IsSafe (at t) (world h) e session n (Reached-IsSafe r)
  Reached-IsSafe {h} (primary_failed {n} t r) =
      handle_failure-IsSafe (at t) (world h) n (Reached-IsSafe r)
  Reached-IsSafe {h} (executed {n} t sequence r) =
      execute_handler-IsSafe (at t) (world h) sequence n (Reached-IsSafe r)
  Reached-IsSafe {h} (got_membership {n} t e session r) =
      handle_membership_message-IsSafe (at t) (world h) e session n (Reached-IsSafe r)
  Reached-IsSafe {h} (got_database {n} t answered e session r) =
      handle_database_message-IsSafe (at t) (world h) answered e session n (Reached-IsSafe r)
  Reached-IsSafe {h} (got_response {n} t e r) =
      handle_response-IsSafe (at t) (world h) e n (Reached-IsSafe r)
  Reached-IsSafe {h} (got_error {n} t e r) =
      handle_swarm_error-IsSafe (at t) (world h) e n (Reached-IsSafe r)
  Reached-IsSafe {h} (beat {n} t r) = handle_heartbeat-IsSafe (at t) (world h) n (Reached-IsSafe r)

  -- The node has sent a prepare or a commit for the operation.
  abbrev pub IsVoteType : MsgType → Type 0
  IsVoteType t = (t ≡ MsgType.prepare) ⊎ (t ≡ MsgType.commit)

  pub record VotedFor (n : Node D C) (k : OperationKey) : Type 0 where
    pub msg : PbftMsg
    pub requests : List Envelope
    pub sent : Memᴰ (broadcast msg requests) n.sent
    pub vote : IsVoteType msg.type
    pub key : msg_key msg ≡ k

  Vote-Accepted :
      (w : World) (n : Node D C) (m : PbftMsg) (t : MsgType)
      → IsVoteType t
      → Vote {D = D} {C = C} ctx.parse_db ctx.parse_config w n.accepted_preprepares m t
      → Accepted n.accepted_preprepares (msg_key m)
  Vote-Accepted w n m MsgType.prepare v j = j
  Vote-Accepted w n m MsgType.commit v j = j.0
  Vote-Accepted w n m MsgType.preprepare v j = elim v [
    | inl e ↦ absurd (cc e)
    | inr e ↦ absurd (cc e)
  ]
  Vote-Accepted w n m MsgType.viewchange v j = elim v [
    | inl e ↦ absurd (cc e)
    | inr e ↦ absurd (cc e)
  ]
  Vote-Accepted w n m MsgType.newview v j = elim v [ inl e ↦ absurd (cc e) | inr e ↦ absurd (cc e) ]
  Vote-Accepted w n m MsgType.undefined v j = elim v [
    | inl e ↦ absurd (cc e)
    | inr e ↦ absurd (cc e)
  ]

  VotedFor-Accepted :
      {h : Setting} {n : Node D C} (k : OperationKey)
      → Reached h n
      → VotedFor n k
      → Accepted n.accepted_preprepares k
  VotedFor-Accepted {h} {n} k r v = subst (Accepted n.accepted_preprepares) v.key (
      Vote-Accepted (world h) n v.msg v.msg.type v.vote (
        All-Mem (Justified ctx.parse_db ctx.parse_config (world h) n.accepted_preprepares)
          (broadcast v.msg v.requests) n.sent (Reached-IsSafe r).justified v.sent))

  -- In every state that a node, which keeps its operations in memory, reaches by messages of every
  -- kind, requests of clients, failures of the primary, executions, catch-up timers and heartbeats,
  -- while the peers and the time change in any way that the setting allows: two operations with the
  -- same view and sequence number for which it has sent a prepare or a commit are the same.
  pub votes_agree :
      {h : Setting} {n : Node D C} (j k : OperationKey)
      → Reached h n
      → VotedFor n j
      → VotedFor n k
      → j.0 ≡ k.0
      → j.1.0 ≡ k.1.0
      → j ≡ k
  votes_agree {h} {n} j k r v w p q =
      let a : lookup (j.0, j.1.0) n.accepted_preprepares ≡ some j = VotedFor-Accepted j r v in
      let b : lookup (k.0, k.1.0) n.accepted_preprepares ≡ some k = VotedFor-Accepted k r w in
      let same : (j.0, j.1.0) ≡ (k.0, k.1.0) = cc (p, q) in
      some-injective j k (sym a ∙ ap (λ x. lookup x n.accepted_preprepares) same ∙ b)

-- ===== src/Pbft/Agreement/Safety.antt =====
-- Why the peers of a swarm do not prepare or commit different requests for the same view and sequence
-- number: any two of their quorums share a peer that follows the code.
use bluzelle.Base.{
  ℕ, refl, ◌≤◌, ◌<◌, ◌^◌, ◌%◌, ◌≡◌, sym, ◌∙◌, ap, subst, Bool, true, false, ◌&&◌, List, [], ◌∷◌,
  some, All-Mem, length, arith, Bool-cases, inl, inr,
}
use mathlib.Core.List.{Memᴰ}
use bluzelle.Bytes.{Bytes}
use bluzelle.Bytes.Order.{bytes_ordered}
use bluzelle.Map.{Map, lookup}
use bluzelle.Bytes.Counts.{sum}
use bluzelle.Sets
use bluzelle.Pbft.Quorum.{
  honest_member_size, honest_majority_size, bit, in_both, IsVote, quorums_overlap,
}
use bluzelle.Pbft.Operation.{Envelope, MsgType, Operation, is_prepared, is_ready_for_commit}
use bluzelle.Pbft.Operation.Stages.{World, Reachable-Certified, count-IsStrict}
use bluzelle.Pbft.Manager.{OperationKey, operation_key_ordered, get_operation_key}
use bluzelle.Pbft.Messages.{WireMessage, PbftMsg, broadcast, Surroundings}
use bluzelle.Pbft.Core.{Node, LogKey, log_key_ordered, msg_key}
use bluzelle.Pbft.Core.Safe.{Justified, Vote}
use bluzelle.Pbft.Core.Advance.{IsSafeNode}
use bluzelle.Pbft.Agreement.{
  Setting, Prepared, world, Reached, Reached-IsSafe, VotedFor, votes_agree,
}
use bluzelle.Pbft.Core.Safe.{HasPrepared}

-- What may happen to a node of a swarm that does not change.
abbrev pub in_swarm : List Bytes → (PbftMsg → WireMessage → Type 0) → Setting
in_swarm peers arrives = record { is_moment = λ t. t.peers ≡ peers; arrives = arrives }

module _ {D C : Type 0} (ctx : Surroundings D C) where
  -- The peers that do not follow the code.
  abbrev pub number_of : (Bytes → Bool) → List Bytes → ℕ
  number_of faulty peers = sum (λ p. bit (faulty p)) peers

  abbrev Common : (Bytes → Bool) → List Bytes → List Bytes → Type 0
  Common faulty a b =
      (p : Bytes) × (faulty p ≡ false) × (Sets.member p a ≡ true) × (Sets.member p b ≡ true)

  -- Among more common peers than there are faulty ones, one is not faulty.
  honest_in_both :
      (faulty : Bytes → Bool) (a b peers : List Bytes)
      → number_of faulty peers < in_both a b peers
      → Common faulty a b
  unfolding sum
  honest_in_both faulty a b [] h = absurd (omega arith)
  honest_in_both faulty a b (p ∷ peers) h = elim (Bool-cases (faulty p)) [
    | inl f ↦ honest_in_both faulty a b peers (ground (arith, f, h))
    | inr f ↦ elim (Bool-cases (Sets.member p a && Sets.member p b)) [
      | inl m ↦ (p, f, ground (arith, m), ground (arith, m))
      | inr m ↦ honest_in_both faulty a b peers (ground (arith, f, m, h))
    ]
  ]

  -- The prepares that an operation has seen are votes of peers, which came for it.
  record Held (peers : List Bytes) (arrives : PbftMsg → WireMessage → Type 0) (k : OperationKey)
      : Type 0 where
    seen : List Bytes
    vote : IsVote peers seen
    size : honest_majority_size (length peers) ≤ length seen
    came : (p : Bytes) → Sets.member p seen ≡ true → Prepared (in_swarm peers arrives) k p

  -- An operation is prepared at a node only with prepares of a majority of the peers for it.
  HasPrepared-Held :
      (peers : List Bytes) (arrives : PbftMsg → WireMessage → Type 0) (k : OperationKey)
      → HasPrepared ctx.parse_db ctx.parse_config (world (in_swarm peers arrives)) k
      → Held peers arrives k
  unfolding is_ready_for_commit
  HasPrepared-Held peers arrives k (o, r, p, z) =
      let h = in_swarm peers arrives in
      let c = Reachable-Certified ctx.parse_db ctx.parse_config (world h) r in
      let (q, (t, i, l), ready) = c.prepared p in
      record {
        seen = o.prepares_seen;
        vote = record {
          distinct = λ x. count-IsStrict x o.prepares_seen c.prepares_distinct;
          peer = λ x m.
              let b = c.prepares_backed x m in
              subst (λ y. Sets.member x y ≡ true) b.held
                (subst (λ y. Sets.member y b.moment.peers ≡ true) b.sender b.peer);
        };
        size = let same : length peers ≡ q = sym (ap length i) ∙ l in ground (arith, ready, same);
        came = λ x m. subst (λ y. Prepared h y x) z (c.prepares_backed x m);
      }

  -- A swarm whose peers stay the same, whose size is one more than a multiple of three and fits in
  -- 64 bits, and where fewer peers are faulty than make up one honest peer for certain. The peers
  -- that are not faulty are in states that they reach by the handlers, from any messages; a prepare
  -- that comes to one of them with the name of another was sent by that one.
  module _ (peers : List Bytes) (faulty : Bytes → Bool) (node : Bytes → Node D C)
      (arrives : Bytes → PbftMsg → WireMessage → Type 0) (third : length peers % 3 ≡ 1)
      (fits : length peers < 2 ^ 64)
      (few : number_of faulty peers < honest_member_size (length peers))
      (follows : (p : Bytes) → faulty p ≡ false → Reached ctx (in_swarm peers (arrives p)) (node p))
      (authentic : (p q : Bytes) (msg : PbftMsg) (m : WireMessage)
        → faulty p ≡ false
        → faulty q ≡ false
        → arrives q msg m
        → msg.type ≡ MsgType.prepare
        → m.envelope.sender ≡ p
        → (requests : List Envelope) × Memᴰ (broadcast msg requests) (node p).sent) where
    Prepared-VotedFor :
        (p q : Bytes) (k : OperationKey)
        → faulty p ≡ false
        → faulty q ≡ false
        → Prepared (in_swarm peers (arrives q)) k p
        → VotedFor ctx (node p) k
    Prepared-VotedFor p q k f g b =
        let (requests, sent) = authentic p q b.msg b.message f g b.arrived b.prepare b.sender in
        record { msg = b.msg; requests = requests; sent = sent; vote = inl b.prepare; key = b.key }

    -- Two keys that were prepared at peers that are not faulty.
    HasPrepared-same :
        (i j : Bytes) (k l : OperationKey)
        → faulty i ≡ false
        → faulty j ≡ false
        → HasPrepared ctx.parse_db ctx.parse_config (world (in_swarm peers (arrives i))) k
        → HasPrepared ctx.parse_db ctx.parse_config (world (in_swarm peers (arrives j))) l
        → k.0 ≡ l.0
        → k.1.0 ≡ l.1.0
        → k ≡ l
    HasPrepared-same i j k l f g x y v s =
        let a = HasPrepared-Held peers (arrives i) k x in
        let b = HasPrepared-Held peers (arrives j) l y in
        let overlap = quorums_overlap peers a.seen b.seen third fits a.vote b.vote a.size b.size in
        let (p, h, m, m') =
          honest_in_both faulty a.seen b.seen peers (omega (arith, overlap, few)) in
        votes_agree ctx k l (follows p h) (Prepared-VotedFor p i k h f (a.came p m))
          (Prepared-VotedFor p j l h g (b.came p m')) v s

    -- In a swarm whose peers stay the same, whose size is one more than a multiple of three and
    -- fits in 64 bits, and where fewer peers are faulty than make up one honest peer for certain:
    -- if the peers that are not faulty keep their operations in memory and are in states that they
    -- reach by the handlers, from any messages, and a prepare that comes to one of them under the
    -- name of another that is not faulty was sent by that one, then two prepared operations with
    -- the same view and sequence number that two such peers hold have the same request hash.
    pub prepared_agree :
        (i j : Bytes) (k l : OperationKey) (o o' : Operation D C)
        → faulty i ≡ false
        → faulty j ≡ false
        → lookup k (node i).operations ≡ some o
        → lookup l (node j).operations ≡ some o'
        → is_prepared o ≡ true
        → is_prepared o' ≡ true
        → o.view ≡ o'.view
        → o.sequence ≡ o'.sequence
        → o.request_hash ≡ o'.request_hash
    prepared_agree i j k l o o' f g e e' p p' v s =
        let a : IsSafeNode ctx (world (in_swarm peers (arrives i))) (node i) =
          Reached-IsSafe ctx (follows i f) in
        let b : IsSafeNode ctx (world (in_swarm peers (arrives j))) (node j) =
          Reached-IsSafe ctx (follows j g) in
        ap (λ z. z.1.1)
          (HasPrepared-same i j (get_operation_key o) (get_operation_key o') f g
            (o, (a.settled k o e).reachable, p, refl) (o', (b.settled l o' e').reachable, p', refl)
            v s)

    Commit-HasPrepared :
        (w : World) (a : Map LogKey OperationKey) (m : PbftMsg) (t : MsgType)
        → t ≡ MsgType.commit
        → Vote {D = D} {C = C} ctx.parse_db ctx.parse_config w a m t
        → HasPrepared ctx.parse_db ctx.parse_config w (msg_key m)
    Commit-HasPrepared w a m MsgType.commit e v = v.1
    Commit-HasPrepared w a m MsgType.prepare e v = absurd (cc e)
    Commit-HasPrepared w a m MsgType.preprepare e v = absurd (cc e)
    Commit-HasPrepared w a m MsgType.viewchange e v = absurd (cc e)
    Commit-HasPrepared w a m MsgType.newview e v = absurd (cc e)
    Commit-HasPrepared w a m MsgType.undefined e v = absurd (cc e)

    sent_commit-HasPrepared :
        (i : Bytes) (msg : PbftMsg) (requests : List Envelope)
        → faulty i ≡ false
        → Memᴰ (broadcast msg requests) (node i).sent
        → msg.type ≡ MsgType.commit
        → HasPrepared ctx.parse_db ctx.parse_config
            (world (in_swarm peers (arrives i)))
            (msg_key msg)
    sent_commit-HasPrepared i msg requests f m t =
        let w = world (in_swarm peers (arrives i)) in
        let accepted = (node i).accepted_preprepares in
        let safe : IsSafeNode ctx w (node i) = Reached-IsSafe ctx (follows i f) in
        Commit-HasPrepared w accepted msg msg.type t (
          All-Mem (Justified ctx.parse_db ctx.parse_config w accepted) (broadcast msg requests)
            (node i).sent safe.justified m)

    -- In a swarm whose peers stay the same, whose size is one more than a multiple of three and
    -- fits in 64 bits, and where fewer peers are faulty than make up one honest peer for certain:
    -- if the peers that are not faulty keep their operations in memory and are in states that they
    -- reach by the handlers, from any messages, and a prepare that comes to one of them under the
    -- name of another that is not faulty was sent by that one, then two commits with the same view
    -- and sequence number that two such peers have sent at any time, also for operations that were
    -- removed since, have the same request hash.
    pub commits_agree :
        (i j : Bytes) (msg msg' : PbftMsg) (requests requests' : List Envelope)
        → faulty i ≡ false
        → faulty j ≡ false
        → Memᴰ (broadcast msg requests) (node i).sent
        → Memᴰ (broadcast msg' requests') (node j).sent
        → msg.type ≡ MsgType.commit
        → msg'.type ≡ MsgType.commit
        → msg.view ≡ msg'.view
        → msg.sequence ≡ msg'.sequence
        → msg.request_hash ≡ msg'.request_hash
    commits_agree i j msg msg' requests requests' f g m m' t t' v s =
        ap (λ z. z.1.1)
          (HasPrepared-same i j (msg_key msg) (msg_key msg') f g
            (sent_commit-HasPrepared i msg requests f m t)
            (sent_commit-HasPrepared j msg' requests' g m' t') v s)

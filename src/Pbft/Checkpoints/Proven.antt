-- ===== src/Pbft/Checkpoints/Proven.antt =====
-- What stands behind the checkpoint that a node holds to be stable.
use bluzelle.Base.{
  ◌≤◌, ◌≡◌, ◌⊎◌, refl, sym, ◌∙◌, ap, subst, Bool, true, false, not, ◌&&◌, [], ◌∷◌, Option, none,
  some, leb, ltb, ◌==◌, ==_iff, filter, length, if◌then◌else◌, arith, Bool-cases, Option-cases, inl,
  inr, none-ne-some,
}
use mathlib.Core.Option.{some-injective}
use bluzelle.Bytes.{Bytes}
use bluzelle.Bytes.Order.{Ordered, bytes_ordered, bytes_eq_iff}
use bluzelle.Map.{Map, lookup, insert, inner, keys}
use bluzelle.Map.Laws.{lookup-insert}
use bluzelle.Pbft.Operation.{Envelope}
use bluzelle.Pbft.Quorum.{honest_member_size}
use bluzelle.Pbft.Messages.{Surroundings}
use bluzelle.Pbft.Checkpoints.{
  Checkpoint, checkpoint_ordered, Checkpoints, initial, same_hash, nth, send_state_request, newer,
  stabilize_checkpoint, attestants, reconcile, maybe_stabilize_checkpoint, add_partial,
  handle_checkpoint_message,
}

module _ {K V : Type 0} ⦃o : Ordered K⦄ where
  lookup-filter :
      (p : K → Bool) (k : K) (m : Map K V)
      → lookup k (filter (λ (e : K × V). p e.0) m) ≡ (if p k then lookup k m else none)
  unfolding lookup filter
  lookup-filter p k [] = ground arith
  lookup-filter p k ((j, v) ∷ m) = elim (Bool-cases (o.eq j k)) [
    | inl z ↦
        let same : j ≡ k = (o.eq_iff j k).0 z in
        let here : p j ≡ p k = ap p same in ground (arith, lookup-filter p k m, z, here)
    | inr z ↦ ground (arith, lookup-filter p k m, z)
  ]

module _ {D C : Type 0} (ctx : Surroundings D C) where
  -- Each is a message for the checkpoint, by the peer under whose name it is kept.
  abbrev pub Proves : Checkpoint → Map Bytes Envelope → Type 0
  Proves cp m =
      (sender : Bytes) (e : Envelope)
      → lookup sender m ≡ some e
      → (e.sender ≡ sender) × (ctx.parse_checkpoint e ≡ some cp)

  pub record IsProven (c : Checkpoints) : Type 0 where
    pub stable : Proves c.latest_stable_checkpoint c.latest_stable_checkpoint_proof
    pub partial :
        (cp : Checkpoint) (m : Map Bytes Envelope)
        → lookup cp c.partial_checkpoint_proofs ≡ some m
        → Proves cp m

  -- What becomes of the checkpoints by a message.
  pub record Handled (c c' : Checkpoints) : Type 0 where
    pub proven : IsProven c'
    pub vouched :
        (c'.latest_stable_checkpoint ≡ c.latest_stable_checkpoint)
        ⊎ (honest_member_size (length ctx.peers) ≤ attestants ctx c'.latest_stable_checkpoint_proof)
    pub forward :
        c.latest_stable_checkpoint.0 ≤ c.latest_local_checkpoint.0
        → c.latest_stable_checkpoint.0 ≤ c'.latest_stable_checkpoint.0
    pub local : c'.latest_local_checkpoint ≡ c.latest_local_checkpoint

  inner-Proves :
      (cp : Checkpoint) (x : Option (Map Bytes Envelope))
      → ((m : Map Bytes Envelope) → x ≡ some m → Proves cp m)
      → Proves cp (inner x)
  unfolding lookup
  inner-Proves cp none h = λ s e p. absurd (none-ne-some p)
  inner-Proves cp (some m) h = h m refl

  proves_if :
      (cp : Checkpoint) (b : Bool) (s : Bytes) (e x : Envelope) (other : Option Envelope)
      → (if b then some e else other) ≡ some x
      → (b ≡ true → e.sender ≡ s)
      → ctx.parse_checkpoint e ≡ some cp
      → (other ≡ some x → (x.sender ≡ s) × (ctx.parse_checkpoint x ≡ some cp))
      → (x.sender ≡ s) × (ctx.parse_checkpoint x ≡ some cp)
  proves_if cp true s e x other p q r h =
      let same : e ≡ x = some-injective e x p in
      (ap (λ y. y.sender) (sym same) ∙ q refl, ap (λ y. ctx.parse_checkpoint y) (sym same) ∙ r)
  proves_if cp false s e x other p q r h = h p

  insert-Proves :
      (cp : Checkpoint) (e : Envelope) (m : Map Bytes Envelope)
      → Proves cp m
      → ctx.parse_checkpoint e ≡ some cp
      → Proves cp (insert e.sender e m)
  insert-Proves cp e m h r = λ s x p.
      proves_if cp (bytes_ordered.eq e.sender s) s e x (lookup s m) (rw lookup-insert at p)
        (bytes_ordered.eq_iff e.sender s).0 r (h s x)

  partial_if :
      (b : Bool) (cp k : Checkpoint) (v m : Map Bytes Envelope)
      (other : Option (Map Bytes Envelope))
      → (if b then some v else other) ≡ some m
      → (b ≡ true → cp ≡ k)
      → Proves cp v
      → (other ≡ some m → Proves k m)
      → Proves k m
  partial_if true cp k v m other p q r h =
      subst (λ x. Proves x m) (q refl) (subst (Proves cp) (some-injective v m p) r)
  partial_if false cp k v m other p q r h = h p

  add_partial-IsProven :
      (cp : Checkpoint) (e : Envelope) (c : Checkpoints)
      → IsProven c
      → ctx.parse_checkpoint e ≡ some cp
      → IsProven (add_partial ctx cp e c)
  unfolding add_partial
  add_partial-IsProven cp e c h r = record {
    stable = h.stable;
    partial = λ k m p.
        partial_if (checkpoint_ordered.eq cp k) cp k _ m (lookup k c.partial_checkpoint_proofs)
          (rw lookup-insert at p) (checkpoint_ordered.eq_iff cp k).0 grown (h.partial k m);
  }
    where
      proof : Map Bytes Envelope
      proof = inner (lookup cp c.partial_checkpoint_proofs)

      old : Proves cp proof
      old = inner-Proves cp (lookup cp c.partial_checkpoint_proofs) (h.partial cp)

      grown :
          Proves cp
            (elim (lookup e.sender proof) [ none ↦ insert e.sender e proof | some x ↦ proof ])
      grown = elim (Option-cases (lookup e.sender proof)) [
        | inl z ↦ rw z (insert-Proves cp e proof old r)
        | inr (x, z) ↦ rw z old
      ]

  stabilize-IsProven :
      (cp : Checkpoint) (c : Checkpoints) → IsProven c → IsProven (stabilize_checkpoint ctx cp c)
  unfolding stabilize_checkpoint newer
  stabilize-IsProven cp c h = record {
    stable = inner-Proves cp (lookup cp c.partial_checkpoint_proofs) (h.partial cp);
    partial = λ k m p.
        kept k m (ltb cp.0 k.0) (rw (lookup-filter (λ (j : Checkpoint). ltb cp.0 j.0)) at p);
  }
    where
      kept :
          (k : Checkpoint) (m : Map Bytes Envelope) (b : Bool)
          → (if b then lookup k c.partial_checkpoint_proofs else none) ≡ some m
          → Proves k m
      kept k m true p = h.partial k m p
      kept k m false p = absurd (none-ne-some p)

  -- Requests for the state change nothing else.
  send_state_request_only :
      (c : Checkpoints)
      → send_state_request ctx c ≡ record c { requested = (send_state_request ctx c).requested }
  unfolding send_state_request
  send_state_request_only c =
      elim (Option-cases (nth (keys c.latest_stable_checkpoint_proof) ctx.selected)) [
        | inl e ↦ rw (send_state_request, e) refl
        | inr (p, e) ↦ rw (send_state_request, e) refl
      ]

  reconcile_only :
      (cp : Checkpoint) (c : Checkpoints)
      → reconcile ctx cp c ≡ record c { requested = (reconcile ctx cp c).requested }
  unfolding reconcile
  reconcile_only cp c = elim (Bool-cases (ltb c.latest_local_checkpoint.0 cp.0)) [
    | inl z ↦ rw (reconcile, z) refl
    | inr z ↦
        elim (Bool-cases
          (c.latest_local_checkpoint.0 == cp.0 && not (same_hash c.latest_stable_checkpoint cp))) [
            | inl y ↦ rw (reconcile, z, y) (send_state_request_only c)
            | inr y ↦ rw (reconcile, z, y) refl
          ]
  ]

  -- A message for a checkpoint that is not the stable one.
  stabilized-Handled :
      (cp : Checkpoint) (c d : Checkpoints)
      → (c.latest_local_checkpoint.0 ≤ cp.0)
      → IsProven d
      → d.latest_stable_checkpoint ≡ c.latest_stable_checkpoint
      → d.latest_local_checkpoint ≡ c.latest_local_checkpoint
      → Handled c (maybe_stabilize_checkpoint ctx cp d)
  unfolding maybe_stabilize_checkpoint stabilize_checkpoint
  stabilized-Handled cp c d le h s l =
      elim (Bool-cases (
        leb (honest_member_size (length ctx.peers))
          (attestants ctx (inner (lookup cp d.partial_checkpoint_proofs))))) [
            | inl z ↦
                let e = stabilize_checkpoint ctx cp d in
                let k = stabilize-IsProven cp d h in
                rw (maybe_stabilize_checkpoint, z)
                  (subst (Handled c) (sym (reconcile_only cp e)) (record {
                    proven = record { stable = k.stable; partial = k.partial };
                    vouched = inr (ground (arith, z));
                    forward = λ p. omega (arith, p, le);
                    local = l;
                  }))
            | inr z ↦
                rw (maybe_stabilize_checkpoint, z)
                  (record {
                    proven = h;
                    vouched = inl s;
                    forward = λ p. omega (arith, ap (λ x. x.0) s);
                    local = l;
                  })
          ]

  unchanged : (c : Checkpoints) → IsProven c → Handled c c
  unchanged c h = record {
    proven = h;
    vouched = inl refl;
    forward = λ p. omega arith;
    local = refl;
  }

  -- If every proof that is kept consists of the messages of its senders for its checkpoint, then
  -- after any message that is so again, the local checkpoint is as before, the stable checkpoint is
  -- the one from before or enough peers for one honest peer vouch for it, and, if it was not above
  -- the local one, it has not gone back to an earlier sequence number.
  pub handle_checkpoint_message_lem :
      (msg : Envelope) (c : Checkpoints)
      → IsProven c
      → Handled c (handle_checkpoint_message ctx msg c)
  unfolding handle_checkpoint_message add_partial
  handle_checkpoint_message_lem msg c h = elim (Option-cases (ctx.parse_checkpoint msg)) [
    | inl e ↦ rw (handle_checkpoint_message, e) (unchanged c h)
    | inr (cp, e) ↦ elim (Bool-cases (ltb cp.0 c.latest_local_checkpoint.0)) [
      | inl z ↦ rw (handle_checkpoint_message, e, z) (unchanged c h)
      | inr z ↦ elim (Bool-cases (cp.0 == c.latest_stable_checkpoint.0)) [
        | inr y ↦
            rw (handle_checkpoint_message, e, z, y)
              (stabilized-Handled cp c (add_partial ctx cp msg c) (ground (arith, z))
                (add_partial-IsProven cp msg c h e) refl refl)
        | inl y ↦ elim (Bool-cases (same_hash cp c.latest_stable_checkpoint)) [
          | inr x ↦ rw (handle_checkpoint_message, e, z, y, x) (unchanged c h)
          | inl x ↦
              let p : cp.0 ≡ c.latest_stable_checkpoint.0 =
                (==_iff cp.0 c.latest_stable_checkpoint.0).0 y in
              let q : cp.1 ≡ c.latest_stable_checkpoint.1 =
                (bytes_eq_iff cp.1 c.latest_stable_checkpoint.1).0 x in
              let same : cp ≡ c.latest_stable_checkpoint = cc (p, q) in
              rw (handle_checkpoint_message, e, z, y, x)
                (record {
                  proven = record {
                    stable =
                        insert-Proves c.latest_stable_checkpoint msg
                          c.latest_stable_checkpoint_proof h.stable (e ∙ ap some same);
                    partial = h.partial;
                  };
                  vouched = inl refl;
                  forward = λ p. omega arith;
                  local = refl;
                })
        ]
      ]
    ]
  ]

  -- The stable checkpoint and its proof start out proven, as there is no message.
  pub initial-IsProven : IsProven initial
  unfolding lookup
  initial-IsProven = record {
    stable = λ s e p. absurd (none-ne-some p);
    partial = λ cp m p. absurd (none-ne-some p);
  }

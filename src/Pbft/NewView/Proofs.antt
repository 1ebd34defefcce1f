-- ===== src/Pbft/NewView/Proofs.antt =====
-- What the loop over the proofs, and the loop that fills the gaps, put under a sequence number.
use bluzelle.Base.{
  ℕ, zero, suc, ◌+◌, ◌≡◌, refl, ◌∙◌, ap, Bool, true, false, ◌&&◌, ◌||◌, List, [], ◌∷◌, Option, none,
  some, ltb, leb, ◌==◌, ==_iff, any, if◌then◌else◌, arith, Bool-cases, Option-cases, inl, inr,
}
use bluzelle.Bytes.Order.{number_ordered}
use bluzelle.Map.{Map, lookup, insert}
use bluzelle.Map.Laws.{lookup-insert}
use bluzelle.Pbft.Operation.{Envelope, Operation}
use bluzelle.Pbft.Manager.{OperationKey}
use bluzelle.Pbft.Messages.{WireMessage, PreparedProof, PbftMsg, Surroundings}
use bluzelle.Pbft.ViewChange.{parse_or_empty}
use bluzelle.Pbft.NewView.{is_in, max, add_proof, add_proofs, last_sequence_number, no_op, fill}

abbrev pub envelope_of : Option WireMessage → Option Envelope
envelope_of none = none
envelope_of (some m) = some m.envelope

-- Some entry has a number from `i` on.
unfoldable pub reaches : ℕ → Map ℕ WireMessage → Bool
reaches i pre = any (λ (e : ℕ × WireMessage). leb i e.0) pre

pub reaches-insert :
    (i k : ℕ) (x : WireMessage) (pre : Map ℕ WireMessage)
    → reaches i (insert k x pre) ≡ (leb i k || reaches i pre)
unfolding reaches any insert
reaches-insert i k x [] = ground arith
reaches-insert i k x ((j, y) ∷ pre) = ground (arith, reaches-insert i k x pre)

pub reaches-lookup :
    (i k : ℕ) (pre : Map ℕ WireMessage) (x : WireMessage)
    → lookup k pre ≡ some x
    → leb i k ≡ true
    → reaches i pre ≡ true
unfolding reaches any lookup
reaches-lookup i k [] x e h = cc
reaches-lookup i k ((j, y) ∷ pre) x e h = ground (arith, reaches-lookup i k pre x)

module _ {D C : Type 0} (ctx : Surroundings D C) where
  pub last_sequence_number-reaches :
      (i m : ℕ) (pre : Map ℕ WireMessage)
      → leb i (last_sequence_number ctx pre m) ≡ (leb i m || reaches i pre)
  unfolding last_sequence_number reaches any
  last_sequence_number-reaches i m [] = ground arith
  last_sequence_number-reaches i m ((j, y) ∷ pre) =
      ground (arith, last_sequence_number-reaches i (max m j) pre)

  abbrev pub sequence_of : PreparedProof → ℕ
  sequence_of p = (parse_or_empty ctx p.pre_prepare).sequence

  -- What the first of the proofs for the number says.
  abbrev pub first_for : ℕ → List PreparedProof → Option PbftMsg
  first_for i [] = none
  first_for i (p ∷ ps) =
      if sequence_of p == i then some (parse_or_empty ctx p.pre_prepare) else first_for i ps

  abbrev pub renewed : ℕ → Option PbftMsg → Option Envelope
  renewed v none = none
  renewed v (some p) = some (ctx.sign (record p { view = v }))

  -- The first of two, if there is one.
  abbrev pub or_other : Option Envelope → Option Envelope → Option Envelope
  or_other none y = y
  or_other (some x) y = some x

  or_other-none : (x : Option Envelope) (b : Bool) → x ≡ or_other x (if b then none else none)
  or_other-none none true = refl
  or_other-none none false = refl
  or_other-none (some x) b = refl

  or_other_assoc : (x y z : Option Envelope) → or_other (or_other x y) z ≡ or_other x (or_other y z)
  or_other_assoc none y z = refl
  or_other_assoc (some x) y z = refl

  module _ (v m : ℕ) (b : Bool) (i : ℕ) where
    lookup-add_proof :
        (p : PreparedProof) (pre : Map ℕ WireMessage) (held : Map OperationKey (Operation D C))
        → envelope_of (lookup i (add_proof ctx v m b p (pre, held)).0)
          ≡ or_other (envelope_of (lookup i pre)) (
              if leb i m
              then none
              else renewed v
                  (if sequence_of p == i then some (parse_or_empty ctx p.pre_prepare) else none))
    unfolding add_proof
    lookup-add_proof p pre held = elim (Bool-cases (sequence_of p == i)) [
      | inl z ↦ elim (Option-cases (lookup i pre)) [
        | inl e ↦
            let same : sequence_of p ≡ i = (==_iff (sequence_of p) i).0 z in
            let e' : lookup (sequence_of p) pre ≡ none = ap (λ k. lookup k pre) same ∙ e in
            elim (Bool-cases (leb i m)) [
              | inl y ↦
                  let y' : leb (sequence_of p) m ≡ true = ap (λ k. leb k m) same ∙ y in
                  rw (add_proof, e', y', e, y) refl
              | inr y ↦
                  let y' : leb (sequence_of p) m ≡ false = ap (λ k. leb k m) same ∙ y in
                  rw (add_proof, e', y', lookup-insert, z, e, y) refl
            ]
        | inr (x, e) ↦
            let same : sequence_of p ≡ i = (==_iff (sequence_of p) i).0 z in
            let e' : lookup (sequence_of p) pre ≡ some x = ap (λ k. lookup k pre) same ∙ e in
            rw (add_proof, e', e) refl
      ]
      | inr z ↦ elim (Bool-cases (is_in (lookup (sequence_of p) pre) || leb (sequence_of p) m)) [
        | inl c ↦ rw (add_proof, c, z) (or_other-none (envelope_of (lookup i pre)) (leb i m))
        | inr c ↦
            rw (add_proof, c, lookup-insert, z)
              (or_other-none (envelope_of (lookup i pre)) (leb i m))
      ]
    ]

    first_if :
        (c d : Bool) (x : PbftMsg) (y : Option PbftMsg)
        → or_other
            (if d then none else renewed v (if c then some x else none))
            (if d then none else renewed v y)
          ≡ (if d then none else renewed v (if c then some x else y))
    first_if true true x y = refl
    first_if true false x y = refl
    first_if false true x y = refl
    first_if false false x y = refl

    pub lookup-add_proofs :
        (ps : List PreparedProof) (pre : Map ℕ WireMessage)
        (held : Map OperationKey (Operation D C))
        → envelope_of (lookup i (add_proofs ctx v m b ps (pre, held)).0)
          ≡ or_other
              (envelope_of (lookup i pre))
              (if leb i m then none else renewed v (first_for i ps))
    unfolding add_proofs
    lookup-add_proofs [] pre held = or_other-none (envelope_of (lookup i pre)) (leb i m)
    lookup-add_proofs (p ∷ ps) pre held =
        let next = add_proof ctx v m b p (pre, held) in
        lookup-add_proofs ps next.0 next.1
        ∙ ap (λ x. or_other x (if leb i m then none else renewed v (first_for i ps)))
            (lookup-add_proof p pre held)
        ∙ or_other_assoc (envelope_of (lookup i pre)) _ _
        ∙ ap (or_other (envelope_of (lookup i pre))) (
            first_if (sequence_of p == i) (leb i m) (parse_or_empty ctx p.pre_prepare)
              (first_for i ps))

    -- A number from `i` on, above the checkpoint, that a proof is for.
    abbrev pub above : List PreparedProof → Bool
    above ps = any (λ p. leb i (sequence_of p) && ltb m (sequence_of p)) ps

    reaches-add_proof :
        (p : PreparedProof) (pre : Map ℕ WireMessage) (held : Map OperationKey (Operation D C))
        → reaches i (add_proof ctx v m b p (pre, held)).0
          ≡ ((leb i (sequence_of p) && ltb m (sequence_of p)) || reaches i pre)
    unfolding add_proof
    reaches-add_proof p pre held = elim (Option-cases (lookup (sequence_of p) pre)) [
      | inl e ↦ elim (Bool-cases (leb (sequence_of p) m)) [
        | inl z ↦ rw (add_proof, e, z) (ground (arith, z))
        | inr z ↦ rw (add_proof, e, z, reaches-insert) (ground (arith, z))
      ]
      | inr (x, e) ↦ rw (add_proof, e) (ground (arith, reaches-lookup i (sequence_of p) pre x e))
    ]

    pub reaches-add_proofs :
        (ps : List PreparedProof) (pre : Map ℕ WireMessage)
        (held : Map OperationKey (Operation D C))
        → reaches i (add_proofs ctx v m b ps (pre, held)).0 ≡ (reaches i pre || above ps)
    unfolding add_proofs any
    reaches-add_proofs [] pre held = ground arith
    reaches-add_proofs (p ∷ ps) pre held =
        let next = add_proof ctx v m b p (pre, held) in
        reaches-add_proofs ps next.0 next.1 ∙ rw (reaches-add_proof p pre held) (ground arith)

    abbrev filled : ℕ → Map ℕ WireMessage → Map ℕ WireMessage
    filled j pre = if is_in (lookup j pre) then pre else insert j (no_op ctx v j) pre

    lookup-filled :
        (j : ℕ) (pre : Map ℕ WireMessage)
        → envelope_of (lookup i (filled j pre))
          ≡ or_other
              (envelope_of (lookup i pre))
              (if j == i then some (no_op ctx v i).envelope else none)
    lookup-filled j pre = elim (Bool-cases (j == i)) [
      | inl z ↦
          let same : j ≡ i = (==_iff j i).0 z in
          elim (Option-cases (lookup i pre)) [
            | inl e ↦
                let e' : lookup j pre ≡ none = ap (λ k. lookup k pre) same ∙ e in
                rw (e', lookup-insert, z, e) (ap (λ k. some (no_op ctx v k).envelope) same)
            | inr (x, e) ↦
                let e' : lookup j pre ≡ some x = ap (λ k. lookup k pre) same ∙ e in rw (e', e) refl
          ]
      | inr z ↦ elim (Option-cases (lookup j pre)) [
        | inl e ↦ rw (e, lookup-insert, z) (or_other-none (envelope_of (lookup i pre)) true)
        | inr (x, e) ↦ rw (e, z) (or_other-none (envelope_of (lookup i pre)) true)
      ]
    ]

    rounds_if :
        (j r : ℕ) (x : Envelope)
        → or_other
            (if j == i then some x else none)
            (if leb (j + 1) i && ltb i (j + 1 + r) then some x else none)
          ≡ (if leb j i && ltb i (j + suc r) then some x else none)
    rounds_if j r x = ground arith

    no_rounds : (j : ℕ) → (leb j i && ltb i (j + 0)) ≡ false
    no_rounds j = ground arith

    pub lookup-fill :
        (j rounds : ℕ) (pre : Map ℕ WireMessage)
        → envelope_of (lookup i (fill ctx v j rounds pre))
          ≡ or_other
              (envelope_of (lookup i pre))
              (if leb j i && ltb i (j + rounds) then some (no_op ctx v i).envelope else none)
    unfolding fill
    lookup-fill j zero pre = rw (no_rounds j) (or_other-none (envelope_of (lookup i pre)) true)
    lookup-fill j (suc rounds) pre =
        lookup-fill (j + 1) rounds (filled j pre)
        ∙ ap
            (λ x. or_other x (
              if leb (j + 1) i && ltb i (j + 1 + rounds)
              then some (no_op ctx v i).envelope
              else none))
            (lookup-filled j pre)
        ∙ or_other_assoc (envelope_of (lookup i pre)) _ _
        ∙ ap (or_other (envelope_of (lookup i pre))) (rounds_if j rounds (no_op ctx v i).envelope)

-- ===== src/Pbft/NewView/Chosen.antt =====
-- Which preprepares a new view starts with.
use bluzelle.Base.{
  ℕ, ◌+◌, ◌-◌, ◌≡◌, refl, ◌∙◌, ap, Bool, true, false, ◌&&◌, ◌||◌, List, [], ◌∷◌, Option, none, some,
  ltb, leb, any, if◌then◌else◌, arith, Bool-cases, inl, inr,
}
use bluzelle.Bytes.Order.{number_ordered}
use bluzelle.Map.{Map, lookup}
use bluzelle.Pbft.Operation.{Envelope, Operation}
use bluzelle.Pbft.Manager.{OperationKey}
use bluzelle.Pbft.Messages.{PreparedProof, Surroundings}
use bluzelle.Pbft.NewView.{
  add_proofs, all_proofs, max_checkpoint_sequence, last_sequence_number, no_op,
  fill_in_missing_pre_prepares, pre_prepares_for,
}
use bluzelle.Pbft.NewView.Proofs.{
  envelope_of, above, lookup-add_proofs, reaches-add_proofs, lookup-fill, reaches, sequence_of,
  last_sequence_number-reaches, renewed, first_for, or_other,
}

module _ {D C : Type 0} (ctx : Surroundings D C) where
  -- The preprepare that a new view has for a number: none up to the latest checkpoint; the first
  -- that a proof gives; a request that does nothing, if there is a proof for a later number.
  abbrev pub expected : ℕ → List Envelope → ℕ → Option Envelope
  expected v envelopes i =
      if leb i (max_checkpoint_sequence ctx envelopes 0)
      then none
      else or_other ctx (renewed ctx v (first_for ctx i (all_proofs ctx envelopes))) (
          if any (λ p. leb i (sequence_of ctx p)) (all_proofs ctx envelopes)
          then some (no_op ctx v i).envelope
          else none)

  above-any :
      (v m i : ℕ) (b : Bool) (ps : List PreparedProof)
      → leb i m ≡ false
      → above ctx v m b i ps ≡ any (λ p. leb i (sequence_of ctx p)) ps
  unfolding any
  above-any v m i b [] h = refl
  above-any v m i b (p ∷ ps) h = ground (arith, above-any v m i b ps h)

  last_if :
      (m i last : ℕ) → leb i m ≡ false → (leb (m + 1) i && ltb i (m + 1 + (last - m))) ≡ leb i last
  last_if m i last h = ground arith

  none_below :
      (m i last : ℕ) → leb i m ≡ true → (leb (m + 1) i && ltb i (m + 1 + (last - m))) ≡ false
  none_below m i last h = ground arith

  -- Whether the loop comes to a number above the checkpoint.
  last-above :
      (v m i : ℕ) (b : Bool) (ps : List PreparedProof) (held : Map OperationKey (Operation D C))
      → leb i m ≡ false
      → leb i (last_sequence_number ctx (add_proofs ctx v m b ps ([], held)).0 0)
        ≡ any (λ p. leb i (sequence_of ctx p)) ps
  unfolding reaches any
  last-above v m i b ps held h =
      let pre = (add_proofs ctx v m b ps ([], held)).0 in
      let positive : leb i 0 ≡ false = ground arith in
      last_sequence_number-reaches ctx i 0 pre
      ∙ ap (λ x. x || reaches i pre) positive
      ∙ reaches-add_proofs ctx v m b i ps [] held
      ∙ above-any v m i b ps h

  -- The preprepare that a new view holds for a sequence number: none up to the latest checkpoint
  -- that the messages name; above it the signed preprepare of the first proof for the number, with
  -- the new view in it; if there is no proof for the number, but one for a later one, the signed
  -- preprepare of the request that does nothing; and otherwise none.
  pub newview_lem :
      (v : ℕ) (envelopes : List Envelope) (attach : Bool) (held : Map OperationKey (Operation D C))
      (i : ℕ)
      → envelope_of (lookup i (pre_prepares_for ctx v envelopes attach held).0)
        ≡ expected v envelopes i
  unfolding pre_prepares_for fill_in_missing_pre_prepares lookup
  newview_lem v envelopes attach held i =
      let m = max_checkpoint_sequence ctx envelopes 0 in
      let ps = all_proofs ctx envelopes in
      let pre = (add_proofs ctx v m attach ps ([], held)).0 in
      let last = last_sequence_number ctx pre 0 in
      let chosen = lookup-add_proofs ctx v m attach i ps [] held in
      lookup-fill ctx v m attach i (m + 1) (last - m) pre ∙ elim (Bool-cases (leb i m)) [
        | inl z ↦ rw (chosen, z, none_below m i last z) refl
        | inr z ↦ rw (chosen, z, last_if m i last z, last-above v m i attach ps held z) refl
      ]

-- ===== src/Pbft/Core/Acceptance.antt =====
-- What it takes to accept a preprepare, and what the table of accepted ones keeps.
use bluzelle.Base.{
  ◌≡◌, ◌⊎◌, refl, sym, ◌∙◌, ap, subst, Bool, true, false, Option, none, some, if◌then◌else◌, inl,
  inr, none-ne-some,
}
use mathlib.Core.Option.{some-injective}
use bluzelle.Map.{Map, lookup, insert}
use bluzelle.Map.Laws.{lookup-insert}
use bluzelle.Pbft.Manager.{OperationKey}
use bluzelle.Pbft.Core.{LogKey, log_key_ordered}
use bluzelle.Pbft.Core.Safe.{Accepted, Keeps}

-- Whether a preprepare for the key may be accepted.
abbrev pub IsFree : Map LogKey OperationKey → OperationKey → Type 0
IsFree a k = (lookup (k.0, k.1.0) a ≡ none) ⊎ Accepted a k

pub record Extended (a b : Map LogKey OperationKey) (k : OperationKey) : Type 0 where
  pub keeps : Keeps a b
  pub matching : (j : LogKey) (v : OperationKey) → lookup j b ≡ some v → (v.0 ≡ j.0) × (v.1.0 ≡ j.1)
  pub entered : Accepted b k

accepted_if :
    (b : Bool) (k v w : OperationKey) (other : Option OperationKey)
    → other ≡ some v
    → (b ≡ true → (other ≡ none) ⊎ (other ≡ some k))
    → (if b then some k else other) ≡ some v
accepted_if false k v w other e f = e
accepted_if true k v w other e f = elim (f refl) [
  | inl p ↦ absurd (none-ne-some (sym p ∙ e))
  | inr p ↦ sym p ∙ e
]

matching_if :
    (b : Bool) (k v : OperationKey) (j : LogKey) (other : Option OperationKey)
    → (if b then some k else other) ≡ some v
    → (b ≡ true → (k.0, k.1.0) ≡ j)
    → (other ≡ some v → (v.0 ≡ j.0) × (v.1.0 ≡ j.1))
    → (v.0 ≡ j.0) × (v.1.0 ≡ j.1)
matching_if false k v j other e f g = g e
matching_if true k v j other e f g =
    let same : k ≡ v = some-injective k v e in
    (
      ap (λ x. x.0) (sym same) ∙ ap (λ x. x.0) (f refl),
      ap (λ x. x.1.0) (sym same) ∙ ap (λ x. x.1) (f refl),
    )

pub insert-Extended :
    (a : Map LogKey OperationKey) (k : OperationKey)
    → ((j : LogKey) (v : OperationKey) → lookup j a ≡ some v → (v.0 ≡ j.0) × (v.1.0 ≡ j.1))
    → IsFree a k
    → Extended a (insert (k.0, k.1.0) k a) k
insert-Extended a k m free = record {
  keeps = λ v e. rw lookup-insert (
      accepted_if (log_key_ordered.eq (k.0, k.1.0) (v.0, v.1.0)) k v v (lookup (v.0, v.1.0) a) e
        λ t.
          let same : (k.0, k.1.0) ≡ (v.0, v.1.0) =
            (log_key_ordered.eq_iff (k.0, k.1.0) (v.0, v.1.0)).0 t in
          subst (λ x. (lookup x a ≡ none) ⊎ (lookup x a ≡ some k)) same free);
  matching = λ j v e.
      matching_if (log_key_ordered.eq (k.0, k.1.0) j) k v j (lookup j a) (rw lookup-insert at e)
        (log_key_ordered.eq_iff (k.0, k.1.0) j).0 (m j v);
  entered =
      let self : log_key_ordered.eq (k.0, k.1.0) (k.0, k.1.0) ≡ true =
        (log_key_ordered.eq_iff (k.0, k.1.0) (k.0, k.1.0)).1 refl in
      rw (lookup-insert, self) refl;
}

-- ===== src/Pbft/State/Escapes.antt =====
-- `escape` and `unescape`.
use bluzelle.Base.{
  ℕ, ◌≡◌, refl, sym, ◌∙◌, ap, false, List, [], ◌∷◌, ◌++◌, none, some, ◌==◌, ==_iff, Bool-cases, inl,
  inr, none-ne-some,
}
use bluzelle.Bytes.{Bytes}
use bluzelle.Pbft.State.{
  escape_1, escape, unescape, put, separator, generate_key, storage_key, put_first, split_subkeys,
  extract_subkeys,
}
use mathlib.Core.Option.{some-injective}
use mathlib.Core.List.{append-nil}

unescape-plain :
    (ch : ℕ) (s : Bytes) → (ch == escape_1) ≡ false → unescape (ch ∷ s) ≡ put ch (unescape s)
unfolding unescape
unescape-plain ch [] z = rw (unescape, z) refl
unescape-plain ch (next ∷ rest) z = rw (unescape, z) refl

-- Unescaping an escaped text does not throw and gives the text.
pub unescape-escape : (s : Bytes) → unescape (escape s) ≡ some s
unfolding unescape escape
unescape-escape [] = refl
unescape-escape (ch ∷ s) = elim (Bool-cases (ch == escape_1)) [
  | inl z ↦
      rw (escape, z, unescape, unescape-escape s)
        (ap (λ c. some (c ∷ s)) (sym ((==_iff ch escape_1).0 z)))
  | inr z ↦ rw (escape, z, unescape-plain ch (escape s) z, unescape-escape s) refl
]

split_subkeys-plain :
    (ch : ℕ) (s : Bytes)
    → (ch == escape_1) ≡ false
    → split_subkeys (ch ∷ s) ≡ put_first (ch ∷ []) (split_subkeys s)
unfolding split_subkeys
split_subkeys-plain ch [] z = refl
split_subkeys-plain ch (next ∷ rest) z = rw (split_subkeys, z) refl

split_subkeys-escape :
    (s t : Bytes) → split_subkeys (escape s ++ (separator ++ t)) ≡ some (escape s, t)
unfolding split_subkeys escape
split_subkeys-escape [] t = refl
split_subkeys-escape (ch ∷ s) t = elim (Bool-cases (ch == escape_1)) [
  | inl z ↦ rw (escape, z, split_subkeys, split_subkeys-escape s t) refl
  | inr z ↦
      rw
        (
          escape,
          z,
          split_subkeys-plain ch (escape s ++ (separator ++ t)) z,
          split_subkeys-escape s t,
        )
        refl
]

split_subkeys-escape-none : (s : Bytes) → split_subkeys (escape s) ≡ none
unfolding split_subkeys escape
split_subkeys-escape-none [] = refl
split_subkeys-escape-none (ch ∷ s) = elim (Bool-cases (ch == escape_1)) [
  | inl z ↦ rw (escape, z, split_subkeys, split_subkeys-escape-none s) refl
  | inr z ↦ rw (escape, z, split_subkeys-plain ch (escape s) z, split_subkeys-escape-none s) refl
]

-- From two escaped sub-keys with a separator between them, `extract_subkeys` finds the two,
-- whatever bytes they have.
pub extract_subkeys-escape :
    (a b : Bytes) → extract_subkeys (escape a ++ (separator ++ escape b)) ≡ some (a, b)
unfolding extract_subkeys
extract_subkeys-escape a b =
    rw (extract_subkeys, split_subkeys-escape a (escape b), unescape-escape a, unescape-escape b)
      refl

escape_injective : (a b : Bytes) → escape a ≡ escape b → a ≡ b
escape_injective a b e =
    some-injective a b (sym (unescape-escape a) ∙ ap unescape e ∙ unescape-escape b)

-- If the storage keys of two persistent values are the same, then so are their names and all their
-- sub-keys, whatever bytes these have and however many there are.
pub storage_key_injective :
    (name other : Bytes) (ks js : List Bytes)
    → storage_key name ks ≡ storage_key other js
    → (name ≡ other) × (ks ≡ js)
unfolding generate_key
storage_key_injective name other [] [] e =
    (escape_injective name other (sym (append-nil _) ∙ e ∙ append-nil _), refl)
storage_key_injective name other [] (j ∷ js) e = absurd (
    none-ne-some (
      sym (split_subkeys-escape-none name)
      ∙ ap split_subkeys (sym (append-nil _) ∙ e)
      ∙ split_subkeys-escape other _))
storage_key_injective name other (k ∷ ks) [] e = absurd (
    none-ne-some (
      sym (split_subkeys-escape-none other)
      ∙ ap split_subkeys (sym (append-nil _) ∙ sym e)
      ∙ split_subkeys-escape name _))
storage_key_injective name other (k ∷ ks) (j ∷ js) e =
    let same : (escape name, storage_key k ks) ≡ (escape other, storage_key j js) =
      some-injective _ _
        (sym (split_subkeys-escape name _) ∙ ap split_subkeys e ∙ split_subkeys-escape other _) in
    let (p, q) = storage_key_injective k j ks js (ap (λ z. z.1) same) in
    (escape_injective name other (ap (λ z. z.0) same), rw (p, q) refl)

-- ===== src/Pbft/Service/Keys.antt =====
-- `std::to_string`: different sequence numbers have different keys, none of which is the key of the
-- next sequence number.
use bluzelle.Base.{
  ℕ, zero, suc, ◌+◌, ◌-◌, ◌*◌, ◌/◌, ◌%◌, ◌^◌, ◌<◌, ◌≤◌, length, length-append, ◌≡◌, refl, sym, ap,
  ◌∙◌, Bool, true, false, [], ◌∷◌, ◌++◌, ltb, any, ◌||◌, arith, Bool-cases, inl, inr,
}
use bluzelle.Bytes.{Bytes}
use bluzelle.Pbft.Service.{digits, to_string, next_request_sequence_key}

-- What the digits say, read after `a`.
value_from : ℕ → Bytes → ℕ
value_from a [] = a
value_from a (c ∷ cs) = value_from (a * 10 + (c - 48)) cs

value_from-snoc :
    (a : ℕ) (cs : Bytes) (c : ℕ) → value_from a (cs ++ c ∷ []) ≡ value_from a cs * 10 + (c - 48)
unfolding value_from
value_from-snoc a [] c = refl
value_from-snoc a (d ∷ cs) c = value_from-snoc (a * 10 + (d - 48)) cs c

power : ℕ → ℕ
power zero = 1
power (suc f) = 10 * power f

value_from-digits : (f n : ℕ) → n < power f → value_from 0 (digits f n) ≡ n
unfolding value_from digits power
value_from-digits zero n h = omega (arith, h)
value_from-digits (suc f) n h = elim (Bool-cases (ltb n 10)) [
  | inl z ↦ rw (digits, z) (ground arith)
  | inr z ↦
      let smaller : n / 10 < power f = omega (arith, h) in
      rw (digits, z)
        (rw
          (
            value_from-snoc 0 (digits f (n / 10)) (48 + n % 10),
            value_from-digits f (n / 10) smaller,
          )
          (omega arith))
]

abbrev Fits : ℕ → Type 0
Fits n = n < 2 ^ 64

value_from-to_string : (n : ℕ) → Fits n → value_from 0 (to_string n) ≡ n
unfolding to_string power
value_from-to_string n h = value_from-digits 20 n (omega (arith, h))

pub to_string_injective : (m n : ℕ) → m < 2 ^ 64 → n < 2 ^ 64 → to_string m ≡ to_string n → m ≡ n
to_string_injective m n h k e =
    sym (value_from-to_string m h) ∙ ap (value_from 0) e ∙ value_from-to_string n k

any-append : (p : ℕ → Bool) (xs ys : Bytes) → any p (xs ++ ys) ≡ (any p xs || any p ys)
unfolding any
any-append p [] ys = refl
any-append p (x ∷ xs) ys = ground (arith, any-append p xs ys)

-- No character of a number is above 9.
any-digits : (f n : ℕ) → any (ltb 57) (digits f n) ≡ false
unfolding any digits
any-digits zero n = refl
any-digits (suc f) n = elim (Bool-cases (ltb n 10)) [
  | inl z ↦ rw (digits, z) (ground arith)
  | inr z ↦
      rw (digits, z)
        (rw (any-append (ltb 57) (digits f (n / 10)) ((48 + n % 10) ∷ []), any-digits f (n / 10))
          (ground arith))
]

pub to_string_other : (n : ℕ) → to_string n ≡ next_request_sequence_key → ⊥
unfolding to_string any
to_string_other n e =
    let h : false ≡ true = sym (any-digits 20 n) ∙ ap (any (ltb 57)) e in absurd (cc h)

length-digits : (f n : ℕ) → length (digits f n) ≤ f
unfolding digits
length-digits zero n = omega arith
length-digits (suc f) n = elim (Bool-cases (ltb n 10)) [
  | inl z ↦ rw (digits, z) (omega arith)
  | inr z ↦
      rw (digits, z)
        (omega
          (arith, length-append (digits f (n / 10)) ((48 + n % 10) ∷ []), length-digits f (n / 10)))
]

pub length-to_string : (n : ℕ) → length (to_string n) ≤ 20
unfolding to_string
length-to_string n = length-digits 20 n

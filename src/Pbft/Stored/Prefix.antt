-- ===== src/Pbft/Stored/Prefix.antt =====
-- The prefix of an operation: it is read back, and it lies among the keys where its sequence number
-- says.
use bluzelle.Base.{
  ℕ, zero, suc, ◌+◌, ◌-◌, ◌*◌, ◌/◌, ◌%◌, ◌^◌, ◌≤◌, ◌<◌, ◌≡◌, refl, sym, ap, ◌∙◌, Bool, true, false,
  ◌&&◌, ◌||◌, [], ◌∷◌, ◌++◌, none, some, ltb, leb, ◌==◌, length, length-append, if◌then◌else◌,
  arith,
}
use mathlib.Core.List.{append_assoc}
use bluzelle.Bytes.{Bytes, bytes_lt}
use bluzelle.Pbft.Stored.{
  underscore, padded, prefix_for_sequence, generate_prefix, find_first_of, find_last_of, skip, take,
  is_digit, leading, skip_spaces, read_digits, read_signed, stoul, well_formed, parse_between,
  parse_prefix,
}

power : ℕ → ℕ
power zero = 1
power (suc width) = 10 * power width

-- Texts of one width compare as their numbers, and then by what follows.
padded-lt :
    (width a b : ℕ) (s t : Bytes)
    → a < power width
    → b < power width
    → bytes_lt (padded width a ++ s) (padded width b ++ t)
      ≡ (if a == b then bytes_lt s t else ltb a b)
unfolding padded power bytes_lt
padded-lt zero a b s t h k = ground (arith, h, k)
padded-lt (suc width) a b s t h k =
    let c = 48 + a % 10 in
    let d = 48 + b % 10 in
    let rest =
      padded-lt width (a / 10) (b / 10) (c ∷ s) (d ∷ t) (omega (arith, h)) (omega (arith, k)) in
    rw
      (
        append_assoc (padded width (a / 10)) (c ∷ []) s,
        append_assoc (padded width (b / 10)) (d ∷ []) t,
        rest,
      )
      (ground arith)

within : (n : ℕ) → n < 2 ^ 64 → n < power 20
unfolding power
within n h = omega (arith, h)

not_below : (c : ℕ) (xs : Bytes) → bytes_lt (c ∷ xs) (c ∷ []) ≡ false
unfolding bytes_lt
not_below c [] = ground arith
not_below c (x ∷ xs) = ground arith

-- A key of an operation lies below the prefix of a sequence number exactly if its own sequence
-- number does, where both fit in 64 bits: a range of keys between two such prefixes is a range of
-- sequence numbers without its end.
pub generate_prefix-lt :
    (view sequence : ℕ) (hash rest : Bytes) (bound : ℕ)
    → sequence < 2 ^ 64
    → bound < 2 ^ 64
    → bytes_lt (generate_prefix view sequence hash ++ rest) (prefix_for_sequence bound)
      ≡ ltb sequence bound
unfolding generate_prefix prefix_for_sequence bytes_lt
generate_prefix-lt view sequence hash rest bound h k =
    let tail = hash ++ (underscore ∷ padded 20 view) in
    ap (λ x. bytes_lt x (padded 20 bound ++ underscore ∷ []))
      (append_assoc (padded 20 sequence) (underscore ∷ tail) rest)
    ∙ padded-lt 20 sequence bound (underscore ∷ tail ++ rest) (underscore ∷ []) (within sequence h)
        (within bound k)
    ∙ rw (not_below underscore (tail ++ rest)) (ground arith)

-- A text of digits alone.
all_digits : Bytes → Bool
all_digits [] = true
all_digits (c ∷ cs) = is_digit c && all_digits cs

all_digits-snoc : (cs : Bytes) (c : ℕ) → all_digits (cs ++ c ∷ []) ≡ (all_digits cs && is_digit c)
unfolding all_digits
all_digits-snoc [] c = ground arith
all_digits-snoc (d ∷ cs) c = ground (arith, all_digits-snoc cs c)

all_digits-padded : (width n : ℕ) → all_digits (padded width n) ≡ true
unfolding all_digits padded
all_digits-padded zero n = refl
all_digits-padded (suc width) n =
    rw (all_digits-snoc (padded width (n / 10)) (48 + n % 10), all_digits-padded width (n / 10))
      (ground arith)

length-padded : (width n : ℕ) → length (padded width n) ≡ width
unfolding padded
length-padded zero n = refl
length-padded (suc width) n = omega (
  arith,
  length-append (padded width (n / 10)) ((48 + n % 10) ∷ []),
  length-padded width (n / 10),
)

leading-snoc :
    (a : ℕ) (cs : Bytes) (c : ℕ)
    → all_digits cs ≡ true
    → is_digit c ≡ true
    → leading a (cs ++ c ∷ []) ≡ leading a cs * 10 + (c - 48)
unfolding leading all_digits
leading-snoc a [] c h k = ground (arith, k)
leading-snoc a (d ∷ cs) c h k = ground (arith, h, k, leading-snoc (a * 10 + (d - 48)) cs c)

leading-padded : (width n : ℕ) → n < power width → leading 0 (padded width n) ≡ n
unfolding leading padded power
leading-padded zero n h = omega (arith, h)
leading-padded (suc width) n h =
    let smaller : n / 10 < power width = omega (arith, h) in
    leading-snoc 0 (padded width (n / 10)) (48 + n % 10) (all_digits-padded width (n / 10))
      (ground arith)
    ∙ ap (λ x. x * 10 + (48 + n % 10 - 48)) (leading-padded width (n / 10) smaller)
    ∙ omega arith

stoul-digits :
    (cs : Bytes)
    → all_digits cs ≡ true
    → 1 ≤ length cs
    → leading 0 cs < 2 ^ 64
    → stoul cs ≡ some (leading 0 cs)
unfolding stoul skip_spaces read_signed read_digits all_digits
stoul-digits [] h k l = absurd (omega (arith, k))
stoul-digits (c ∷ cs) h k l = ground (arith, h, l)

stoul-padded : (n : ℕ) → n < 2 ^ 64 → stoul (padded 20 n) ≡ some n
stoul-padded n h =
    let e = leading-padded 20 n (within n h) in
    stoul-digits (padded 20 n) (all_digits-padded 20 n) (omega (arith, length-padded 20 n))
      (omega (arith, e, h))
    ∙ ap some e

find_first_of-padded :
    (cs rest : Bytes)
    → all_digits cs ≡ true
    → find_first_of underscore (cs ++ underscore ∷ rest) ≡ some (length cs)
unfolding find_first_of all_digits
find_first_of-padded [] rest h = refl
find_first_of-padded (c ∷ cs) rest h = ground (arith, h, find_first_of-padded cs rest)

find_last_of-none : (cs : Bytes) → all_digits cs ≡ true → find_last_of underscore cs ≡ none
unfolding find_last_of all_digits
find_last_of-none [] h = refl
find_last_of-none (c ∷ cs) h = ground (arith, h, find_last_of-none cs)

find_last_of-append :
    (xs cs : Bytes)
    → all_digits cs ≡ true
    → find_last_of underscore (xs ++ underscore ∷ cs) ≡ some (length xs)
unfolding find_last_of
find_last_of-append [] cs h = rw (find_last_of-none cs h) refl
find_last_of-append (x ∷ xs) cs h = rw (find_last_of-append xs cs h) refl

take-append : (xs ys : Bytes) → take (length xs) (xs ++ ys) ≡ xs
unfolding take
take-append [] ys = refl
take-append (x ∷ xs) ys = ap (λ r. x ∷ r) (take-append xs ys)

skip-append : (c : ℕ) (xs ys : Bytes) → skip (suc (length xs)) (xs ++ c ∷ ys) ≡ ys
unfolding skip
skip-append c [] ys = refl
skip-append c (x ∷ xs) ys = skip-append c xs ys

parse_prefix-between :
    (w : Bytes) (i j : ℕ)
    → find_first_of underscore w ≡ some i
    → find_last_of underscore w ≡ some j
    → parse_prefix w ≡ parse_between w i j
unfolding parse_prefix
parse_prefix-between w i j e f = rw (parse_prefix, e, f) refl

-- The prefix of an operation whose view and sequence number fit in 64 bits is read back to the
-- view, the sequence number and the hash, whatever bytes the hash has, the separator included.
pub parse_prefix-generate_prefix :
    (view sequence : ℕ) (hash : Bytes)
    → view < 2 ^ 64
    → sequence < 2 ^ 64
    → parse_prefix (generate_prefix view sequence hash) ≡ well_formed view sequence hash
unfolding generate_prefix
parse_prefix-generate_prefix view sequence hash h k =
    let p = padded 20 sequence in
    let v = padded 20 view in
    let front = p ++ underscore ∷ hash in
    let tail = hash ++ underscore ∷ v in
    let whole = p ++ underscore ∷ tail in
    let split : front ++ underscore ∷ v ≡ whole =
      append_assoc p (underscore ∷ hash) (underscore ∷ v) in
    let first : find_first_of underscore whole ≡ some 20 =
      find_first_of-padded p tail (all_digits-padded 20 sequence)
      ∙ ap some (length-padded 20 sequence) in
    let last : find_last_of underscore whole ≡ some (21 + length hash) =
      ap (find_last_of underscore) (sym split)
      ∙ find_last_of-append front v (all_digits-padded 20 view)
      ∙ ap some (omega (arith, length-append p (underscore ∷ hash), length-padded 20 sequence)) in
    let size : length whole ≡ 42 + length hash = omega (
      arith,
      length-append p (underscore ∷ tail),
      length-append hash (underscore ∷ v),
      length-padded 20 sequence,
      length-padded 20 view,
    ) in
    let number : take 20 whole ≡ p =
      ap (λ i. take i whole) (sym (length-padded 20 sequence))
      ∙ take-append p (underscore ∷ tail) in
    let ending : skip (21 + length hash + 1) whole ≡ v =
      ap (λ i. skip i whole)
        (omega (arith, length-append p (underscore ∷ hash), length-padded 20 sequence))
      ∙ ap (skip (suc (length front))) (sym split)
      ∙ skip-append underscore front v in
    let middle : take (21 + length hash - 20 - 1) (skip (20 + 1) whole) ≡ hash =
      ap (λ i. take (21 + length hash - 20 - 1) (skip i whole))
        (omega (arith, length-padded 20 sequence))
      ∙ ap (take (21 + length hash - 20 - 1)) (skip-append underscore p tail)
      ∙ ap (λ i. take i tail) (omega arith)
      ∙ take-append hash (underscore ∷ v) in
    parse_prefix-between whole 20 (21 + length hash) first last
    ∙ parts whole 20 (21 + length hash) p v hash sequence view (ground (arith, size)) number ending
        middle (stoul-padded sequence k) (stoul-padded view h)
  where
    parts :
        (w : Bytes) (i j : ℕ) (a b c : Bytes) (m n : ℕ)
        → (leb (length w - 1) j || leb j i) ≡ false
        → take i w ≡ a
        → skip (j + 1) w ≡ b
        → take (j - i - 1) (skip (i + 1) w) ≡ c
        → stoul a ≡ some m
        → stoul b ≡ some n
        → parse_between w i j ≡ well_formed n m c
    parts w i j a b c m n z e f g q r = rw (z, e, f, g, q, r) refl

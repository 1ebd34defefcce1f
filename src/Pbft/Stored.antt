-- ===== src/Pbft/Stored.antt =====
-- pbft/operations/pbft_persistent_operation.cpp: an operation that is kept in the storage under keys
-- with a common prefix. A call that throws is `none`.
pub mod Prefix
use bluzelle.Base.{
  ℕ, zero, suc, ◌+◌, ◌-◌, ◌*◌, ◌/◌, ◌%◌, ◌^◌, Bool, true, false, ◌&&◌, ◌||◌, [], ◌∷◌, ◌++◌, Option,
  none, some, ltb, leb, ◌==◌, length, if◌then◌else◌,
}
use bluzelle.Bytes.{Bytes, bytes}
use bluzelle.Bytes.Order.{bytes_ordered}
use bluzelle.Storage.Range

-- '_'
abbrev pub underscore : ℕ
underscore = 95

abbrev pub stage_key : Bytes
stage_key = bytes "stage"

abbrev pub request_key : Bytes
request_key = bytes "request"

abbrev pub operations_uuid : Bytes
operations_uuid = bytes "pbft_operations_data"

-- `%020u` of boost::format: the last digits of a number.
unfoldable pub padded : ℕ → ℕ → Bytes
padded zero n = []
padded (suc width) n = padded width (n / 10) ++ (48 + n % 10) ∷ []

unfoldable pub prefix_for_sequence : ℕ → Bytes
prefix_for_sequence sequence = padded 20 sequence ++ underscore ∷ []

unfoldable pub generate_prefix : ℕ → ℕ → Bytes → Bytes
generate_prefix view sequence request_hash =
    padded 20 sequence ++ (underscore ∷ request_hash ++ (underscore ∷ padded 20 view))

unfoldable pub generate_key : Bytes → Bytes → Bytes
generate_key prefix key = prefix ++ (underscore ∷ key)

-- `find_first_of` and `find_last_of` a character.
unfoldable pub find_first_of : ℕ → Bytes → Option ℕ
find_first_of c [] = none
find_first_of c (b ∷ bs) =
    if b == c then some 0 else elim (find_first_of c bs) [ none ↦ none | some i ↦ some (suc i) ]

unfoldable pub find_last_of : ℕ → Bytes → Option ℕ
find_last_of c [] = none
find_last_of c (b ∷ bs) = elim (find_last_of c bs) [
  | some i ↦ some (suc i)
  | none ↦ if b == c then some 0 else none
]

-- `substr` from a position, and of a length.
unfoldable pub skip : ℕ → Bytes → Bytes
skip zero bs = bs
skip (suc i) [] = []
skip (suc i) (b ∷ bs) = skip i bs

unfoldable pub take : ℕ → Bytes → Bytes
take zero bs = []
take (suc i) [] = []
take (suc i) (b ∷ bs) = b ∷ take i bs

abbrev pub is_digit : ℕ → Bool
is_digit c = leb 48 c && leb c 57

-- The number that the leading digits say, after `a`.
unfoldable pub leading : ℕ → Bytes → ℕ
leading a [] = a
leading a (c ∷ cs) = let rest = leading (a * 10 + (c - 48)) cs in if is_digit c then rest else a

unfoldable pub skip_spaces : Bytes → Bytes
skip_spaces [] = []
skip_spaces (c ∷ cs) =
    let rest = skip_spaces cs in if c == 32 || (leb 9 c && leb c 13) then rest else c ∷ cs

unfoldable pub read_digits : Bytes → Option ℕ
unfolding leading
read_digits [] = none
read_digits (c ∷ cs) =
    if is_digit c && ltb (leading 0 (c ∷ cs)) (2 ^ 64) then some (leading 0 (c ∷ cs)) else none

abbrev pub negated : Option ℕ → Option ℕ
negated none = none
negated (some n) = some ((2 ^ 64 - n) % 2 ^ 64)

-- After the spaces: a sign and the digits.
unfoldable pub read_signed : Bytes → Option ℕ
unfolding read_digits
read_signed [] = none
read_signed (c ∷ cs) =
    if c == 43
    then read_digits cs
    else if c == 45
    then negated (read_digits cs)
    else read_digits (c ∷ cs)

-- `std::stoul`; `none` where it throws.
unfoldable pub stoul : Bytes → Option ℕ
unfolding skip_spaces read_signed
stoul bs = read_signed (skip_spaces bs)

-- What `parse_prefix` finds: view, sequence and hash. `invalid` is the answer false, `thrown` an
-- exception of std::stoul.
pub data Parsed : Type 0 where
  well_formed : ℕ → ℕ → Bytes → Parsed
  invalid thrown : Parsed

abbrev pub both_numbers : Option ℕ → Option ℕ → Bytes → Parsed
both_numbers (some sequence) (some view) hash = well_formed view sequence hash
both_numbers (some sequence) none hash = thrown
both_numbers none view hash = thrown

abbrev pub parse_between : Bytes → ℕ → ℕ → Parsed
parse_between prefix hash_start hash_end =
    if leb (length prefix - 1) hash_end || leb hash_end hash_start
    then invalid
    else both_numbers (stoul (take hash_start prefix)) (stoul (skip (hash_end + 1) prefix))
        (take (hash_end - hash_start - 1) (skip (hash_start + 1) prefix))

unfoldable pub parse_prefix : Bytes → Parsed
unfolding find_first_of find_last_of skip take stoul
parse_prefix prefix = elim (find_first_of underscore prefix) [
  | none ↦ invalid
  | some hash_start ↦ elim (find_last_of underscore prefix) [
    | none ↦ invalid
    | some hash_end ↦ parse_between prefix hash_start hash_end
  ]
]

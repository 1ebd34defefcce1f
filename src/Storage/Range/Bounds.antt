-- ===== src/Storage/Range/Bounds.antt =====
-- Where the iterators of a range stand in a map in key order.
use bluzelle.Base.{◌≤◌, ◌≡◌, refl, true, false, [], ◌∷◌, ◌++◌, arith, length}
use bluzelle.Bytes.{Bytes, bytes_lt}
use bluzelle.Bytes.Order.{
  bytes_ordered, bytes_eq_iff, bytes_lt_irrefl, bytes_lt_trans, bytes_lt_total,
}
use bluzelle.Map.Sorted.{IsSorted, Above}
use bluzelle.Storage.Range.{Records, lower_bound, in_front}

pub in_front-append-lower_bound : (b : Bytes) (m : Records) → in_front b m ++ lower_bound b m ≡ m
unfolding in_front lower_bound
in_front-append-lower_bound b [] = refl
in_front-append-lower_bound b ((k, v) ∷ m) = ground (arith, in_front-append-lower_bound b m)

pub length-lower_bound-le : (b : Bytes) (m : Records) → length (lower_bound b m) ≤ length m
unfolding lower_bound
length-lower_bound-le b [] = omega arith
length-lower_bound-le b ((k, v) ∷ m) = ground (arith, length-lower_bound-le b m)

-- `a ≤ b` and `b < c` give `a < c`, where `≤` is the negation of the converse `<`.
pub lt_of_le_lt : (a b c : Bytes) → bytes_lt b a ≡ false → bytes_lt b c ≡ true → bytes_lt a c ≡ true
lt_of_le_lt a b c h k = ground (arith, bytes_lt_trans a b c, bytes_lt_total b a, bytes_eq_iff b a)

pub lt_of_lt_le : (a b c : Bytes) → bytes_lt a b ≡ true → bytes_lt c b ≡ false → bytes_lt a c ≡ true
lt_of_lt_le a b c h k = ground (arith, bytes_lt_trans a b c, bytes_lt_total c b, bytes_eq_iff c b)

pub lt_asymm : (a b : Bytes) → bytes_lt a b ≡ true → bytes_lt b a ≡ false
lt_asymm a b h = ground (arith, bytes_lt_trans a b a, bytes_lt_irrefl a)

-- No key of the map is below the bound.
abbrev pub From : Bytes → Records → Type 0
From b [] = Unit {0}
From b ((k, v) ∷ m) = (bytes_lt k b ≡ false) × From b m

pub Above-From : (b k : Bytes) (m : Records) → bytes_lt k b ≡ false → Above k m → From b m
Above-From b k [] h s = tt
Above-From b k ((j, v) ∷ m) h s =
    (ground (arith, lt_of_le_lt b k j h s.0, lt_asymm b j), Above-From b k m h s.1)

pub From-lower_bound : (b : Bytes) (m : Records) → IsSorted m → From b (lower_bound b m)
unfolding lower_bound
From-lower_bound b [] s = tt
From-lower_bound b ((k, v) ∷ m) s = ground (arith, From-lower_bound b m s.1, Above-From b k m)

-- From `first` on, the iterator at `last` is the same one, if `last` is not below `first`.
pub lower_bound-lower_bound :
    (first last : Bytes) (m : Records)
    → bytes_lt last first ≡ false
    → lower_bound last (lower_bound first m) ≡ lower_bound last m
unfolding lower_bound
lower_bound-lower_bound first last [] h = refl
lower_bound-lower_bound first last ((k, v) ∷ m) h =
    ground (arith, lower_bound-lower_bound first last m h, lt_of_lt_le k first last)

pub lower_bound-IsSorted : (b : Bytes) (m : Records) → IsSorted m → IsSorted (lower_bound b m)
unfolding lower_bound
lower_bound-IsSorted b [] s = tt
lower_bound-IsSorted b ((k, v) ∷ m) s = ground (arith, lower_bound-IsSorted b m s.1)

-- ===== src/Bytes/Counts.antt =====
-- How often a string occurs in a list, for lists and sets of distinct strings.
use bluzelle.Base.{ℕ, ◌+◌, ◌≤◌, ◌≡◌, refl, List, [], ◌∷◌, ◌++◌, arith, if◌then◌else◌}
use bluzelle.Bytes.{Bytes, bytes_eq}
use bluzelle.Bytes.Order.{bytes_eq_iff}
use bluzelle.Sets

unfoldable pub count : Bytes → List Bytes → ℕ
count x [] = 0
count x (y ∷ ys) = (if bytes_eq y x then 1 else 0) + count x ys

pub count-append : (x : Bytes) (xs ys : List Bytes) → count x (xs ++ ys) ≡ count x xs + count x ys
unfolding count
count-append x [] ys = omega arith
count-append x (y ∷ xs) ys = omega (arith, count-append x xs ys)

-- The sum of a measure over a list.
unfoldable pub sum : (Bytes → ℕ) → List Bytes → ℕ
sum f [] = 0
sum f (y ∷ ys) = f y + sum f ys

pub sum-append : (f : Bytes → ℕ) (xs ys : List Bytes) → sum f (xs ++ ys) ≡ sum f xs + sum f ys
unfolding sum
sum-append f [] ys = omega arith
sum-append f (y ∷ xs) ys = omega (arith, sum-append f xs ys)

pub count-insert :
    (x y : Bytes) (s : List Bytes)
    → count x s ≡ 0
    → count y (Sets.insert x s) ≡ (if bytes_eq x y then 1 else 0) + count y s
unfolding count Sets.insert
count-insert x y [] h = refl
count-insert x y (z ∷ s) h = ground (arith, count-insert x y s, bytes_eq_iff x y, bytes_eq_iff z y)

pub sum-insert :
    (f : Bytes → ℕ) (x : Bytes) (s : List Bytes)
    → count x s ≡ 0
    → sum f (Sets.insert x s) ≡ f x + sum f s
unfolding count sum Sets.insert
sum-insert f x [] h = refl
sum-insert f x (z ∷ s) h = ground (arith, sum-insert f x s)

-- Strings that are distinct and not in a set.
abbrev pub AreNew : List Bytes → List Bytes → Type 0
AreNew xs s = (k : Bytes) → count k xs + count k s ≤ 1

first-absent : (x : Bytes) (xs s : List Bytes) → AreNew (x ∷ xs) s → count x s ≡ 0
unfolding count
first-absent x xs s h = ground (arith, h x, bytes_eq_iff x x)

rest-AreNew : (x : Bytes) (xs s : List Bytes) → AreNew (x ∷ xs) s → AreNew xs (Sets.insert x s)
unfolding count
rest-AreNew x xs s h k = ground (arith, h k, count-insert x k s (first-absent x xs s h))

-- Inserting distinct strings that are not in a set yet, one by one.
pub count-insert_all :
    (y : Bytes) (xs s : List Bytes)
    → AreNew xs s
    → count y (Sets.insert_all xs s) ≡ count y xs + count y s
unfolding count Sets.insert_all
count-insert_all y [] s h = omega arith
count-insert_all y (x ∷ xs) s h = ground (
  arith,
  count-insert_all y xs (Sets.insert x s) (rest-AreNew x xs s h),
  count-insert x y s (first-absent x xs s h),
)

pub sum-insert_all :
    (f : Bytes → ℕ) (xs s : List Bytes)
    → AreNew xs s
    → sum f (Sets.insert_all xs s) ≡ sum f xs + sum f s
unfolding count sum Sets.insert_all
sum-insert_all f [] s h = omega arith
sum-insert_all f (x ∷ xs) s h = ground (
  arith,
  sum-insert_all f xs (Sets.insert x s) (rest-AreNew x xs s h),
  sum-insert f x s (first-absent x xs s h),
)

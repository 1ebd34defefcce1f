-- ===== src/Sets/Laws.antt =====
-- Membership after each operation on a set.
use bluzelle.Base.{◌≡◌, refl, not, ◌&&◌, ◌||◌, List, [], ◌∷◌, arith}
use bluzelle.Bytes.{Bytes, bytes_eq}
use bluzelle.Bytes.Order.{bytes_eq_iff}
use bluzelle.Sets.{member, insert, erase, insert_all, erase_all}

pub member-insert :
    (y x : Bytes) (s : List Bytes) → member y (insert x s) ≡ bytes_eq x y || member y s
unfolding member insert
member-insert y x [] = refl
member-insert y x (z ∷ s) =
    ground (arith, member-insert y x s, bytes_eq_iff z x, bytes_eq_iff z y, bytes_eq_iff x y)

pub member-erase :
    (y x : Bytes) (s : List Bytes) → member y (erase x s) ≡ not (bytes_eq x y) && member y s
unfolding member erase
member-erase y x [] = ground arith
member-erase y x (z ∷ s) =
    ground (arith, member-erase y x s, bytes_eq_iff z x, bytes_eq_iff z y, bytes_eq_iff x y)

pub member-insert_all :
    (y : Bytes) (xs s : List Bytes) → member y (insert_all xs s) ≡ member y xs || member y s
unfolding member insert_all
member-insert_all y [] s = refl
member-insert_all y (x ∷ xs) s =
    ground (arith, member-insert_all y xs (insert x s), member-insert y x s)

pub member-erase_all :
    (y : Bytes) (xs s : List Bytes) → member y (erase_all xs s) ≡ not (member y xs) && member y s
unfolding member erase_all
member-erase_all y [] s = ground arith
member-erase_all y (x ∷ xs) s =
    ground (arith, member-erase_all y xs (erase x s), member-erase y x s)

-- ===== src/Sets.antt =====
-- `std::set<std::string>` as the list of its elements in increasing order.
pub mod Laws
use bluzelle.Base.{Bool, true, false, ◌||◌, List, [], ◌∷◌, if◌then◌else◌}
use bluzelle.Bytes.{Bytes, bytes_eq, bytes_lt}

-- `std::find` in a list of strings.
unfoldable pub member : Bytes → List Bytes → Bool
member x [] = false
member x (y ∷ s) = bytes_eq y x || member x s

unfoldable pub insert : Bytes → List Bytes → List Bytes
insert x [] = x ∷ []
insert x (y ∷ s) =
    let rest = insert x s in
    if bytes_eq y x then y ∷ s else if bytes_lt x y then x ∷ y ∷ s else y ∷ rest

unfoldable pub erase : Bytes → List Bytes → List Bytes
erase x [] = []
erase x (y ∷ s) = let rest = erase x s in if bytes_eq y x then rest else y ∷ rest

-- Inserts the elements of a sequence one by one.
unfoldable pub insert_all : List Bytes → List Bytes → List Bytes
insert_all [] s = s
insert_all (x ∷ xs) s = insert_all xs (insert x s)

unfoldable pub erase_all : List Bytes → List Bytes → List Bytes
erase_all [] s = s
erase_all (x ∷ xs) s = erase_all xs (erase x s)

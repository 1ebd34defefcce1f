-- ===== src/Map.antt =====
-- `std::map` as the sequence of its entries in key order, with find, insertion, assignment and
-- erase. The `std::unordered_map`s of the program, whose order it never relies on, use it too.
pub mod Laws
pub mod Sorted
pub mod Nested
use bluzelle.Base.{true, false, List, [], ◌∷◌, Option, none, some, if◌then◌else◌}
use bluzelle.Bytes.Order.{Ordered}

abbrev pub Map : Type 0 → Type 0 → Type 0
Map K V = List (K × V)

module _ {K V : Type 0} ⦃o : Ordered K⦄ where
  unfoldable pub lookup : K → Map K V → Option V
  lookup k [] = none
  lookup k ((j, v) ∷ m) = if o.eq j k then some v else lookup k m

  -- m[k] = v
  unfoldable pub insert : K → V → Map K V → Map K V
  insert k v [] = (k, v) ∷ []
  insert k v ((j, w) ∷ m) =
      let rest = insert k v m in
      if o.eq j k then (k, v) ∷ m else if o.lt k j then (k, v) ∷ (j, w) ∷ m else (j, w) ∷ rest

  unfoldable pub erase : K → Map K V → Map K V
  erase k [] = []
  erase k ((j, v) ∷ m) = let rest = erase k m in if o.eq j k then rest else (j, v) ∷ rest

module _ {K V W : Type 0} (f : V → Option W) where
  -- The loop `it = m.erase(it)` or `++it` over all entries: `f` is what becomes of a value.
  unfoldable pub rebuild : Map K V → Map K W
  rebuild [] = []
  rebuild ((k, v) ∷ m) = let rest = rebuild m in elim (f v) [ none ↦ rest | some w ↦ (k, w) ∷ rest ]

module _ {K V : Type 0} where
  abbrev pub keys : Map K V → List K
  keys [] = []
  keys ((k, v) ∷ m) = k ∷ keys m

  -- `map[k]` for a value that is a map: an empty one where there is none.
  abbrev pub inner : Option (Map K V) → Map K V
  inner none = []
  inner (some m) = m

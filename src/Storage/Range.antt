-- ===== src/Storage/Range.antt =====
-- The ranges of storage/mem_storage.cpp: `remove_range`, and `do_if` with its users `read_if` and
-- `get_keys_if`. An iterator into a map is the part of the map that starts at it; two iterators
-- are equal if as many entries follow them.
pub mod Bounds
pub mod Removal
pub mod Selection
use bluzelle.Base.{
  ℕ, ◌+◌, Bool, true, false, not, ◌&&◌, ◌||◌, List, [], ◌∷◌, ◌++◌, Option, none, some, ◌==◌, length,
  if◌then◌else◌,
}
use bluzelle.Bytes.{Bytes, size, bytes_eq, bytes_lt, is_empty}
use bluzelle.Bytes.Order.{bytes_ordered}
use bluzelle.Map.{Map, lookup}
use bluzelle.Storage.{MemStorage, Database, sub32, set_database}

abbrev pub Records : Type 0
Records = Map Bytes Bytes

-- `lower_bound(first)`: the first entry whose key is not below `first`, and what follows it.
unfoldable pub lower_bound : Bytes → Records → Records
lower_bound first [] = []
lower_bound first ((k, v) ∷ m) =
    let rest = lower_bound first m in if bytes_lt k first then rest else (k, v) ∷ m

-- The entries in front of `lower_bound(first)`.
unfoldable pub in_front : Bytes → Records → Records
in_front first [] = []
in_front first ((k, v) ∷ m) =
    let rest = in_front first m in if bytes_lt k first then (k, v) ∷ rest else []

-- `while (match != end) erase(match)`, where `end` has `e` entries from it on. A loop that steps
-- past the end of the map is undefined behaviour, `none`.
unfoldable pub erase_until : ℕ → Records → ℕ → Option (ℕ × Records)
erase_until e [] used = if e == 0 then some (used, []) else none
erase_until e ((k, v) ∷ m) used =
    let rest = erase_until e m (sub32 used (size v + size k)) in
    if length m + 1 == e then some (used, (k, v) ∷ m) else rest

unfoldable pub erase_range : Database → Bytes → Bytes → Option Database
erase_range db first last =
    elim (erase_until (length (lower_bound last db.records)) (lower_bound first db.records)
      db.used) [
        | none ↦ none
        | some (used, rest) ↦
            some (record { used = used; records = in_front first db.records ++ rest })
      ]

unfoldable pub remove_range : MemStorage → Bytes → Bytes → Bytes → Option MemStorage
remove_range s uuid first last = elim (lookup uuid s.kv_store) [
  | none ↦ some s
  | some db ↦ elim (erase_range db first last) [
    | none ↦ none
    | some db' ↦ some (set_database s uuid db')
  ]
]

-- The optional predicate of `do_if`.
abbrev pub Predicate : Type 0
Predicate = Option (Bytes → Bytes → Bool)

abbrev pub passes : Predicate → Bytes → Bytes → Bool
passes none k v = true
passes (some p) k v = p k v

module _ {ℓ} {A : Type ℓ} (predicate : Predicate) (action : A → Bytes → Bytes → A) where
  -- The loop of `do_if`, which stops at the end of the map or at `end_it`, whichever is first.
  unfoldable pub do_until : ℕ → Records → A → A
  do_until e [] a = a
  do_until e ((k, v) ∷ m) a =
      let rest = do_until e m (if passes predicate k v then action a k v else a) in
      if length m + 1 == e then a else rest

  unfoldable pub do_if : MemStorage → Bytes → Bytes → Bytes → A → A
  do_if s uuid first last a =
      if not (is_empty last) && (bytes_lt last first || bytes_eq last first)
      then a
      else elim (lookup uuid s.kv_store) [
        | none ↦ a
        | some db ↦
            let end_it = if is_empty last then [] else lower_bound last db.records in
            do_until (length end_it) (lower_bound first db.records) a
      ]

unfoldable pub read_if : MemStorage → Bytes → Bytes → Bytes → Predicate → Records
read_if s uuid first last predicate =
    do_if predicate (λ a k v. a ++ (k, v) ∷ []) s uuid first last []

unfoldable pub get_keys_if : MemStorage → Bytes → Bytes → Bytes → Predicate → List Bytes
get_keys_if s uuid first last predicate =
    do_if predicate (λ a k v. a ++ k ∷ []) s uuid first last []

-- ===== src/Pbft/State.antt =====
-- pbft/pbft_persistent_state.cpp and pbft_persistent_state.hpp: the keys under which the state of the
-- protocol is stored.
pub mod Escapes
use bluzelle.Base.{ℕ, true, false, List, [], ◌∷◌, ◌++◌, Option, none, some, ◌==◌}
use bluzelle.Bytes.{Bytes}

-- '/', '$'
abbrev pub escape_1 : ℕ
escape_1 = 47

abbrev pub escape_2 : ℕ
escape_2 = 36

unfoldable pub escape : Bytes → Bytes
escape [] = []
escape (ch ∷ input) =
    let rest = escape input in
    elim (ch == escape_1) [ true ↦ escape_1 ∷ escape_2 ∷ rest | false ↦ ch ∷ rest ]

abbrev pub put : ℕ → Option Bytes → Option Bytes
put ch none = none
put ch (some output) = some (ch ∷ output)

-- `none` where the code throws.
unfoldable pub unescape : Bytes → Option Bytes
unescape [] = some []
unescape (ch ∷ []) = elim (ch == escape_1) [ true ↦ none | false ↦ some (ch ∷ []) ]
unescape (ch ∷ (next ∷ rest)) = elim (ch == escape_1) [
  | true ↦ elim (next == escape_2) [ true ↦ put ch (unescape rest) | false ↦ none ]
  | false ↦ put ch (unescape (next ∷ rest))
]

-- SEPARATOR
abbrev pub separator : Bytes
separator = 47 ∷ 47 ∷ []

-- `subkeys` are the texts that `to_string` makes of the keys.
unfoldable pub generate_key : List Bytes → Bytes
generate_key [] = []
generate_key (k ∷ rest) = separator ++ (escape k ++ generate_key rest)

-- The member `key` of a value that is stored under `name` and its sub-keys.
abbrev pub storage_key : Bytes → List Bytes → Bytes
storage_key name subkeys = escape name ++ generate_key subkeys

abbrev pub put_first : Bytes → Option (Bytes × Bytes) → Option (Bytes × Bytes)
put_first s none = none
put_first s (some (v0, v1)) = some (s ++ v0, v1)

-- The loop of `extract_subkeys`: the texts on both sides of the first separator; `none` where the
-- assertions after the loop fail.
unfoldable pub split_subkeys : Bytes → Option (Bytes × Bytes)
split_subkeys [] = none
split_subkeys (ch ∷ []) = none
split_subkeys (ch ∷ (next ∷ rest)) = elim (ch == escape_1) [
  | true ↦ elim (next == escape_2) [
    | true ↦ put_first (ch ∷ next ∷ []) (split_subkeys rest)
    | false ↦ elim (next == escape_1) [ true ↦ some ([], rest) | false ↦ none ]
  ]
  | false ↦ put_first (ch ∷ []) (split_subkeys (next ∷ rest))
]

abbrev pub both : Option Bytes → Option Bytes → Option (Bytes × Bytes)
both (some a) (some b) = some (a, b)
both (some a) none = none
both none b = none

unfoldable pub extract_subkeys : Bytes → Option (Bytes × Bytes)
extract_subkeys key = elim (split_subkeys key) [
  | none ↦ none
  | some (v0, v1) ↦ both (unescape v0) (unescape v1)
]

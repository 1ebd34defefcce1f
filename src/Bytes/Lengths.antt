-- ===== src/Bytes/Lengths.antt =====
-- Texts put in front of others with their lengths, for the concrete codecs of the examples.
use bluzelle.Base.{ℕ, zero, suc, ◌≡◌, refl, [], ◌∷◌, ◌++◌, length}
use bluzelle.Bytes.{Bytes}

split : ℕ → Bytes → Bytes × Bytes
split zero xs = ([], xs)
split (suc n) [] = ([], [])
split (suc n) (x ∷ xs) = let (front, rest) = split n xs in (x ∷ front, rest)

abbrev pub put : Bytes → Bytes → Bytes
put x rest = length x ∷ x ++ rest

unfoldable pub get : Bytes → Bytes × Bytes
unfolding split
get [] = ([], [])
get (n ∷ rest) = split n rest

split-length : (x rest : Bytes) → split (length x) (x ++ rest) ≡ (x, rest)
unfolding split
split-length [] rest = refl
split-length (b ∷ x) rest = rw (split-length x rest)

pub get-put : (x rest : Bytes) → get (put x rest) ≡ (x, rest)
unfolding get
get-put = split-length

-- ===== src/Codec/Plain.antt =====
-- A concrete codec, with lengths in front of the texts, for the examples of the other modules.
use bluzelle.Base.{ℕ, zero, suc, ◌≡◌, refl, List, [], ◌∷◌, Option, none, some, length}
use bluzelle.Bytes.{Bytes}
use bluzelle.Bytes.Lengths.{put, get, get-put}
use bluzelle.Codec.{Codec, Permissions, IsFaithful}

puts : List Bytes → Bytes
puts [] = []
puts (w ∷ ws) = put w (puts ws)

gets : ℕ → Bytes → List Bytes
gets zero text = []
gets (suc n) text = let (w, rest) = get text in w ∷ gets n rest

parse_plain : Bytes → Option Permissions
unfolding gets
parse_plain (limit ∷ policy ∷ n ∷ rest) =
    let (owner, ws) = get rest in
    some (record { owner = owner; writers = gets n ws; max_size = limit; eviction_policy = policy })
parse_plain _ = none

parse_one : Bytes → Option ℕ
parse_one (n ∷ []) = some n
parse_one _ = none

unfoldable pub plain : Codec
unfolding puts parse_plain parse_one
plain = record {
  trim = λ t. t;
  write_permissions =
      λ p. p.max_size ∷ p.eviction_policy ∷ length p.writers ∷ put p.owner (puts p.writers);
  parse_permissions = parse_plain;
  write_expire_key = put;
  parse_expire_key = λ g. some (get g);
  write_number = λ n. n ∷ [];
  parse_number = parse_one;
}

gets-puts : (ws : List Bytes) → gets (length ws) (puts ws) ≡ ws
unfolding gets puts
gets-puts [] = refl
gets-puts (w ∷ ws) = rw (get-put w (puts ws), gets-puts ws)

pub plain-IsFaithful : IsFaithful plain
unfolding plain
plain-IsFaithful = record {
  permissions = λ p. rw (get-put p.owner (puts p.writers), gets-puts p.writers);
  expire_key = λ u k. rw (get-put u k);
  number = λ n h. refl;
}

-- ===== src/Policy/Random.antt =====
-- policy/random.cpp: evicts keys drawn at random until there is room. `draw hash i n` is the
-- number that the generator, seeded with the request's hash, gives in round `i` for a choice
-- among `n` keys.
pub mod Enough
use bluzelle.Base.{
  ℕ, zero, suc, ◌+◌, ◌-◌, List, [], ◌∷◌, ◌++◌, Option, none, some, ◌==◌, ◌||◌, length,
  if◌then◌else◌,
}
use bluzelle.Bytes.{Bytes, bytes_eq}
use bluzelle.Storage
use bluzelle.Storage.{MemStorage}
use bluzelle.Protocol.{Request, update_of}
use bluzelle.Sets
use bluzelle.Policy.{sub64, key_value_size}

abbrev pub Draw : Type 0
Draw = Bytes → ℕ → ℕ → ℕ

unfoldable pub get_elem? : List Bytes → ℕ → Option Bytes
get_elem? [] i = none
get_elem? (x ∷ xs) zero = some x
get_elem? (x ∷ xs) (suc i) = get_elem? xs i

unfoldable pub remove_at : List Bytes → ℕ → List Bytes
remove_at [] i = []
remove_at (x ∷ xs) zero = xs
remove_at (x ∷ xs) (suc i) = x ∷ remove_at xs i

abbrev pub Progress : Type 0
Progress = ℕ × List Bytes

-- What one drawn key does to the bytes still to free and to the keys to evict.
unfoldable pub take_key : MemStorage → Bytes → Bytes → Bytes → Progress → Progress
take_key s uuid ignore key (to_free, evicted) =
    if bytes_eq key ignore then (to_free, evicted) else elim (Storage.get_key_size s uuid key) [
      | none ↦ (to_free, evicted)
      | some freed ↦ (to_free - freed, evicted ++ key ∷ [])
    ]

abbrev pub take_drawn : MemStorage → Bytes → Bytes → Option Bytes → Progress → Progress
take_drawn s uuid ignore none p = p
take_drawn s uuid ignore (some key) p = take_key s uuid ignore key p

-- The loop; the fuel is the number of available keys, of which each round erases one.
unfoldable pub select :
    (ℕ → ℕ → ℕ) → MemStorage → Bytes → Bytes → ℕ → ℕ → List Bytes → Progress → Progress
select draw s uuid ignore zero round available p = p
select draw s uuid ignore (suc fuel) round available p =
    let i = draw round (length available) in
    let rest =
      select draw s uuid ignore fuel (round + 1) (remove_at available i)
        (take_drawn s uuid ignore (get_elem? available i) p) in
    if p.0 == 0 || length available == 0 then p else rest

unfoldable pub keys_to_evict : Draw → MemStorage → Request → ℕ → List Bytes
keys_to_evict draw s request max_size =
    let uuid = request.header.db_uuid in
    let ignore = (update_of request.msg).key in
    let used = (Storage.get_size s uuid).1 in
    let available = Storage.get_keys s uuid in
    let (to_free, evicted) =
      select (draw request.header.request_hash) s uuid ignore (length available) 0 available
        (sub64 (key_value_size request.msg) (sub64 max_size used), []) in
    if to_free == 0 then Sets.insert_all evicted [] else []

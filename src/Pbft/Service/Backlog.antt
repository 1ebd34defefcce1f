-- ===== src/Pbft/Service/Backlog.antt =====
-- How many requests wait in the storage: fewer after a removal, as many after the sequence number is
-- saved.
use bluzelle.Base.{
  ℕ, ◌≤◌, ◌<◌, ◌≡◌, refl, ap, Bool, true, false, not, [], ◌∷◌, some, filter, length, arith,
}
use bluzelle.Bytes.{Bytes, bytes_eq}
use bluzelle.Bytes.Order.{Ordered, bytes_ordered}
use bluzelle.Map.{Map, lookup, insert, erase, keys}
use bluzelle.Map.Laws.{lookup-insert, eq_refl}
use bluzelle.Storage.{
  MemStorage, Database, ok, set_database, replace_record, drop_record, update, remove, get_keys,
}
use bluzelle.Storage.Lookup.{update_cases, remove_cases}
use bluzelle.Pbft.Service.{next_request_sequence_key}

module _ {K V : Type 0} ⦃o : Ordered K⦄ (p : K → Bool) where
  count-erase_le :
      (k : K) (m : Map K V) → length (filter p (keys (erase k m))) ≤ length (filter p (keys m))
  unfolding erase filter
  count-erase_le k [] = omega arith
  count-erase_le k ((j, w) ∷ m) = ground (arith, count-erase_le k m)

  pub count-erase :
      (k : K) (v : V) (m : Map K V)
      → lookup k m ≡ some v
      → p k ≡ true
      → length (filter p (keys (erase k m))) < length (filter p (keys m))
  unfolding erase filter lookup
  count-erase k v [] h q = absurd (cc h)
  count-erase k v ((j, w) ∷ m) h q =
      ground (arith, h, q, o.eq_iff j k, count-erase_le k m, count-erase k v m)

  pub keys-insert :
      (k : K) (v : V) (m : Map K V)
      → p k ≡ false
      → filter p (keys (insert k v m)) ≡ filter p (keys m)
  unfolding insert filter
  keys-insert k v [] q = ground (arith, q)
  keys-insert k v ((j, w) ∷ m) q = ground (arith, q, o.eq_iff j k, keys-insert k v m q)

abbrev pub is_request_key : Bytes → Bool
is_request_key k = not (bytes_eq k next_request_sequence_key)

abbrev pub waiting : MemStorage → Bytes → ℕ
waiting s u = length (filter is_request_key (get_keys s u))

get_keys-set_database :
    (s : MemStorage) (u : Bytes) (db : Database)
    → get_keys (set_database s u db) u ≡ keys db.records
unfolding get_keys
get_keys-set_database s u db = rw (get_keys, lookup-insert u u db s.kv_store, eq_refl u) refl

get_keys-records :
    (s : MemStorage) (u : Bytes) (db : Database)
    → lookup u s.kv_store ≡ some db
    → get_keys s u ≡ keys db.records
unfolding get_keys
get_keys-records s u db e = rw (get_keys, e) refl

pub waiting-remove :
    (s : MemStorage) (u k : Bytes)
    → is_request_key k ≡ true
    → (remove s u k).1 ≡ ok
    → waiting (remove s u k).0 u < waiting s u
unfolding drop_record
waiting-remove s u k q =
    remove_cases (λ r. r.1 ≡ ok → waiting r.0 u < waiting s u) s u k (λ _ e. absurd (cc e))
      λ db old f g _.
        rw (get_keys-set_database s u (drop_record db k old), get_keys-records s u db f)
          (count-erase is_request_key k old db.records g q)

pub waiting-save :
    (s : MemStorage) (u v : Bytes)
    → waiting (update s u next_request_sequence_key v).0 u ≡ waiting s u
unfolding replace_record
waiting-save s u v =
    update_cases (λ r. waiting r.0 u ≡ waiting s u) s u next_request_sequence_key v (λ _. refl)
      (λ _ _. refl)
      λ _ db old f g.
        rw
          (
            get_keys-set_database s u (replace_record db next_request_sequence_key old v),
            get_keys-records s u db f,
          )
          (ap length (
            keys-insert is_request_key next_request_sequence_key v db.records
              (ap not (eq_refl next_request_sequence_key))))

-- ===== src/Storage/Accounting.antt =====
-- The counted size of a database is the sum of its record sizes modulo 2^32, in every state that
-- the operations reach.
use bluzelle.Base.{
  ℕ, ◌+◌, ◌%◌, ◌^◌, ◌≡◌, refl, Bool, true, false, [], ◌∷◌, Option, none, some, arith, if◌then◌else◌,
  Option-cases, inl, inr, subst, sym, ap, ◌∙◌, length,
}
use mathlib.Core.Option.{some-injective}
use bluzelle.Bytes.{Bytes, size, bytes_eq}
use bluzelle.Bytes.Order.{bytes_eq_iff, bytes_ordered}
use bluzelle.Map.{Map, lookup, insert, erase}
use bluzelle.Map.Laws.{lookup-insert, lookup-erase, erase_absent}
use bluzelle.Map.Sorted.{IsSorted, insert-IsSorted, erase-IsSorted, lookup-Above, Above-trans}
use bluzelle.Storage.{
  MemStorage, Database, create, update, remove, remove_database, inner_db, set_database, empty,
  add_record, replace_record, drop_record, add32, sub32, get_size,
}
use bluzelle.Storage.Lookup.{create_cases, update_cases, remove_cases, read-inner_db}

-- The bytes of all keys and values.
unfoldable pub total : Map Bytes Bytes → ℕ
total [] = 0
total ((k, v) ∷ m) = size k + size v + total m

pub total-insert_new :
    (k v : Bytes) (m : Map Bytes Bytes)
    → lookup k m ≡ none
    → total (insert k v m) ≡ size k + size v + total m
unfolding total insert lookup
total-insert_new k v [] h = omega arith
total-insert_new k v ((j, w) ∷ m) h = ground (arith, total-insert_new k v m)

pub total-insert_old :
    (k v old : Bytes) (m : Map Bytes Bytes)
    → IsSorted m
    → lookup k m ≡ some old
    → total (insert k v m) + size old ≡ total m + size v
unfolding total insert lookup
total-insert_old k v old [] s h = cc
total-insert_old k v old ((j, w) ∷ m) s h =
    ground
      (arith, total-insert_old k v old m s.1, lookup-Above k m, Above-trans k j m, bytes_eq_iff j k)

pub total-erase :
    (k old : Bytes) (m : Map Bytes Bytes)
    → IsSorted m
    → lookup k m ≡ some old
    → total (erase k m) + size k + size old ≡ total m
unfolding total erase lookup
total-erase k old [] s h = cc
total-erase k old ((j, w) ∷ m) s h =
    ground
      (arith, total-erase k old m s.1, lookup-Above j m s.0, erase_absent k m, bytes_eq_iff j k)

pub record IsCounted (db : Database) : Type 0 where
  pub sorted : IsSorted db.records
  pub counted : db.used ≡ total db.records % 2 ^ 32

pub record IsValid (s : MemStorage) : Type 0 where
  pub distinct : IsSorted s.kv_store
  pub databases : (u : Bytes) (db : Database) → lookup u s.kv_store ≡ some db → IsCounted db

pub IsValid-empty : IsValid empty
unfolding lookup
IsValid-empty = record { distinct = tt; databases = λ u db h. cc }

inner_db-IsCounted :
    (s : MemStorage) (u : Bytes) → IsValid s → IsCounted (inner_db (lookup u s.kv_store))
unfolding total
inner_db-IsCounted s u h = elim (Option-cases (lookup u s.kv_store)) [
  | inl e ↦ rw e (record { sorted = tt; counted = refl })
  | inr (db, e) ↦ rw e (h.databases u db e)
]

if-IsCounted :
    (b : Bool) (db d : Database) (o : Option Database)
    → (if b then some db else o) ≡ some d
    → IsCounted db
    → (o ≡ some d → IsCounted d)
    → IsCounted d
if-IsCounted true db d o e c h = subst IsCounted (some-injective db d e) c
if-IsCounted false db d o e c h = h e

pub set_database-IsValid :
    (s : MemStorage) (u : Bytes) (db : Database)
    → IsValid s
    → IsCounted db
    → IsValid (set_database s u db)
set_database-IsValid s u db h c = record {
  distinct = insert-IsSorted u db s.kv_store h.distinct;
  databases = λ v d e.
      if-IsCounted (bytes_eq u v) db d (lookup v s.kv_store) (rw lookup-insert at e) c
        (h.databases v d);
}

add_record-IsCounted :
    (db : Database) (k v : Bytes)
    → IsCounted db
    → lookup k db.records ≡ none
    → IsCounted (add_record db k v)
unfolding add_record add32
add_record-IsCounted db k v c e = record {
  sorted = insert-IsSorted k v db.records c.sorted;
  counted = omega (arith, c.counted, total-insert_new k v db.records e);
}

replace_record-IsCounted :
    (db : Database) (k old v : Bytes)
    → IsCounted db
    → lookup k db.records ≡ some old
    → IsCounted (replace_record db k old v)
unfolding replace_record add32 sub32
replace_record-IsCounted db k old v c e = record {
  sorted = insert-IsSorted k v db.records c.sorted;
  counted = omega (arith, c.counted, total-insert_old k v old db.records c.sorted e);
}

drop_record-IsCounted :
    (db : Database) (k old : Bytes)
    → IsCounted db
    → lookup k db.records ≡ some old
    → IsCounted (drop_record db k old)
unfolding drop_record sub32
drop_record-IsCounted db k old c e = record {
  sorted = erase-IsSorted k db.records c.sorted;
  counted = omega (arith, c.counted, total-erase k old db.records c.sorted e);
}

erase_database-IsValid :
    (s : MemStorage) (u : Bytes) → IsValid s → IsValid (record s { kv_store = erase u s.kv_store })
erase_database-IsValid s u h = record {
  distinct = erase-IsSorted u s.kv_store h.distinct;
  databases =
      λ v d e. h.databases v d (kept (bytes_eq u v) d (lookup v s.kv_store) (rw lookup-erase at e));
}
  where
    kept :
        (b : Bool) (d : Database) (o : Option Database)
        → (if b then none else o) ≡ some d
        → o ≡ some d
    kept true d o e = cc
    kept false d o e = e

pub create-IsValid : (s : MemStorage) (u k v : Bytes) → IsValid s → IsValid (create s u k v).0
create-IsValid s u k v h =
    create_cases (λ r. IsValid r.0) s u k v (λ _. h) (λ _ _. h) (λ _ _ _ _. h)
      λ _ _ e.
        set_database-IsValid s u _ h
          (add_record-IsCounted _ k v (inner_db-IsCounted s u h) (sym (read-inner_db s u k) ∙ e))

pub update-IsValid : (s : MemStorage) (u k v : Bytes) → IsValid s → IsValid (update s u k v).0
update-IsValid s u k v h =
    update_cases (λ r. IsValid r.0) s u k v (λ _. h) (λ _ _. h)
      λ _ db old f g.
        set_database-IsValid s u _ h (replace_record-IsCounted db k old v (h.databases u db f) g)

pub remove-IsValid : (s : MemStorage) (u k : Bytes) → IsValid s → IsValid (remove s u k).0
remove-IsValid s u k h =
    remove_cases (λ r. IsValid r.0) s u k (λ _. h)
      λ db old f g.
        set_database-IsValid s u _ h (drop_record-IsCounted db k old (h.databases u db f) g)

pub remove_database-IsValid :
    (s : MemStorage) (u : Bytes) → IsValid s → IsValid (remove_database s u).0
unfolding remove_database
remove_database-IsValid s u h = elim (Option-cases (lookup u s.kv_store)) [
  | inl e ↦ rw (remove_database, e) h
  | inr (db, e) ↦ rw (remove_database, e) (erase_database-IsValid s u h)
]

-- What is stored in a database.
abbrev pub contents : MemStorage → Bytes → Map Bytes Bytes
contents s u = (inner_db (lookup u s.kv_store)).records

-- The size that the storage reports: the number of records, and their bytes modulo 2^32.
pub get_size-total :
    (s : MemStorage) (u : Bytes)
    → IsValid s
    → get_size s u ≡ (length (contents s u), total (contents s u) % 2 ^ 32)
unfolding get_size total
get_size-total s u h = go (lookup u s.kv_store) (h.databases u)
  where
    go :
        (o : Option Database)
        → ((db : Database) → o ≡ some db → IsCounted db)
        → elim o as (λ _. ℕ × ℕ) [ none ↦ (0, 0) | some db ↦ (length db.records, db.used) ]
          ≡ (length (inner_db o).records, total (inner_db o).records % 2 ^ 32)
    go none c = refl
    go (some db) c = ap (λ n. (length db.records, n)) (c db refl).counted

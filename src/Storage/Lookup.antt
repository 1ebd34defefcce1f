-- ===== src/Storage/Lookup.antt =====
-- What `read` returns after each operation of the storage, and when each operation succeeds.
use bluzelle.Base.{
  ◌≡◌, refl, ◌∙◌, Bool, true, false, [], ◌∷◌, Option, none, some, arith, any, ltb, if◌then◌else◌,
  ◌&&◌, Bool-cases, Option-cases, inl, inr,
}
use bluzelle.Bytes.{Bytes, size, bytes_eq}
use bluzelle.Bytes.Order.{bytes_eq_iff, bytes_ordered}
use bluzelle.Map.{Map, lookup, keys}
use bluzelle.Map.Laws.{lookup-insert, lookup-erase}
use bluzelle.Storage.{
  MemStorage, Database, StorageResult, ok, not_found, exists, value_too_large, key_too_large,
  create, read, update, remove, get_keys, has, remove_database, max_key_size, max_value_size,
  inner_db, set_database, add_record, replace_record, drop_record, create_record, update_record,
  remove_record,
}

abbrev pub at : Bytes → Bytes → Bytes → Bytes → Bool
at u k v j = bytes_eq u v && bytes_eq k j

pub read-inner_db :
    (s : MemStorage) (u k : Bytes) → read s u k ≡ lookup k (inner_db (lookup u s.kv_store)).records
unfolding read
read-inner_db s u k = go (lookup u s.kv_store)
  where
    go :
        (o : Option Database)
        → elim o [ none ↦ none | some db ↦ lookup k db.records ] ≡ lookup k (inner_db o).records
    go none = unfold lookup in refl
    go (some db) = refl

pub read-set_database :
    (s : MemStorage) (u v j : Bytes) (db : Database)
    → read (set_database s u db) v j ≡ (if bytes_eq u v then lookup j db.records else read s v j)
unfolding read
read-set_database s u v j db = ground (arith, lookup-insert u v db s.kv_store)

module _ {ℓ} (P : MemStorage × StorageResult → Type ℓ) (s : MemStorage) (u k v : Bytes) where
  -- The four ways in which `create` ends.
  pub create_cases :
      (ltb max_value_size (size v) ≡ true → P (s, value_too_large))
      → (ltb max_value_size (size v) ≡ false
          → ltb max_key_size (size k) ≡ true
          → P (s, key_too_large))
      → (ltb max_value_size (size v) ≡ false
          → ltb max_key_size (size k) ≡ false
          → (old : Bytes) → read s u k ≡ some old
          → P (s, exists))
      → (ltb max_value_size (size v) ≡ false
          → ltb max_key_size (size k) ≡ false
          → read s u k ≡ none
          → P (set_database s u (add_record (inner_db (lookup u s.kv_store)) k v), ok))
      → P (create s u k v)
  unfolding create
  create_cases big long dup fresh = elim (Bool-cases (ltb max_value_size (size v))) [
    | inl e ↦ rw (create, e) (big e)
    | inr e ↦ elim (Bool-cases (ltb max_key_size (size k))) [
      | inl f ↦ rw (create, e, f) (long e f)
      | inr f ↦ elim (Option-cases (lookup k (inner_db (lookup u s.kv_store)).records)) [
        | inl g ↦ rw (create, e, f, create_record, g) (fresh e f (read-inner_db s u k ∙ g))
        | inr (old, g) ↦ rw (create, e, f, create_record, g) (dup e f old (read-inner_db s u k ∙ g))
      ]
    ]
  ]

  -- The three ways in which `update` ends.
  pub update_cases :
      (ltb max_value_size (size v) ≡ true → P (s, value_too_large))
      → (ltb max_value_size (size v) ≡ false → read s u k ≡ none → P (s, not_found))
      → (ltb max_value_size (size v) ≡ false
          → (db : Database) (old : Bytes) → lookup u s.kv_store ≡ some db
          → lookup k db.records ≡ some old
          → P (set_database s u (replace_record db k old v), ok))
      → P (update s u k v)
  unfolding read update
  update_cases big missing found = elim (Bool-cases (ltb max_value_size (size v))) [
    | inl e ↦ rw (update, e) (big e)
    | inr e ↦ elim (Option-cases (lookup u s.kv_store)) [
      | inl f ↦ rw (update, e, f) (missing e (rw (read, f)))
      | inr (db, f) ↦ elim (Option-cases (lookup k db.records)) [
        | inl g ↦ rw (update, e, f, update_record, g) (missing e (rw (read, f, g)))
        | inr (old, g) ↦ rw (update, e, f, update_record, g) (found e db old f g)
      ]
    ]
  ]

module _ {ℓ} (P : MemStorage × StorageResult → Type ℓ) (s : MemStorage) (u k : Bytes) where
  -- The two ways in which `remove` ends.
  pub remove_cases :
      (read s u k ≡ none → P (s, not_found))
      → ((db : Database) (old : Bytes)
          → lookup u s.kv_store ≡ some db
          → lookup k db.records ≡ some old
          → P (set_database s u (drop_record db k old), ok))
      → P (remove s u k)
  unfolding read remove
  remove_cases missing found = elim (Option-cases (lookup u s.kv_store)) [
    | inl f ↦ rw (remove, f) (missing (rw (read, f)))
    | inr (db, f) ↦ elim (Option-cases (lookup k db.records)) [
      | inl g ↦ rw (remove, f, remove_record, g) (missing (rw (read, f, g)))
      | inr (old, g) ↦ rw (remove, f, remove_record, g) (found db old f g)
    ]
  ]

-- The operation `r`, which writes `new` under the key on success, has its effect there alone.
abbrev pub Writes : MemStorage → Bytes → Bytes → Option Bytes → MemStorage × StorageResult → Type 0
Writes s u k new r =
    (w j : Bytes)
    → read r.0 w j ≡ elim r.1 [ ok ↦ (if at u k w j then new else read s w j) | _ ↦ read s w j ]

pub read-inner_db_of :
    (s : MemStorage) (u w j : Bytes) (db : Database)
    → lookup u s.kv_store ≡ some db
    → bytes_eq u w ≡ true
    → read s w j ≡ lookup j db.records
unfolding read
read-inner_db_of s u w j db f e = ground (arith, bytes_eq_iff u w)

-- A successful `create` puts the value under its key; a failed one changes nothing.
pub read-create : (s : MemStorage) (u k v : Bytes) → Writes s u k (some v) (create s u k v)
unfolding add_record
read-create s u k v =
    create_cases (Writes s u k (some v)) s u k v (λ _ w j. refl) (λ _ _ w j. refl)
      (λ _ _ _ _ w j. refl)
      λ _ _ _ w j. ground (
        arith,
        read-set_database s u w j (add_record (inner_db (lookup u s.kv_store)) k v),
        lookup-insert k j v (inner_db (lookup u s.kv_store)).records,
        bytes_eq_iff u w,
        read-inner_db s u j,
      )

pub read-update : (s : MemStorage) (u k v : Bytes) → Writes s u k (some v) (update s u k v)
unfolding replace_record
read-update s u k v =
    update_cases (Writes s u k (some v)) s u k v (λ _ w j. refl) (λ _ _ w j. refl)
      λ _ db old f g w j. ground (
        arith,
        read-set_database s u w j (replace_record db k old v),
        lookup-insert k j v db.records,
        read-inner_db_of s u w j db f,
      )

pub read-remove : (s : MemStorage) (u k : Bytes) → Writes s u k none (remove s u k)
unfolding drop_record
read-remove s u k =
    remove_cases (Writes s u k none) s u k (λ _ w j. refl)
      λ db old f g w j. ground (
        arith,
        read-set_database s u w j (drop_record db k old),
        lookup-erase k j db.records,
        read-inner_db_of s u w j db f,
      )

pub read-remove_database :
    (s : MemStorage) (u w j : Bytes)
    → read (remove_database s u).0 w j ≡ (if bytes_eq u w then none else read s w j)
unfolding read remove_database
read-remove_database s u w j = elim (Option-cases (lookup u s.kv_store)) [
  | inl e ↦ rw (remove_database, e) (ground (arith, bytes_eq_iff u w))
  | inr (db, e) ↦ rw (remove_database, e) (ground (arith, lookup-erase u w s.kv_store))
]

-- The code that an operation returns, from the sizes and from what is stored.
abbrev pub create_code : Bytes → Bytes → Option Bytes → StorageResult
create_code k v stored =
    if ltb max_value_size (size v)
    then value_too_large
    else if ltb max_key_size (size k)
    then key_too_large
    else elim stored [ none ↦ ok | some _ ↦ exists ]

abbrev pub update_code : Bytes → Option Bytes → StorageResult
update_code v stored =
    if ltb max_value_size (size v)
    then value_too_large
    else elim stored [ none ↦ not_found | some _ ↦ ok ]

abbrev pub remove_code : Option Bytes → StorageResult
remove_code stored = elim stored [ none ↦ not_found | some _ ↦ ok ]

pub create_result :
    (s : MemStorage) (u k v : Bytes) → (create s u k v).1 ≡ create_code k v (read s u k)
create_result s u k v =
    create_cases (λ r. r.1 ≡ create_code k v (read s u k)) s u k v (λ e. rw e) (λ e f. rw (e, f))
      (λ e f old g. rw (e, f, g)) (λ e f g. rw (e, f, g))

pub update_result :
    (s : MemStorage) (u k v : Bytes) → (update s u k v).1 ≡ update_code v (read s u k)
unfolding read
update_result s u k v =
    update_cases (λ r. r.1 ≡ update_code v (read s u k)) s u k v (λ e. rw e) (λ e f. rw (e, f))
      (λ e db old f g. rw (e, read, f, g))

pub remove_result : (s : MemStorage) (u k : Bytes) → (remove s u k).1 ≡ remove_code (read s u k)
unfolding read
remove_result s u k =
    remove_cases (λ r. r.1 ≡ remove_code (read s u k)) s u k (λ f. rw f)
      (λ db old f g. rw (read, f, g))

any-keys :
    (k : Bytes) (m : Map Bytes Bytes)
    → any (λ j. bytes_eq j k) (keys m) ≡ elim (lookup k m) [ none ↦ false | some _ ↦ true ]
unfolding any lookup
any-keys k [] = refl
any-keys k ((j, v) ∷ m) = ground (arith, any-keys k m)

-- `has` answers whether `read` finds a value.
pub has-read :
    (s : MemStorage) (u k : Bytes) → has s u k ≡ elim (read s u k) [ none ↦ false | some _ ↦ true ]
unfolding has get_keys read
has-read s u k = go (lookup u s.kv_store)
  where
    go :
        (o : Option Database)
        → any (λ j. bytes_eq j k) (elim o [ none ↦ [] | some db ↦ keys db.records ])
          ≡ elim (elim o as (λ _. Option Bytes) [ none ↦ none | some db ↦ lookup k db.records ]) [
            | none ↦ false
            | some _ ↦ true
          ]
    go none = unfold any in refl
    go (some db) = any-keys k db.records

at_self : (u k : Bytes) → at u k u k ≡ true
at_self u k = ground (arith, bytes_eq_iff u u, bytes_eq_iff k k)

Writes-self :
    (s : MemStorage) (u k : Bytes) (new : Option Bytes) (r : MemStorage × StorageResult)
    → Writes s u k new r
    → r.1 ≡ ok
    → read r.0 u k ≡ new
Writes-self s u k new r w e = w u k ∙ rw (e, at_self u k)

-- After a successful write the key has the value; after `remove`, successful or not, it has none.
pub read-create_self :
    (s : MemStorage) (u k v : Bytes)
    → (create s u k v).1 ≡ ok
    → read (create s u k v).0 u k ≡ some v
read-create_self s u k v = Writes-self s u k (some v) (create s u k v) (read-create s u k v)

pub read-update_self :
    (s : MemStorage) (u k v : Bytes)
    → (update s u k v).1 ≡ ok
    → read (update s u k v).0 u k ≡ some v
read-update_self s u k v = Writes-self s u k (some v) (update s u k v) (read-update s u k v)

pub read-remove_self : (s : MemStorage) (u k : Bytes) → read (remove s u k).0 u k ≡ none
read-remove_self s u k = elim (Option-cases (read s u k)) [
  | inl e ↦ read-remove s u k u k ∙ rw (remove_result, e) e
  | inr (v, e) ↦
      Writes-self s u k none (remove s u k) (read-remove s u k) (remove_result s u k ∙ rw e)
]

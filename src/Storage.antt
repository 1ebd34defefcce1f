-- ===== src/Storage.antt =====
-- storage/mem_storage.cpp and storage/storage_base.hpp: databases of key-value records in memory,
-- each with a running size in a `uint32_t`. The locks give every call the whole storage; a call
-- returns the new storage beside its result. Snapshots are in `Snapshot`, ranges in `Range`.
pub mod Range
pub mod Snapshot
pub mod Lookup
pub mod Accounting
pub mod Refinement
pub mod Tests
use bluzelle.Base.{
  ℕ, ◌+◌, ◌-◌, ◌%◌, ◌^◌, Bool, List, [], Option, none, some, ltb, any, length, if◌then◌else◌,
}
use bluzelle.Bytes.{Bytes, size, bytes_eq}
use bluzelle.Bytes.Order.{bytes_ordered}
use bluzelle.Map.{Map, lookup, insert, erase, keys}

pub data StorageResult : Type 0 where
  ok not_found exists ttl_not_found not_saved value_too_large key_too_large : StorageResult
  db_not_found db_exists db_full access_denied delete_pending : StorageResult
  invalid_argument invalid_size : StorageResult

abbrev pub max_key_size : ℕ
max_key_size = 4096

abbrev pub max_value_size : ℕ
max_value_size = 256000

-- `+=` and `-=` on the `uint32_t` that counts the bytes of a database.
unfoldable pub add32 : ℕ → ℕ → ℕ
add32 a b = (a + b) % 2 ^ 32

unfoldable pub sub32 : ℕ → ℕ → ℕ
sub32 a b = (a + 2 ^ 32 - b % 2 ^ 32) % 2 ^ 32

pub record Database : Type 0 where
  pub used : ℕ
  pub records : Map Bytes Bytes

pub record MemStorage : Type 0 where
  pub kv_store : Map Bytes Database
  pub latest_snapshot : Option Bytes

abbrev pub empty : MemStorage
empty = record { kv_store = []; latest_snapshot = none }

-- `kv_store[uuid]`, which makes an empty database where there is none.
abbrev pub inner_db : Option Database → Database
inner_db none = record { used = 0; records = [] }
inner_db (some db) = db

abbrev pub set_database : MemStorage → Bytes → Database → MemStorage
set_database s uuid db = record s { kv_store = insert uuid db s.kv_store }

unfoldable pub add_record : Database → Bytes → Bytes → Database
add_record db key value = record {
  used = add32 db.used (size value + size key);
  records = insert key value db.records;
}

create_record : MemStorage → Bytes → Bytes → Bytes → Database → MemStorage × StorageResult
unfolding add_record
create_record s uuid key value db = elim (lookup key db.records) [
  | some v ↦ (s, exists)
  | none ↦ (set_database s uuid (add_record db key value), ok)
]

unfoldable pub create : MemStorage → Bytes → Bytes → Bytes → MemStorage × StorageResult
unfolding create_record
create s uuid key value =
    if ltb max_value_size (size value)
    then (s, value_too_large)
    else if ltb max_key_size (size key)
    then (s, key_too_large)
    else create_record s uuid key value (inner_db (lookup uuid s.kv_store))

unfoldable pub read : MemStorage → Bytes → Bytes → Option Bytes
read s uuid key = elim (lookup uuid s.kv_store) [ none ↦ none | some db ↦ lookup key db.records ]

unfoldable pub replace_record : Database → Bytes → Bytes → Bytes → Database
replace_record db key old value = record {
  used = add32 (sub32 db.used (size old)) (size value);
  records = insert key value db.records;
}

update_record : MemStorage → Bytes → Bytes → Bytes → Database → MemStorage × StorageResult
unfolding replace_record
update_record s uuid key value db = elim (lookup key db.records) [
  | none ↦ (s, not_found)
  | some old ↦ (set_database s uuid (replace_record db key old value), ok)
]

unfoldable pub update : MemStorage → Bytes → Bytes → Bytes → MemStorage × StorageResult
unfolding update_record
update s uuid key value =
    if ltb max_value_size (size value)
    then (s, value_too_large)
    else elim (lookup uuid s.kv_store) [
      | none ↦ (s, not_found)
      | some db ↦ update_record s uuid key value db
    ]

unfoldable pub drop_record : Database → Bytes → Bytes → Database
drop_record db key value = record {
  used = sub32 db.used (size value + size key);
  records = erase key db.records;
}

remove_record : MemStorage → Bytes → Bytes → Database → MemStorage × StorageResult
unfolding drop_record
remove_record s uuid key db = elim (lookup key db.records) [
  | none ↦ (s, not_found)
  | some value ↦ (set_database s uuid (drop_record db key value), ok)
]

unfoldable pub remove : MemStorage → Bytes → Bytes → MemStorage × StorageResult
unfolding remove_record
remove s uuid key = elim (lookup uuid s.kv_store) [
  | none ↦ (s, not_found)
  | some db ↦ remove_record s uuid key db
]

unfoldable pub get_keys : MemStorage → Bytes → List Bytes
get_keys s uuid = elim (lookup uuid s.kv_store) [ none ↦ [] | some db ↦ keys db.records ]

-- `std::find` over the keys.
unfoldable pub has : MemStorage → Bytes → Bytes → Bool
has s uuid key = any (λ k. bytes_eq k key) (get_keys s uuid)

-- The number of records and the counted bytes.
unfoldable pub get_size : MemStorage → Bytes → ℕ × ℕ
get_size s uuid = elim (lookup uuid s.kv_store) [
  | none ↦ (0, 0)
  | some db ↦ (length db.records, db.used)
]

unfoldable pub get_key_size : MemStorage → Bytes → Bytes → Option ℕ
get_key_size s uuid key = elim (lookup uuid s.kv_store) [
  | none ↦ none
  | some db ↦ elim (lookup key db.records) [ none ↦ none | some v ↦ some (size key + size v) ]
]

-- `remove(uuid)`: drops the whole database.
unfoldable pub remove_database : MemStorage → Bytes → MemStorage × StorageResult
remove_database s uuid = elim (lookup uuid s.kv_store) [
  | none ↦ (s, not_found)
  | some db ↦ (record s { kv_store = erase uuid s.kv_store }, ok)
]

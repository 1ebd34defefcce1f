-- ===== src/Storage/Tests.antt =====
-- A concrete storage for storage/mem_storage.cpp, and its theorems on it.
use bluzelle.Base.{
  ◌%◌, ◌^◌, ◌≡◌, refl, subst, Bool, ◌&&◌, List, [], ◌∷◌, Option, none, some, if◌then◌else◌, length,
  filter, any, ◌==◌,
}
use bluzelle.Bytes.{Bytes, bytes, bytes_eq, bytes_lt, size}
use bluzelle.Bytes.Order.{bytes_ordered}
use bluzelle.Map.{Map, lookup, insert}
use bluzelle.Storage.{MemStorage, empty, create, read, get_size, add_record, add32}
use bluzelle.Storage.Accounting.{IsValid, IsValid-empty, create-IsValid, contents, total}
use bluzelle.Storage.Refinement.{
  Call, creates, updates, removes, reads, asks, drops, Represents, run, spec_run, run_refines,
  get_size-run,
}
use bluzelle.Storage.Range.{remove_range, read_if}
use bluzelle.Storage.Range.Removal.{in_range}
use bluzelle.Storage.Range.Removal.{remove_range_lem, remove_range_overrun}
use bluzelle.Storage.Range.Selection.{read_if-filter, selects}

abbrev db : Bytes
db = bytes "db"

abbrev records : Map Bytes Bytes
records = (bytes "a", bytes "1") ∷ (bytes "b", bytes "22") ∷ (bytes "c", bytes "3") ∷ []

abbrev storage : MemStorage
storage = record {
  kv_store = (db, record { used = 7; records = records }) ∷ [];
  latest_snapshot = none;
}

storage_made :
    (create
      (create (create empty db (bytes "a") (bytes "1")).0 db (bytes "b") (bytes "22")).0
      db
      (bytes "c")
      (bytes "3")).0
    ≡ storage
unfolding create lookup insert add_record add32 bytes_eq bytes_lt
storage_made = refl

storage-IsValid : IsValid storage
storage-IsValid = subst IsValid storage_made (
    create-IsValid _ db (bytes "c") (bytes "3") (
      create-IsValid _ db (bytes "b") (bytes "22")
        (create-IsValid empty db (bytes "a") (bytes "1") IsValid-empty)))

-- A session of calls: a duplicate, an update, a removal and a drop among them.
abbrev calls : List Call
calls =
    creates db (bytes "a") (bytes "9")
    ∷ updates db (bytes "b") (bytes "333")
    ∷ removes db (bytes "c")
    ∷ reads db (bytes "b")
    ∷ asks db (bytes "c")
    ∷ creates (bytes "other") (bytes "x") []
    ∷ drops db
    ∷ []

run_refines_example :
    Represents (spec_run (read storage) calls).0 (run storage calls).0
    × ((run storage calls).1 ≡ (spec_run (read storage) calls).1)
run_refines_example = run_refines (read storage) storage calls (λ w j. refl)

get_size-run_example : get_size (run storage calls).0 (bytes "other") ≡ (
  length (contents (run storage calls).0 (bytes "other")),
  total (contents (run storage calls).0 (bytes "other")) % 2 ^ 32,
)
get_size-run_example = get_size-run storage calls (bytes "other") storage-IsValid

remove_range_lem_example :
    (s' : MemStorage) × (remove_range storage db (bytes "a") (bytes "c") ≡ some s')
    × IsValid s'
    × ((w j : Bytes)
        → read s' w j ≡ (
            if bytes_eq db w && in_range (bytes "a") (bytes "c") j then none else read storage w j))
unfolding bytes_lt
remove_range_lem_example = remove_range_lem storage db (bytes "a") (bytes "c") storage-IsValid refl

remove_range_overrun_example : remove_range storage db (bytes "c") (bytes "b") ≡ none
unfolding bytes_lt any lookup bytes_eq
remove_range_overrun_example =
    remove_range_overrun storage db (bytes "c") (bytes "b") (record { used = 7; records = records })
      storage-IsValid refl refl refl

abbrev long_value : Option (Bytes → Bytes → Bool)
long_value = some (λ k v. size v == 2)

read_if-filter_example :
    read_if storage db (bytes "a") [] long_value
    ≡ filter (selects (bytes "a") [] long_value) (contents storage db)
read_if-filter_example = read_if-filter storage db (bytes "a") [] long_value storage-IsValid

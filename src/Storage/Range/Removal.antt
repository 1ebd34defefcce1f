-- ===== src/Storage/Range/Removal.antt =====
-- What `remove_range` removes, and when it runs past the end of the map.
use bluzelle.Base.{
  ℕ, ◌+◌, ◌%◌, ◌^◌, ◌<◌, ◌≡◌, refl, ap, sym, Bool, true, false, not, ◌&&◌, [], ◌∷◌, ◌++◌, none,
  some, arith, any, length, filter, if◌then◌else◌, Option-cases, inl, inr,
}
use bluzelle.Bytes.{Bytes, size, bytes_eq, bytes_lt}
use bluzelle.Bytes.Order.{bytes_ordered, bytes_eq_iff}
use bluzelle.Map.{lookup, keys}
use bluzelle.Map.Sorted.{IsSorted, Above}
use bluzelle.Storage.{MemStorage, Database, sub32, set_database}
use bluzelle.Storage.Accounting.{IsValid, IsCounted, total, set_database-IsValid}
use bluzelle.Storage.Lookup.{read-set_database, read-inner_db_of}
use bluzelle.Storage.{read}
use bluzelle.Storage.Range.{Records, lower_bound, in_front, erase_until, erase_range, remove_range}
use bluzelle.Storage.Range.Bounds.{
  length-lower_bound-le, lt_of_le_lt, lt_of_lt_le, lt_asymm, From, Above-From,
  lower_bound-lower_bound,
}

-- The counter after the records are erased one by one.
pub subtract_all : ℕ → Records → ℕ
subtract_all used [] = used
subtract_all used ((k, v) ∷ m) = subtract_all (sub32 used (size v + size k)) m

-- The loop stops at the iterator of `last`, if that is not before the start.
erase_until-lower_bound :
    (last : Bytes) (m : Records) (used : ℕ)
    → erase_until (length (lower_bound last m)) m used
      ≡ some (subtract_all used (in_front last m), lower_bound last m)
unfolding erase_until lower_bound in_front subtract_all
erase_until-lower_bound last [] used = refl
erase_until-lower_bound last ((k, v) ∷ m) used = ground (
  arith,
  erase_until-lower_bound last m (sub32 used (size v + size k)),
  length-lower_bound-le last m,
)

-- It runs past the end, if more entries follow `last` than follow the start.
erase_until-overrun : (e : ℕ) (m : Records) (used : ℕ) → length m < e → erase_until e m used ≡ none
unfolding erase_until
erase_until-overrun e [] used h = ground arith
erase_until-overrun e ((k, v) ∷ m) used h =
    ground (arith, erase_until-overrun e m (sub32 used (size v + size k)))

abbrev pub in_range : Bytes → Bytes → Bytes → Bool
in_range first last k = not (bytes_lt k first) && bytes_lt k last

abbrev pub outside : Bytes → Bytes → Records → Records
outside first last = filter λ e. not (in_range first last e.0)

outside_all : (first last : Bytes) (m : Records) → From last m → outside first last m ≡ m
unfolding filter
outside_all first last [] f = refl
outside_all first last ((k, v) ∷ m) f = ground (arith, outside_all first last m f.1)

outside-From :
    (first last : Bytes) (m : Records)
    → IsSorted m
    → From first m
    → lower_bound last m ≡ outside first last m
unfolding filter lower_bound
outside-From first last [] s f = refl
outside-From first last ((k, v) ∷ m) s f =
    ground (arith, outside-From first last m s.1 f.1, outside_all first last m, Above-From last k m)

pub in_front-lower_bound-outside :
    (first last : Bytes) (m : Records)
    → IsSorted m
    → in_front first m ++ lower_bound last (lower_bound first m) ≡ outside first last m
unfolding filter lower_bound in_front
in_front-lower_bound-outside first last [] s = refl
in_front-lower_bound-outside first last ((k, v) ∷ m) s = ground (
  arith,
  in_front-lower_bound-outside first last m s.1,
  outside-From first last ((k, v) ∷ m) s,
  Above-From first k m,
)

lookup-outside :
    (first last j : Bytes) (m : Records)
    → lookup j (outside first last m) ≡ (if in_range first last j then none else lookup j m)
unfolding lookup filter
lookup-outside first last j [] = ground arith
lookup-outside first last j ((k, v) ∷ m) =
    ground (arith, lookup-outside first last j m, bytes_eq_iff k j)

Above-outside : (first last b : Bytes) (m : Records) → Above b m → Above b (outside first last m)
unfolding filter
Above-outside first last b [] h = tt
Above-outside first last b ((k, v) ∷ m) h = ground (arith, Above-outside first last b m h.1)

outside-IsSorted : (first last : Bytes) (m : Records) → IsSorted m → IsSorted (outside first last m)
unfolding filter
outside-IsSorted first last [] h = tt
outside-IsSorted first last ((k, v) ∷ m) h =
    ground (arith, outside-IsSorted first last m h.1, Above-outside first last k m h.0)

-- The counter falls by the bytes of the erased records, modulo 2^32.
subtract_all-total :
    (x : Records) (used t : ℕ) → used ≡ (total x + t) % 2 ^ 32 → subtract_all used x ≡ t % 2 ^ 32
unfolding subtract_all total sub32
subtract_all-total [] used t h = omega (arith, h)
subtract_all-total ((k, v) ∷ m) used t h = subtract_all-total m _ t (omega (arith, h))

total-split : (b : Bytes) (m : Records) → total m ≡ total (in_front b m) + total (lower_bound b m)
unfolding total in_front lower_bound
total-split b [] = omega arith
total-split b ((k, v) ∷ m) = ground (arith, total-split b m)

total-append : (x y : Records) → total (x ++ y) ≡ total x + total y
unfolding total
total-append [] y = omega arith
total-append ((k, v) ∷ x) y = omega (arith, total-append x y)

-- The database that is left.
abbrev pub trimmed : Database → Bytes → Bytes → Database
trimmed db first last = record {
  used = subtract_all db.used (in_front last (lower_bound first db.records));
  records = outside first last db.records;
}

erase_range-trimmed :
    (db : Database) (first last : Bytes)
    → IsSorted db.records
    → bytes_lt last first ≡ false
    → erase_range db first last ≡ some (trimmed db first last)
unfolding erase_range
erase_range-trimmed db first last s h = rw (
  erase_range,
  sym (lower_bound-lower_bound first last db.records h),
  erase_until-lower_bound last (lower_bound first db.records) db.used,
  in_front-lower_bound-outside first last db.records s,
)

trimmed-IsCounted :
    (db : Database) (first last : Bytes) → IsCounted db → IsCounted (trimmed db first last)
trimmed-IsCounted db first last c = record {
  sorted = outside-IsSorted first last db.records c.sorted;
  counted = subtract_all-total (in_front last (lower_bound first db.records)) db.used _ (
      omega (
        arith,
        c.counted,
        total-split first db.records,
        total-split last (lower_bound first db.records),
        total-append (in_front first db.records) (lower_bound last (lower_bound first db.records)),
        ap total (in_front-lower_bound-outside first last db.records c.sorted),
      ));
}

-- In a valid storage and with `last` not below `first`, `remove_range` ends, leaves the storage
-- valid, removes the records of the database whose keys lie from `first` to before `last`, and
-- changes no other.
pub remove_range_lem :
    (s : MemStorage) (u first last : Bytes)
    → IsValid s
    → bytes_lt last first ≡ false
    → (s' : MemStorage) × (remove_range s u first last ≡ some s')
      × IsValid s'
      × ((w j : Bytes)
          → read s' w j ≡ (if bytes_eq u w && in_range first last j then none else read s w j))
unfolding remove_range read
remove_range_lem s u first last v h = elim (Option-cases (lookup u s.kv_store)) [
  | inl e ↦ (s, rw (remove_range, e), v, λ w j. ground (arith, bytes_eq_iff u w))
  | inr (db, e) ↦ (
    set_database s u (trimmed db first last),
    rw (remove_range, e, erase_range-trimmed db first last (v.databases u db e).sorted h),
    set_database-IsValid s u _ v (trimmed-IsCounted db first last (v.databases u db e)),
    λ w j. ground (
      arith,
      read-set_database s u w j (trimmed db first last),
      lookup-outside first last j db.records,
      read-inner_db_of s u w j db e,
    ),
  )
]

overrun-length :
    (first last : Bytes) (m : Records)
    → IsSorted m
    → bytes_lt last first ≡ true
    → any (in_range last first) (keys m) ≡ true
    → length (lower_bound first m) < length (lower_bound last m)
unfolding any lower_bound
overrun-length first last [] s h a = cc
overrun-length first last ((k, v) ∷ m) s h a = ground (
  arith,
  overrun-length first last m s.1 h,
  length-lower_bound-le first m,
  any_from k m s.0,
  lt_of_lt_le k last first,
)
  where
    any_from :
        (b : Bytes) (n : Records)
        → Above b n
        → bytes_lt b first ≡ false
        → any (in_range last first) (keys n) ≡ false
    any_from b [] r q = refl
    any_from b ((j, w) ∷ n) r q =
        ground (arith, any_from b n r.1 q, lt_of_le_lt first b j q r.0, lt_asymm first j)

-- In a valid storage and with `last` below `first`, `remove_range` runs past the end of the map if
-- the database has a key from `last` to before `first`.
pub remove_range_overrun :
    (s : MemStorage) (u first last : Bytes) (db : Database)
    → IsValid s
    → lookup u s.kv_store ≡ some db
    → bytes_lt last first ≡ true
    → any (in_range last first) (keys db.records) ≡ true
    → remove_range s u first last ≡ none
unfolding remove_range erase_range
remove_range_overrun s u first last db v e h a = rw (
  remove_range,
  e,
  erase_range,
  erase_until-overrun (length (lower_bound last db.records)) (lower_bound first db.records) db.used
      (overrun-length first last db.records (v.databases u db e).sorted h a),
)

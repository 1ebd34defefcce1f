-- ===== src/Policy/Random/Enough.antt =====
-- What policy/random.cpp chooses frees the room that is required.
use bluzelle.Base.{
  ℕ, zero, suc, ◌+◌, ◌≤◌, ◌≡◌, refl, subst, List, [], ◌∷◌, Option, none, some, ◌==◌, length,
  if◌then◌else◌, arith, Bool-cases, Option-cases, inl, inr,
}
use bluzelle.Bytes.{Bytes, bytes_eq}
use bluzelle.Bytes.Counts.{
  count, sum, count-append, sum-append, AreNew, count-insert_all, sum-insert_all,
}
use bluzelle.Storage
use bluzelle.Storage.{MemStorage}
use bluzelle.Storage.Accounting.{IsValid}
use bluzelle.Map.{Map, keys, lookup}
use bluzelle.Map.Sorted.{IsSorted, Above}
use bluzelle.Bytes.Order.{bytes_ordered, bytes_eq_iff, bytes_lt_irrefl}
use bluzelle.Protocol.{Request, update_of}
use bluzelle.Sets
use bluzelle.Policy.{sub64, key_value_size}
use bluzelle.Policy.Random.{
  Progress, Draw, get_elem?, remove_at, take_key, take_drawn, select, keys_to_evict,
}

abbrev pub size_or_zero : Option ℕ → ℕ
size_or_zero none = 0
size_or_zero (some n) = n

abbrev pub key_size : MemStorage → Bytes → Bytes → ℕ
key_size s u k = size_or_zero (Storage.get_key_size s u k)

abbrev pub times : Bytes → Option Bytes → ℕ
times k none = 0
times k (some x) = if bytes_eq x k then 1 else 0

count-remove_at :
    (k : Bytes) (xs : List Bytes) (i : ℕ)
    → count k xs ≡ times k (get_elem? xs i) + count k (remove_at xs i)
unfolding count get_elem? remove_at
count-remove_at k [] i = omega arith
count-remove_at k (x ∷ xs) zero = refl
count-remove_at k (x ∷ xs) (suc i) = omega (arith, count-remove_at k xs i)

module _ (draw : ℕ → ℕ → ℕ) (s : MemStorage) (u ignore : Bytes) where
  -- What is freed and what is still to free.
  abbrev covered : Progress → ℕ
  covered p = p.0 + sum (key_size s u) p.1

  take_drawn-covered :
      (x : Option Bytes) (p : Progress) → covered p ≤ covered (take_drawn s u ignore x p)
  unfolding take_key sum
  take_drawn-covered none p = omega arith
  take_drawn-covered (some x) p = elim (Bool-cases (bytes_eq x ignore)) [
    | inl e ↦ rw (take_key, e) (omega arith)
    | inr e ↦ elim (Option-cases (Storage.get_key_size s u x)) [
      | inl f ↦ rw (take_key, e, f) (omega arith)
      | inr (n, f) ↦
          let q : key_size s u x ≡ n = rw f in
          rw (take_key, e, f) (omega (arith, sum-append (key_size s u) p.1 (x ∷ []), q))
    ]
  ]

  take_drawn-count :
      (k : Bytes) (x : Option Bytes) (p : Progress)
      → count k (take_drawn s u ignore x p).1 ≤ count k p.1 + times k x
  unfolding take_key count
  take_drawn-count k none p = omega arith
  take_drawn-count k (some x) p = elim (Bool-cases (bytes_eq x ignore)) [
    | inl e ↦ rw (take_key, e) (omega arith)
    | inr e ↦ elim (Option-cases (Storage.get_key_size s u x)) [
      | inl f ↦ rw (take_key, e, f) (omega arith)
      | inr (n, f) ↦ rw (take_key, e, f) (omega (arith, count-append k p.1 (x ∷ [])))
    ]
  ]

  select-covered :
      (fuel round : ℕ) (available : List Bytes) (p : Progress)
      → covered p ≤ covered (select draw s u ignore fuel round available p)
  unfolding select
  select-covered zero round available p = omega arith
  select-covered (suc fuel) round available p =
      let i : ℕ = draw round (length available) in
      ground (
        arith,
        select-covered fuel (round + 1) (remove_at available i)
            (take_drawn s u ignore (get_elem? available i) p),
        take_drawn-covered (get_elem? available i) p,
      )

  select-AreNew :
      (fuel round : ℕ) (available : List Bytes) (p : Progress)
      → AreNew p.1 available
      → AreNew (select draw s u ignore fuel round available p).1 []
  unfolding select count
  select-AreNew zero round available p h k = omega (arith, h k)
  select-AreNew (suc fuel) round available p h k =
      let i : ℕ = draw round (length available) in
      let rest =
        select-AreNew fuel (round + 1) (remove_at available i)
          (take_drawn s u ignore (get_elem? available i) p)
          (λ j. omega (
            arith,
            h j,
            count-remove_at j available i,
            take_drawn-count j (get_elem? available i) p,
          ))
          k in
      ground (arith, rest, h k)

-- The keys of a map in strict order are distinct.
count-keys-Above : (k : Bytes) (m : Map Bytes Bytes) → Above k m → count k (keys m) ≡ 0
unfolding count
count-keys-Above k [] h = refl
count-keys-Above k ((j, v) ∷ m) h =
    ground (arith, count-keys-Above k m h.1, bytes_eq_iff j k, bytes_lt_irrefl k)

count-keys : (k : Bytes) (m : Map Bytes Bytes) → IsSorted m → count k (keys m) ≤ 1
unfolding count
count-keys k [] h = omega arith
count-keys k ((j, v) ∷ m) h =
    ground (arith, count-keys k m h.1, count-keys-Above j m h.0, bytes_eq_iff j k)

get_keys-AreNew : (s : MemStorage) (u : Bytes) → IsValid s → AreNew [] (Storage.get_keys s u)
unfolding count Storage.get_keys
get_keys-AreNew s u v k = elim (Option-cases (lookup u s.kv_store)) [
  | inl e ↦ rw (Storage.get_keys, e) (omega arith)
  | inr (db, e) ↦
      rw (Storage.get_keys, e) (omega (arith, count-keys k db.records (v.databases u db e).sorted))
]

-- The bytes that are to be freed for a request.
abbrev pub required : MemStorage → Request → ℕ → ℕ
required s r max_size =
    sub64 (key_value_size r.msg) (sub64 max_size (Storage.get_size s r.header.db_uuid).1)

nil-ne-cons : (k : Bytes) (ks : List Bytes) → [] ≡ k ∷ ks → ⊥
nil-ne-cons k ks e = cc

chosen_enough :
    (f : Bytes → ℕ) (need : ℕ) (k : Bytes) (ks : List Bytes) (p : Progress)
    → need ≤ p.0 + sum f p.1
    → AreNew p.1 []
    → (if p.0 == 0 then Sets.insert_all p.1 [] else []) ≡ k ∷ ks
    → (need ≤ sum f (k ∷ ks)) × AreNew (k ∷ ks) []
unfolding sum count
chosen_enough f need k ks p c d e = elim (Bool-cases (p.0 == 0)) [
  | inl z ↦
      let e' : Sets.insert_all p.1 [] ≡ k ∷ ks = rw z at e in
      subst (λ l. (need ≤ sum f l) × AreNew l []) e'
        (
          ground (arith, sum-insert_all f p.1 [] d),
          λ j. omega (arith, count-insert_all j p.1 [] d, d j),
        )
  | inr z ↦ absurd (nil-ne-cons k ks (rw z at e))
]

-- In a valid storage, the keys that the random policy chooses, if it chooses any, are distinct, and
-- their records have at least the bytes that are required, whatever numbers are drawn.
pub keys_to_evict_lem :
    (draw : Draw) (s : MemStorage) (r : Request) (max_size : ℕ) (k : Bytes) (ks : List Bytes)
    → IsValid s
    → keys_to_evict draw s r max_size ≡ k ∷ ks
    → (required s r max_size ≤ sum (key_size s r.header.db_uuid) (k ∷ ks)) × AreNew (k ∷ ks) []
unfolding keys_to_evict sum
keys_to_evict_lem draw s r max_size k ks v e =
    let u = r.header.db_uuid in
    let available = Storage.get_keys s u in
    let draws = draw r.header.request_hash in
    let ignore = (update_of r.msg).key in
    let start : Progress = (required s r max_size, []) in
    chosen_enough (key_size s u) (required s r max_size) k ks
      (select draws s u ignore (length available) 0 available start)
      (omega (arith, select-covered draws s u ignore (length available) 0 available start))
      (select-AreNew draws s u ignore (length available) 0 available start (get_keys-AreNew s u v))
      e

-- ===== src/Crud/Eviction.antt =====
-- The eviction of crud/crud.cpp: what it removes, and that a create or an update that it made room
-- for stays within the limit of the database.
use bluzelle.Base.{
  none-ne-some, ℕ, ◌+◌, ◌%◌, ◌^◌, ◌≤◌, ◌<◌, ◌≡◌, refl, sym, ◌∙◌, ap, subst, Bool, true, false, List,
  [], ◌∷◌, Option, none, some, ◌==◌, if◌then◌else◌, arith, Bool-cases, Option-cases, inl, inr, ltb,
}
use bluzelle.Bytes.{Bytes, size, bytes_eq}
use bluzelle.Bytes.Order.{bytes_ordered, bytes_eq_iff}
use bluzelle.Bytes.Counts.{count, sum, AreNew}
use bluzelle.Map.{Map, lookup, insert, erase}
use bluzelle.Map.Laws.{lookup-insert}
use bluzelle.Storage
use bluzelle.Storage.{
  MemStorage, StorageResult, ok, Database, read, set_database, drop_record, inner_db,
}
use bluzelle.Storage.Lookup.{at, read-remove, read-remove_self, remove_cases}
use bluzelle.Storage.Accounting.{
  IsValid, contents, total, total-erase, remove-IsValid, get_size-total,
}
use bluzelle.Policy.Random.Enough.{key_size, required, keys_to_evict_lem}
use bluzelle.Policy.Random
use bluzelle.Protocol.{Header, Message, Request}
use bluzelle.Codec.{Permissions}
use mathlib.Core.Option.{some-injective}
use bluzelle.Policy
use bluzelle.Crud.State.{Crud, Context, done, done-injective}
use bluzelle.Crud.Permissions.{get_database_permissions}
use bluzelle.Crud.Space.{
  remove_all, evicted, do_eviction, policy_keys, make_room, operation_exceeds_available_space,
  exceeds_database, add64,
}

-- The size of the record, if there is one.
record_size : Bytes → Option Bytes → ℕ
record_size k none = 0
record_size k (some v) = size k + size v

key_size-read : (s : MemStorage) (u k : Bytes) → key_size s u k ≡ record_size k (read s u k)
unfolding record_size read Storage.get_key_size
key_size-read s u k = elim (Option-cases (lookup u s.kv_store)) [
  | inl e ↦ rw (Storage.get_key_size, read, e)
  | inr (db, e) ↦ elim (Option-cases (lookup k db.records)) [
    | inl f ↦ rw (Storage.get_key_size, read, e, f)
    | inr (v, f) ↦ rw (Storage.get_key_size, read, e, f)
  ]
]

read_other :
    (r : StorageResult) (b : Bool) (old : Option Bytes)
    → b ≡ false
    → elim r [ ok ↦ (if b then none else old) | _ ↦ old ] ≡ old
read_other ok b old e = rw e
read_other _ b old e = refl

pub lookup-insert_self :
    (u : Bytes) (db : Database) (m : Map Bytes Database) → lookup u (insert u db m) ≡ some db
lookup-insert_self u db m =
    let self : bytes_eq u u ≡ true = (bytes_eq_iff u u).1 refl in rw (lookup-insert, self)

module _ (s : MemStorage) (u k : Bytes) where
  key_size-remove :
      (j : Bytes)
      → key_size (Storage.remove s u k).0 u j ≡ (if bytes_eq k j then 0 else key_size s u j)
  unfolding record_size
  key_size-remove j = elim (Bool-cases (bytes_eq k j)) [
    | inl e ↦ rw (key_size-read, e, gone e)
    | inr e ↦ rw e (
        key_size-read (Storage.remove s u k).0 u j
        ∙ ap (record_size j) (
            read-remove s u k u j
            ∙ read_other (Storage.remove s u k).1 (at u k u j) (read s u j) (ground arith))
        ∙ sym (key_size-read s u j))
  ]
    where
      gone : bytes_eq k j ≡ true → read (Storage.remove s u k).0 u j ≡ none
      gone e =
          subst (λ x. read (Storage.remove s u k).0 u x ≡ none) ((bytes_eq_iff k j).0 e)
            (read-remove_self s u k)

  total-remove :
      IsValid s
      → total (contents (Storage.remove s u k).0 u) + key_size s u k ≡ total (contents s u)
  unfolding record_size drop_record read
  total-remove v =
      remove_cases (λ r. total (contents r.0 u) + key_size s u k ≡ total (contents s u)) s u k
        (λ e. rw (key_size-read s u k, e) (omega arith))
        λ db old f g.
          let there : read s u k ≡ some old = rw (read, f) g in
          let q : key_size s u k ≡ size k + size old =
            key_size-read s u k ∙ ap (record_size k) there in
          let after : contents (set_database s u (drop_record db k old)) u ≡ erase k db.records =
            ap (λ x. (inner_db x).records)
              (lookup-insert_self u (drop_record db k old) s.kv_store) in
          let before : contents s u ≡ db.records = ap (λ x. (inner_db x).records) f in
          omega (
            arith,
            ap total after,
            ap total before,
            q,
            total-erase k old db.records (v.databases u db f).sorted g,
          )

-- The sizes over keys among which the removed one is not.
sum-without :
    (f : Bytes → ℕ) (k : Bytes) (ks : List Bytes)
    → count k ks ≡ 0
    → sum (λ j. if bytes_eq k j then 0 else f j) ks ≡ sum f ks
unfolding sum count
sum-without f k [] h = refl
sum-without f k (x ∷ ks) h = ground (arith, sum-without f k ks, bytes_eq_iff k x, bytes_eq_iff x k)

sum-same : (f g : Bytes → ℕ) (ks : List Bytes) → ((j : Bytes) → f j ≡ g j) → sum f ks ≡ sum g ks
unfolding sum
sum-same f g [] h = refl
sum-same f g (x ∷ ks) h = omega (arith, h x, sum-same f g ks h)

rest_distinct : (k : Bytes) (ks : List Bytes) → AreNew (k ∷ ks) [] → AreNew ks []
unfolding count
rest_distinct k ks h j = ground (arith, h j)

first_once : (k : Bytes) (ks : List Bytes) → AreNew (k ∷ ks) [] → count k ks ≡ 0
unfolding count
first_once k ks h = ground (arith, h k, bytes_eq_iff k k)

pub remove_all-IsValid :
    (ctx : Context) (s : MemStorage) (u : Bytes) (ks : List Bytes)
    → IsValid s
    → IsValid (remove_all ctx s u ks)
unfolding remove_all
remove_all-IsValid ctx s u [] v = v
remove_all-IsValid ctx s u (k ∷ ks) v =
    remove_all-IsValid ctx (Storage.remove s u k).0 u ks (remove-IsValid s u k v)

-- Evicting distinct keys frees the sum of their sizes.
pub total-remove_all :
    (ctx : Context) (s : MemStorage) (u : Bytes) (ks : List Bytes)
    → IsValid s
    → AreNew ks []
    → total (contents (remove_all ctx s u ks) u) + sum (key_size s u) ks ≡ total (contents s u)
unfolding remove_all sum
total-remove_all ctx s u [] v d = omega arith
total-remove_all ctx s u (k ∷ ks) v d = omega (
  arith,
  total-remove_all ctx (Storage.remove s u k).0 u ks (remove-IsValid s u k v)
      (rest_distinct k ks d),
  sum-same (key_size (Storage.remove s u k).0 u) (λ j. if bytes_eq k j then 0 else key_size s u j)
      ks (key_size-remove s u k),
  sum-without (key_size s u) k ks (first_once k ks d),
  total-remove s u k v,
)

-- The number of bytes that the storage counts, where the counter has not wrapped.
used_total :
    (s : MemStorage) (u : Bytes)
    → IsValid s
    → total (contents s u) < 2 ^ 32
    → (Storage.get_size s u).1 ≡ total (contents s u)
used_total s u v h = omega (arith, ap (λ p. p.1) (get_size-total s u v))

some-evicted :
    (ctx : Context) (s s' : MemStorage) (r : Request) (ks : List Bytes)
    → evicted ctx s r ks ≡ some s'
    → (k : Bytes) × (rest : List Bytes) × (ks ≡ k ∷ rest)
      × (remove_all ctx s r.header.db_uuid ks ≡ s')
unfolding evicted
some-evicted ctx s s' r [] e = absurd (none-ne-some e)
some-evicted ctx s s' r (k ∷ ks) e = (k, ks, refl, some-injective _ s' e)

module _ (ctx : Context) (c : Crud) (r : Request) (perms : Permissions) (valid : IsValid c.storage)
    (counted : total (contents c.storage r.header.db_uuid) < 2 ^ 32)
    (found : get_database_permissions ctx.codec c.storage r.header.db_uuid ≡ done (some perms))
    (policy : (perms.eviction_policy == 2) ≡ false) (limited : (perms.max_size == 0) ≡ false)
    (bounded : perms.max_size < 2 ^ 64) where
  evicted_lem :
      (s' : MemStorage)
      → do_eviction ctx c.storage r perms.max_size ≡ done (some s')
      → total (contents s' r.header.db_uuid) + required c.storage r perms.max_size
        ≤ total (contents c.storage r.header.db_uuid)
  unfolding do_eviction policy_keys evicted
  evicted_lem s' e = elim (Bool-cases (perms.eviction_policy == 1)) [
    | inl z ↦
        chosen
          (some-evicted ctx c.storage s' r _ (done-injective (rw (do_eviction, found, z) at e)))
    | inr z ↦ absurd (none-ne-some (done-injective (rw (do_eviction, found, z, policy) at e)))
  ]
    where
      chosen :
          (k : Bytes) × (rest : List Bytes) × (Random.keys_to_evict ctx.draw c.storage r
                perms.max_size
              ≡ k ∷ rest)
            × (remove_all ctx c.storage r.header.db_uuid
                  (Random.keys_to_evict ctx.draw c.storage r perms.max_size)
                ≡ s')
          → total (contents s' r.header.db_uuid) + required c.storage r perms.max_size
            ≤ total (contents c.storage r.header.db_uuid)
      chosen (k, rest, f, g) =
          let (enough, new) =
            keys_to_evict_lem ctx.draw c.storage r perms.max_size k rest valid f in
          let s₂ : remove_all ctx c.storage r.header.db_uuid (k ∷ rest) ≡ s' = rw (← f) g in
          rw (← s₂) (
            omega
              (arith, enough, total-remove_all ctx c.storage r.header.db_uuid (k ∷ rest) valid new))

module _ (ctx : Context) (c : Crud) (h : Header) (k v : Bytes) (expire : ℕ) (perms : Permissions)
    (valid : IsValid c.storage) (counted : total (contents c.storage h.db_uuid) < 2 ^ 32)
    (found : get_database_permissions ctx.codec c.storage h.db_uuid ≡ done (some perms))
    (policy : (perms.eviction_policy == 2) ≡ false) (limited : (perms.max_size == 0) ≡ false)
    (bounded : perms.max_size < 2 ^ 64) (short : size k + size v < 2 ^ 32) where
  abbrev pub creating : Request
  creating = record { header = h; msg = Message.create k v expire }

  exceeds_create :
      operation_exceeds_available_space ctx c creating perms
      ≡ done (ltb perms.max_size (total (contents c.storage h.db_uuid) + (size k + size v)))
  unfolding operation_exceeds_available_space exceeds_database add64
  exceeds_create =
      let q : (Storage.get_size c.storage h.db_uuid).1 ≡ total (contents c.storage h.db_uuid) =
        used_total c.storage h.db_uuid valid counted in
      let small : (total (contents c.storage h.db_uuid) + (size k + size v)) % 2 ^ 64
          ≡ total (contents c.storage h.db_uuid) + (size k + size v) =
        omega arith in
      rw (exceeds_database, limited, q, small)

  -- In a valid state, for a database whose permissions are read, with a limit that is not zero, a
  -- policy other than VOLATILE_TTL and records below 2^32 bytes: where `make_room` finds or makes
  -- room for the creation of a record of less than 2^32 bytes, the records that are left and the
  -- new one together are within the limit.
  pub make_room_lem :
      (s' : MemStorage)
      → make_room ctx c creating perms ≡ done (some s')
      → total (contents s' h.db_uuid) + (size k + size v) ≤ perms.max_size
  unfolding make_room Policy.sub64 Policy.key_value_size
  make_room_lem s' e =
      elim (Bool-cases
        (ltb perms.max_size (total (contents c.storage h.db_uuid) + (size k + size v)))) [
          | inl x ↦
              let q : (Storage.get_size c.storage h.db_uuid).1
                  ≡ total (contents c.storage h.db_uuid) =
                used_total c.storage h.db_uuid valid counted in
              let freed =
                evicted_lem ctx c creating perms valid counted found policy limited bounded s'
                  (rw (make_room, exceeds_create, x) at e) in
              let over : perms.max_size < total (contents c.storage h.db_uuid) + (size k + size v) =
                ground arith in
              let needed : required c.storage creating perms.max_size + perms.max_size
                  ≡ total (contents c.storage h.db_uuid) + (size k + size v) =
                rw q (omega arith) in
              omega (arith, freed, needed)
          | inr x ↦
              let same : c.storage ≡ s' =
                some-injective _ s' (done-injective (rw (make_room, exceeds_create, x) at e)) in
              let under : total (contents c.storage h.db_uuid) + (size k + size v)
                  ≤ perms.max_size =
                ground arith in
              subst (λ t. total (contents t h.db_uuid) + (size k + size v) ≤ perms.max_size) same
                under
        ]

-- ===== src/Crud/Limits.antt =====
-- The limit of a database in crud/crud.cpp: no create takes a database over it.
use bluzelle.Base.{
  not, ◌&&◌, ltb, ℕ, ◌+◌, ◌^◌, ◌≤◌, ◌<◌, ◌≡◌, refl, sym, ◌∙◌, ap, subst, false, Option, none, some,
  ◌==◌, arith,
}
use bluzelle.Bytes.{Bytes, size, bytes_eq}
use bluzelle.Bytes.Order.{bytes_ordered}
use bluzelle.Map.{lookup, insert}
use bluzelle.Map.Laws.{lookup-insert}
use bluzelle.Codec.{Permissions}
use bluzelle.Storage
use bluzelle.Storage.{
  MemStorage, Database, set_database, add_record, drop_record, replace_record, inner_db, read,
}
use bluzelle.Storage.Lookup.{create_cases, update_cases, remove_cases, read-inner_db}
use bluzelle.Storage.Accounting.{IsValid, contents, total, total-insert_new}
use bluzelle.Policy.VolatileTtl.{ttl_uuid}
use bluzelle.Protocol.{Header, Message, Request, Body, create_of}
use bluzelle.Crud.State.{Crud, Context, done, after}
use bluzelle.Crud.Permissions.{get_database_permissions, is_caller_a_writer}
use bluzelle.Crud.Expiration.{expire_key}
use bluzelle.Crud.Space.{make_room}
use bluzelle.Crud.Records.{store, handle_create}
use bluzelle.Crud.Requests.{dispatch, handle_request}
use bluzelle.Crud.Eviction.{make_room_lem, lookup-insert_self}
use bluzelle.Crud.Writes.Rules.{
  ClosedExpiry, Leaves, Leaves-respond, Leaves-if, Leaves-attempt, Leaves-attempt_of,
  Leaves-choose_of, AllSome, Holds, Holds-of,
}
use bluzelle.Crud.Writes.Writers.{written-Leaves}

contents-set_database :
    (s : MemStorage) (u : Bytes) (db : Database) → contents (set_database s u db) u ≡ db.records
contents-set_database s u db = ap (λ x. (inner_db x).records) (lookup-insert_self u db s.kv_store)

module _ (u w : Bytes) (other : bytes_eq w u ≡ false) where
  contents_other :
      (s : MemStorage) (db : Database) → contents (set_database s w db) u ≡ contents s u
  contents_other s db =
      let same : lookup u (insert w db s.kv_store) ≡ lookup u s.kv_store =
        rw (lookup-insert, other) in
      ap (λ x. (inner_db x).records) same

  contents-create :
      (s : MemStorage) (k v : Bytes) → contents (Storage.create s w k v).0 u ≡ contents s u
  contents-create s k v =
      create_cases (λ r. contents r.0 u ≡ contents s u) s w k v (λ _. refl) (λ _ _. refl)
        (λ _ _ _ _. refl)
        λ _ _ _. contents_other s (add_record (inner_db (lookup w s.kv_store)) k v)

  contents-update :
      (s : MemStorage) (k v : Bytes) → contents (Storage.update s w k v).0 u ≡ contents s u
  contents-update s k v =
      update_cases (λ r. contents r.0 u ≡ contents s u) s w k v (λ _. refl) (λ _ _. refl)
        λ _ db old f g. contents_other s (replace_record db k old v)

  contents-remove :
      (s : MemStorage) (k : Bytes) → contents (Storage.remove s w k).0 u ≡ contents s u
  contents-remove s k =
      remove_cases (λ r. contents r.0 u ≡ contents s u) s w k (λ _. refl)
        λ db old f g. contents_other s (drop_record db k old)

abbrev pub Within : Bytes → ℕ → MemStorage → Type 0
Within u limit s = total (contents s u) ≤ limit

Within-ClosedExpiry :
    (ctx : Context) (u : Bytes) (limit : ℕ)
    → bytes_eq ttl_uuid u ≡ false
    → ClosedExpiry ctx u (Within u limit)
Within-ClosedExpiry ctx u limit other = record {
  create_ttl = λ s k v h.
      subst (λ m. total m ≤ limit) (sym (contents-create u ttl_uuid other s (expire_key ctx u k) v))
        h;
  update_ttl = λ s k v h.
      subst (λ m. total m ≤ limit) (sym (contents-update u ttl_uuid other s (expire_key ctx u k) v))
        h;
  remove_ttl = λ s k h.
      subst (λ m. total m ≤ limit) (sym (contents-remove u ttl_uuid other s (expire_key ctx u k)))
        h;
}

-- A create adds at most the size of its record.
total-create :
    (s : MemStorage) (u k v : Bytes)
    → total (contents (Storage.create s u k v).0 u) ≤ total (contents s u) + (size k + size v)
unfolding add_record
total-create s u k v =
    create_cases (λ r. total (contents r.0 u) ≤ total (contents s u) + (size k + size v)) s u k v
      (λ _. omega arith) (λ _ _. omega arith) (λ _ _ _ _. omega arith)
      λ _ _ e.
        let m = (inner_db (lookup u s.kv_store)).records in
        omega (
          arith,
          ap total (contents-set_database s u (add_record (inner_db (lookup u s.kv_store)) k v)),
          total-insert_new k v m (sym (read-inner_db s u k) ∙ e),
        )

module _ (ctx : Context) (c : Crud) (h : Header) (k v : Bytes) (expire : ℕ) (perms : Permissions)
    (valid : IsValid c.storage) (counted : total (contents c.storage h.db_uuid) < 2 ^ 32)
    (found : get_database_permissions ctx.codec c.storage h.db_uuid ≡ done (some perms))
    (policy : (perms.eviction_policy == 2) ≡ false) (limited : (perms.max_size == 0) ≡ false)
    (bounded : perms.max_size < 2 ^ 64) (short : size k + size v < 2 ^ 32)
    (not_ttl : bytes_eq ttl_uuid h.db_uuid ≡ false)
    (within : total (contents c.storage h.db_uuid) ≤ perms.max_size) where
  abbrev request : Request
  request = record { header = h; msg = Message.create k v expire }

  Room : MemStorage → Type 0
  Room s = total (contents s h.db_uuid) + (size k + size v) ≤ perms.max_size

  make_room-Room : Holds (AllSome Room) (make_room ctx c request perms)
  unfolding Room
  make_room-Room = Holds-of (AllSome Room) (make_room ctx c request perms) λ room e. go room e
    where
      go :
          (room : Option MemStorage) → make_room ctx c request perms ≡ done room → AllSome Room room
      go none e = tt
      go (some s') e =
          make_room_lem ctx c h k v expire perms valid counted found policy limited bounded short s'
            e

  store_create-Leaves :
      (session : Option ℕ)
      → Leaves
          (Within h.db_uuid perms.max_size)
          (store ctx c request session Storage.create (create_of request.msg) perms)
  unfolding store Room
  store_create-Leaves session = Leaves-attempt c _ _ within λ is_expired.
      Leaves-if is_expired _ _ (Leaves-respond c request _ _ session within) (
        Leaves-attempt_of {Q = AllSome Room} c _ _ within make_room-Room λ room hr.
          Leaves-choose_of {Q = Room} room _ _ (Leaves-respond c request _ _ session within) hr
            λ s hs.
              written-Leaves ctx c request session
                (Within-ClosedExpiry ctx h.db_uuid perms.max_size not_ttl) _
                (Storage.create s h.db_uuid k v) (omega (arith, hs, total-create s h.db_uuid k v)))

  -- In a valid state, take a database whose permissions are read, with a limit that is not zero, a
  -- policy other than VOLATILE_TTL, and records that are within the limit and below 2^32 bytes; it
  -- is not named TTL. After a request to create a record there, of less than 2^32 bytes and by any
  -- caller, the bytes of its records are still within the limit, whatever was evicted and however
  -- the request ended.
  pub handle_request-Within :
      (caller : Bytes) (session : Option ℕ)
      → Within h.db_uuid perms.max_size
          (after (
            handle_request ctx c caller
              (record { header = h; msg = Message.create k v expire })
              session)).storage
  unfolding handle_request dispatch handle_create
  handle_request-Within caller session =
      let allowed =
        Leaves-if (is_caller_a_writer ctx caller perms) _ _
          (Leaves-if (not (perms.max_size == 0) && ltb perms.max_size (size k + size v)) _ _
            (Leaves-respond c request Storage.value_too_large Body.unset session within)
            (store_create-Leaves session))
          (Leaves-respond c request Storage.access_denied Body.unset session within) in
      rw (handle_create, found) allowed.left

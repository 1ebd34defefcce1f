-- ===== src/Crud/Records.antt =====
-- The handlers of crud/crud.cpp for the records of a database: create, read, update, delete, has,
-- keys, size, and those for the expiry of a record.
use bluzelle.Base.{
  ℕ, ◌+◌, ◌-◌, Bool, true, false, not, ◌&&◌, List, [], ◌∷◌, ◌++◌, Option, ◌==◌, ltb, if◌then◌else◌,
}
use bluzelle.Bytes.{Bytes, size}
use bluzelle.Codec.{Permissions}
use bluzelle.Storage
use bluzelle.Storage.{
  MemStorage, StorageResult, ok, not_found, ttl_not_found, value_too_large, db_not_found, db_full,
  access_denied, delete_pending, invalid_argument,
}
use bluzelle.Subscriptions
use bluzelle.Policy.VolatileTtl.{ttl_uuid}
use bluzelle.Protocol.{Message, Request, Body, KeyValue, create_of, update_of}
use bluzelle.Crud.State.{Crud, Context, Result, done, ◌>>=◌, Outcome, attempt, choose, respond}
use bluzelle.Crud.Permissions.{permission_uuid, get_database_permissions, is_caller_a_writer}
use bluzelle.Crud.Expiration.{
  expire_key, update_expiration_entry, remove_expiration_entry, expired, get_ttl,
}
use bluzelle.Crud.Space.{max_database_size, make_room}

module _ (ctx : Context) (c : Crud) (request : Request) (session : Option ℕ) where
  -- Tells the subscribers, and answers.
  unfoldable pub commit : MemStorage → Outcome
  commit s =
      let (subscriptions, events) =
        Subscriptions.inspect_commit ctx.alive c.subscriptions request in
      respond (record c { storage = s; subscriptions = subscriptions; sent = c.sent ++ events })
        request ok Body.unset session

  -- The expiry, the subscribers and the answer, after the storage has been written. An exception
  -- leaves the record written.
  unfoldable pub written : KeyValue → MemStorage × StorageResult → Outcome
  written kv (s, ok) =
      attempt (record c { storage = s })
        (update_expiration_entry ctx s (expire_key ctx request.header.db_uuid kv.key) kv.expire)
        commit
  written kv (s, result) = respond (record c { storage = s }) request result Body.unset session

  -- Early answers of a handler that writes: the quota, the expiry, the room; then the write.
  unfoldable pub store :
      (MemStorage → Bytes → Bytes → Bytes → MemStorage × StorageResult)
      → KeyValue
      → Permissions
      → Outcome
  store write kv perms =
      let uuid = request.header.db_uuid in
      attempt c (expired ctx c.storage uuid kv.key) λ is_expired.
        if is_expired
        then respond c request delete_pending Body.unset session
        else attempt c (make_room ctx c request perms) λ room.
          choose room (respond c request db_full Body.unset session)
            λ s. written kv (write s uuid kv.key kv.value)

  -- The test that `handle_create` and `handle_update` both make, of the `create` message.
  abbrev pub too_large : Permissions → Bool
  too_large perms =
      let kv = create_of request.msg in
      not (max_database_size perms == 0)
      && ltb (max_database_size perms) (size kv.key + size kv.value)

  -- What a handler does for a database that exists, if the caller may write to it.
  abbrev pub for_writer : Bytes → (Permissions → Outcome) → Option Permissions → Outcome
  for_writer caller f found =
      choose found (respond c request db_not_found Body.unset session) λ perms.
        if is_caller_a_writer ctx caller perms
        then f perms
        else respond c request access_denied Body.unset session

  abbrev pub permissions : Result (Option Permissions)
  permissions = get_database_permissions ctx.codec c.storage request.header.db_uuid

  unfoldable pub handle_create : Bytes → Outcome
  handle_create caller = attempt c permissions (
      for_writer caller λ perms.
        if too_large perms
        then respond c request value_too_large Body.unset session
        else store Storage.create (create_of request.msg) perms)

  unfoldable pub handle_update : Bytes → Outcome
  handle_update caller = attempt c permissions (
      for_writer caller λ perms.
        if too_large perms
        then respond c request value_too_large Body.unset session
        else store Storage.update (update_of request.msg) perms)

  -- The body of a successful read.
  abbrev pub read_body : Bytes → Bytes → Body
  read_body key value = elim request.msg [
    | Message.read k ↦ Body.read key value
    | _ ↦ Body.quick_read key value []
  ]

  -- `request.read().key()` or `request.quick_read().key()`
  unfoldable pub handle_read : Bytes → Outcome
  handle_read key =
      let uuid = request.header.db_uuid in
      if not (Storage.has c.storage permission_uuid uuid)
      then respond c request db_not_found Body.unset session
      else attempt c (expired ctx c.storage uuid key) λ is_expired.
        if is_expired
        then respond c request delete_pending Body.unset session
        else choose (Storage.read c.storage uuid key)
            (respond c request not_found Body.unset session)
            λ value. respond c request ok (read_body key value) session

  -- After the storage has removed the record.
  unfoldable pub deleted : Bytes → MemStorage × StorageResult → Outcome
  deleted key (s, ok) =
      commit (remove_expiration_entry ctx s (expire_key ctx request.header.db_uuid key))
  deleted key (s, result) = respond (record c { storage = s }) request result Body.unset session

  unfoldable pub handle_delete : Bytes → Bytes → Outcome
  handle_delete caller key =
      attempt c permissions (
        for_writer caller
          λ perms. deleted key (Storage.remove c.storage request.header.db_uuid key))

  unfoldable pub handle_has : Bytes → Outcome
  handle_has key =
      let uuid = request.header.db_uuid in
      attempt c (expired ctx c.storage uuid key) λ is_expired.
        if is_expired
        then respond c request ok (Body.has key false) session
        else if Storage.has c.storage permission_uuid uuid
        then respond c request ok (Body.has key (Storage.has c.storage uuid key)) session
        else respond c request db_not_found (Body.has key false) session

  -- The keys that have not expired, in their order.
  unfoldable pub live_keys : Bytes → List Bytes → Result (List Bytes)
  live_keys uuid [] = done []
  live_keys uuid (k ∷ ks) = do
    is_expired ← expired ctx c.storage uuid k
    rest ← live_keys uuid ks
    done (if is_expired then rest else k ∷ rest)

  unfoldable pub handle_keys : Outcome
  handle_keys =
      let uuid = request.header.db_uuid in
      if not (Storage.has c.storage permission_uuid uuid)
      then respond c request db_not_found Body.unset session
      else attempt c (live_keys uuid (Storage.get_keys c.storage uuid))
          λ ks. respond c request ok (Body.keys ks) session

  -- The fields that are set only for a database with a limit are zero without one.
  abbrev pub size_body : Permissions → Body
  size_body perms =
      let (count, used) = Storage.get_size c.storage request.header.db_uuid in
      let limit = max_database_size perms in
      if limit == 0
      then Body.size count used 0 0
      else Body.size count used (if ltb used limit then limit - used else 0) limit

  unfoldable pub handle_size : Outcome
  handle_size = attempt c permissions λ found.
      choose found (respond c request db_not_found Body.unset session)
        λ perms. respond c request ok (size_body perms) session

  abbrev pub ttl_answer : Bytes → Option ℕ → Outcome
  ttl_answer key ttl =
      choose ttl (respond c request ttl_not_found Body.unset session)
        λ n. respond c request ok (Body.ttl key n) session

  unfoldable pub handle_ttl : Bytes → Outcome
  handle_ttl key =
      let uuid = request.header.db_uuid in
      if not (Storage.has c.storage uuid key)
      then respond c request ttl_not_found Body.unset session
      else attempt c (expired ctx c.storage uuid key) λ is_expired.
        if is_expired
        then respond c request delete_pending Body.unset session
        else attempt c (get_ttl ctx c.storage uuid key) (ttl_answer key)

  -- `expired` is asked only for a key with an entry.
  abbrev pub entry_expired : Bool → Bytes → Result Bool
  entry_expired false key = done false
  entry_expired true key = expired ctx c.storage request.header.db_uuid key

  unfoldable pub handle_persist : Bytes → Bytes → Outcome
  handle_persist caller key =
      let generated_key = expire_key ctx request.header.db_uuid key in
      let entry = Storage.has c.storage ttl_uuid generated_key in
      attempt c permissions (
        for_writer caller λ perms. attempt c (entry_expired entry key) λ is_expired.
          if is_expired
          then respond c request delete_pending Body.unset session
          else if entry
          then respond (record c { storage = remove_expiration_entry ctx c.storage generated_key })
              request ok Body.unset session
          else respond c request ttl_not_found Body.unset session)

  -- Writes the new expiry and answers.
  unfoldable pub set_expiry : MemStorage → Bytes → ℕ → Outcome
  set_expiry s generated_key expire =
      attempt (record c { storage = s }) (update_expiration_entry ctx s generated_key expire)
        λ s'. respond (record c { storage = s' }) request ok Body.unset session

  unfoldable pub handle_expire : Bytes → Bytes → ℕ → Outcome
  handle_expire caller key expire =
      let uuid = request.header.db_uuid in
      let generated_key = expire_key ctx uuid key in
      let entry = Storage.has c.storage ttl_uuid generated_key in
      attempt c permissions (
        for_writer caller λ perms. attempt c (entry_expired entry key) λ is_expired.
          if is_expired
          then respond c request delete_pending Body.unset session
          else if expire == 0
          then respond c request invalid_argument Body.unset session
          else if entry
          then set_expiry (remove_expiration_entry ctx c.storage generated_key) generated_key expire
          else if Storage.has c.storage uuid key
          then set_expiry c.storage generated_key expire
          else respond c request not_found Body.unset session)

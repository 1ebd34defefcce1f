-- ===== src/Crud/Databases.antt =====
-- The handlers of crud/crud.cpp for whole databases and their writers, and for subscriptions.
use bluzelle.Base.{ℕ, Bool, false, not, ◌&&◌, List, [], ◌∷◌, Option, some, ◌==◌, ltb, if◌then◌else◌}
use bluzelle.Bytes.{Bytes, bytes_eq, is_empty}
use bluzelle.Codec.{Permissions}
use bluzelle.Storage
use bluzelle.Storage.{
  MemStorage, StorageResult, ok, not_found, db_not_found, db_exists, db_full, access_denied,
  invalid_size,
}
use bluzelle.Subscriptions
use bluzelle.Policy.VolatileTtl.{ttl_uuid}
use bluzelle.Protocol.{Request, Body}
use bluzelle.Crud.State.{
  Crud, Context, Result, done, thrown, Outcome, finished, failed, attempt, choose, respond,
  permissions_not_updated,
}
use bluzelle.Crud.Permissions.{
  permission_uuid, get_database_permissions, create_permission_data, update_permission_data,
  is_caller_owner, add_writers, remove_writers,
}
use bluzelle.Crud.Expiration.{extract_uuid_key}
use bluzelle.Crud.Space.{operation_exceeds_available_space}

module _ (ctx : Context) where
  -- The entries of the expiry table that belong to the database are removed. An exception leaves
  -- the table as far as the loop came.
  unfoldable pub flush_keys : Bytes → List Bytes → MemStorage → MemStorage × Result Bytes
  flush_keys uuid [] s = (s, done uuid)
  flush_keys uuid (g ∷ gs) s = elim (extract_uuid_key ctx g) [
    | thrown e ↦ (s, thrown e)
    | done (db_uuid, key) ↦
        flush_keys uuid gs (if bytes_eq db_uuid uuid then (Storage.remove s ttl_uuid g).0 else s)
  ]

  unfoldable pub flush_expiration_entries : MemStorage → Bytes → MemStorage × Result Bytes
  flush_expiration_entries s uuid = flush_keys uuid (Storage.get_keys s ttl_uuid) s

module _ (ctx : Context) (c : Crud) (request : Request) (session : Option ℕ) where
  -- Whether a key is set that only its holder may use.
  abbrev pub is_locked : Bytes → Bool
  is_locked caller = not (is_empty c.owner_public_key) && not (bytes_eq c.owner_public_key caller)

  -- The answer after a write to the storage.
  abbrev pub answer : MemStorage × StorageResult → Outcome
  answer (s, result) = respond (record c { storage = s }) request result Body.unset session

  abbrev pub permissions : Result (Option Permissions)
  permissions = get_database_permissions ctx.codec c.storage request.header.db_uuid

  -- What a handler does for a database that exists, if the caller owns it.
  abbrev pub for_owner : Bytes → (Permissions → Outcome) → Option Permissions → Outcome
  for_owner caller f found =
      choose found (respond c request db_not_found Body.unset session) λ perms.
        if is_caller_owner ctx.codec caller perms
        then f perms
        else respond c request access_denied Body.unset session

  unfoldable pub handle_create_db : Bytes → ℕ → ℕ → Outcome
  handle_create_db caller max_size policy =
      let uuid = request.header.db_uuid in
      let perms = create_permission_data ctx.codec caller max_size policy in
      if is_locked caller
      then respond c request access_denied Body.unset session
      else if Storage.has c.storage permission_uuid uuid
      then respond c request db_exists Body.unset session
      else if max_size == 0 && not (c.max_swarm_storage == 0)
      then respond c request invalid_size Body.unset session
      else attempt c (operation_exceeds_available_space ctx c request perms) λ exceeds.
        if exceeds
        then respond c request db_full Body.unset session
        else answer
            (Storage.create c.storage permission_uuid uuid (ctx.codec.write_permissions perms))

  -- The space is only asked for if the limit grows.
  abbrev pub growth_exceeds : Permissions → ℕ → Result Bool
  growth_exceeds perms max_size =
      if ltb perms.max_size max_size
      then operation_exceeds_available_space ctx c request (record perms { max_size = max_size })
      else done false

  unfoldable pub handle_update_db : Bytes → ℕ → ℕ → Outcome
  handle_update_db caller max_size policy =
      let uuid = request.header.db_uuid in
      attempt c permissions (
        for_owner caller λ perms.
          if max_size == 0 && not (c.max_swarm_storage == 0)
          then respond c request invalid_size Body.unset session
          else attempt c (growth_exceeds perms max_size) λ exceeds.
            if exceeds
            then respond c request db_full Body.unset session
            else answer (
                Storage.update c.storage permission_uuid uuid
                  (ctx.codec.write_permissions (update_permission_data perms max_size policy))))

  -- The answer after the entries of the database have been flushed.
  unfoldable pub flushed : StorageResult → MemStorage × Result Bytes → Outcome
  flushed result (s, done uuid) = answer (s, result)
  flushed result (s, thrown e) = failed e (record c { storage = s })

  -- The permissions are dropped, then the records, then the entries in the expiry table.
  unfoldable pub drop_database : MemStorage × StorageResult → Outcome
  drop_database (s, result) = flushed result (
      flush_expiration_entries ctx (Storage.remove_database s request.header.db_uuid).0
        request.header.db_uuid)

  unfoldable pub handle_delete_db : Bytes → Outcome
  handle_delete_db caller = attempt c permissions λ found.
      if is_locked caller
      then respond c request access_denied Body.unset session
      else for_owner caller
          (λ perms. drop_database (Storage.remove c.storage permission_uuid request.header.db_uuid))
          found

  unfoldable pub handle_has_db : Outcome
  handle_has_db =
      let uuid = request.header.db_uuid in
      respond c request ok (Body.has_db uuid (Storage.has c.storage permission_uuid uuid)) session

  unfoldable pub handle_writers : Outcome
  handle_writers = attempt c permissions λ found.
      choose found (respond c request not_found Body.unset session)
        λ perms. respond c request ok (Body.writers perms.owner perms.writers) session

  -- Permissions that cannot be written back throw.
  abbrev pub permissions_written : MemStorage × StorageResult → Outcome
  permissions_written (s, ok) = answer (s, ok)
  permissions_written (s, result) = failed permissions_not_updated (record c { storage = s })

  abbrev pub write_back : Permissions → Outcome
  write_back perms = permissions_written (
      Storage.update c.storage permission_uuid request.header.db_uuid
        (ctx.codec.write_permissions perms))

  unfoldable pub handle_add_writers : Bytes → List Bytes → Outcome
  handle_add_writers caller ws =
      attempt c permissions (for_owner caller λ perms. write_back (add_writers ws perms))

  unfoldable pub handle_remove_writers : Bytes → List Bytes → Outcome
  handle_remove_writers caller ws =
      attempt c permissions (for_owner caller λ perms. write_back (remove_writers ws perms))

  -- The answer with what the subscription manager made of the response.
  abbrev pub subscription_answer : Option ℕ → Subscriptions.Subscriptions × Body → Outcome
  subscription_answer id (m, body) = respond (record c { subscriptions = m }) request ok body id

  -- Nothing is done for a session that is gone.
  unfoldable pub handle_subscribe : Bytes → Outcome
  handle_subscribe key = choose session (finished c) λ id.
      subscription_answer (some id)
        (Subscriptions.subscribe c.subscriptions request.header.db_uuid key request.header.nonce id)

  unfoldable pub handle_unsubscribe : Bytes → ℕ → Outcome
  handle_unsubscribe key nonce = choose session (finished c) λ id.
      subscription_answer (some id)
        (Subscriptions.unsubscribe c.subscriptions request.header.db_uuid key nonce id)

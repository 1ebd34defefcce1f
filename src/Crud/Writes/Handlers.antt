-- ===== src/Crud/Writes/Handlers.antt =====
-- The handlers of crud/crud.cpp that write to the storage.
use bluzelle.Base.{
  ℕ, ◌≡◌, refl, sym, Bool, true, false, List, [], ◌∷◌, Option, none, some, arith, if◌then◌else◌,
  ◌==◌,
}
use bluzelle.Bytes.{Bytes, bytes_eq}
use bluzelle.Bytes.Order.{bytes_eq_iff}
use bluzelle.Codec.{Permissions}
use bluzelle.Storage
use bluzelle.Storage.{
  MemStorage, StorageResult, ok, access_denied, db_not_found, not_found, delete_pending,
  invalid_argument,
}
use bluzelle.Policy.VolatileTtl.{ttl_uuid}
use bluzelle.Protocol.{Request, Body, create_of, update_of}
use bluzelle.Crud.State.{Crud, Context, Result, done, thrown, respond}
use bluzelle.Crud.Permissions.{permission_uuid, get_database_permissions}
use bluzelle.Crud.Expiration.{expire_key, update_expiration_entry, extract_uuid_key}
use bluzelle.Crud.Records.{
  handle_create, handle_update, handle_delete, handle_persist, handle_expire,
}
use bluzelle.Crud.Databases.{
  flush_keys, flush_expiration_entries, handle_create_db, handle_update_db, handle_delete_db,
  handle_add_writers, handle_remove_writers,
}
use bluzelle.Crud.Writes.Rules.{
  expiry_of, Closed, Leaves, Leaves-respond, Leaves-failed, Leaves-if, Leaves-attempt,
  Leaves-choose, leaves, Leaves-attempt_of,
}
use bluzelle.Crud.Writes.Writers.{remove_entry, update_entry, store-Leaves, deleted-Leaves}
use bluzelle.Crud.Records.{set_expiry, entry_expired}
use bluzelle.Crud.Permissions.{is_caller_a_writer, is_caller_owner}
use bluzelle.Crud.Databases.{
  is_locked, for_owner, answer, permissions_written, write_back, flushed, drop_database,
}

parse-extract :
    (ctx : Context) (g u k : Bytes)
    → extract_uuid_key ctx g ≡ done (u, k)
    → ctx.codec.parse_expire_key g ≡ some (u, k)
unfolding extract_uuid_key
parse-extract ctx g u k f = ground arith

module _ {P : MemStorage → Type 0} (ctx : Context) (c : Crud) (request : Request)
    (session : Option ℕ) (closed : Closed ctx request.header.db_uuid P) where
  pub create_Leaves :
      (caller : Bytes) → P c.storage → Leaves P (handle_create ctx c request session caller)
  unfolding handle_create
  create_Leaves caller h =
      search
        (
          leaves,
          λ (perms : Permissions).
              store-Leaves ctx c request session closed Storage.create (create_of request.msg) perms
                closed.create h,
        )
        depth 9

  pub update_Leaves :
      (caller : Bytes) → P c.storage → Leaves P (handle_update ctx c request session caller)
  unfolding handle_update
  update_Leaves caller h =
      search
        (
          leaves,
          λ (perms : Permissions).
              store-Leaves ctx c request session closed Storage.update (update_of request.msg) perms
                closed.update h,
        )
        depth 9

  pub delete_Leaves :
      (caller key : Bytes) → P c.storage → Leaves P (handle_delete ctx c request session caller key)
  unfolding handle_delete
  delete_Leaves caller key h =
      search
        (
          leaves,
          deleted-Leaves ctx c request session (expiry_of closed) key,
          closed.remove c.storage key h,
        )
        depth 9

  pub persist_Leaves :
      (caller key : Bytes)
      → P c.storage
      → Leaves P (handle_persist ctx c request session caller key)
  unfolding handle_persist
  persist_Leaves caller key h =
      search (leaves, remove_entry ctx c request session (expiry_of closed) c.storage key h) depth 9

  pub set_expiry-Leaves :
      (s : MemStorage) (key : Bytes) (e : ℕ)
      → P s
      → Leaves P (set_expiry ctx c request session s (expire_key ctx request.header.db_uuid key) e)
  unfolding set_expiry
  set_expiry-Leaves s key e h =
      Leaves-attempt_of {P = P} {A = MemStorage} {Q = P} (record c { storage = s })
        (update_expiration_entry ctx s (expire_key ctx request.header.db_uuid key) e)
        (λ s'. respond (record c { storage = s' }) request ok Body.unset session) h
        (update_entry ctx c request session (expiry_of closed) s key e h)
        λ s' h'. Leaves-respond (record c { storage = s' }) request ok Body.unset session h'

  pub expire_Leaves :
      (caller key : Bytes) (e : ℕ)
      → P c.storage
      → Leaves P (handle_expire ctx c request session caller key e)
  unfolding handle_expire
  expire_Leaves caller key e h =
      Leaves-attempt {P = P} c (get_database_permissions ctx.codec c.storage request.header.db_uuid)
        _ h
        λ found.
          Leaves-choose found (respond c request db_not_found Body.unset session) _
            (Leaves-respond c request db_not_found Body.unset session h)
            λ perms.
              Leaves-if (is_caller_a_writer ctx caller perms) _ _
                (Leaves-attempt {P = P} c
                  (entry_expired ctx c request session
                    (Storage.has c.storage ttl_uuid (expire_key ctx request.header.db_uuid key))
                    key)
                  _ h
                  λ is_expired.
                    Leaves-if is_expired _ _
                      (Leaves-respond c request delete_pending Body.unset session h)
                      (Leaves-if (e == 0) _ _
                        (Leaves-respond c request invalid_argument Body.unset session h)
                        (Leaves-if
                          (Storage.has c.storage ttl_uuid
                            (expire_key ctx request.header.db_uuid key))
                          _ _
                          (set_expiry-Leaves _ key e
                            (remove_entry ctx c request session (expiry_of closed) c.storage key h))
                          (Leaves-if (Storage.has c.storage request.header.db_uuid key) _ _
                            (set_expiry-Leaves c.storage key e h)
                            (Leaves-respond c request not_found Body.unset session h)))))
                (Leaves-respond c request access_denied Body.unset session h)

  pub answer-Leaves :
      (w : MemStorage × StorageResult) → P w.0 → Leaves P (answer ctx c request session w)
  answer-Leaves (s, r) h = Leaves-respond _ request r Body.unset session h

  pub permissions_written-Leaves :
      (w : MemStorage × StorageResult)
      → P w.0
      → Leaves P (permissions_written ctx c request session w)
  permissions_written-Leaves (s, ok) h = Leaves-respond _ request ok Body.unset session h
  permissions_written-Leaves (s, _) h = Leaves-failed _ _ h

  pub write_back-Leaves :
      (perms : Permissions) → P c.storage → Leaves P (write_back ctx c request session perms)
  write_back-Leaves perms h = permissions_written-Leaves _ (closed.update_permissions c.storage _ h)

  pub add_writers_Leaves :
      (caller : Bytes) (ws : List Bytes)
      → P c.storage
      → Leaves P (handle_add_writers ctx c request session caller ws)
  unfolding handle_add_writers
  add_writers_Leaves caller ws h =
      search (leaves, λ (perms : Permissions). write_back-Leaves perms h) depth 9

  pub remove_writers_Leaves :
      (caller : Bytes) (ws : List Bytes)
      → P c.storage
      → Leaves P (handle_remove_writers ctx c request session caller ws)
  unfolding handle_remove_writers
  remove_writers_Leaves caller ws h =
      search (leaves, λ (perms : Permissions). write_back-Leaves perms h) depth 9

  pub create_db_Leaves :
      (caller : Bytes) (n p : ℕ)
      → P c.storage
      → Leaves P (handle_create_db ctx c request session caller n p)
  unfolding handle_create_db
  create_db_Leaves caller n p h =
      search
        (
          leaves,
          λ (x : Bytes).
              answer-Leaves (Storage.create c.storage permission_uuid request.header.db_uuid x)
                (closed.create_permissions c.storage x h),
        )
        depth 9

  pub update_db_Leaves :
      (caller : Bytes) (n p : ℕ)
      → P c.storage
      → Leaves P (handle_update_db ctx c request session caller n p)
  unfolding handle_update_db
  update_db_Leaves caller n p h =
      search
        (
          leaves,
          λ (x : Bytes).
              answer-Leaves (Storage.update c.storage permission_uuid request.header.db_uuid x)
                (closed.update_permissions c.storage x h),
        )
        depth 9

  flush_keys_keep :
      (gs : List Bytes) (s : MemStorage) → P s → P (flush_keys ctx request.header.db_uuid gs s).0
  unfolding flush_keys
  flush_keys_keep [] s h = h
  flush_keys_keep (g ∷ gs) s h = go (flush_keys_keep gs) (extract_uuid_key ctx g) refl
    where
      removed :
          (b : Bool) (u k : Bytes)
          → b ≡ bytes_eq u request.header.db_uuid
          → extract_uuid_key ctx g ≡ done (u, k)
          → P (if b then (Storage.remove s ttl_uuid g).0 else s)
      removed true u k e f =
          closed.flush_ttl s g k
            (rw (← (bytes_eq_iff u request.header.db_uuid).0 (sym e)) (parse-extract ctx g u k f)) h
      removed false u k e f = h

      go :
          ((t : MemStorage) → P t → P (flush_keys ctx request.header.db_uuid gs t).0)
          → (r : Result (Bytes × Bytes)) → extract_uuid_key ctx g ≡ r
          → P
              (elim r as (λ _. MemStorage × Result Bytes) [
                | thrown e ↦ (s, thrown e)
                | done x ↦ flush_keys ctx request.header.db_uuid gs (
                    if bytes_eq x.0 request.header.db_uuid
                    then (Storage.remove s ttl_uuid g).0
                    else s)
              ]).0
      go keep (thrown e) f = h
      go keep (done (u, k)) f = keep _ (removed (bytes_eq u request.header.db_uuid) u k refl f)

  pub flushed-Leaves :
      (result : StorageResult) (w : MemStorage × Result Bytes)
      → P w.0
      → Leaves P (flushed ctx c request session result w)
  unfolding flushed
  flushed-Leaves result (s, done u) h = Leaves-respond _ request result Body.unset session h
  flushed-Leaves result (s, thrown e) h = Leaves-failed e _ h

  pub drop_database-Leaves :
      (w : MemStorage × StorageResult) → P w.0 → Leaves P (drop_database ctx c request session w)
  unfolding flush_expiration_entries drop_database
  drop_database-Leaves (s, r) h = flushed-Leaves r _ (flush_keys_keep _ _ (closed.drop s h))

  pub delete_db_Leaves :
      (caller : Bytes) → P c.storage → Leaves P (handle_delete_db ctx c request session caller)
  unfolding handle_delete_db
  delete_db_Leaves caller h =
      Leaves-attempt {P = P} c (get_database_permissions ctx.codec c.storage request.header.db_uuid)
        _ h
        λ found.
          Leaves-if (is_locked ctx c request session caller) _ _
            (Leaves-respond c request access_denied Body.unset session h) (owned found)
    where
      owned :
          (found : Option Permissions)
          → Leaves P (
              for_owner ctx c request session caller
                (λ perms.
                  drop_database ctx c request session
                    (Storage.remove c.storage permission_uuid request.header.db_uuid))
                found)
      owned none = Leaves-respond c request db_not_found Body.unset session h
      owned (some perms) =
          Leaves-if (is_caller_owner ctx.codec caller perms) _ _
            (drop_database-Leaves (Storage.remove c.storage permission_uuid request.header.db_uuid)
              (closed.remove_permissions c.storage h))
            (Leaves-respond c request access_denied Body.unset session h)

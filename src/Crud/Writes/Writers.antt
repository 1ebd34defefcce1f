-- ===== src/Crud/Writes/Writers.antt =====
-- The parts of the handlers of crud/crud.cpp that write records and their expiry.
use bluzelle.Base.{ℕ, List, [], ◌∷◌, Option, ◌==◌}
use bluzelle.Bytes.{Bytes}
use bluzelle.Codec.{Permissions}
use bluzelle.Storage.{MemStorage, StorageResult, ok}
use bluzelle.Protocol.{Request, Body, KeyValue}
use bluzelle.Crud.State.{Crud, Context}
use bluzelle.Crud.Permissions.{get_database_permissions}
use bluzelle.Crud.Expiration.{
  expire_key, update_expiration_entry, remove_expiration_entry, created, updated,
}
use bluzelle.Crud.Space.{
  make_room, do_eviction, remove_all, evicted, operation_exceeds_available_space, policy_keys,
  policy_of, max_database_size,
}
use bluzelle.Crud.Records.{commit, written, store, deleted}
use bluzelle.Crud.Writes.Rules.{
  Closed, ClosedExpiry, expiry_of, Leaves, Leaves-respond, Leaves-if, Leaves-attempt, Holds,
  AllSome, Holds-if, Holds-bind, Leaves-attempt_of, Leaves-choose_of,
}

module _ {P : MemStorage → Type 0} (ctx : Context) (c : Crud) (request : Request)
    (session : Option ℕ) (entries : ClosedExpiry ctx request.header.db_uuid P) where
  pub remove_entry :
      (s : MemStorage) (k : Bytes)
      → P s
      → P (remove_expiration_entry ctx s (expire_key ctx request.header.db_uuid k))
  unfolding remove_expiration_entry
  remove_entry s k h = entries.remove_ttl s k h

  pub created-Holds :
      (s : MemStorage) (k x : Bytes) (w : MemStorage × StorageResult)
      → P w.0
      → Holds P (created ctx s (expire_key ctx request.header.db_uuid k) x w)
  created-Holds s k x (s', ok) h = h
  created-Holds s k x (s', _) h = updated_Holds _ (entries.update_ttl s' k x h)
    where
      updated_Holds : (w : MemStorage × StorageResult) → P w.0 → Holds P (updated ctx w)
      updated_Holds (t, ok) h = h
      updated_Holds (t, _) h = tt

  pub update_entry :
      (s : MemStorage) (k : Bytes) (e : ℕ)
      → P s
      → Holds P (update_expiration_entry ctx s (expire_key ctx request.header.db_uuid k) e)
  unfolding update_expiration_entry
  update_entry s k e h =
      Holds-if P (e == 0) _ _ (remove_entry s k h)
        (created-Holds s k _ _ (entries.create_ttl s k _ h))

  pub commit-Leaves : (s : MemStorage) → P s → Leaves P (commit ctx c request session s)
  unfolding commit
  commit-Leaves s h = Leaves-respond _ request ok Body.unset session h

  -- The next two are about parts of handlers that match on the result of a write.
  pub written-Leaves :
      (kv : KeyValue) (w : MemStorage × StorageResult)
      → P w.0
      → Leaves P (written ctx c request session kv w)
  unfolding written
  written-Leaves kv (s, ok) h =
      Leaves-attempt_of (record c { storage = s }) _ _ h (update_entry s kv.key kv.expire h)
        (λ s' h'. commit-Leaves s' h')
  written-Leaves kv (s, _) h = Leaves-respond _ request _ Body.unset session h

  pub deleted-Leaves :
      (key : Bytes) (w : MemStorage × StorageResult)
      → P w.0
      → Leaves P (deleted ctx c request session key w)
  unfolding deleted
  deleted-Leaves key (s, ok) h = commit-Leaves _ (remove_entry s key h)
  deleted-Leaves key (s, _) h = Leaves-respond _ request _ Body.unset session h

module _ {P : MemStorage → Type 0} (ctx : Context) (c : Crud) (request : Request)
    (session : Option ℕ) (closed : Closed ctx request.header.db_uuid P) where
  remove_all_keeps :
      (ks : List Bytes) (s : MemStorage) → P s → P (remove_all ctx s request.header.db_uuid ks)
  unfolding remove_all
  remove_all_keeps [] s h = h
  remove_all_keeps (k ∷ ks) s h = remove_all_keeps ks _ (closed.remove s k h)

  evicted_Some : (ks : List Bytes) (s : MemStorage) → P s → AllSome P (evicted ctx s request ks)
  unfolding evicted
  evicted_Some [] s h = tt
  evicted_Some (k ∷ ks) s h = remove_all_keeps (k ∷ ks) s h

  pub make_room-Holds :
      (perms : Permissions) → P c.storage → Holds (AllSome P) (make_room ctx c request perms)
  unfolding make_room do_eviction
  make_room-Holds perms h =
      Holds-bind (AllSome P) (operation_exceeds_available_space ctx c request perms) _ λ exceeds.
        Holds-if (AllSome P) exceeds _ _
          (Holds-bind (AllSome P)
            (get_database_permissions ctx.codec c.storage request.header.db_uuid) _
            λ found.
              Holds-bind (AllSome P)
                (policy_keys ctx c.storage request (policy_of ctx found) (max_database_size perms))
                _ λ ks. evicted_Some ks c.storage h)
          h

  pub store-Leaves :
      (write : MemStorage → Bytes → Bytes → Bytes → MemStorage × StorageResult) (kv : KeyValue)
      (perms : Permissions)
      → ((s : MemStorage) (k v : Bytes) → P s → P (write s request.header.db_uuid k v).0)
      → P c.storage
      → Leaves P (store ctx c request session write kv perms)
  unfolding store
  store-Leaves write kv perms w h = Leaves-attempt c _ _ h λ is_expired.
      Leaves-if is_expired _ _ (Leaves-respond c request _ _ session h) (
        Leaves-attempt_of c _ _ h (make_room-Holds perms h) λ room hr.
          Leaves-choose_of room _ _ (Leaves-respond c request _ _ session h) hr λ s hs.
            written-Leaves ctx c request session (expiry_of closed) kv _ (w s kv.key kv.value hs))

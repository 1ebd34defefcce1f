-- ===== src/Crud/Access.antt =====
-- Who may do what: the answers to callers without the right, and to requests for a database that
-- does not exist.
use bluzelle.Base.{
  ℕ, ◌≡◌, refl, Bool, true, false, not, ◌&&◌, ◌||◌, Option, none, some, arith, Bool-cases, inl, inr,
}
use bluzelle.Bytes.{Bytes}
use bluzelle.Codec.{Permissions}
use bluzelle.Storage
use bluzelle.Storage.{MemStorage, StorageResult, access_denied, db_not_found, db_exists}
use bluzelle.Protocol.{Message, Request, Body}
use bluzelle.Crud.State.{Crud, Context, Result, done, Outcome, finished, after, send_response}
use bluzelle.Crud.Permissions.{
  permission_uuid, get_database_permissions, is_caller_owner, is_caller_a_writer,
}
use bluzelle.Crud.Records.{
  handle_create, handle_update, handle_delete, handle_persist, handle_expire,
}
use bluzelle.Crud.Databases.{
  is_locked, handle_create_db, handle_update_db, handle_delete_db, handle_add_writers,
  handle_remove_writers,
}
use bluzelle.Crud.Requests.{dispatch, handle_request}
use bluzelle.Crud.Writes.Rules.{Leaves, Leaves-if, Leaves-respond}
use bluzelle.Crud.Writes.Readers.{
  read_Leaves, has_Leaves, keys_Leaves, size_Leaves, ttl_Leaves, has_db_Leaves, writers_Leaves,
  subscribe_Leaves, unsubscribe_Leaves,
}

-- The requests that change records, and those that change a database as a whole.
abbrev pub needs_writer : Message → Bool
needs_writer (Message.create k v e) = true
needs_writer (Message.update k v e) = true
needs_writer (Message.delete k) = true
needs_writer (Message.persist k) = true
needs_writer (Message.expire k e) = true
needs_writer _ = false

abbrev pub needs_owner : Message → Bool
needs_owner Message.delete_db = true
needs_owner (Message.update_db n p) = true
needs_owner (Message.add_writers ws) = true
needs_owner (Message.remove_writers ws) = true
needs_owner _ = false

writer_not_owner : (m : Message) → needs_writer m ≡ true → needs_owner m ≡ false
writer_not_owner (Message.create k v e) h = refl
writer_not_owner (Message.update k v e) h = refl
writer_not_owner (Message.delete k) h = refl
writer_not_owner (Message.persist k) h = refl
writer_not_owner (Message.expire k e) h = refl
writer_not_owner _ h = cc

not_found_some : {A : Type 0} {a : A} → ◌≡◌ {A = Result (Option A)} (done none) (done (some a)) → ⊥
not_found_some e = cc

-- The answer to a request for a database that does not exist, by whether the caller is locked out.
abbrev pub refusal : Message → Bool → StorageResult
refusal Message.delete_db true = access_denied
refusal _ _ = db_not_found

module _ (ctx : Context) (c : Crud) (caller : Bytes) (r : Request) (session : Option ℕ) where
  -- The outcome is one answer, with that code and no change but the sending.
  abbrev pub OnlyAnswers : StorageResult → Outcome → Type 0
  OnlyAnswers code o = o ≡ finished (send_response c r code Body.unset session)

  abbrev pub Finds : Option Permissions → Type 0
  Finds found = get_database_permissions ctx.codec c.storage r.header.db_uuid ≡ done found

  denied_writer :
      (perms : Permissions) (m : Message)
      → Finds (some perms)
      → is_caller_a_writer ctx caller perms ≡ false
      → needs_writer m ≡ true
      → OnlyAnswers access_denied (dispatch ctx c r session caller m)
  unfolding dispatch handle_create handle_update handle_delete handle_persist handle_expire
  denied_writer perms (Message.create k v e) f w n = rw (handle_create, f, w)
  denied_writer perms (Message.update k v e) f w n = rw (handle_update, f, w)
  denied_writer perms (Message.delete k) f w n = rw (handle_delete, f, w)
  denied_writer perms (Message.persist k) f w n = rw (handle_persist, f, w)
  denied_writer perms (Message.expire k e) f w n = rw (handle_expire, f, w)
  denied_writer perms _ f w n = cc

  denied_owner :
      (perms : Permissions) (m : Message)
      → Finds (some perms)
      → is_caller_owner ctx.codec caller perms ≡ false
      → needs_owner m ≡ true
      → OnlyAnswers access_denied (dispatch ctx c r session caller m)
  unfolding dispatch handle_update_db handle_delete_db handle_add_writers handle_remove_writers
  denied_owner perms Message.delete_db f w n =
      elim (Bool-cases (is_locked ctx c r session caller)) [
        | inl e ↦ rw (handle_delete_db, f, e)
        | inr e ↦ rw (handle_delete_db, f, e, w)
      ]
  denied_owner perms (Message.update_db k p) f w n = rw (handle_update_db, f, w)
  denied_owner perms (Message.add_writers ws) f w n = rw (handle_add_writers, f, w)
  denied_owner perms (Message.remove_writers ws) f w n = rw (handle_remove_writers, f, w)
  denied_owner perms _ f w n = cc

  missing_database :
      (m : Message)
      → Finds none
      → needs_writer m || needs_owner m ≡ true
      → OnlyAnswers
          (refusal m (is_locked ctx c r session caller))
          (dispatch ctx c r session caller m)
  unfolding dispatch handle_create handle_update handle_delete handle_persist handle_expire
      handle_update_db handle_delete_db handle_add_writers handle_remove_writers
  missing_database (Message.create k v e) f n = rw (handle_create, f)
  missing_database (Message.update k v e) f n = rw (handle_update, f)
  missing_database (Message.delete k) f n = rw (handle_delete, f)
  missing_database (Message.persist k) f n = rw (handle_persist, f)
  missing_database (Message.expire k e) f n = rw (handle_expire, f)
  missing_database Message.delete_db f n = elim (Bool-cases (is_locked ctx c r session caller)) [
    | inl e ↦ rw (handle_delete_db, f, e)
    | inr e ↦ rw (handle_delete_db, f, e)
  ]
  missing_database (Message.update_db k p) f n = rw (handle_update_db, f)
  missing_database (Message.add_writers ws) f n = rw (handle_add_writers, f)
  missing_database (Message.remove_writers ws) f n = rw (handle_remove_writers, f)
  missing_database _ f n = cc

  abbrev pub lacks_right : Message → Permissions → Bool
  lacks_right m perms =
      (needs_writer m && not (is_caller_a_writer ctx caller perms))
      || (needs_owner m && not (is_caller_owner ctx.codec caller perms))

  -- For a database whose permissions are read, a caller who lacks the right that the request needs
  -- (to write, for a request that changes records; to own it, for one that changes the database or
  -- its writers) gets the one answer ACCESS_DENIED; the storage, the subscriptions and all else are
  -- as before.
  pub handle_request-denied :
      (perms : Permissions)
      → Finds (some perms)
      → lacks_right r.msg perms ≡ true
      → OnlyAnswers access_denied (handle_request ctx c caller r session)
  unfolding handle_request
  handle_request-denied perms f l = go (needs_writer r.msg) refl
    where
      go :
          (b : Bool)
          → needs_writer r.msg ≡ b
          → OnlyAnswers access_denied (dispatch ctx c r session caller r.msg)
      go true e = denied_writer perms r.msg f (ground (arith, writer_not_owner r.msg)) e
      go false e = denied_owner perms r.msg f (ground arith) (ground arith)

  -- A request that changes records, a database or its writers, for a database that does not exist,
  -- gets one answer: ACCESS_DENIED if it is to delete the database and the owner's key of the node
  -- locks the caller out, and DATABASE_NOT_FOUND otherwise; the storage, the subscriptions and all
  -- else are as before.
  pub handle_request-missing :
      Finds none
      → needs_writer r.msg || needs_owner r.msg ≡ true
      → OnlyAnswers
          (refusal r.msg (is_locked ctx c r session caller))
          (handle_request ctx c caller r session)
  unfolding handle_request
  handle_request-missing = missing_database r.msg

  has_of_found :
      (perms : Permissions)
      → Finds (some perms)
      → Storage.has c.storage permission_uuid r.header.db_uuid ≡ true
  unfolding get_database_permissions
  has_of_found perms f =
      elim (Bool-cases (Storage.has c.storage permission_uuid r.header.db_uuid)) [
        | inl e ↦ e
        | inr e ↦ absurd (not_found_some (rw (get_database_permissions, e) at f))
      ]

  Same : MemStorage → Type 0
  Same s = s ≡ c.storage

  kept_by_denied : (m : Message) (o : Outcome) → OnlyAnswers access_denied o → Leaves Same o
  unfolding Same send_response
  kept_by_denied m o e = rw e (record { left = refl })

  dispatch-Same :
      (perms : Permissions) (m : Message)
      → Finds (some perms)
      → is_caller_a_writer ctx caller perms ≡ false
      → is_caller_owner ctx.codec caller perms ≡ false
      → Leaves Same (dispatch ctx c r session caller m)
  unfolding Same dispatch send_response handle_create_db
  dispatch-Same perms (Message.read k) f w o = read_Leaves ctx c r session k refl
  dispatch-Same perms (Message.quick_read k) f w o = read_Leaves ctx c r session k refl
  dispatch-Same perms (Message.has k) f w o = has_Leaves ctx c r session k refl
  dispatch-Same perms (Message.ttl k) f w o = ttl_Leaves ctx c r session k refl
  dispatch-Same perms (Message.subscribe k) f w o = subscribe_Leaves ctx c r session k refl
  dispatch-Same perms (Message.unsubscribe k n) f w o = unsubscribe_Leaves ctx c r session k n refl
  dispatch-Same perms Message.keys f w o = keys_Leaves ctx c r session refl
  dispatch-Same perms Message.size f w o = size_Leaves ctx c r session refl
  dispatch-Same perms Message.has_db f w o = has_db_Leaves ctx c r session refl
  dispatch-Same perms Message.writers f w o = writers_Leaves ctx c r session refl
  dispatch-Same perms Message.nullmsg f w o = record { left = refl }
  dispatch-Same perms (Message.create_db n p) f w o =
      rw (handle_create_db, has_of_found perms f)
        (Leaves-if (is_locked ctx c r session caller) _ _
          (Leaves-respond c r access_denied Body.unset session refl)
          (Leaves-respond c r db_exists Body.unset session refl))
  dispatch-Same perms (Message.create k v e) f w o =
      kept_by_denied (Message.create k v e) _ (denied_writer perms (Message.create k v e) f w refl)
  dispatch-Same perms (Message.update k v e) f w o =
      kept_by_denied (Message.update k v e) _ (denied_writer perms (Message.update k v e) f w refl)
  dispatch-Same perms (Message.delete k) f w o =
      kept_by_denied (Message.delete k) _ (denied_writer perms (Message.delete k) f w refl)
  dispatch-Same perms (Message.persist k) f w o =
      kept_by_denied (Message.persist k) _ (denied_writer perms (Message.persist k) f w refl)
  dispatch-Same perms (Message.expire k e) f w o =
      kept_by_denied (Message.expire k e) _ (denied_writer perms (Message.expire k e) f w refl)
  dispatch-Same perms Message.delete_db f w o =
      kept_by_denied Message.delete_db _ (denied_owner perms Message.delete_db f o refl)
  dispatch-Same perms (Message.update_db n p) f w o =
      kept_by_denied (Message.update_db n p) _ (denied_owner perms (Message.update_db n p) f o refl)
  dispatch-Same perms (Message.add_writers ws) f w o =
      kept_by_denied (Message.add_writers ws) _
        (denied_owner perms (Message.add_writers ws) f o refl)
  dispatch-Same perms (Message.remove_writers ws) f w o =
      kept_by_denied (Message.remove_writers ws) _
        (denied_owner perms (Message.remove_writers ws) f o refl)

  -- For a database whose permissions are read, a request of any kind by a caller who is neither its
  -- owner nor a writer nor a peer leaves the storage as it was.
  pub handle_request_outsider :
      (perms : Permissions)
      → Finds (some perms)
      → is_caller_a_writer ctx caller perms ≡ false
      → (after (handle_request ctx c caller r session)).storage ≡ c.storage
  unfolding handle_request Same is_caller_a_writer
  handle_request_outsider perms f w = (dispatch-Same perms r.msg f w (ground arith)).left

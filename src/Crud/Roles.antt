-- ===== src/Crud/Roles.antt =====
-- The owner and the writers of a database: what adding and removing writers does to who may write.
use bluzelle.Base.{
  Bool, ℕ, ◌≡◌, refl, sym, ◌∙◌, ap, true, false, not, ◌&&◌, ◌||◌, List, [], ◌∷◌, Option, none, some,
  arith, ltb, Option-cases, inl, inr,
}
use bluzelle.Bytes.{Bytes, bytes_eq, size}
use bluzelle.Bytes.Order.{bytes_eq_iff}
use bluzelle.Codec.{Codec, Permissions, IsFaithful}
use bluzelle.Storage
use bluzelle.Storage.{MemStorage, StorageResult, ok, read, max_value_size}
use bluzelle.Storage.Lookup.{has-read, read-update_self, update_result}
use bluzelle.Sets
use bluzelle.Sets.Laws.{member-insert_all, member-erase_all}
use bluzelle.Protocol.{Request, Message}
use bluzelle.Crud.State.{Crud, Context, Result, done, after, send_response}
use bluzelle.Crud.Permissions.{
  permission_uuid, parsed, get_database_permissions, is_caller_owner, without_owner, add_writers,
  remove_writers,
}
use bluzelle.Crud.Databases.{
  handle_add_writers, handle_remove_writers, write_back, permissions_written,
}
use bluzelle.Crud.Requests.{dispatch, handle_request}

member-without_owner :
    (w owner : Bytes) (ws : List Bytes)
    → Sets.member w (without_owner owner ws) ≡ Sets.member w ws && not (bytes_eq w owner)
unfolding Sets.member without_owner
member-without_owner w owner [] = refl
member-without_owner w owner (x ∷ ws) = ground (
  arith,
  member-without_owner w owner ws,
  bytes_eq_iff x w,
  bytes_eq_iff x owner,
  bytes_eq_iff w owner,
)

member_copy :
    (w : Bytes) (ws : List Bytes) → Sets.member w (Sets.insert_all ws []) ≡ Sets.member w ws
unfolding Sets.member
member_copy w ws = ground (arith, member-insert_all w ws [])

-- After `add_writers` the writers are those before, and the named ones other than the owner.
pub member-add_writers :
    (w : Bytes) (ws : List Bytes) (perms : Permissions)
    → Sets.member w (add_writers ws perms).writers
      ≡ (Sets.member w ws && not (bytes_eq w perms.owner)) || Sets.member w perms.writers
unfolding add_writers
member-add_writers w ws perms = ground (
  arith,
  member-insert_all w (without_owner perms.owner ws) (Sets.insert_all perms.writers []),
  member-without_owner w perms.owner ws,
  member_copy w perms.writers,
)

-- After `remove_writers` the writers are those before other than the named ones.
pub member-remove_writers :
    (w : Bytes) (ws : List Bytes) (perms : Permissions)
    → Sets.member w (remove_writers ws perms).writers
      ≡ not (Sets.member w ws) && Sets.member w perms.writers
unfolding remove_writers
member-remove_writers w ws perms =
    ground
      (arith, member-erase_all w ws (Sets.insert_all perms.writers []), member_copy w perms.writers)

-- The permissions of a database, from what the permission table holds for it.
done-none-some : {A : Type 0} {a : A} → ◌≡◌ {A = Result (Option A)} (done none) (done (some a)) → ⊥
done-none-some e = cc

abbrev pub found_in : Codec → Option Bytes → Result (Option Permissions)
found_in codec none = done none
found_in codec (some text) = parsed (codec.parse_permissions text)

pub get_database_permissions-read :
    (codec : Codec) (s : MemStorage) (u : Bytes)
    → get_database_permissions codec s u ≡ found_in codec (read s permission_uuid u)
unfolding get_database_permissions
get_database_permissions-read codec s u = elim (Option-cases (read s permission_uuid u)) [
  | inl e ↦ rw (get_database_permissions, has-read, e)
  | inr (text, e) ↦ rw (get_database_permissions, has-read, e)
]

-- The permissions of a database that exists are replaced, if their text is not too long.
pub found_after_update :
    (codec : Codec) (s : MemStorage) (u : Bytes) (perms new : Permissions)
    → IsFaithful codec
    → get_database_permissions codec s u ≡ done (some perms)
    → ltb max_value_size (size (codec.write_permissions new)) ≡ false
    → ((Storage.update s permission_uuid u (codec.write_permissions new)).1 ≡ ok)
      × (get_database_permissions codec
            (Storage.update s permission_uuid u (codec.write_permissions new)).0
            u
          ≡ done (some new))
found_after_update codec s u perms new faithful f fits = (accepted, found)
  where
    write : MemStorage × StorageResult
    write = Storage.update s permission_uuid u (codec.write_permissions new)

    accepted : write.1 ≡ ok
    accepted = elim (Option-cases (read s permission_uuid u)) [
      | inl e ↦ absurd (done-none-some (sym (get_database_permissions-read codec s u ∙ rw e) ∙ f))
      | inr (text, e) ↦
          update_result s permission_uuid u (codec.write_permissions new) ∙ rw (fits, e)
    ]

    found : get_database_permissions codec write.0 u ≡ done (some new)
    found =
        get_database_permissions-read codec write.0 u
        ∙ rw (
          read-update_self s permission_uuid u (codec.write_permissions new) accepted,
          faithful.permissions,
        )

-- Adding or removing writers, by the owner.
pub data WriterChange : Type 0 where
  adds removes : List Bytes → WriterChange

abbrev pub message_of : WriterChange → Message
message_of (adds ws) = Message.add_writers ws
message_of (removes ws) = Message.remove_writers ws

abbrev pub changed : WriterChange → Permissions → Permissions
changed (adds ws) perms = add_writers ws perms
changed (removes ws) perms = remove_writers ws perms

-- Who is a writer after the change.
abbrev pub is_writer_after : Bytes → WriterChange → Permissions → Bool
is_writer_after w (adds ws) perms =
    (Sets.member w ws && not (bytes_eq w perms.owner)) || Sets.member w perms.writers
is_writer_after w (removes ws) perms = not (Sets.member w ws) && Sets.member w perms.writers

-- After writers were added, the writers are those before and the named ones other than the owner;
-- after writers were removed, they are those before other than the named ones.
pub member-changed :
    (w : Bytes) (change : WriterChange) (perms : Permissions)
    → Sets.member w (changed change perms).writers ≡ is_writer_after w change perms
member-changed w (adds ws) perms = member-add_writers w ws perms
member-changed w (removes ws) perms = member-remove_writers w ws perms

storage_written :
    (ctx : Context) (c : Crud) (r : Request) (session : Option ℕ) (w : MemStorage × StorageResult)
    → w.1 ≡ ok
    → (after (permissions_written ctx c r session w)).storage ≡ w.0
unfolding send_response
storage_written ctx c r session (s, ok) e = refl
storage_written ctx c r session (s, _) e = cc

module _ (ctx : Context) (c : Crud) (caller : Bytes) (r : Request) (session : Option ℕ)
    (perms : Permissions)
    (found : get_database_permissions ctx.codec c.storage r.header.db_uuid ≡ done (some perms))
    (owner : is_caller_owner ctx.codec caller perms ≡ true) where
  change_writes :
      (change : WriterChange)
      → dispatch ctx c r session caller (message_of change)
        ≡ write_back ctx c r session (changed change perms)
  unfolding dispatch handle_add_writers handle_remove_writers
  change_writes (adds ws) = rw (handle_add_writers, found, owner)
  change_writes (removes ws) = rw (handle_remove_writers, found, owner)

  requested :
      (change : WriterChange)
      → r.msg ≡ message_of change
      → handle_request ctx c caller r session ≡ write_back ctx c r session (changed change perms)
  unfolding handle_request
  requested change m = ap (dispatch ctx c r session caller) m ∙ change_writes change

  -- When the owner adds or removes writers, with a codec that reads back what it writes and a text
  -- of the new permissions that is not too long for the storage, the next look at the permissions
  -- finds the changed ones.
  pub found-change :
      (change : WriterChange)
      → IsFaithful ctx.codec
      → r.msg ≡ message_of change
      → ltb max_value_size (size (ctx.codec.write_permissions (changed change perms))) ≡ false
      → get_database_permissions ctx.codec
          (after (handle_request ctx c caller r session)).storage
          r.header.db_uuid
        ≡ done (some (changed change perms))
  found-change change faithful m fits =
      let (accepted, after_write) =
        found_after_update ctx.codec c.storage r.header.db_uuid perms (changed change perms)
          faithful found fits in
      rw (requested change m, stored accepted) after_write
    where
      stored :
          (Storage.update c.storage permission_uuid r.header.db_uuid
              (ctx.codec.write_permissions (changed change perms))).1
            ≡ ok
          → (after (write_back ctx c r session (changed change perms))).storage
            ≡ (Storage.update c.storage permission_uuid r.header.db_uuid
                (ctx.codec.write_permissions (changed change perms))).0
      stored = storage_written ctx c r session _

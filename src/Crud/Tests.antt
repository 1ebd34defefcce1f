-- ===== src/Crud/Tests.antt =====
-- Concrete nodes, requests and clocks for crud/crud.cpp, and its theorems on them.
pub mod Limits
use bluzelle.Base.{
  ℕ, zero, suc, ltb, length, length-append, ◌++◌, ◌≡◌, ◌≢◌, subst, refl, true, false, not, ◌&&◌,
  ◌||◌, [], ◌∷◌, none, some, arith,
}
use bluzelle.Bytes.{Bytes, bytes, bytes_eq, bytes_lt, size}
use bluzelle.Bytes.Order.{bytes_ordered, bytes_eq_iff}
use bluzelle.Map.{lookup, insert}
use bluzelle.Storage
use bluzelle.Storage.{MemStorage}
use bluzelle.Codec.{Codec, Permissions}
use bluzelle.Codec.Plain.{plain, plain-IsFaithful}
use bluzelle.Subscriptions
use bluzelle.Protocol.{Message, Request}
use bluzelle.Crud.State.{Crud, Context, failed, after, done}
use bluzelle.Crud.Permissions.{
  permission_uuid, get_database_permissions, is_caller_owner, is_caller_a_writer,
}
use bluzelle.Crud.Requests.{handle_request}
use bluzelle.Storage.Accounting.{IsValid, IsValid-empty, create-IsValid}
use bluzelle.Sets
use bluzelle.Policy.VolatileTtl.{ttl_uuid}
use bluzelle.Crud.State.{permissions_not_updated}
use bluzelle.Crud.Expiration.{update_expiration_entry, expired, get_ttl, expire_key}
use bluzelle.Crud.Isolation.{handle_request-IsValid, handle_request-SameFor, IsPlain, SameFor}
use bluzelle.Crud.Expiry.{expired-update_expiration_entry, get_ttl-update_expiration_entry}
use bluzelle.Crud.Roles.{adds, removes, changed, found-change, member-changed, is_writer_after}
use bluzelle.Crud.Access.{
  OnlyAnswers, handle_request-denied, refusal, handle_request-missing, handle_request_outsider,
}

abbrev db : Bytes
db = bytes "db"

abbrev owner : Bytes
owner = bytes "owner"

abbrev writer : Bytes
writer = bytes "writer"

abbrev stranger : Bytes
stranger = bytes "stranger"

abbrev db_permissions : Permissions
db_permissions = record {
  owner = owner;
  writers = writer ∷ [];
  max_size = 100;
  eviction_policy = 0;
}

-- One database with one record.
abbrev storage : MemStorage
storage = record {
  kv_store =
      (
        permission_uuid,
        record { used = 18; records = (db, plain.write_permissions db_permissions) ∷ [] },
      )
      ∷ (db, record { used = 2; records = (bytes "a", bytes "1") ∷ [] })
      ∷ [];
  latest_snapshot = none;
}

abbrev node : Crud
node = record {
  storage = storage;
  subscriptions = Subscriptions.empty;
  owner_public_key = [];
  max_swarm_storage = 0;
  started = true;
  has_node = true;
  sent = [];
}

abbrev context : Context
context = record {
  codec = plain;
  now = 1000;
  now_again = 1000;
  peers = [];
  alive = λ session. true;
  draw = λ hash round n. 0;
}

-- A request for a database.
abbrev asks : Bytes → Message → Request
asks uuid msg = record {
  header = record { db_uuid = uuid; nonce = 7; point_of_contact = []; request_hash = [] };
  msg = msg;
}

found : get_database_permissions plain storage db ≡ done (some db_permissions)
unfolding get_database_permissions plain Storage.has Storage.read Storage.get_keys lookup bytes_eq
    bluzelle.Base.any bluzelle.Bytes.Lengths.get
found = refl

not_found : get_database_permissions plain storage (bytes "other") ≡ done none
unfolding get_database_permissions plain Storage.has Storage.get_keys lookup bytes_eq
    bluzelle.Base.any bluzelle.Bytes.Lengths.get
not_found = refl

is_stranger : is_caller_a_writer context stranger db_permissions ≡ false
unfolding is_caller_a_writer is_caller_owner plain Sets.member bytes_eq
is_stranger = refl

is_owner : is_caller_owner plain owner db_permissions ≡ true
unfolding is_caller_owner plain bytes_eq
is_owner = refl

storage_made :
    (Storage.create
      (Storage.create Storage.empty permission_uuid db (plain.write_permissions db_permissions)).0
      db
      (bytes "a")
      (bytes "1")).0
    ≡ storage
unfolding Storage.create lookup insert Storage.add_record Storage.add32 bytes_eq bytes_lt plain
storage_made = refl

storage-IsValid : IsValid storage
storage-IsValid = subst IsValid storage_made (
    create-IsValid
      (Storage.create Storage.empty permission_uuid db (plain.write_permissions db_permissions)).0
      db (bytes "a") (bytes "1")
      (create-IsValid Storage.empty permission_uuid db (plain.write_permissions db_permissions)
        IsValid-empty))

handle_request-denied_example :
    OnlyAnswers context node stranger
      (asks db (Message.delete (bytes "a")))
      (some 3)
      Storage.access_denied
      (handle_request context node stranger (asks db (Message.delete (bytes "a"))) (some 3))
handle_request-denied_example =
    handle_request-denied context node stranger (asks db (Message.delete (bytes "a"))) (some 3)
      db_permissions found (rw is_stranger)

handle_request_outsider_example :
    (after
      (handle_request context node stranger (asks db (Message.create_db 9 0)) (some 3))).storage
    ≡ storage
handle_request_outsider_example =
    handle_request_outsider context node stranger (asks db (Message.create_db 9 0)) (some 3)
      db_permissions found is_stranger

handle_request-missing_example :
    OnlyAnswers context node owner
      (asks (bytes "other") Message.delete_db)
      none
      (refusal Message.delete_db false)
      (handle_request context node owner (asks (bytes "other") Message.delete_db) none)
handle_request-missing_example =
    handle_request-missing context node owner (asks (bytes "other") Message.delete_db) none
      not_found refl

handle_request-IsValid_example :
    IsValid
      (after (
        handle_request context node owner
          (asks db (Message.create (bytes "b") (bytes "2") 0))
          none)).storage
handle_request-IsValid_example =
    handle_request-IsValid context node owner (asks db (Message.create (bytes "b") (bytes "2") 0))
      none storage-IsValid

other_ne : (u v : Bytes) → bytes_eq u v ≡ false → u ≢ v
other_ne u v h e = ground (arith, bytes_eq_iff u v)

name-IsPlain :
    (u : Bytes) → bytes_eq u permission_uuid ≡ false → bytes_eq u ttl_uuid ≡ false → IsPlain u
name-IsPlain u h k = record {
  not_permissions = other_ne u permission_uuid h;
  not_ttl = other_ne u ttl_uuid k;
}

handle_request-SameFor_example :
    SameFor context db storage
      (after (
        handle_request context node owner
          (asks (bytes "other") (Message.create_db 5 0))
          none)).storage
unfolding bytes_eq
handle_request-SameFor_example =
    handle_request-SameFor context node owner (asks (bytes "other") (Message.create_db 5 0)) none db
      plain-IsFaithful (name-IsPlain (bytes "other") refl refl) (name-IsPlain db refl refl)
      (other_ne (bytes "other") db refl)

-- The storage with an entry for the record that is due in 60 seconds.
abbrev timed : MemStorage
timed =
    (Storage.create storage ttl_uuid (plain.write_expire_key db (bytes "a"))
      (plain.write_number 1060)).0

timed_lem :
    update_expiration_entry context storage (expire_key context db (bytes "a")) 60 ≡ done timed
unfolding update_expiration_entry expire_key Storage.create lookup bytes_eq plain Storage.add_record
    insert
timed_lem = refl

expired-update_expiration_entry_example :
    expired (record context { now = 1060 }) timed db (bytes "a") ≡ done true
expired-update_expiration_entry_example =
    expired-update_expiration_entry context storage timed db (bytes "a") 60 1060 plain-IsFaithful
      (omega arith) timed_lem

get_ttl-update_expiration_entry_example :
    get_ttl (record context { now = 1050; now_again = 1050 }) timed db (bytes "a") ≡ done (some 10)
get_ttl-update_expiration_entry_example =
    get_ttl-update_expiration_entry context storage timed db (bytes "a") 60 1050 plain-IsFaithful
      (omega arith) (omega arith) timed_lem

member-changed_example :
    Sets.member writer (changed (removes (writer ∷ [])) db_permissions).writers
    ≡ is_writer_after writer (removes (writer ∷ [])) db_permissions
member-changed_example = member-changed writer (removes (writer ∷ [])) db_permissions

found-change_example :
    get_database_permissions plain
      (after (
        handle_request context node owner
          (asks db (Message.add_writers (stranger ∷ [])))
          none)).storage
      db
    ≡ done (some (changed (adds (stranger ∷ [])) db_permissions))
unfolding bluzelle.Crud.Permissions.add_writers bluzelle.Crud.Permissions.without_owner
    Sets.insert_all Sets.insert plain bytes_eq bytes_lt
found-change_example =
    found-change context node owner (asks db (Message.add_writers (stranger ∷ []))) none
      db_permissions found is_owner (adds (stranger ∷ [])) plain-IsFaithful refl refl

-- ===== src/Crud/Tests/Limits.antt =====
-- A full database whose policy is to evict at random, and the theorems on its limit.
use bluzelle.Base.{◌+◌, ◌≤◌, ◌≡◌, subst, refl, [], ◌∷◌, none, some, arith, any}
use bluzelle.Bytes.{Bytes, bytes, size, bytes_eq, bytes_lt}
use bluzelle.Bytes.Counts.{sum, AreNew}
use bluzelle.Bytes.Order.{bytes_ordered}
use bluzelle.Map.{lookup, insert}
use bluzelle.Codec.{Permissions}
use bluzelle.Codec.Plain.{plain}
use bluzelle.Storage
use bluzelle.Storage.{MemStorage}
use bluzelle.Storage.Accounting.{IsValid, IsValid-empty, create-IsValid, contents, total}
use bluzelle.Policy
use bluzelle.Policy.Random
use bluzelle.Policy.Random.Enough.{key_size, required, keys_to_evict_lem}
use bluzelle.Protocol.{Message, Request}
use bluzelle.Sets
use bluzelle.Crud.State.{Crud, done, after}
use bluzelle.Crud.Permissions.{permission_uuid, get_database_permissions}
use bluzelle.Crud.Space.{make_room}
use bluzelle.Crud.Eviction.{make_room_lem}
use bluzelle.Crud.Limits.{Within, handle_request-Within}
use bluzelle.Crud.Requests.{handle_request}
use bluzelle.Crud.Tests.{db, owner, writer, node, context, asks}

abbrev small : Permissions
small = record { owner = owner; writers = writer ∷ []; max_size = 3; eviction_policy = 1 }

abbrev full : MemStorage
full = record {
  kv_store =
      (permission_uuid, record { used = 18; records = (db, plain.write_permissions small) ∷ [] })
      ∷ (db, record { used = 2; records = (bytes "a", bytes "1") ∷ [] })
      ∷ [];
  latest_snapshot = none;
}

abbrev full_node : Crud
full_node = record node { storage = full }

full_made :
    (Storage.create
      (Storage.create Storage.empty permission_uuid db (plain.write_permissions small)).0
      db
      (bytes "a")
      (bytes "1")).0
    ≡ full
unfolding Storage.create lookup insert Storage.add_record Storage.add32 bytes_eq bytes_lt plain
full_made = refl

full-IsValid : IsValid full
full-IsValid = subst IsValid full_made (
    create-IsValid
      (Storage.create Storage.empty permission_uuid db (plain.write_permissions small)).0 db
      (bytes "a") (bytes "1")
      (create-IsValid Storage.empty permission_uuid db (plain.write_permissions small)
        IsValid-empty))

found_small : get_database_permissions plain full db ≡ done (some small)
unfolding get_database_permissions plain Storage.has Storage.read Storage.get_keys lookup bytes_eq
    any bluzelle.Bytes.Lengths.get
found_small = refl

-- A record of three bytes, for which the other record has to go.
abbrev large : Request
large = asks db (Message.create (bytes "b") (bytes "22") 0)

keys_to_evict_lem_example :
    (required full large 3 ≤ sum (key_size full db) (bytes "a" ∷ [])) × AreNew (bytes "a" ∷ []) []
unfolding Random.keys_to_evict Random.select Storage.get_keys lookup bytes_eq Policy.sub64
    Policy.key_value_size Storage.get_size Random.get_elem? Random.take_key Storage.get_key_size
    Sets.insert_all Sets.insert
keys_to_evict_lem_example =
    keys_to_evict_lem context.draw full large 3 (bytes "a") [] full-IsValid refl

abbrev emptied : MemStorage
emptied = (Storage.remove full db (bytes "a")).0

emptied_lem : make_room context full_node large small ≡ done (some emptied)
unfolding make_room lookup bytes_eq bluzelle.Crud.Space.operation_exceeds_available_space
    bluzelle.Crud.Space.exceeds_database bluzelle.Crud.Space.add64 Storage.get_size
    bluzelle.Crud.Space.do_eviction get_database_permissions Storage.has any Storage.get_keys
    Storage.read plain bluzelle.Crud.Space.policy_keys bluzelle.Crud.Space.evicted
    bluzelle.Crud.Space.remove_all Random.keys_to_evict Random.select bluzelle.Bytes.Lengths.get
    Random.get_elem? Random.remove_at Random.take_key Policy.key_value_size Policy.sub64 Sets.insert
    Sets.insert_all Storage.get_key_size
emptied_lem = refl

make_room_lem_example : total (contents emptied db) + (size (bytes "b") + size (bytes "22")) ≤ 3
unfolding total lookup bytes_eq
make_room_lem_example =
    make_room_lem context full_node large.header (bytes "b") (bytes "22") 0 small full-IsValid
      (omega arith) found_small refl refl (omega arith) (omega arith) emptied emptied_lem

handle_request-Within_example :
    Within db 3 (after (handle_request context full_node writer large (some 4))).storage
unfolding total bytes_eq lookup
handle_request-Within_example =
    handle_request-Within context full_node large.header (bytes "b") (bytes "22") 0 small
      full-IsValid (omega arith) found_small refl refl (omega arith) (omega arith) refl
      (omega arith) writer (some 4)

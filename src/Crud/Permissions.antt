-- ===== src/Crud/Permissions.antt =====
-- The permission helpers of crud/crud.cpp.
use bluzelle.Base.{ℕ, ◌%◌, ◌^◌, Bool, ◌||◌, List, [], ◌∷◌, Option, none, some, if◌then◌else◌}
use bluzelle.Bytes.{Bytes, bytes, bytes_eq}
use bluzelle.Codec.{Codec, Permissions}
use bluzelle.Storage
use bluzelle.Storage.{MemStorage}
use bluzelle.Sets
use bluzelle.Crud.State.{
  Context, Result, done, thrown, permissions_unreadable, permissions_malformed,
}

abbrev pub permission_uuid : Bytes
permission_uuid = bytes "PERMS"

abbrev pub parsed : {A : Type 0} → Option A → Result (Option A)
parsed none = thrown permissions_malformed
parsed (some p) = done (some p)

-- `none` where the database does not exist.
unfoldable pub get_database_permissions : Codec → MemStorage → Bytes → Result (Option Permissions)
get_database_permissions codec s uuid =
    if Storage.has s permission_uuid uuid
    then elim (Storage.read s permission_uuid uuid) [
      | none ↦ thrown permissions_unreadable
      | some text ↦ parsed (codec.parse_permissions text)
    ]
    else done none

unfoldable pub create_permission_data : Codec → Bytes → ℕ → ℕ → Permissions
create_permission_data codec caller max_size eviction_policy = record {
  owner = codec.trim caller;
  writers = [];
  max_size = max_size;
  eviction_policy = eviction_policy % 2 ^ 16;
}

unfoldable pub update_permission_data : Permissions → ℕ → ℕ → Permissions
update_permission_data perms max_size eviction_policy = record perms {
  max_size = max_size;
  eviction_policy = eviction_policy % 2 ^ 16;
}

unfoldable pub is_caller_owner : Codec → Bytes → Permissions → Bool
is_caller_owner codec caller perms = bytes_eq perms.owner (codec.trim caller)

unfoldable pub is_caller_a_writer : Context → Bytes → Permissions → Bool
is_caller_a_writer ctx caller perms =
    Sets.member (ctx.codec.trim caller) perms.writers
    || (Sets.member (ctx.codec.trim caller) ctx.peers || is_caller_owner ctx.codec caller perms)

-- The writers of the request other than the owner.
unfoldable pub without_owner : Bytes → List Bytes → List Bytes
without_owner owner [] = []
without_owner owner (w ∷ ws) =
    let rest = without_owner owner ws in if bytes_eq w owner then rest else w ∷ rest

unfoldable pub add_writers : List Bytes → Permissions → Permissions
add_writers ws perms = record perms {
  writers = Sets.insert_all (without_owner perms.owner ws) (Sets.insert_all perms.writers []);
}

unfoldable pub remove_writers : List Bytes → Permissions → Permissions
remove_writers ws perms = record perms {
  writers = Sets.erase_all ws (Sets.insert_all perms.writers []);
}

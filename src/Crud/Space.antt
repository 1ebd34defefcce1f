-- ===== src/Crud/Space.antt =====
-- The limits on space in crud/crud.cpp: the quota of a database, the limit of the swarm, and the
-- eviction that makes room.
use bluzelle.Base.{
  ℕ, ◌+◌, ◌%◌, ◌^◌, Bool, false, List, [], ◌∷◌, Option, none, some, ◌==◌, ltb, if◌then◌else◌,
}
use bluzelle.Bytes.{Bytes, size}
use bluzelle.Codec.{Permissions}
use bluzelle.Storage
use bluzelle.Storage.{MemStorage}
use bluzelle.Protocol.{Message, Request}
use bluzelle.Policy.{sub64}
use bluzelle.Policy.Random
use bluzelle.Policy.VolatileTtl
use bluzelle.Crud.State.{
  Crud, Context, Result, done, thrown, ◌>>=◌, permissions_malformed, bad_number,
}
use bluzelle.Crud.Permissions.{permission_uuid, get_database_permissions}

-- `+` on `size_t`.
unfoldable pub add64 : ℕ → ℕ → ℕ
add64 a b = (a + b) % 2 ^ 64

-- `max_database_size(perms)`
abbrev pub max_database_size : Permissions → ℕ
max_database_size perms = perms.max_size

abbrev pub size_of_database : Option Permissions → Result ℕ
size_of_database none = thrown permissions_malformed
size_of_database (some p) = done (max_database_size p)

module _ (ctx : Context) where
  -- The limit of one database, if its permissions can still be read.
  unfoldable pub database_limit : Option Bytes → Result ℕ
  database_limit none = done 0
  database_limit (some text) = size_of_database (ctx.codec.parse_permissions text)

  unfoldable pub sum_limits : MemStorage → List Bytes → ℕ → Result ℕ
  sum_limits s [] sum = done sum
  sum_limits s (database ∷ rest) sum = do
    limit ← database_limit (Storage.read s permission_uuid database)
    sum_limits s rest (add64 sum limit)

  unfoldable pub get_swarm_storage_usage : MemStorage → Result ℕ
  get_swarm_storage_usage s = sum_limits s (Storage.get_keys s permission_uuid) 0

  -- The limit that the database has so far; a missing member of the JSON object reads as no number.
  abbrev pub previous_limit : Option Permissions → Result ℕ
  previous_limit none = thrown bad_number
  previous_limit (some p) = done (max_database_size p)

  abbrev pub exceeds_quota : ℕ → ℕ → Message → Option ℕ → Bool
  exceeds_quota max_size used (Message.create key value e) previous =
      ltb max_size (add64 used (size key + size value))
  exceeds_quota max_size used (Message.update key value e) none = false
  exceeds_quota max_size used (Message.update key value e) (some kv) =
      ltb max_size (add64 (sub64 used kv) (size key + size value))
  exceeds_quota max_size used _ previous = false

  abbrev pub updated_key : Message → Bytes
  updated_key (Message.update key value e) = key
  updated_key _ = []

  -- The quota of one database; no limit if it is zero.
  unfoldable pub exceeds_database : MemStorage → Request → Permissions → Bool
  exceeds_database s request perms =
      let uuid = request.header.db_uuid in
      if max_database_size perms == 0
      then false
      else exceeds_quota (max_database_size perms) (Storage.get_size s uuid).1 request.msg
          (Storage.get_key_size s uuid (updated_key request.msg))

  unfoldable pub operation_exceeds_available_space : Crud → Request → Permissions → Result Bool
  operation_exceeds_available_space c request perms = elim request.msg [
    | Message.create_db n p ↦ if c.max_swarm_storage == 0 then done false else do
      usage ← get_swarm_storage_usage c.storage
      done (ltb c.max_swarm_storage (add64 usage (max_database_size perms)))
    | Message.update_db n p ↦ if c.max_swarm_storage == 0 then done false else do
      found ← get_database_permissions ctx.codec c.storage request.header.db_uuid
      usage ← get_swarm_storage_usage c.storage
      previous ← previous_limit found
      done (ltb c.max_swarm_storage (add64 (sub64 usage previous) (max_database_size perms)))
    | _ ↦ done (exceeds_database c.storage request perms)
  ]

  -- The policies of `database_create_db`: 1 is RANDOM, 2 is VOLATILE_TTL.
  unfoldable pub policy_keys : MemStorage → Request → ℕ → ℕ → Result (List Bytes)
  policy_keys s request policy max_size =
      if policy == 1
      then done (Random.keys_to_evict ctx.draw s request max_size)
      else if policy == 2
      then elim (VolatileTtl.keys_to_evict ctx.codec s request max_size) [
        | none ↦ thrown bad_number
        | some ks ↦ done ks
      ]
      else done []

  unfoldable pub remove_all : MemStorage → Bytes → List Bytes → MemStorage
  remove_all s uuid [] = s
  remove_all s uuid (k ∷ ks) = remove_all (Storage.remove s uuid k).0 uuid ks

  abbrev pub policy_of : Option Permissions → ℕ
  policy_of none = 0
  policy_of (some p) = p.eviction_policy

  unfoldable pub evicted : MemStorage → Request → List Bytes → Option MemStorage
  evicted s request [] = none
  evicted s request (k ∷ ks) = some (remove_all s request.header.db_uuid (k ∷ ks))

  -- The storage after the eviction, or `none` if no key was found to evict.
  unfoldable pub do_eviction : MemStorage → Request → ℕ → Result (Option MemStorage)
  do_eviction s request max_size = do
    found ← get_database_permissions ctx.codec s request.header.db_uuid
    ks ← policy_keys s request (policy_of found) max_size
    done (evicted s request ks)

  -- The test for space and the eviction, as `handle_create` and `handle_update` put them together:
  -- `none` if there is no room.
  unfoldable pub make_room : Crud → Request → Permissions → Result (Option MemStorage)
  make_room c request perms = do
    exceeds ← operation_exceeds_available_space c request perms
    if exceeds
        then do_eviction c.storage request (max_database_size perms)
        else done (some c.storage)

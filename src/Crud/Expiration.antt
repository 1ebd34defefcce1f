-- ===== src/Crud/Expiration.antt =====
-- The expiry table of crud/crud.cpp: the database "TTL" maps a database and a key to the second in
-- which the record expires.
use bluzelle.Base.{ℕ, ◌+◌, ◌%◌, ◌^◌, Bool, false, Option, none, some, ◌==◌, ltb, leb, if◌then◌else◌}
use bluzelle.Bytes.{Bytes}
use bluzelle.Storage
use bluzelle.Storage.{MemStorage, StorageResult, ok}
use bluzelle.Policy.{sub64}
use bluzelle.Policy.VolatileTtl.{ttl_uuid}
use bluzelle.Crud.State.{
  Context, Result, done, thrown, ◌>>=◌, ttl_not_updated, bad_number, expire_key_malformed,
}

abbrev pub number_of : Option ℕ → Result ℕ
number_of none = thrown bad_number
number_of (some n) = done n

module _ (ctx : Context) where
  -- `boost::lexical_cast<uint64_t>(text)`
  abbrev pub read_number : Bytes → Result ℕ
  read_number text = number_of (ctx.codec.parse_number text)

  unfoldable pub expire_key : Bytes → Bytes → Bytes
  expire_key uuid key = ctx.codec.write_expire_key uuid key

  unfoldable pub remove_expiration_entry : MemStorage → Bytes → MemStorage
  remove_expiration_entry s generated_key = (Storage.remove s ttl_uuid generated_key).0

  -- The create, and the update where the entry exists.
  abbrev pub updated : MemStorage × StorageResult → Result MemStorage
  updated (s, ok) = done s
  updated (s, _) = thrown ttl_not_updated

  abbrev pub created : MemStorage → Bytes → Bytes → MemStorage × StorageResult → Result MemStorage
  created s generated_key expires (s', ok) = done s'
  created s generated_key expires (s', _) =
      updated (Storage.update s' ttl_uuid generated_key expires)

  unfoldable pub update_expiration_entry : MemStorage → Bytes → ℕ → Result MemStorage
  update_expiration_entry s generated_key expire =
      if expire == 0
      then done (remove_expiration_entry s generated_key)
      else let expires = ctx.codec.write_number ((ctx.now + expire) % 2 ^ 64) in
        created s generated_key expires (Storage.create s ttl_uuid generated_key expires)

  unfoldable pub expired : MemStorage → Bytes → Bytes → Result Bool
  expired s uuid key = elim (Storage.read s ttl_uuid (expire_key uuid key)) [
    | none ↦ done false
    | some text ↦ do expire ← read_number text; done (leb expire ctx.now)
  ]

  unfoldable pub get_ttl : MemStorage → Bytes → Bytes → Result (Option ℕ)
  get_ttl s uuid key = elim (Storage.read s ttl_uuid (expire_key uuid key)) [
    | none ↦ done none
    | some text ↦ do
      expire ← read_number text
      done (some (if ltb ctx.now expire then sub64 expire ctx.now_again else 0))
  ]

  abbrev pub split_key : Option (Bytes × Bytes) → Result (Bytes × Bytes)
  split_key none = thrown expire_key_malformed
  split_key (some p) = done p

  -- `extract_uuid_key`
  unfoldable pub extract_uuid_key : Bytes → Result (Bytes × Bytes)
  extract_uuid_key generated_key = split_key (ctx.codec.parse_expire_key generated_key)

-- ===== src/Policy/VolatileTtl.antt =====
-- policy/volatile_ttl.cpp: evicts keys that have an expiry, the largest values first, until there
-- is room. A number in the expiry table that cannot be read throws, `none`.
use bluzelle.Base.{
  ℕ, ◌-◌, Bool, false, not, List, [], ◌∷◌, Option, none, some, ◌==◌, ◌&&◌, leb, filter,
  if◌then◌else◌,
}
use bluzelle.Bytes.{Bytes, bytes, size, bytes_eq}
use bluzelle.Codec.{Codec}
use bluzelle.Storage
use bluzelle.Storage.{MemStorage}
use bluzelle.Protocol.{Request, update_of, has_update}
use bluzelle.Sets
use bluzelle.Policy.{sub64, key_value_size}

abbrev pub ttl_uuid : Bytes
ttl_uuid = bytes "TTL"

pub record TtlItem : Type 0 where
  pub key : Bytes
  pub value_size : ℕ
  pub ttl : ℕ

abbrev pub no_item : TtlItem
no_item = record { key = []; value_size = 0; ttl = 0 }

infixl 5 ◌>>=◌
abbrev ◌>>=◌ : {A B : Type 0} → Option A → (A → Option B) → Option B
none >>= f = none
some a >>= f = f a

module _ (codec : Codec) where
  -- The keys of the expiry table that belong to the database, without the one to ignore.
  unfoldable pub belongs : Bytes → Bytes → Option (Bytes × Bytes) → Bool
  belongs uuid ignore none = false
  belongs uuid ignore (some (u, k)) = not (bytes_eq k ignore) && bytes_eq u uuid

  unfoldable pub filter_ttls : List Bytes → Bytes → Bytes → List Bytes
  filter_ttls ttls uuid ignore = filter (λ t. belongs uuid ignore (codec.parse_expire_key t)) ttls

  -- An item for one key of the expiry table; an empty one where the record or its expiry is gone.
  unfoldable pub ttl_item_of : MemStorage → Bytes → Option (Bytes × Bytes) → Option TtlItem
  ttl_item_of s uuid none = some no_item
  ttl_item_of s uuid (some (_, key)) = elim (Storage.read s uuid key) [
    | none ↦ some no_item
    | some value ↦ elim (Storage.read s ttl_uuid (codec.write_expire_key uuid key)) [
      | none ↦ some no_item
      | some expire ↦ do
        n ← codec.parse_number expire
        some (record { key = key; value_size = size value; ttl = n })
    ]
  ]

  unfoldable pub get_ttl_items : MemStorage → Bytes → List Bytes → Option (List TtlItem)
  get_ttl_items s uuid [] = some []
  get_ttl_items s uuid (t ∷ ts) = do
    item ← ttl_item_of s uuid (codec.parse_expire_key t)
    items ← get_ttl_items s uuid ts
    some (item ∷ items)

  -- `std::sort` by decreasing value size; items of one size keep their order here.
  unfoldable pub insert_item : TtlItem → List TtlItem → List TtlItem
  insert_item i [] = i ∷ []
  insert_item i (j ∷ items) =
      let rest = insert_item i items in
      if leb j.value_size i.value_size then i ∷ j ∷ items else j ∷ rest

  unfoldable pub sort_items : List TtlItem → List TtlItem
  sort_items [] = []
  sort_items (i ∷ items) = insert_item i (sort_items items)

  -- The loop: the bytes still required, and the set of keys.
  unfoldable pub pull : List TtlItem → ℕ → List Bytes → ℕ × List Bytes
  pull [] required evicted = (required, evicted)
  pull (i ∷ items) required evicted =
      let rest = pull items (required - i.value_size) (Sets.insert i.key evicted) in
      if required - i.value_size == 0 then (0, Sets.insert i.key evicted) else rest

  unfoldable pub keys_to_evict : MemStorage → Request → ℕ → Option (List Bytes)
  keys_to_evict s request max_db_size =
      let uuid = request.header.db_uuid in
      let ours = filter_ttls (Storage.get_keys s ttl_uuid) uuid (update_of request.msg).key in
      let used = (Storage.get_size s uuid).1 in
      let free =
        sub64 (sub64 max_db_size used)
          (if has_update request.msg then size (update_of request.msg).value else 0) in
      elim ours [
        | [] ↦ some []
        | t ∷ ts ↦ do
          items ← get_ttl_items s uuid (t ∷ ts)
          let (required, evicted) =
              pull (sort_items items) (sub64 (key_value_size request.msg) free) []
          some (if required == 0 then evicted else [])
      ]

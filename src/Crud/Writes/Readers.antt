-- ===== src/Crud/Writes/Readers.antt =====
-- The handlers of crud/crud.cpp that leave the storage alone.
use bluzelle.Base.{ℕ, Option}
use bluzelle.Bytes.{Bytes}
use bluzelle.Storage.{MemStorage}
use bluzelle.Protocol.{Request}
use bluzelle.Crud.State.{Crud, Context}
use bluzelle.Crud.Records.{handle_read, handle_has, handle_keys, handle_size, handle_ttl}
use bluzelle.Crud.Databases.{handle_has_db, handle_writers, handle_subscribe, handle_unsubscribe}
use bluzelle.Crud.Writes.Rules.{Leaves, leaves}

module _ {P : MemStorage → Type 0} (ctx : Context) (c : Crud) (request : Request)
    (session : Option ℕ) where
  -- The handlers that only read.
  pub read_Leaves : (key : Bytes) → P c.storage → Leaves P (handle_read ctx c request session key)
  unfolding handle_read
  read_Leaves key h = search leaves depth 9

  pub has_Leaves : (key : Bytes) → P c.storage → Leaves P (handle_has ctx c request session key)
  unfolding handle_has
  has_Leaves key h = search leaves depth 9

  pub keys_Leaves : P c.storage → Leaves P (handle_keys ctx c request session)
  unfolding handle_keys
  keys_Leaves h = search leaves depth 9

  pub size_Leaves : P c.storage → Leaves P (handle_size ctx c request session)
  unfolding handle_size
  size_Leaves h = search leaves depth 9

  pub ttl_Leaves : (key : Bytes) → P c.storage → Leaves P (handle_ttl ctx c request session key)
  unfolding handle_ttl
  ttl_Leaves key h = search leaves depth 9

  pub has_db_Leaves : P c.storage → Leaves P (handle_has_db ctx c request session)
  unfolding handle_has_db
  has_db_Leaves h = search leaves depth 9

  pub writers_Leaves : P c.storage → Leaves P (handle_writers ctx c request session)
  unfolding handle_writers
  writers_Leaves h = search leaves depth 9

  pub subscribe_Leaves :
      (key : Bytes) → P c.storage → Leaves P (handle_subscribe ctx c request session key)
  unfolding handle_subscribe
  subscribe_Leaves key h = search leaves depth 9

  pub unsubscribe_Leaves :
      (key : Bytes) (n : ℕ)
      → P c.storage
      → Leaves P (handle_unsubscribe ctx c request session key n)
  unfolding handle_unsubscribe
  unsubscribe_Leaves key n h = search leaves depth 9

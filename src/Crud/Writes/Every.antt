-- ===== src/Crud/Writes/Every.antt =====
-- Every request of crud/crud.cpp, by the table of handlers.
use bluzelle.Base.{ℕ, Option}
use bluzelle.Bytes.{Bytes}
use bluzelle.Storage.{MemStorage}
use bluzelle.Protocol.{Message, Request}
use bluzelle.Crud.State.{Crud, Context}
use bluzelle.Crud.Requests.{dispatch, handle_request}
use bluzelle.Crud.Writes.Rules.{Closed, Leaves, Leaves-finished}
use bluzelle.Crud.Writes.Readers.{
  read_Leaves, has_Leaves, keys_Leaves, size_Leaves, ttl_Leaves, has_db_Leaves, writers_Leaves,
  subscribe_Leaves, unsubscribe_Leaves,
}
use bluzelle.Crud.Writes.Handlers.{
  create_Leaves, update_Leaves, delete_Leaves, persist_Leaves, expire_Leaves, add_writers_Leaves,
  remove_writers_Leaves, create_db_Leaves, update_db_Leaves, delete_db_Leaves,
}

module _ {P : MemStorage → Type 0} (ctx : Context) (c : Crud) (r : Request) (session : Option ℕ)
    (closed : Closed ctx r.header.db_uuid P) (h : P c.storage) where
  dispatch-Leaves : (caller : Bytes) (m : Message) → Leaves P (dispatch ctx c r session caller m)
  unfolding dispatch
  dispatch-Leaves caller (Message.create k v e) = create_Leaves ctx c r session closed caller h
  dispatch-Leaves caller (Message.update k v e) = update_Leaves ctx c r session closed caller h
  dispatch-Leaves caller (Message.read k) = read_Leaves ctx c r session k h
  dispatch-Leaves caller (Message.quick_read k) = read_Leaves ctx c r session k h
  dispatch-Leaves caller (Message.delete k) = delete_Leaves ctx c r session closed caller k h
  dispatch-Leaves caller (Message.has k) = has_Leaves ctx c r session k h
  dispatch-Leaves caller (Message.ttl k) = ttl_Leaves ctx c r session k h
  dispatch-Leaves caller (Message.persist k) = persist_Leaves ctx c r session closed caller k h
  dispatch-Leaves caller (Message.subscribe k) = subscribe_Leaves ctx c r session k h
  dispatch-Leaves caller (Message.unsubscribe k n) = unsubscribe_Leaves ctx c r session k n h
  dispatch-Leaves caller (Message.expire k e) = expire_Leaves ctx c r session closed caller k e h
  dispatch-Leaves caller Message.keys = keys_Leaves ctx c r session h
  dispatch-Leaves caller Message.size = size_Leaves ctx c r session h
  dispatch-Leaves caller Message.delete_db = delete_db_Leaves ctx c r session closed caller h
  dispatch-Leaves caller Message.has_db = has_db_Leaves ctx c r session h
  dispatch-Leaves caller Message.writers = writers_Leaves ctx c r session h
  dispatch-Leaves caller Message.nullmsg = Leaves-finished c h
  dispatch-Leaves caller (Message.create_db n p) =
      create_db_Leaves ctx c r session closed caller n p h
  dispatch-Leaves caller (Message.update_db n p) =
      update_db_Leaves ctx c r session closed caller n p h
  dispatch-Leaves caller (Message.add_writers ws) =
      add_writers_Leaves ctx c r session closed caller ws h
  dispatch-Leaves caller (Message.remove_writers ws) =
      remove_writers_Leaves ctx c r session closed caller ws h

  -- A property that the writes for the request's database keep is kept by the request: on every
  -- branch of its handler, also where the handler throws.
  pub handle_request-Leaves : (caller : Bytes) → Leaves P (handle_request ctx c caller r session)
  unfolding handle_request
  handle_request-Leaves caller = dispatch-Leaves caller r.msg

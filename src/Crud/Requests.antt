-- ===== src/Crud/Requests.antt =====
-- The entry points of crud/crud.cpp: the dispatch of a request to its handler, the start, the
-- snapshots, the status, and the expiry that runs by the clock.
use bluzelle.Base.{ℕ, Bool, true, List, [], ◌∷◌, ◌++◌, Option, none, some, leb, if◌then◌else◌}
use bluzelle.Bytes.{Bytes}
use bluzelle.Storage
use bluzelle.Storage.{MemStorage}
use bluzelle.Storage.Snapshot.{Archive}
use bluzelle.Storage.Snapshot
use bluzelle.Policy.VolatileTtl.{ttl_uuid}
use bluzelle.Protocol.{Message, Request, Event}
use bluzelle.Crud.State.{Crud, Context, Result, done, thrown, ◌>>=◌, Outcome, finished, failed}
use bluzelle.Crud.Expiration.{extract_uuid_key, read_number}
use bluzelle.Crud.Space.{get_swarm_storage_usage}
use bluzelle.Crud.Records.{
  handle_create, handle_read, handle_update, handle_delete, handle_has, handle_keys, handle_size,
  handle_ttl, handle_persist, handle_expire,
}
use bluzelle.Crud.Databases.{
  handle_create_db, handle_update_db, handle_delete_db, handle_has_db, handle_writers,
  handle_add_writers, handle_remove_writers, handle_subscribe, handle_unsubscribe,
}

-- The table of handlers. A message without one is only logged.
unfoldable pub dispatch : Context → Crud → Request → Option ℕ → Bytes → Message → Outcome
dispatch ctx c r session caller (Message.create k v e) = handle_create ctx c r session caller
dispatch ctx c r session caller (Message.update k v e) = handle_update ctx c r session caller
dispatch ctx c r session caller (Message.read key) = handle_read ctx c r session key
dispatch ctx c r session caller (Message.quick_read key) = handle_read ctx c r session key
dispatch ctx c r session caller (Message.delete key) = handle_delete ctx c r session caller key
dispatch ctx c r session caller (Message.has key) = handle_has ctx c r session key
dispatch ctx c r session caller (Message.ttl key) = handle_ttl ctx c r session key
dispatch ctx c r session caller (Message.persist key) = handle_persist ctx c r session caller key
dispatch ctx c r session caller (Message.subscribe key) = handle_subscribe ctx c r session key
dispatch ctx c r session caller (Message.unsubscribe key nonce) =
    handle_unsubscribe ctx c r session key nonce
dispatch ctx c r session caller (Message.expire key e) = handle_expire ctx c r session caller key e
dispatch ctx c r session caller Message.keys = handle_keys ctx c r session
dispatch ctx c r session caller Message.size = handle_size ctx c r session
dispatch ctx c r session caller Message.delete_db = handle_delete_db ctx c r session caller
dispatch ctx c r session caller Message.has_db = handle_has_db ctx c r session
dispatch ctx c r session caller Message.writers = handle_writers ctx c r session
dispatch ctx c r session caller Message.nullmsg = finished c
dispatch ctx c r session caller (Message.create_db n p) =
    handle_create_db ctx c r session caller n p
dispatch ctx c r session caller (Message.update_db n p) =
    handle_update_db ctx c r session caller n p
dispatch ctx c r session caller (Message.add_writers ws) =
    handle_add_writers ctx c r session caller ws
dispatch ctx c r session caller (Message.remove_writers ws) =
    handle_remove_writers ctx c r session caller ws

unfoldable pub handle_request : Context → Crud → Bytes → Request → Option ℕ → Outcome
unfolding dispatch
handle_request ctx c caller request session = dispatch ctx c request session caller request.msg

-- `std::call_once`: only the first call counts. The timers that it sets are not modelled.
unfoldable pub start : Crud → ℕ → Crud
start c max_swarm_storage =
    if c.started then c else record c { max_swarm_storage = max_swarm_storage; started = true }

module _ (archive : Archive) where
  unfoldable pub save_state : Crud → Crud × Bool
  save_state c =
      let (s, made) = Snapshot.create_snapshot archive c.storage in (record c { storage = s }, made)

  unfoldable pub get_saved_state : Crud → Option Bytes
  get_saved_state c = Snapshot.get_snapshot archive c.storage

  unfoldable pub load_state : Crud → Bytes → Crud × Bool
  load_state c state =
      let (s, loaded) = Snapshot.load_snapshot archive c.storage state in
      (record c { storage = s }, loaded)

-- The two numbers of the status report.
unfoldable pub get_status : Context → Crud → Result (ℕ × ℕ)
get_status ctx c = do
  usage ← get_swarm_storage_usage ctx c.storage
  done (c.max_swarm_storage, usage)

module _ (ctx : Context) where
  -- One entry of the expiry table: a record whose time has come is deleted through pbft; an entry
  -- whose record is gone is removed.
  unfoldable pub check_entry : Crud → Bytes → Bytes → Bytes → ℕ → Crud
  check_entry c g uuid key expire =
      if leb expire ctx.now
      then record c { sent = c.sent ++ Event.delete_request uuid key ∷ [] }
      else if Storage.has c.storage uuid key
      then c
      else record c { storage = (Storage.remove c.storage ttl_uuid g).0 }

  unfoldable pub read_entry : Bytes → Bytes → Result (Bytes × Bytes × ℕ)
  read_entry g text = do
    (uuid, key) ← extract_uuid_key ctx g
    expire ← read_number ctx text
    done (uuid, key, expire)

  -- The loop of `check_key_expiration`. An entry that cannot be read back is passed over.
  unfoldable pub check_keys : List Bytes → Crud → Outcome
  check_keys [] c = finished c
  check_keys (g ∷ gs) c = elim (Storage.read c.storage ttl_uuid g) [
    | none ↦ check_keys gs c
    | some text ↦ elim (read_entry g text) [
      | thrown e ↦ failed e c
      | done (uuid, key, expire) ↦ check_keys gs (check_entry c g uuid key expire)
    ]
  ]

  unfoldable pub check_key_expiration : Crud → Outcome
  check_key_expiration c = check_keys (Storage.get_keys c.storage ttl_uuid) c

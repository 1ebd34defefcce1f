-- ===== src/Storage/Snapshot.antt =====
-- The snapshots of storage/mem_storage.cpp. The text archives are Boost's: `write` is what the
-- output archive makes of the databases, or nothing if it throws; `load` is what the input archive
-- leaves of them, and whether it ended without an exception.
use bluzelle.Base.{Bool, true, false, Option, none, some}
use bluzelle.Bytes.{Bytes}
use bluzelle.Map.{Map}
use bluzelle.Storage.{MemStorage, Database}

pub record Archive : Type 0 where
  pub write : Map Bytes Database → Option Bytes
  pub load : Bytes → Map Bytes Database → Map Bytes Database × Bool

module _ (archive : Archive) where
  unfoldable pub create_snapshot : MemStorage → MemStorage × Bool
  create_snapshot s = elim (archive.write s.kv_store) [
    | none ↦ (s, false)
    | some text ↦ (record s { latest_snapshot = some text }, true)
  ]

  unfoldable pub get_snapshot : MemStorage → Option Bytes
  get_snapshot s = s.latest_snapshot

  load_result : MemStorage → Bytes → Map Bytes Database × Bool → MemStorage × Bool
  load_result s text (kv, true) = (record { kv_store = kv; latest_snapshot = some text }, true)
  load_result s text (kv, false) = (record s { kv_store = kv }, false)

  unfoldable pub load_snapshot : MemStorage → Bytes → MemStorage × Bool
  unfolding load_result
  load_snapshot s text = load_result s text (archive.load text s.kv_store)

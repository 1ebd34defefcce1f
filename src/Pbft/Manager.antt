-- ===== src/Pbft/Manager.antt =====
-- pbft/operations/pbft_operation_manager.cpp without a storage: the operations that a node holds, by
-- view, sequence and the hash of the request. Callers share an operation with the manager; what
-- they do to it is `update_operation`.
pub mod Selection
pub mod Holding
pub mod Cleanup
use bluzelle.Base.{ℕ, true, false, ◌&&◌, [], ◌∷◌, none, some, ltb, leb, length, if◌then◌else◌}
use bluzelle.Bytes.{Bytes}
use bluzelle.Bytes.Order.{Ordered, bytes_ordered, number_ordered, pair_ordered}
use bluzelle.Map.{Map, lookup, insert, rebuild}
use bluzelle.Pbft.Operation.{Operation, construct, is_prepared}

-- View, sequence and hash.
abbrev pub OperationKey : Type 0
OperationKey = ℕ × (ℕ × Bytes)

instance abbrev pub operation_key_ordered : Ordered OperationKey
operation_key_ordered =
    pair_ordered ⦃a = number_ordered⦄ ⦃b = pair_ordered ⦃a = number_ordered⦄ ⦃b = bytes_ordered⦄⦄

module _ {D C : Type 0} where
  abbrev pub get_operation_key : Operation D C → OperationKey
  get_operation_key o = (o.view, (o.sequence, o.request_hash))

  unfoldable pub find_or_construct :
      D
      → C
      → Map OperationKey (Operation D C)
      → OperationKey
      → Map OperationKey (Operation D C) × Operation D C
  find_or_construct no_db no_config held key = elim (lookup key held) [
    | some o ↦ (held, o)
    | none ↦ let o = construct no_db no_config key.0 key.1.0 key.1.1 in (insert key o held, o)
  ]

  -- The operation after a call of it.
  unfoldable pub update_operation :
      Map OperationKey (Operation D C) → Operation D C → Map OperationKey (Operation D C)
  update_operation held o = insert (get_operation_key o) o held

  -- The branch for a node without a storage.
  unfoldable pub delete_operations_until :
      Map OperationKey (Operation D C) → ℕ → Map OperationKey (Operation D C)
  delete_operations_until held sequence =
      rebuild (λ o. if leb o.sequence sequence then none else some o) held

  -- `maybe_store`
  unfoldable pub maybe_store : Map ℕ (Operation D C) → Operation D C → Map ℕ (Operation D C)
  maybe_store result o = elim (lookup o.sequence result) [
    | none ↦ insert o.sequence o result
    | some other ↦ if ltb other.view o.view then insert o.sequence o result else result
  ]

  unfoldable pub collect :
      ℕ → Map OperationKey (Operation D C) → Map ℕ (Operation D C) → Map ℕ (Operation D C)
  collect sequence [] result = result
  collect sequence ((key, o) ∷ held) result =
      collect sequence held
        (if ltb sequence o.sequence && is_prepared o then maybe_store result o else result)

  -- The branch for a node without a storage.
  unfoldable pub prepared_operations_since :
      Map OperationKey (Operation D C) → ℕ → Map ℕ (Operation D C)
  prepared_operations_since held sequence = collect sequence held []

  abbrev pub held_operations_count : Map OperationKey (Operation D C) → ℕ
  held_operations_count held = length held

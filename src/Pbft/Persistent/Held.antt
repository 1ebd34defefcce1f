-- ===== src/Pbft/Persistent/Held.antt =====
-- pbft/operations/pbft_persistent_operation.cpp: what a node finds in the storage, also after a
-- restart: the messages of an operation, and the prepared operations of a range of sequence numbers.
use bluzelle.Base.{
  ℕ, Bool, true, false, ◌&&◌, ◌||◌, List, [], ◌∷◌, Option, none, some, ◌==◌, if◌then◌else◌,
}
use bluzelle.Bytes.{Bytes, bytes_eq}
use bluzelle.Bytes.Order.{bytes_ordered}
use bluzelle.Map.{Map, insert}
use bluzelle.Storage.{MemStorage, read}
use bluzelle.Storage.Range.{read_if, get_keys_if}
use bluzelle.Storage.Range
use bluzelle.Pbft.Operation.{Envelope, MsgType, Stage}
use bluzelle.Pbft.Service.{to_string}
use bluzelle.Pbft.Stored.{
  underscore, stage_key, request_key, operations_uuid, prefix_for_sequence, generate_key,
  well_formed, invalid, thrown, parse_prefix,
}
use bluzelle.Pbft.Persistent.{Encoding, PersistentOperation, stage_number, typed_prefix, fields}

abbrev pub stored_as : Stage → Bytes → Bool
stored_as stage value = bytes_eq value (to_string (stage_number stage))

-- Whether a text begins with another, and whether it ends with it.
unfoldable pub begins_with : Bytes → Bytes → Bool
begins_with [] bs = true
begins_with (p ∷ ps) [] = false
begins_with (p ∷ ps) (b ∷ bs) = p == b && begins_with ps bs

unfoldable pub ends_with : Bytes → Bytes → Bool
ends_with suffix [] = bytes_eq suffix []
ends_with suffix (b ∷ bs) = bytes_eq suffix (b ∷ bs) || ends_with suffix bs

-- `substr(0, find(text))`
unfoldable pub before : Bytes → Bytes → Bytes
unfolding begins_with
before text [] = []
before text (b ∷ bs) =
    let rest = before text bs in if begins_with text (b ∷ bs) then [] else b ∷ rest

module _ {D C : Type 0} (enc : Encoding D C) where
  abbrev pub read_envelope : MemStorage → Bytes → Option Envelope
  read_envelope s key =
      let text = elim (read s operations_uuid key) as (λ _. Bytes) [ none ↦ [] | some t ↦ t ] in
      let (e, good) = enc.parse_envelope text in if good then some e else none

  unfoldable pub get_preprepare : PersistentOperation D C → MemStorage → Option Envelope
  get_preprepare o s =
      elim (get_keys_if s operations_uuid (typed_prefix enc o MsgType.preprepare)
        (typed_prefix enc o MsgType.prepare) none) [ [] ↦ none | key ∷ keys ↦ read_envelope s key ]

  -- By the keys of the storage, which the code takes for the senders.
  unfoldable pub collect_prepares :
      MemStorage → List Bytes → Map Bytes Envelope → Option (Map Bytes Envelope)
  collect_prepares s [] result = some result
  collect_prepares s (key ∷ keys) result = elim (read_envelope s key) [
    | none ↦ none
    | some e ↦ collect_prepares s keys (insert key e result)
  ]

  unfoldable pub get_prepares : PersistentOperation D C → MemStorage → Option (Map Bytes Envelope)
  unfolding collect_prepares
  get_prepares o s =
      collect_prepares s
        (get_keys_if s operations_uuid (typed_prefix enc o MsgType.prepare)
          (typed_prefix enc o MsgType.commit) none)
        []

  -- The entry of a stage that is past the first.
  abbrev pub is_prepared_stage : Bytes → Bytes → Bool
  is_prepared_stage key value =
      (stored_as Stage.commit value || stored_as Stage.execute value) && ends_with stage_key key

  -- The operations of the entries, in order, without another record of them. The stages that the
  -- constructor asserts to be stored are those of the entries.
  unfoldable pub rehydrate :
      List (Bytes × Bytes) → MemStorage → Option (List (PersistentOperation D C))
  unfolding before
  rehydrate [] s = some []
  rehydrate ((key, value) ∷ matches) s =
      let prefix = before (underscore ∷ stage_key) key in
      elim (read s operations_uuid (generate_key prefix request_key)) [
        | none ↦ rehydrate matches s
        | some text ↦ elim (parse_prefix prefix) [
          | thrown ↦ none
          | invalid ↦ rehydrate matches s
          | well_formed view sequence hash ↦ elim (rehydrate matches s) [
            | none ↦ none
            | some os ↦ some (fields enc view sequence hash ∷ os)
          ]
        ]
      ]

  unfoldable pub prepared_operations_in_range :
      ℕ → Option ℕ → MemStorage → Option (List (PersistentOperation D C))
  unfolding rehydrate
  prepared_operations_in_range start end s =
      let last = elim end as (λ _. Bytes) [ none ↦ [] | some e ↦ prefix_for_sequence e ] in
      rehydrate
        (read_if s operations_uuid (prefix_for_sequence start) last (some is_prepared_stage)) s

  unfoldable pub remove_range : ℕ → ℕ → MemStorage → Option MemStorage
  remove_range first last s =
      Range.remove_range s operations_uuid (prefix_for_sequence first) (prefix_for_sequence last)

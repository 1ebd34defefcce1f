-- ===== src/Pbft/Manager/Cleanup.antt =====
-- `delete_operations_until`, called when a checkpoint is stable, and `prepared_operations_since`, whose
-- result is sent for a view change.
use bluzelle.Base.{
  ℕ, ◌≤◌, ◌≡◌, refl, false, [], ◌∷◌, none, some, ltb, leb, if◌then◌else◌, arith, Bool-cases, inl,
  inr,
}
use bluzelle.Bytes.Order.{number_ordered}
use bluzelle.Map.{Map, rebuild}
use bluzelle.Pbft.Operation.{Operation}
use bluzelle.Pbft.Manager.{
  OperationKey, collect, delete_operations_until, prepared_operations_since,
}

module _ {D C : Type 0} where
  collect-rebuild :
      (s t : ℕ) (held : Map OperationKey (Operation D C)) (r : Map ℕ (Operation D C))
      → s ≤ t
      → collect t (rebuild (λ o. if leb o.sequence s then none else some o) held) r
        ≡ collect t held r
  unfolding collect rebuild
  collect-rebuild s t [] r h = refl
  collect-rebuild s t ((key, o) ∷ held) r h = elim (Bool-cases (leb o.sequence s)) [
    | inl z ↦
        let old : ltb t o.sequence ≡ false = ground arith in
        rw (rebuild, z, old) (collect-rebuild s t held r h)
    | inr z ↦ rw (rebuild, z) (collect-rebuild s t held _ h)
  ]

  -- A node without a storage that has removed the operations up to a sequence number reports, for
  -- every sequence number from that one on, the same prepared operations as if it had not.
  pub prepared_operations_since-delete_operations_until :
      (held : Map OperationKey (Operation D C)) (s t : ℕ)
      → s ≤ t
      → prepared_operations_since (delete_operations_until held s) t
        ≡ prepared_operations_since held t
  unfolding prepared_operations_since delete_operations_until
  prepared_operations_since-delete_operations_until held s t h = collect-rebuild s t held [] h

-- ===== src/Pbft/Manager/Holding.antt =====
-- Which operations a node holds.
use bluzelle.Base.{
  ℕ, ◌≡◌, ◌≢◌, refl, sym, ◌∙◌, ap, Bool, true, false, Option, none, some, leb, if◌then◌else◌, arith,
  Bool-cases, Option-cases, inl, inr, none-ne-some,
}
use mathlib.Core.Option.{some-injective}
use bluzelle.Bytes.Order.{bytes_ordered, number_ordered}
use bluzelle.Map.{Map, lookup, insert}
use bluzelle.Map.Laws.{lookup-insert}
use bluzelle.Map.Sorted.{IsSorted, insert-IsSorted}
use bluzelle.Map.Nested.{bind, lookup-rebuild, rebuild-IsSorted}
use bluzelle.Pbft.Operation.{Operation, construct}
use bluzelle.Pbft.Manager.{
  OperationKey, operation_key_ordered, get_operation_key, find_or_construct,
  delete_operations_until,
}

module _ {D C : Type 0} where
  -- Every operation is held under its own key, once.
  pub record IsKeyed (held : Map OperationKey (Operation D C)) : Type 0 where
    pub sorted : IsSorted held
    pub keyed :
        (k : OperationKey) (o : Operation D C) → lookup k held ≡ some o → get_operation_key o ≡ k

  get_operation_key_if :
      (b : Bool) (k j : OperationKey) (o x : Operation D C) (other : Option (Operation D C))
      → (if b then some o else other) ≡ some x
      → (b ≡ true → k ≡ j)
      → get_operation_key o ≡ k
      → (other ≡ some x → get_operation_key x ≡ j)
      → get_operation_key x ≡ j
  get_operation_key_if true k j o x other e p q r =
      ap get_operation_key (sym (some-injective o x e)) ∙ q ∙ p refl
  get_operation_key_if false k j o x other e p q r = r e

  pub insert-IsKeyed :
      (held : Map OperationKey (Operation D C)) (k : OperationKey) (o : Operation D C)
      → IsKeyed held
      → get_operation_key o ≡ k
      → IsKeyed (insert k o held)
  insert-IsKeyed held k o h q = record {
    sorted = insert-IsSorted k o held h.sorted;
    keyed = λ j x e.
        get_operation_key_if (operation_key_ordered.eq k j) k j o x (lookup j held)
          (rw lookup-insert at e) (operation_key_ordered.eq_iff k j).0 q (h.keyed j x);
  }

  -- What a node holds once it has asked for an operation.
  pub record Finds (d : D) (c : C) (held : Map OperationKey (Operation D C)) (key : OperationKey)
      (r : Map OperationKey (Operation D C) × Operation D C) : Type 0 where
    pub holds : lookup key r.0 ≡ some r.1
    pub again : find_or_construct d c r.0 key ≡ r
    pub named : get_operation_key r.1 ≡ key
    pub others : (k : OperationKey) → k ≢ key → lookup k r.0 ≡ lookup k held
    pub valid : IsKeyed r.0

  -- If every held operation is held under its own key, once, then after a call for a key the
  -- operation that is returned is held under it and has that key, a second call changes nothing and
  -- returns the same, every other key is held as before, and every held operation is again held
  -- under its own key, once.
  pub find_or_construct_lem :
      (d : D) (c : C) (held : Map OperationKey (Operation D C)) (key : OperationKey)
      → IsKeyed held
      → Finds d c held key (find_or_construct d c held key)
  unfolding find_or_construct construct
  find_or_construct_lem d c held key h = elim (Option-cases (lookup key held)) [
    | inl e ↦
        rw (find_or_construct, e)
          (record {
            holds = here;
            again = rw (find_or_construct, here) refl;
            named = refl;
            others = other;
            valid = insert-IsKeyed held key _ h refl;
          })
    | inr (o, e) ↦
        rw (find_or_construct, e)
          (record {
            holds = e;
            again = rw (find_or_construct, e) refl;
            named = h.keyed key o e;
            others = λ k n. refl;
            valid = h;
          })
  ]
    where
      here :
          lookup key (insert key (construct d c key.0 key.1.0 key.1.1) held)
          ≡ some (construct d c key.0 key.1.0 key.1.1)
      here =
          let self : operation_key_ordered.eq key key ≡ true =
            (operation_key_ordered.eq_iff key key).1 refl in
          rw (lookup-insert, self)

      other :
          (k : OperationKey)
          → k ≢ key
          → lookup k (insert key (construct d c key.0 key.1.0 key.1.1) held) ≡ lookup k held
      other k n = elim (Bool-cases (operation_key_ordered.eq key k)) [
        | inl z ↦ absurd (n (sym ((operation_key_ordered.eq_iff key k).0 z)))
        | inr z ↦ rw (lookup-insert, z)
      ]

  delete_held :
      (sequence : ℕ) (k : OperationKey) (x : Option (Operation D C))
      → ((o : Operation D C) → x ≡ some o → get_operation_key o ≡ k)
      → bind x (λ o. if leb o.sequence sequence then none else some o)
        ≡ (if leb k.1.0 sequence then none else x)
  delete_held sequence k none h = ground arith
  delete_held sequence k (some o) h = rw (← h o refl)

  -- For a node without a storage for operations: if every held operation is held under its own key,
  -- once, the clean-up leaves nothing under a key with a sequence number up to the given one, and
  -- what was held under any other key.
  pub delete_operations_until_lem :
      (held : Map OperationKey (Operation D C)) (sequence : ℕ) (k : OperationKey)
      → IsKeyed held
      → lookup k (delete_operations_until held sequence)
        ≡ (if leb k.1.0 sequence then none else lookup k held)
  unfolding delete_operations_until
  delete_operations_until_lem held sequence k h =
      lookup-rebuild (λ o. if leb o.sequence sequence then none else some o) k held h.sorted
      ∙ delete_held sequence k (lookup k held) (h.keyed k)

  -- What the clean-up leaves was held before.
  pub delete_operations_until_held :
      (held : Map OperationKey (Operation D C)) (sequence : ℕ) (k : OperationKey)
      (o : Operation D C)
      → IsKeyed held
      → lookup k (delete_operations_until held sequence) ≡ some o
      → lookup k held ≡ some o
  delete_operations_until_held held sequence k o h e = elim (Bool-cases (leb k.1.0 sequence)) [
    | inl z ↦
        absurd (none-ne-some (sym (rw z at (delete_operations_until_lem held sequence k h)) ∙ e))
    | inr z ↦ sym (rw z at (delete_operations_until_lem held sequence k h)) ∙ e
  ]

  pub delete_operations_until-IsKeyed :
      (held : Map OperationKey (Operation D C)) (sequence : ℕ)
      → IsKeyed held
      → IsKeyed (delete_operations_until held sequence)
  unfolding delete_operations_until
  delete_operations_until-IsKeyed held sequence h = record {
    sorted = rebuild-IsSorted (λ o. if leb o.sequence sequence then none else some o) held h.sorted;
    keyed = λ k o e. h.keyed k o (delete_operations_until_held held sequence k o h e);
  }

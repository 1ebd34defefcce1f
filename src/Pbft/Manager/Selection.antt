-- ===== src/Pbft/Manager/Selection.antt =====
-- Which operations `prepared_operations_since` chooses.
use bluzelle.Base.{
  ℕ, ◌≤◌, ◌≡◌, ◌≢◌, ◌⊎◌, subst, refl, sym, ◌∙◌, ap, Bool, true, ◌&&◌, [], ◌∷◌, Option, none, some,
  ltb, ◌==◌, ==_iff, if◌then◌else◌, arith, Bool-cases, Option-cases, inl, inr, none-ne-some,
}
use mathlib.Core.List.{Memᴰ}
use mathlib.Core.Option.{some-injective}
use bluzelle.Bytes.Order.{bytes_ordered, number_ordered}
use bluzelle.Map.{Map, lookup}
use bluzelle.Map.Laws.{lookup-insert}
use bluzelle.Pbft.Operation.{Operation, is_prepared}
use bluzelle.Pbft.Manager.{OperationKey, maybe_store, collect, prepared_operations_since}

module _ {D C : Type 0} where
  abbrev pub is_candidate : ℕ → Operation D C → Bool
  is_candidate sequence o = ltb sequence o.sequence && is_prepared o

  -- The one of the later view; the one that is there, if they are of one view.
  abbrev pub better : Option (Operation D C) → Operation D C → Operation D C
  better none o = o
  better (some other) o = if ltb other.view o.view then o else other

  -- What is chosen for the sequence number `q`.
  unfoldable pub best :
      ℕ → ℕ → Map OperationKey (Operation D C) → Option (Operation D C) → Option (Operation D C)
  best sequence q [] b = b
  best sequence q ((key, o) ∷ held) b =
      best sequence q held
        (if is_candidate sequence o && o.sequence == q then some (better b o) else b)

  lookup-maybe_store :
      (q : ℕ) (r : Map ℕ (Operation D C)) (o : Operation D C)
      → lookup q (maybe_store r o)
        ≡ (if o.sequence == q then some (better (lookup q r) o) else lookup q r)
  unfolding maybe_store
  lookup-maybe_store q r o = elim (Bool-cases (o.sequence == q)) [
    | inl z ↦ here z ((==_iff o.sequence q).0 z)
    | inr z ↦ elim (Option-cases (lookup o.sequence r)) [
      | inl e ↦ rw (maybe_store, e, lookup-insert, z)
      | inr (b, e) ↦ elim (Bool-cases (ltb b.view o.view)) [
        | inl f ↦ rw (maybe_store, e, f, lookup-insert, z)
        | inr f ↦ rw (maybe_store, e, f, z)
      ]
    ]
  ]
    where
      here :
          (o.sequence == q) ≡ true
          → o.sequence ≡ q
          → lookup q (maybe_store r o)
            ≡ (if o.sequence == q then some (better (lookup q r) o) else lookup q r)
      here z p = elim (Option-cases (lookup o.sequence r)) [
        | inl e ↦
            let e' : lookup q r ≡ none = rw p at e in rw (maybe_store, e, lookup-insert, z, e')
        | inr (b, e) ↦
            let e' : lookup q r ≡ some b = rw p at e in
            elim (Bool-cases (ltb b.view o.view)) [
              | inl f ↦ rw (maybe_store, e, f, lookup-insert, z, e', f)
              | inr f ↦ rw (maybe_store, e, f, z, e', f)
            ]
      ]

  lookup-collect :
      (sequence q : ℕ) (held : Map OperationKey (Operation D C)) (r : Map ℕ (Operation D C))
      → lookup q (collect sequence held r) ≡ best sequence q held (lookup q r)
  unfolding collect best
  lookup-collect sequence q [] r = refl
  lookup-collect sequence q ((key, o) ∷ held) r = elim (Bool-cases (is_candidate sequence o)) [
    | inl z ↦ rw (z, lookup-collect sequence q held (maybe_store r o), lookup-maybe_store q r o)
    | inr z ↦ rw (z, lookup-collect sequence q held r)
  ]

  view-better_kept :
      (b : Option (Operation D C)) (o x : Operation D C) → b ≡ some x → x.view ≤ (better b o).view
  view-better_kept none o x e = absurd (none-ne-some e)
  view-better_kept (some y) o x e =
      let p : y.view ≡ x.view = ap (λ z. z.view) (some-injective y x e) in
      elim (Bool-cases (ltb y.view o.view)) [
        | inl z ↦ rw z (ground (arith, p))
        | inr z ↦ rw z (omega (arith, p))
      ]

  view-better_new : (b : Option (Operation D C)) (o : Operation D C) → o.view ≤ (better b o).view
  view-better_new none o = omega arith
  view-better_new (some y) o = elim (Bool-cases (ltb y.view o.view)) [
    | inl z ↦ rw z (omega arith)
    | inr z ↦ rw z (ground arith)
  ]

  view-best_kept :
      (sequence q : ℕ) (held : Map OperationKey (Operation D C)) (b : Option (Operation D C))
      (o x : Operation D C)
      → best sequence q held b ≡ some o
      → b ≡ some x
      → x.view ≤ o.view
  unfolding best
  view-best_kept sequence q [] b o x e f =
      omega (arith, ap (λ z. z.view) (some-injective x o (sym f ∙ e)))
  view-best_kept sequence q ((key, y) ∷ held) b o x e f =
      elim (Bool-cases (is_candidate sequence y && y.sequence == q)) [
        | inl z ↦ omega (
          arith,
          view-best_kept sequence q held (some (better b y)) o (better b y) (rw z at e) refl,
          view-better_kept b y x f,
        )
        | inr z ↦ view-best_kept sequence q held b o x (rw z at e) f
      ]

  view-best_found :
      (sequence q : ℕ) (held : Map OperationKey (Operation D C)) (b : Option (Operation D C))
      (o x : Operation D C) (key : OperationKey)
      → best sequence q held b ≡ some o
      → Memᴰ (key, x) held
      → is_candidate sequence x && x.sequence == q ≡ true
      → x.view ≤ o.view
  unfolding best
  view-best_found sequence q [] b o x key e m c = elim m [ ]
  view-best_found sequence q ((key', y) ∷ held) b o x key e (Memᴰ.head p) c =
      let same : x ≡ y = ap (λ z. z.1) p in
      let c' : is_candidate sequence y && y.sequence == q ≡ true = rw same at c in
      omega (
        arith,
        ap (λ z. z.view) same,
        view-best_kept sequence q held (some (better b y)) o (better b y) (rw c' at e) refl,
        view-better_new b y,
      )
  view-best_found sequence q ((key', y) ∷ held) b o x key e (Memᴰ.tail m) c =
      view-best_found sequence q held _ o x key e m c

  -- One of the operations that are held, with what it was chosen for.
  abbrev pub IsFound : ℕ → ℕ → Map OperationKey (Operation D C) → Operation D C → Type 0
  IsFound sequence q held o =
      (key : OperationKey) × Memᴰ (key, o) held
      × (is_candidate sequence o && o.sequence == q ≡ true)

  deeper :
      (sequence q : ℕ) (e : OperationKey × Operation D C) (held : Map OperationKey (Operation D C))
      (o : Operation D C)
      → IsFound sequence q held o
      → IsFound sequence q (e ∷ held) o
  deeper sequence q e held o (key, m, c) = (key, Memᴰ.tail m, c)

  better-either :
      (b : Option (Operation D C)) (y : Operation D C) → (b ≡ some (better b y)) ⊎ (better b y ≡ y)
  better-either none y = inr refl
  better-either (some x) y = elim (Bool-cases (ltb x.view y.view)) [
    | inl z ↦ inr (rw z)
    | inr z ↦ inl (rw z)
  ]

  best-IsFound :
      (sequence q : ℕ) (held : Map OperationKey (Operation D C)) (b : Option (Operation D C))
      (o : Operation D C)
      → best sequence q held b ≡ some o
      → (b ≡ some o) ⊎ IsFound sequence q held o
  unfolding best
  best-IsFound sequence q [] b o e = inl e
  best-IsFound sequence q ((key, y) ∷ held) b o e =
      elim (Bool-cases (is_candidate sequence y && y.sequence == q)) [
        | inl z ↦ elim (best-IsFound sequence q held (some (better b y)) o (rw z at e)) [
          | inl f ↦ chosen z (some-injective (better b y) o f) (better-either b y)
          | inr f ↦ inr (deeper sequence q (key, y) held o f)
        ]
        | inr z ↦ elim (best-IsFound sequence q held b o (rw z at e)) [
          | inl f ↦ inl f
          | inr f ↦ inr (deeper sequence q (key, y) held o f)
        ]
      ]
    where
      chosen :
          is_candidate sequence y && y.sequence == q ≡ true
          → better b y ≡ o
          → (b ≡ some (better b y)) ⊎ (better b y ≡ y)
          → (b ≡ some o) ⊎ IsFound sequence q ((key, y) ∷ held) o
      chosen z f (inl g) = inl (g ∙ ap some f)
      chosen z f (inr g) =
          let same : y ≡ o = sym g ∙ f in
          inr (subst (IsFound sequence q ((key, y) ∷ held)) same (key, Memᴰ.head refl, z))

  best-some :
      (sequence q : ℕ) (held : Map OperationKey (Operation D C)) (x : Operation D C)
      → best sequence q held (some x) ≢ none
  unfolding best
  best-some sequence q [] x e = none-ne-some (sym e)
  best-some sequence q ((key, y) ∷ held) x e =
      elim (Bool-cases (is_candidate sequence y && y.sequence == q)) [
        | inl z ↦ best-some sequence q held (better (some x) y) (rw z at e)
        | inr z ↦ best-some sequence q held x (rw z at e)
      ]

  best-none :
      (sequence q : ℕ) (held : Map OperationKey (Operation D C)) (b : Option (Operation D C))
      (x : Operation D C)
      → best sequence q held b ≡ none
      → IsFound sequence q held x
      → ⊥
  unfolding best
  best-none sequence q [] b x e (key, m, c) = elim m [ ]
  best-none sequence q ((key', y) ∷ held) b x e (key, Memᴰ.head p, c) =
      let same : x ≡ y = ap (λ z. z.1) p in
      let c' : is_candidate sequence y && y.sequence == q ≡ true = rw same at c in
      best-some sequence q held (better b y) (rw c' at e)
  best-none sequence q ((key', y) ∷ held) b x e (key, Memᴰ.tail m, c) =
      best-none sequence q held _ x e (key, m, c)

  -- What a node may report for a sequence number: an operation that it holds, prepared and of the
  -- latest view among those for the number, or nothing if it holds no prepared one.
  abbrev pub Choice : ℕ → ℕ → Map OperationKey (Operation D C) → Option (Operation D C) → Type 0
  Choice sequence q held none = (x : Operation D C) → IsFound sequence q held x → ⊥
  Choice sequence q held (some o) =
      IsFound sequence q held o
      × ((x : Operation D C) → IsFound sequence q held x → x.view ≤ o.view)

  best-Choice :
      (held : Map OperationKey (Operation D C)) (sequence q : ℕ) (b : Option (Operation D C))
      → best sequence q held none ≡ b
      → Choice sequence q held b
  best-Choice held sequence q none e = λ x f. best-none sequence q held none x e f
  best-Choice held sequence q (some o) e = (
    found (best-IsFound sequence q held none o e),
    λ x (key, m, c). view-best_found sequence q held none o x key e m c,
  )
    where
      found : (none ≡ some o) ⊎ IsFound sequence q held o → IsFound sequence q held o
      found (inl e) = absurd (none-ne-some e)
      found (inr f) = f

  -- The operation that a node without a storage reports for a sequence number is one that it holds,
  -- for that number, above the given one and prepared, and no such operation is of a later view; if
  -- it reports none, it holds none of this kind.
  pub prepared_operations_since_lem :
      (held : Map OperationKey (Operation D C)) (sequence q : ℕ)
      → Choice sequence q held (lookup q (prepared_operations_since held sequence))
  unfolding prepared_operations_since lookup
  prepared_operations_since_lem held sequence q =
      best-Choice held sequence q _ (sym (lookup-collect sequence q held []))

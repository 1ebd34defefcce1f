-- ===== src/Map/Nested.antt =====
-- Maps whose values are maps: a property of all values, and what is found after a loop that drops
-- entries.
use bluzelle.Base.{
  ◌≡◌, refl, true, false, Bool, [], ◌∷◌, Option, none, some, if◌then◌else◌, arith, subst,
  Option-cases, inl, inr,
}
use mathlib.Core.Option.{some-injective}
use bluzelle.Bytes.Order.{Ordered}
use bluzelle.Map.{Map, lookup, insert, erase, rebuild}
use bluzelle.Map.Laws.{lookup-insert, lookup-erase}
use bluzelle.Map.Sorted.{IsSorted, Above, insert-IsSorted, erase-IsSorted, lookup-Above}

abbrev pub bind : {V W : Type 0} → Option V → (V → Option W) → Option W
bind none f = none
bind (some v) f = f v

found_in_if :
    {V : Type 0} (P : V → Type 0) (b : Bool) (v w : V) (other : Option V)
    → (if b then some v else other) ≡ some w
    → P v
    → (other ≡ some w → P w)
    → P w
found_in_if P true v w other e p q = subst P (some-injective v w e) p
found_in_if P false v w other e p q = q e

erase_kept :
    {V : Type 0} (b : Bool) (w : V) (o : Option V) → (if b then none else o) ≡ some w → o ≡ some w
erase_kept true w o e = cc
erase_kept false w o e = e

bind_found :
    {V W : Type 0} (f : V → Option W) (P : V → Type 0) (Q : W → Type 0) (x : Option V) (w : W)
    → bind x f ≡ some w
    → ((v : V) → x ≡ some v → P v)
    → ((v : V) (w' : W) → P v → f v ≡ some w' → Q w')
    → Q w
bind_found f P Q none w e p q = cc
bind_found f P Q (some v) w e p q = q v w (p v refl) e

module _ {K V : Type 0} ⦃o : Ordered K⦄ where
  -- A sorted map all of whose values have the property.
  pub record Each (P : V → Type 0) (m : Map K V) : Type 0 where
    pub sorted : IsSorted m
    pub values : (k : K) (v : V) → lookup k m ≡ some v → P v

  pub insert-Each :
      (P : V → Type 0) (k : K) (v : V) (m : Map K V) → Each P m → P v → Each P (insert k v m)
  insert-Each P k v m h p = record {
    sorted = insert-IsSorted k v m h.sorted;
    values =
        λ j w e. found_in_if P (o.eq k j) v w (lookup j m) (rw lookup-insert at e) p (h.values j w);
  }

  pub Each-empty : (P : V → Type 0) → Each P []
  unfolding lookup
  Each-empty P = record { sorted = tt; values = λ k v e. cc }

  pub lookup-rebuild :
      {W : Type 0} (f : V → Option W) (k : K) (m : Map K V)
      → IsSorted m
      → lookup k (rebuild f m) ≡ bind (lookup k m) f
  unfolding lookup rebuild
  lookup-rebuild f k [] s = refl
  lookup-rebuild f k ((j, v) ∷ m) s = elim (Option-cases (f v)) [
    | inl e ↦
        rw (lookup, e)
          (ground (arith, e, lookup-rebuild f k m s.1, lookup-Above j m s.0, o.eq_iff j k))
    | inr (w, e) ↦ rw (lookup, e) (ground (arith, e, lookup-rebuild f k m s.1))
  ]

  pub erase-Each : (P : V → Type 0) (k : K) (m : Map K V) → Each P m → Each P (erase k m)
  erase-Each P k m h = record {
    sorted = erase-IsSorted k m h.sorted;
    values = λ j w e. h.values j w (erase_kept (o.eq k j) w (lookup j m) (rw lookup-erase at e));
  }

module _ {K V W : Type 0} ⦃o : Ordered K⦄ (f : V → Option W) where
  rebuild-Above : (b : K) (m : Map K V) → Above b m → Above b (rebuild f m)
  unfolding rebuild
  rebuild-Above b [] s = tt
  rebuild-Above b ((j, v) ∷ m) s = elim (Option-cases (f v)) [
    | inl e ↦ rw (rebuild, e) (rebuild-Above b m s.1)
    | inr (w, e) ↦ rw (rebuild, e) (s.0, rebuild-Above b m s.1)
  ]

  pub rebuild-IsSorted : (m : Map K V) → IsSorted m → IsSorted (rebuild f m)
  unfolding rebuild
  rebuild-IsSorted [] s = tt
  rebuild-IsSorted ((j, v) ∷ m) s = elim (Option-cases (f v)) [
    | inl e ↦ rw (rebuild, e) (rebuild-IsSorted m s.1)
    | inr (w, e) ↦ rw (rebuild, e) (rebuild-Above j m s.0, rebuild-IsSorted m s.1)
  ]

  pub rebuild-Each :
      (P : V → Type 0) (Q : W → Type 0) (m : Map K V)
      → Each P m
      → ((v : V) (w : W) → P v → f v ≡ some w → Q w)
      → Each Q (rebuild f m)
  rebuild-Each P Q m h q = record {
    sorted = rebuild-IsSorted m h.sorted;
    values = λ k w e.
        bind_found f P Q (lookup k m) w (rw (lookup-rebuild f k m h.sorted) at e) (h.values k) q;
  }

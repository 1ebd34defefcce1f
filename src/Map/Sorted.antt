-- ===== src/Map/Sorted.antt =====
-- The entries of a map stand in strictly increasing key order, and every operation keeps this.
use bluzelle.Base.{◌≡◌, refl, true, [], ◌∷◌, none, arith}
use bluzelle.Bytes.Order.{Ordered}
use bluzelle.Map.{Map, lookup, insert, erase}

module _ {K V : Type 0} ⦃o : Ordered K⦄ where
  -- Every key of the map is above the bound.
  abbrev pub Above : K → Map K V → Type 0
  Above b [] = Unit {0}
  Above b ((k, v) ∷ m) = (o.lt b k ≡ true) × Above b m

  abbrev pub IsSorted : Map K V → Type 0
  IsSorted [] = Unit {0}
  IsSorted ((k, v) ∷ m) = Above k m × IsSorted m

  pub Above-trans : (a b : K) (m : Map K V) → o.lt a b ≡ true → Above b m → Above a m
  Above-trans a b [] h s = tt
  Above-trans a b ((k, v) ∷ m) h s = (o.lt_trans a b k h s.0, Above-trans a b m h s.1)

  insert-Above :
      (b k : K) (v : V) (m : Map K V) → o.lt b k ≡ true → Above b m → Above b (insert k v m)
  unfolding insert
  insert-Above b k v [] h s = (h, tt)
  insert-Above b k v ((j, w) ∷ m) h s = ground (arith, insert-Above b k v m h s.1)

  erase-Above : (b k : K) (m : Map K V) → Above b m → Above b (erase k m)
  unfolding erase
  erase-Above b k [] s = tt
  erase-Above b k ((j, w) ∷ m) s = ground (arith, erase-Above b k m s.1)

  pub insert-IsSorted : (k : K) (v : V) (m : Map K V) → IsSorted m → IsSorted (insert k v m)
  unfolding insert
  insert-IsSorted k v [] s = (tt, tt)
  insert-IsSorted k v ((j, w) ∷ m) s = ground (
    arith,
    insert-IsSorted k v m s.1,
    insert-Above j k v m,
    Above-trans k j m,
    o.eq_iff j k,
    o.lt_total j k,
    o.lt_total k j,
    o.eq_iff k j,
  )

  pub erase-IsSorted : (k : K) (m : Map K V) → IsSorted m → IsSorted (erase k m)
  unfolding erase
  erase-IsSorted k [] s = tt
  erase-IsSorted k ((j, w) ∷ m) s = ground (arith, erase-IsSorted k m s.1, erase-Above j k m s.0)

  pub lookup-Above : (k : K) (m : Map K V) → Above k m → lookup k m ≡ none
  unfolding lookup
  lookup-Above k [] s = refl
  lookup-Above k ((j, w) ∷ m) s = ground (arith, lookup-Above k m s.1, o.eq_iff j k, o.lt_irrefl k)

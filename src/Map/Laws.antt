-- ===== src/Map/Laws.antt =====
-- What find returns after each operation on a map.
use bluzelle.Base.{◌≡◌, refl, true, [], ◌∷◌, none, some, if◌then◌else◌, arith}
use bluzelle.Bytes.Order.{Ordered}
use bluzelle.Map.{Map, lookup, insert, erase}

module _ {K : Type 0} ⦃o : Ordered K⦄ where
  pub eq_refl : (k : K) → o.eq k k ≡ true
  eq_refl k = (o.eq_iff k k).1 refl

module _ {K V : Type 0} ⦃o : Ordered K⦄ where
  pub lookup-insert :
      (k j : K) (v : V) (m : Map K V)
      → lookup j (insert k v m) ≡ (if o.eq k j then some v else lookup j m)
  unfolding lookup insert
  lookup-insert k j v [] = refl
  lookup-insert k j v ((i, w) ∷ m) =
      ground (arith, o.eq_iff k j, o.eq_iff i k, o.eq_iff i j, lookup-insert k j v m)

  pub lookup-erase :
      (k j : K) (m : Map K V) → lookup j (erase k m) ≡ (if o.eq k j then none else lookup j m)
  unfolding lookup erase
  lookup-erase k j [] = ground arith
  lookup-erase k j ((i, w) ∷ m) =
      ground (arith, o.eq_iff k j, o.eq_iff i k, o.eq_iff i j, lookup-erase k j m)

  pub erase_absent : (k : K) (m : Map K V) → lookup k m ≡ none → erase k m ≡ m
  unfolding lookup erase
  erase_absent k [] h = refl
  erase_absent k ((i, w) ∷ m) h = ground (arith, erase_absent k m)

pub ruleset map_laws = (lookup-insert, lookup-erase, eq_refl)

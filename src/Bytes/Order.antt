-- ===== src/Bytes/Order.antt =====
-- Keys of an ordered map: a decidable equality and a strict linear order, with their laws.
use bluzelle.Base.{
  ap, ◌&&◌, ◌||◌, ℕ, ◌≡◌, refl, ◌↔◌, Bool, true, false, [], ◌∷◌, arith, ltb, ◌==◌, ==_iff,
}
use bluzelle.Bytes.{Bytes, bytes_eq, bytes_lt}

pub record Ordered (K : Type 0) : Type 0 where
  pub eq : K → K → Bool
  pub lt : K → K → Bool
  pub eq_iff : (a b : K) → (eq a b ≡ true) ↔ (a ≡ b)
  pub lt_irrefl : (a : K) → lt a a ≡ false
  pub lt_trans : (a b c : K) → lt a b ≡ true → lt b c ≡ true → lt a c ≡ true
  pub lt_total : (a b : K) → eq a b ≡ false → lt a b ≡ false → lt b a ≡ true

pub bytes_eq_iff : (a b : Bytes) → (bytes_eq a b ≡ true) ↔ (a ≡ b)
unfolding bytes_eq
bytes_eq_iff [] [] = ((λ h. refl), (λ h. refl))
bytes_eq_iff [] (b ∷ bs) = (λ h. cc, λ h. cc)
bytes_eq_iff (a ∷ x) [] = (λ h. cc, λ h. cc)
bytes_eq_iff (a ∷ x) (b ∷ y) = ground (arith, bytes_eq_iff x y)

pub bytes_lt_irrefl : (a : Bytes) → bytes_lt a a ≡ false
unfolding bytes_lt
bytes_lt_irrefl [] = refl
bytes_lt_irrefl (a ∷ x) = ground (arith, bytes_lt_irrefl x)

pub bytes_lt_trans :
    (a b c : Bytes) → bytes_lt a b ≡ true → bytes_lt b c ≡ true → bytes_lt a c ≡ true
unfolding bytes_lt
bytes_lt_trans [] [] [] h k = cc
bytes_lt_trans [] [] (c ∷ z) h k = refl
bytes_lt_trans [] (b ∷ y) [] h k = cc
bytes_lt_trans [] (b ∷ y) (c ∷ z) h k = refl
bytes_lt_trans (a ∷ x) [] c h k = cc
bytes_lt_trans (a ∷ x) (b ∷ y) [] h k = cc
bytes_lt_trans (a ∷ x) (b ∷ y) (c ∷ z) h k = ground (arith, bytes_lt_trans x y z)

pub bytes_lt_total :
    (a b : Bytes) → bytes_eq a b ≡ false → bytes_lt a b ≡ false → bytes_lt b a ≡ true
unfolding bytes_eq bytes_lt
bytes_lt_total [] [] h k = cc
bytes_lt_total [] (b ∷ y) h k = cc
bytes_lt_total (a ∷ x) [] h k = refl
bytes_lt_total (a ∷ x) (b ∷ y) h k = ground (arith, bytes_lt_total x y)

pub ltb_irrefl : (a : ℕ) → ltb a a ≡ false
ltb_irrefl a = ground arith

pub ltb_trans : (a b c : ℕ) → ltb a b ≡ true → ltb b c ≡ true → ltb a c ≡ true
ltb_trans a b c h k = ground arith

pub ltb_total : (a b : ℕ) → (a == b) ≡ false → ltb a b ≡ false → ltb b a ≡ true
ltb_total a b h k = ground arith

instance abbrev pub bytes_ordered : Ordered Bytes
bytes_ordered = record {
  eq = bytes_eq;
  lt = bytes_lt;
  eq_iff = bytes_eq_iff;
  lt_irrefl = bytes_lt_irrefl;
  lt_trans = bytes_lt_trans;
  lt_total = bytes_lt_total;
}

instance abbrev pub number_ordered : Ordered ℕ
number_ordered = record {
  eq = ◌==◌;
  lt = ltb;
  eq_iff = ==_iff;
  lt_irrefl = ltb_irrefl;
  lt_trans = ltb_trans;
  lt_total = ltb_total;
}

-- Pairs, by their first components first, as `operator<` of std::tuple compares.
module _ {A B : Type 0} ⦃a : Ordered A⦄ ⦃b : Ordered B⦄ where
  abbrev pub pair_eq : A × B → A × B → Bool
  pair_eq x y = a.eq x.0 y.0 && b.eq x.1 y.1

  abbrev pub pair_lt : A × B → A × B → Bool
  pair_lt x y = a.lt x.0 y.0 || (a.eq x.0 y.0 && b.lt x.1 y.1)

  pub pair_eq_iff : (x y : A × B) → (pair_eq x y ≡ true) ↔ (x ≡ y)
  pair_eq_iff (x, u) (y, v) = (
    λ e.
        let p : x ≡ y = (a.eq_iff x y).0 (ground arith) in
        let q : u ≡ v = (b.eq_iff u v).0 (ground arith) in cc (p, q),
    λ e.
        let p : x ≡ y = ap (λ z. z.0) e in
        let q : u ≡ v = ap (λ z. z.1) e in ground (arith, (a.eq_iff x y).1 p, (b.eq_iff u v).1 q),
  )

  pub pair_lt_irrefl : (x : A × B) → pair_lt x x ≡ false
  pair_lt_irrefl (x, u) = ground (arith, a.lt_irrefl x, b.lt_irrefl u)

  pub pair_lt_trans : (x y z : A × B) → pair_lt x y ≡ true → pair_lt y z ≡ true → pair_lt x z ≡ true
  pair_lt_trans (x, u) (y, v) (z, w) h k =
      ground (arith, a.lt_trans x y z, b.lt_trans u v w, a.eq_iff x y, a.eq_iff y z, a.eq_iff x z)

  pub pair_lt_total : (x y : A × B) → pair_eq x y ≡ false → pair_lt x y ≡ false → pair_lt y x ≡ true
  pair_lt_total (x, u) (y, v) h k =
      ground (arith, a.lt_total x y, b.lt_total u v, a.eq_iff x y, a.eq_iff y x)

  instance abbrev pub pair_ordered : Ordered (A × B)
  pair_ordered = record {
    eq = pair_eq;
    lt = pair_lt;
    eq_iff = pair_eq_iff;
    lt_irrefl = pair_lt_irrefl;
    lt_trans = pair_lt_trans;
    lt_total = pair_lt_total;
  }

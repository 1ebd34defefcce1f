-- ===== src/Storage/Range/Selection.antt =====
-- `read_if` and `get_keys_if` return the records of the range that pass the predicate, in order.
use bluzelle.Base.{
  ◌≡◌, refl, ap, sym, ◌∙◌, Bool, true, false, not, ◌&&◌, ◌||◌, List, [], ◌∷◌, ◌++◌, Option, none,
  some, arith, length, filter, if◌then◌else◌, Bool-cases, inl, inr,
}
use mathlib.Core.List.{append_assoc, append-nil}
use bluzelle.Bytes.{Bytes, bytes_eq, bytes_lt, is_empty}
use bluzelle.Bytes.Order.{bytes_ordered, bytes_eq_iff}
use bluzelle.Map.{lookup, keys}
use bluzelle.Map.Sorted.{IsSorted}
use bluzelle.Storage.{MemStorage, Database, inner_db}
use bluzelle.Storage.Accounting.{IsValid, contents}
use bluzelle.Storage.Range.{
  Records, Predicate, passes, lower_bound, do_until, do_if, read_if, get_keys_if,
}
use bluzelle.Storage.Range.Bounds.{
  length-lower_bound-le, lt_of_lt_le, lt_asymm, From, Above-From, From-lower_bound,
  lower_bound-lower_bound, lower_bound-IsSorted,
}

-- An empty upper end means that there is none.
abbrev pub selects : Bytes → Bytes → Predicate → Bytes × Bytes → Bool
selects first last p (k, v) =
    not (bytes_lt k first) && (is_empty last || bytes_lt k last) && passes p k v

abbrev pub end_it : Bytes → Records → Records
end_it last m = if is_empty last then [] else lower_bound last m

none_selected :
    (first last : Bytes) (p : Predicate) (m : Records)
    → is_empty last ≡ false
    → From last m
    → filter (selects first last p) m ≡ []
unfolding filter
none_selected first last p [] e f = refl
none_selected first last p ((k, v) ∷ m) e f = ground (arith, none_selected first last p m e f.1)

-- Nothing lies in a range whose upper end is not above its lower end.
none_selected_between :
    (first last : Bytes) (p : Predicate) (m : Records)
    → (not (is_empty last) && (bytes_lt last first || bytes_eq last first)) ≡ true
    → filter (selects first last p) m ≡ []
unfolding filter
none_selected_between first last p [] h = refl
none_selected_between first last p ((k, v) ∷ m) h = ground (
  arith,
  none_selected_between first last p m h,
  lt_asymm k last,
  bytes_eq_iff last first,
  lt_of_lt_le k last first,
  lt_asymm last first,
)

module _ {A : Type 0} (p : Predicate) (action : A → Bytes → Bytes → A) where
  visit : Records → A → A
  visit [] a = a
  visit ((k, v) ∷ m) a = visit m (action a k v)

  -- Up to its end, the loop visits what the predicate lets through.
  do_until-visit :
      (first last : Bytes) (m : Records) (a : A)
      → IsSorted m
      → From first m
      → do_until p action (length (end_it last m)) m a ≡ visit (filter (selects first last p) m) a
  unfolding do_until visit filter lower_bound
  do_until-visit first last [] a s f = refl
  do_until-visit first [] ((k, v) ∷ m) a s f =
      ground (arith, do_until-visit first [] m (if passes p k v then action a k v else a) s.1 f.1)
  do_until-visit first (b ∷ bs) ((k, v) ∷ m) a s f = ground (
    arith,
    do_until-visit first (b ∷ bs) m (if passes p k v then action a k v else a) s.1 f.1,
    none_selected first (b ∷ bs) p m refl,
    Above-From (b ∷ bs) k m,
    length-lower_bound-le (b ∷ bs) m,
  )

  -- Entries below `first` are not selected.
  filter-lower_bound :
      (first last : Bytes) (m : Records)
      → IsSorted m
      → filter (selects first last p) (lower_bound first m) ≡ filter (selects first last p) m
  unfolding filter lower_bound
  filter-lower_bound first last [] s = refl
  filter-lower_bound first last ((k, v) ∷ m) s = ground (arith, filter-lower_bound first last m s.1)

  end_it-lower_bound :
      (first last : Bytes) (m : Records)
      → (not (is_empty last) && (bytes_lt last first || bytes_eq last first)) ≡ false
      → end_it last (lower_bound first m) ≡ end_it last m
  end_it-lower_bound first [] m h = refl
  end_it-lower_bound first (b ∷ bs) m h = lower_bound-lower_bound first (b ∷ bs) m (ground arith)

  do_if-visit :
      (s : MemStorage) (u first last : Bytes) (a : A)
      → IsValid s
      → do_if p action s u first last a ≡ visit (filter (selects first last p) (contents s u)) a
  unfolding do_if visit filter
  do_if-visit s u first last a v =
      elim (Bool-cases (not (is_empty last) && (bytes_lt last first || bytes_eq last first))) [
        | inl e ↦ rw (do_if, e, none_selected_between first last p (contents s u) e)
        | inr e ↦ rw (do_if, e) (go (lookup u s.kv_store) e (λ db f. (v.databases u db f).sorted))
      ]
    where
      go :
          (o : Option Database)
          → (not (is_empty last) && (bytes_lt last first || bytes_eq last first)) ≡ false
          → ((db : Database) → o ≡ some db → IsSorted db.records)
          → elim o as (λ _. A) [
            | none ↦ a
            | some db ↦
                do_until p action (length (end_it last db.records)) (lower_bound first db.records) a
          ]
            ≡ visit (filter (selects first last p) (inner_db o).records) a
      go none e sorted = refl
      go (some db) e sorted = rw (
        sym (end_it-lower_bound first last db.records e),
        do_until-visit first last (lower_bound first db.records) a
            (lower_bound-IsSorted first db.records (sorted db refl))
            (From-lower_bound first db.records (sorted db refl)),
        filter-lower_bound first last db.records (sorted db refl),
      )

visit-append : (p : Predicate) (m a : Records) → visit p (λ x k v. x ++ (k, v) ∷ []) m a ≡ a ++ m
unfolding visit
visit-append p [] a = sym (append-nil a)
visit-append p ((k, v) ∷ m) a = visit-append p m (a ++ (k, v) ∷ []) ∙ append_assoc a ((k, v) ∷ []) m

visit-append_key :
    (p : Predicate) (m : Records) (a : List Bytes)
    → visit p (λ x k v. x ++ k ∷ []) m a ≡ a ++ keys m
unfolding visit
visit-append_key p [] a = sym (append-nil a)
visit-append_key p ((k, v) ∷ m) a =
    visit-append_key p m (a ++ k ∷ []) ∙ append_assoc a (k ∷ []) (keys m)

-- In a valid storage and for any two ends, `read_if` returns the records of the database whose keys
-- lie between the ends and which pass the predicate, in key order; an empty upper end is no bound.
pub read_if-filter :
    (s : MemStorage) (u first last : Bytes) (p : Predicate)
    → IsValid s
    → read_if s u first last p ≡ filter (selects first last p) (contents s u)
unfolding read_if
read_if-filter s u first last p v =
    do_if-visit p (λ x k v. x ++ (k, v) ∷ []) s u first last [] v ∙ visit-append p _ []

-- In a valid storage and for any two ends, `get_keys_if` returns the keys of the records that
-- `read_if` returns, in the same order.
pub get_keys_if-read_if :
    (s : MemStorage) (u first last : Bytes) (p : Predicate)
    → IsValid s
    → get_keys_if s u first last p ≡ keys (read_if s u first last p)
unfolding get_keys_if
get_keys_if-read_if s u first last p v =
    do_if-visit p (λ x k v. x ++ k ∷ []) s u first last [] v
    ∙ visit-append_key p _ []
    ∙ ap keys (sym (read_if-filter s u first last p v))

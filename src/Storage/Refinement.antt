-- ===== src/Storage/Refinement.antt =====
-- What a client of storage/storage_base.hpp relies on: a storage is a partial function from a
-- database and a key to a value, and every call acts on that function alone.
use bluzelle.Base.{
  ◌≡◌, refl, ap, ◌∙◌, length, ◌%◌, ◌^◌, Bool, true, false, List, [], ◌∷◌, Option, none, some, arith,
  if◌then◌else◌,
}
use bluzelle.Bytes.{Bytes, bytes_eq}
use bluzelle.Storage.{
  MemStorage, StorageResult, ok, create, read, update, remove, has, remove_database, get_size,
}
use bluzelle.Storage.Lookup.{
  at, create_code, update_code, remove_code, create_result, update_result, remove_result,
  read-create, read-update, read-remove, read-remove_database, has-read,
}
use bluzelle.Storage.Accounting.{
  IsValid, contents, total, get_size-total, create-IsValid, update-IsValid, remove-IsValid,
  remove_database-IsValid,
}

pub data Call : Type 0 where
  creates updates : Bytes → Bytes → Bytes → Call
  removes reads asks : Bytes → Bytes → Call
  drops : Bytes → Call

pub data Answer : Type 0 where
  code : StorageResult → Answer
  value : Option Bytes → Answer
  present : Bool → Answer
  silent : Answer

-- The call on the storage. The result of `remove(uuid)` is not observed: it tells whether the
-- database was ever written to, and no caller reads it.
pub step : MemStorage → Call → MemStorage × Answer
step s (creates u k v) = let (s', r) = create s u k v in (s', code r)
step s (updates u k v) = let (s', r) = update s u k v in (s', code r)
step s (removes u k) = let (s', r) = remove s u k in (s', code r)
step s (reads u k) = (s, value (read s u k))
step s (asks u k) = (s, present (has s u k))
step s (drops u) = ((remove_database s u).0, silent)

abbrev pub Model : Type 0
Model = Bytes → Bytes → Option Bytes

-- The function with a new value at one place.
abbrev pub put : Model → Bytes → Bytes → Option Bytes → StorageResult → Model
put m u k new ok w j = if at u k w j then new else m w j
put m u k new _ w j = m w j

pub spec_step : Model → Call → Model × Answer
spec_step m (creates u k v) = let r = create_code k v (m u k) in (put m u k (some v) r, code r)
spec_step m (updates u k v) = let r = update_code v (m u k) in (put m u k (some v) r, code r)
spec_step m (removes u k) = let r = remove_code (m u k) in (put m u k none r, code r)
spec_step m (reads u k) = (m, value (m u k))
spec_step m (asks u k) = (m, present (elim (m u k) [ none ↦ false | some _ ↦ true ]))
spec_step m (drops u) = (λ w j. if bytes_eq u w then none else m w j, silent)

pub run : MemStorage → List Call → MemStorage × List Answer
run s [] = (s, [])
run s (c ∷ cs) = let (s', a) = step s c in let (t, as') = run s' cs in (t, a ∷ as')

pub spec_run : Model → List Call → Model × List Answer
spec_run m [] = (m, [])
spec_run m (c ∷ cs) = let (m', a) = spec_step m c in let (n, as') = spec_run m' cs in (n, a ∷ as')

abbrev pub Represents : Model → MemStorage → Type 0
Represents m s = (w j : Bytes) → read s w j ≡ m w j

put-Represents :
    (m : Model) (s s' : MemStorage) (u k : Bytes) (new : Option Bytes) (r : StorageResult)
    → Represents m s
    → ((w j : Bytes)
        → read s' w j ≡ elim r [ ok ↦ (if at u k w j then new else read s w j) | _ ↦ read s w j ])
    → Represents (put m u k new r) s'
put-Represents m s s' u k new ok h e w j = ground (arith, h w j, e w j)
put-Represents m s s' u k new _ h e w j = e w j ∙ h w j

abbrev Agree : Model → MemStorage → Call → Type 0
Agree m s c = Represents (spec_step m c).0 (step s c).0 × ((step s c).1 ≡ (spec_step m c).1)

step_refines : (m : Model) (s : MemStorage) (c : Call) → Represents m s → Agree m s c
unfolding step spec_step
step_refines m s (creates u k v) h =
    let e : (create s u k v).1 ≡ create_code k v (m u k) = rw (← h u k) (create_result s u k v) in
    (rw (← e) (put-Represents m s _ u k (some v) _ h (read-create s u k v)), ap code e)
step_refines m s (updates u k v) h =
    let e : (update s u k v).1 ≡ update_code v (m u k) = rw (← h u k) (update_result s u k v) in
    (rw (← e) (put-Represents m s _ u k (some v) _ h (read-update s u k v)), ap code e)
step_refines m s (removes u k) h =
    let e : (remove s u k).1 ≡ remove_code (m u k) = rw (← h u k) (remove_result s u k) in
    (rw (← e) (put-Represents m s _ u k none _ h (read-remove s u k)), ap code e)
step_refines m s (reads u k) h = (h, ap value (h u k))
step_refines m s (asks u k) h = (h, ap present (rw (← h u k) (has-read s u k)))
step_refines m s (drops u) h = (λ w j. rw (← h w j) (read-remove_database s u w j), refl)

-- From a storage whose reads are those of a partial function, any sequence of calls gives the
-- answers that the specification gives on that function, and ends in a storage whose reads are
-- those of the function it leads to.
pub run_refines :
    (m : Model) (s : MemStorage) (cs : List Call)
    → Represents m s
    → Represents (spec_run m cs).0 (run s cs).0 × ((run s cs).1 ≡ (spec_run m cs).1)
unfolding run spec_run
run_refines m s [] h = (h, refl)
run_refines m s (c ∷ cs) h =
    let (h', e) = step_refines m s c h in
    let (g, f) = run_refines (spec_step m c).0 (step s c).0 cs h' in (g, cc (e, f))

step-IsValid : (s : MemStorage) (c : Call) → IsValid s → IsValid (step s c).0
unfolding step
step-IsValid s (creates u k v) h = create-IsValid s u k v h
step-IsValid s (updates u k v) h = update-IsValid s u k v h
step-IsValid s (removes u k) h = remove-IsValid s u k h
step-IsValid s (drops u) h = remove_database-IsValid s u h
step-IsValid s _ h = h

pub run-IsValid : (s : MemStorage) (cs : List Call) → IsValid s → IsValid (run s cs).0
unfolding run
run-IsValid s [] h = h
run-IsValid s (c ∷ cs) h = run-IsValid (step s c).0 cs (step-IsValid s c h)

-- After any sequence of calls from a valid storage the size that is reported of any database is the
-- number of its records and the sum of their sizes modulo 2^32.
pub get_size-run :
    (s : MemStorage) (cs : List Call) (u : Bytes)
    → IsValid s
    → get_size (run s cs).0 u
      ≡ (length (contents (run s cs).0 u), total (contents (run s cs).0 u) % 2 ^ 32)
get_size-run s cs u h = get_size-total (run s cs).0 u (run-IsValid s cs h)

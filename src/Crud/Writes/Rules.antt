-- ===== src/Crud/Writes/Rules.antt =====
-- The rules by which a property of storages is followed through the handlers of crud/crud.cpp.
use bluzelle.Base.{refl, ℕ, ◌≡◌, Bool, true, false, Option, none, some, if◌then◌else◌}
use bluzelle.Bytes.{Bytes}
use bluzelle.Storage
use bluzelle.Storage.{MemStorage, StorageResult}
use bluzelle.Policy.VolatileTtl.{ttl_uuid}
use bluzelle.Protocol.{Request, Body}
use bluzelle.Crud.State.{
  Crud, Context, Result, done, thrown, ◌>>=◌, Outcome, Failure, finished, failed, after, attempt,
  choose, respond, send_response,
}
use bluzelle.Crud.Permissions.{permission_uuid}
use bluzelle.Crud.Expiration.{expire_key}

-- The writes that a request for the database `u` may make keep `P`.
pub record Closed (ctx : Context) (u : Bytes) (P : MemStorage → Type 0) : Type 0 where
  pub create : (s : MemStorage) (k v : Bytes) → P s → P (Storage.create s u k v).0
  pub update : (s : MemStorage) (k v : Bytes) → P s → P (Storage.update s u k v).0
  pub remove : (s : MemStorage) (k : Bytes) → P s → P (Storage.remove s u k).0
  pub drop : (s : MemStorage) → P s → P (Storage.remove_database s u).0
  pub create_ttl :
      (s : MemStorage) (k v : Bytes) → P s → P (Storage.create s ttl_uuid (expire_key ctx u k) v).0
  pub update_ttl :
      (s : MemStorage) (k v : Bytes) → P s → P (Storage.update s ttl_uuid (expire_key ctx u k) v).0
  pub remove_ttl :
      (s : MemStorage) (k : Bytes) → P s → P (Storage.remove s ttl_uuid (expire_key ctx u k)).0
  pub flush_ttl :
      (s : MemStorage) (g k : Bytes)
      → ctx.codec.parse_expire_key g ≡ some (u, k)
      → P s
      → P (Storage.remove s ttl_uuid g).0
  pub create_permissions :
      (s : MemStorage) (v : Bytes) → P s → P (Storage.create s permission_uuid u v).0
  pub update_permissions :
      (s : MemStorage) (v : Bytes) → P s → P (Storage.update s permission_uuid u v).0
  pub remove_permissions : (s : MemStorage) → P s → P (Storage.remove s permission_uuid u).0

-- The part of it that concerns the expiry of the database's records.
pub record ClosedExpiry (ctx : Context) (u : Bytes) (P : MemStorage → Type 0) : Type 0 where
  pub create_ttl :
      (s : MemStorage) (k v : Bytes) → P s → P (Storage.create s ttl_uuid (expire_key ctx u k) v).0
  pub update_ttl :
      (s : MemStorage) (k v : Bytes) → P s → P (Storage.update s ttl_uuid (expire_key ctx u k) v).0
  pub remove_ttl :
      (s : MemStorage) (k : Bytes) → P s → P (Storage.remove s ttl_uuid (expire_key ctx u k)).0

abbrev pub expiry_of :
    {ctx : Context} {u : Bytes} {P : MemStorage → Type 0} → Closed ctx u P → ClosedExpiry ctx u P
expiry_of closed = record {
  create_ttl = closed.create_ttl;
  update_ttl = closed.update_ttl;
  remove_ttl = closed.remove_ttl;
}

-- The property holds of the storage that the outcome leaves.
pub record Leaves (P : MemStorage → Type 0) (o : Outcome) : Type 0 where
  pub left : P (after o).storage

module _ {P : MemStorage → Type 0} where
  pub Leaves-finished : (c : Crud) → P c.storage → Leaves P (finished c)
  Leaves-finished c h = record { left = h }

  pub Leaves-failed : (e : Failure) (c : Crud) → P c.storage → Leaves P (failed e c)
  Leaves-failed e c h = record { left = h }

  pub Leaves-respond :
      (c : Crud) (r : Request) (result : StorageResult) (body : Body) (session : Option ℕ)
      → P c.storage
      → Leaves P (respond c r result body session)
  unfolding send_response
  Leaves-respond c r result body session h = record { left = h }

  pub Leaves-if :
      (b : Bool) (x y : Outcome) → Leaves P x → Leaves P y → Leaves P (if b then x else y)
  Leaves-if true x y h k = h
  Leaves-if false x y h k = k

  pub Leaves-attempt :
      {A : Type 0} (c : Crud) (r : Result A) (f : A → Outcome)
      → P c.storage
      → ((a : A) → Leaves P (f a))
      → Leaves P (attempt c r f)
  Leaves-attempt c (done a) f h k = k a
  Leaves-attempt c (thrown e) f h k = record { left = h }

  pub Leaves-choose :
      {A : Type 0} (x : Option A) (n : Outcome) (f : A → Outcome)
      → Leaves P n
      → ((a : A) → Leaves P (f a))
      → Leaves P (choose x n f)
  Leaves-choose none n f h k = h
  Leaves-choose (some a) n f h k = k a

pub ruleset leaves =
    (Leaves-respond, Leaves-finished, Leaves-failed, Leaves-if, Leaves-attempt, Leaves-choose)

-- The property holds of the value, if there is one.
abbrev pub Holds : {A : Type 0} → (A → Type 0) → Result A → Type 0
Holds Q (done a) = Q a
Holds Q (thrown e) = Unit

abbrev pub AllSome : {A : Type 0} → (A → Type 0) → Option A → Type 0
AllSome Q none = Unit
AllSome Q (some a) = Q a

pub Holds-if :
    {A : Type 0} (Q : A → Type 0) (b : Bool) (x y : Result A)
    → Holds Q x
    → Holds Q y
    → Holds Q (if b then x else y)
Holds-if Q true x y h k = h
Holds-if Q false x y h k = k

pub Holds-bind :
    {A B : Type 0} (Q : B → Type 0) (r : Result A) (f : A → Result B)
    → ((a : A) → Holds Q (f a))
    → Holds Q (r >>= f)
Holds-bind Q (done a) f h = h a
Holds-bind Q (thrown e) f h = tt

module _ {P : MemStorage → Type 0} {A : Type 0} {Q : A → Type 0} where
  pub Leaves-attempt_of :
      (c : Crud) (r : Result A) (f : A → Outcome)
      → P c.storage
      → Holds Q r
      → ((a : A) → Q a → Leaves P (f a))
      → Leaves P (attempt c r f)
  Leaves-attempt_of c (done a) f h q k = k a q
  Leaves-attempt_of c (thrown e) f h q k = record { left = h }

  pub Leaves-choose_of :
      (x : Option A) (n : Outcome) (f : A → Outcome)
      → Leaves P n
      → AllSome Q x
      → ((a : A) → Q a → Leaves P (f a))
      → Leaves P (choose x n f)
  Leaves-choose_of none n f h q k = h
  Leaves-choose_of (some a) n f h q k = k a q

pub Holds-of :
    {A : Type 0} (Q : A → Type 0) (r : Result A) → ((a : A) → r ≡ done a → Q a) → Holds Q r
Holds-of Q (done a) h = h a refl
Holds-of Q (thrown e) h = tt

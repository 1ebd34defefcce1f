-- ===== src/Crud/Isolation.antt =====
-- A request touches its own database alone.
use bluzelle.Base.{
  ℕ, ◌≡◌, refl, sym, ap, ◌∙◌, ◌≢◌, Bool, false, Option, none, some, arith, if◌then◌else◌,
}
use bluzelle.Bytes.{Bytes, bytes_eq}
use bluzelle.Bytes.Order.{bytes_eq_iff}
use bluzelle.Codec.{IsFaithful}
use bluzelle.Storage
use bluzelle.Storage.{MemStorage, StorageResult, ok, read}
use bluzelle.Storage.Lookup.{
  Writes, at, read-create, read-update, read-remove, read-remove_database,
}
use bluzelle.Storage.Accounting.{
  IsValid, create-IsValid, update-IsValid, remove-IsValid, remove_database-IsValid,
}
use bluzelle.Policy.VolatileTtl.{ttl_uuid}
use bluzelle.Protocol.{Request}
use bluzelle.Crud.State.{Crud, Context, after}
use bluzelle.Crud.Permissions.{permission_uuid}
use bluzelle.Crud.Expiration.{expire_key}
use bluzelle.Crud.Requests.{handle_request}
use bluzelle.Crud.Writes.Rules.{Closed}
use bluzelle.Crud.Writes.Every.{handle_request-Leaves}

IsValid-Closed : (ctx : Context) (u : Bytes) → Closed ctx u IsValid
IsValid-Closed ctx u = record {
  create = λ s k v h. create-IsValid s u k v h;
  update = λ s k v h. update-IsValid s u k v h;
  remove = λ s k h. remove-IsValid s u k h;
  drop = λ s h. remove_database-IsValid s u h;
  create_ttl = λ s k v h. create-IsValid s ttl_uuid (expire_key ctx u k) v h;
  update_ttl = λ s k v h. update-IsValid s ttl_uuid (expire_key ctx u k) v h;
  remove_ttl = λ s k h. remove-IsValid s ttl_uuid (expire_key ctx u k) h;
  flush_ttl = λ s g k e h. remove-IsValid s ttl_uuid g h;
  create_permissions = λ s v h. create-IsValid s permission_uuid u v h;
  update_permissions = λ s v h. update-IsValid s permission_uuid u v h;
  remove_permissions = λ s h. remove-IsValid s permission_uuid u h;
}

-- If the databases are in strict order, the records of each too, and each byte counter is the sum
-- of the record sizes modulo 2^32, then so it is after any request, on every branch and also where
-- the handler throws.
pub handle_request-IsValid :
    (ctx : Context) (c : Crud) (caller : Bytes) (r : Request) (session : Option ℕ)
    → IsValid c.storage
    → IsValid (after (handle_request ctx c caller r session)).storage
handle_request-IsValid ctx c caller r session h =
    (handle_request-Leaves ctx c r session (IsValid-Closed ctx r.header.db_uuid) h caller).left

-- An identifier that is none of the two tables that crud keeps for itself.
pub record IsPlain (u : Bytes) : Type 0 where
  pub not_permissions : u ≢ permission_uuid
  pub not_ttl : u ≢ ttl_uuid

-- What another database sees: its records, its permissions and its expiry times.
pub record SameFor (ctx : Context) (w : Bytes) (s s' : MemStorage) : Type 0 where
  pub records : (j : Bytes) → read s' w j ≡ read s w j
  pub permissions : read s' permission_uuid w ≡ read s permission_uuid w
  pub expiry :
      (j : Bytes) → read s' ttl_uuid (expire_key ctx w j) ≡ read s ttl_uuid (expire_key ctx w j)

eq_false : (x y : Bytes) → x ≢ y → bytes_eq x y ≡ false
eq_false x y h = ground (arith, bytes_eq_iff x y)

missed :
    (r : StorageResult) (b : Bool) (new old : Option Bytes)
    → b ≡ false
    → elim r [ ok ↦ (if b then new else old) | _ ↦ old ] ≡ old
missed ok b new old e = rw e
missed _ b new old e = refl

-- A write at a place that the other database does not see.
SameFor-write :
    (ctx : Context) (w v k : Bytes) (new : Option Bytes) (s₀ s : MemStorage)
    (r : MemStorage × StorageResult)
    → SameFor ctx w s₀ s
    → Writes s v k new r
    → ((j : Bytes) → at v k w j ≡ false)
    → at v k permission_uuid w ≡ false
    → ((j : Bytes) → at v k ttl_uuid (expire_key ctx w j) ≡ false)
    → SameFor ctx w s₀ r.0
SameFor-write ctx w v k new s₀ s r h e a b c = record {
  records = λ j. e w j ∙ missed r.1 (at v k w j) new (read s w j) (a j) ∙ h.records j;
  permissions =
      e permission_uuid w
      ∙ missed r.1 (at v k permission_uuid w) new (read s permission_uuid w) b
      ∙ h.permissions;
  expiry = λ j.
      e ttl_uuid (expire_key ctx w j)
      ∙ missed r.1 (at v k ttl_uuid (expire_key ctx w j)) new (read s ttl_uuid (expire_key ctx w j))
          (c j)
      ∙ h.expiry j;
}

permissions_ne_ttl : bytes_eq permission_uuid ttl_uuid ≡ false
unfolding bytes_eq
permissions_ne_ttl = refl

ttl_ne_permissions : bytes_eq ttl_uuid permission_uuid ≡ false
unfolding bytes_eq
ttl_ne_permissions = refl

module _ (ctx : Context) (faithful : IsFaithful ctx.codec) (u w : Bytes) (s₀ : MemStorage)
    (plain_u : IsPlain u) (plain_w : IsPlain w) (other : u ≢ w) where
  -- The key of an entry for `u` is the key of no entry for `w`.
  entry_ne :
      (g k j : Bytes)
      → ctx.codec.parse_expire_key g ≡ some (u, k)
      → bytes_eq g (expire_key ctx w j) ≡ false
  unfolding expire_key
  entry_ne g k j e =
      eq_false g (ctx.codec.write_expire_key w j)
        (λ p. other (cc (e, ap ctx.codec.parse_expire_key p, faithful.expire_key w j)))

  own_entry_ne : (k j : Bytes) → bytes_eq (expire_key ctx u k) (expire_key ctx w j) ≡ false
  unfolding expire_key
  own_entry_ne k j = entry_ne (ctx.codec.write_expire_key u k) k j (faithful.expire_key u k)

  module _ (s : MemStorage) (k : Bytes) (new : Option Bytes) (r : MemStorage × StorageResult) where
    own_record : SameFor ctx w s₀ s → Writes s u k new r → SameFor ctx w s₀ r.0
    own_record h e =
        SameFor-write ctx w u k new s₀ s r h e (λ j. rw (eq_false u w other))
          (rw (eq_false u permission_uuid plain_u.not_permissions))
          (λ j. rw (eq_false u ttl_uuid plain_u.not_ttl))

    ttl_entry :
        ((j : Bytes) → bytes_eq k (expire_key ctx w j) ≡ false)
        → SameFor ctx w s₀ s
        → Writes s ttl_uuid k new r
        → SameFor ctx w s₀ r.0
    ttl_entry miss h e =
        SameFor-write ctx w ttl_uuid k new s₀ s r h e
          (λ j. rw (eq_false ttl_uuid w (λ p. plain_w.not_ttl (sym p)))) (rw ttl_ne_permissions)
          (λ j. ground (arith, miss j))

  own_permissions :
      (s : MemStorage) (new : Option Bytes) (r : MemStorage × StorageResult)
      → SameFor ctx w s₀ s
      → Writes s permission_uuid u new r
      → SameFor ctx w s₀ r.0
  own_permissions s new r h e =
      SameFor-write ctx w permission_uuid u new s₀ s r h e
        (λ j. rw (eq_false permission_uuid w (λ p. plain_w.not_permissions (sym p))))
        (ground (arith, eq_false u w other)) (λ j. rw permissions_ne_ttl)

  dropped : (s : MemStorage) → SameFor ctx w s₀ s → SameFor ctx w s₀ (Storage.remove_database s u).0
  dropped s h = record {
    records = λ j. read-remove_database s u w j ∙ rw (eq_false u w other) (h.records j);
    permissions =
        read-remove_database s u permission_uuid w
        ∙ rw (eq_false u permission_uuid plain_u.not_permissions) h.permissions;
    expiry = λ j.
        read-remove_database s u ttl_uuid (expire_key ctx w j)
        ∙ rw (eq_false u ttl_uuid plain_u.not_ttl) (h.expiry j);
  }

  SameFor-Closed : Closed ctx u (SameFor ctx w s₀)
  SameFor-Closed = record {
    create = λ s k v h. own_record s k (some v) _ h (read-create s u k v);
    update = λ s k v h. own_record s k (some v) _ h (read-update s u k v);
    remove = λ s k h. own_record s k none _ h (read-remove s u k);
    drop = dropped;
    create_ttl = λ s k v h.
        ttl_entry s _ (some v) _ (own_entry_ne k) h (read-create s ttl_uuid (expire_key ctx u k) v);
    update_ttl = λ s k v h.
        ttl_entry s _ (some v) _ (own_entry_ne k) h (read-update s ttl_uuid (expire_key ctx u k) v);
    remove_ttl = λ s k h.
        ttl_entry s _ none _ (own_entry_ne k) h (read-remove s ttl_uuid (expire_key ctx u k));
    flush_ttl =
        λ s g k e h. ttl_entry s g none _ (λ j. entry_ne g k j e) h (read-remove s ttl_uuid g);
    create_permissions =
        λ s v h. own_permissions s (some v) _ h (read-create s permission_uuid u v);
    update_permissions =
        λ s v h. own_permissions s (some v) _ h (read-update s permission_uuid u v);
    remove_permissions = λ s h. own_permissions s none _ h (read-remove s permission_uuid u);
  }

-- With a codec that reads back what it writes, a request for one database changes no record,
-- permission or expiry of a different one, however it ends, if neither of the two is named PERMS or
-- TTL.
pub handle_request-SameFor :
    (ctx : Context) (c : Crud) (caller : Bytes) (r : Request) (session : Option ℕ) (w : Bytes)
    → IsFaithful ctx.codec
    → IsPlain r.header.db_uuid
    → IsPlain w
    → r.header.db_uuid ≢ w
    → SameFor ctx w c.storage (after (handle_request ctx c caller r session)).storage
handle_request-SameFor ctx c caller r session w faithful plain_u plain_w other =
    (handle_request-Leaves ctx c r session
      (SameFor-Closed ctx faithful r.header.db_uuid w c.storage plain_u plain_w other)
      (record { records = λ j. refl; permissions = refl; expiry = λ j. refl }) caller).left

-- ===== src/Crud/Expiry.antt =====
-- The life of a record with an expiry, from the request that sets it to the second in which it is
-- due.
use bluzelle.Base.{
  ℕ, ◌+◌, ◌-◌, ◌%◌, ◌^◌, ◌<◌, ◌≡◌, refl, false, Option, none, some, arith, if◌then◌else◌, leb, ◌==◌,
  Bool-cases, inl, inr,
}
use bluzelle.Bytes.{Bytes}
use bluzelle.Codec.{IsFaithful}
use bluzelle.Storage
use bluzelle.Storage.{MemStorage, StorageResult, ok, read}
use bluzelle.Storage.Lookup.{read-create_self, read-update_self, read-remove_self}
use bluzelle.Policy.{sub64}
use bluzelle.Policy.VolatileTtl.{ttl_uuid}
use bluzelle.Crud.State.{Context, done, done-injective}
use bluzelle.Crud.Expiration.{
  expire_key, update_expiration_entry, remove_expiration_entry, created, updated, expired, get_ttl,
}

-- The text in the expiry table after an entry has been set.
abbrev pub entry_text : Context → ℕ → Option Bytes
entry_text ctx e = if e == 0 then none else some (ctx.codec.write_number ((ctx.now + e) % 2 ^ 64))

updated_done :
    (ctx : Context) (w : MemStorage × StorageResult) (s' : MemStorage)
    → updated ctx w ≡ done s'
    → (w.1 ≡ ok) × (w.0 ≡ s')
updated_done ctx (t, ok) s' h = (refl, cc h)
updated_done ctx (t, _) s' h = cc

created-read :
    (ctx : Context) (s : MemStorage) (g x : Bytes) (w : MemStorage × StorageResult)
    (s' : MemStorage)
    → (w.1 ≡ ok → read w.0 ttl_uuid g ≡ some x)
    → created ctx s g x w ≡ done s'
    → read s' ttl_uuid g ≡ some x
created-read ctx s g x (t, ok) s' h e = rw (← done-injective e) (h refl)
created-read ctx s g x (t, _) s' h e =
    let (a, b) = updated_done ctx (Storage.update t ttl_uuid g x) s' e in
    rw (← b) (read-update_self t ttl_uuid g x a)

-- An entry that was set reads as the time at which it is due, or is gone if that was to be never.
pub read-update_expiration_entry :
    (ctx : Context) (s s' : MemStorage) (g : Bytes) (e : ℕ)
    → update_expiration_entry ctx s g e ≡ done s'
    → read s' ttl_uuid g ≡ entry_text ctx e
unfolding update_expiration_entry remove_expiration_entry
read-update_expiration_entry ctx s s' g e h = elim (Bool-cases (e == 0)) [
  | inl z ↦
      rw z (
        rw (← done-injective (rw (update_expiration_entry, z) at h))
          (read-remove_self s ttl_uuid g))
  | inr z ↦ rw z (
      created-read ctx s g _ _ s' (read-create_self s ttl_uuid g _)
        (rw (update_expiration_entry, z) at h))
]

-- When an expiry of `e` seconds has been set at `now`, with a codec that reads back what it writes
-- and `now + e` below 2^64, then the record counts as expired at a time `later` exactly if `now +
-- e` is not after it, and never if `e` is zero.
pub expired-update_expiration_entry :
    (ctx : Context) (s s' : MemStorage) (u k : Bytes) (e later : ℕ)
    → IsFaithful ctx.codec
    → ctx.now + e < 2 ^ 64
    → update_expiration_entry ctx s (expire_key ctx u k) e ≡ done s'
    → expired (record ctx { now = later }) s' u k
      ≡ done (if e == 0 then false else leb (ctx.now + e) later)
unfolding expired expire_key
expired-update_expiration_entry ctx s s' u k e later faithful range h = elim (Bool-cases (e == 0)) [
  | inl z ↦ rw (expired, set, z)
  | inr z ↦ rw (expired, set, z, small, faithful.number (ctx.now + e) range)
]
  where
    set : read s' ttl_uuid (expire_key ctx u k) ≡ entry_text ctx e
    set = read-update_expiration_entry ctx s s' (expire_key ctx u k) e h

    small : (ctx.now + e) % 2 ^ 64 ≡ ctx.now + e
    small = omega arith

-- When an expiry of `e > 0` seconds has been set at `now`, with a codec that reads back what it
-- writes and `now + e` below 2^64, then the time to live that is reported at `later`, both readings
-- of the clock taken there, is `now + e - later`, or zero once that is past.
pub get_ttl-update_expiration_entry :
    (ctx : Context) (s s' : MemStorage) (u k : Bytes) (e later : ℕ)
    → IsFaithful ctx.codec
    → ctx.now + e < 2 ^ 64
    → 0 < e
    → update_expiration_entry ctx s (expire_key ctx u k) e ≡ done s'
    → get_ttl (record ctx { now = later; now_again = later }) s' u k
      ≡ done (some (ctx.now + e - later))
unfolding get_ttl expire_key sub64
get_ttl-update_expiration_entry ctx s s' u k e later faithful range pos h =
    rw (get_ttl, set, z, small, faithful.number (ctx.now + e) range) (ground arith)
  where
    z : (e == 0) ≡ false
    z = ground arith

    set : read s' ttl_uuid (expire_key ctx u k) ≡ entry_text ctx e
    set = read-update_expiration_entry ctx s s' (expire_key ctx u k) e h

    small : (ctx.now + e) % 2 ^ 64 ≡ ctx.now + e
    small = omega arith

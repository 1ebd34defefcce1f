-- ===== src/Codec.antt =====
-- The texts that crud stores, and the third-party code that writes and reads them: JsonCpp for the
-- permissions of a database and for the keys of the expiry table, `boost::lexical_cast` for
-- numbers, `boost::trim_copy` for identifiers. All of it is a parameter.
pub mod Plain
use bluzelle.Base.{ℕ, ◌^◌, ◌<◌, ◌≡◌, List, Option, some}
use bluzelle.Bytes.{Bytes}

-- The four members of the JSON object that describes a database.
pub record Permissions : Type 0 where
  pub owner : Bytes
  pub writers : List Bytes
  pub max_size : ℕ
  pub eviction_policy : ℕ

pub record Codec : Type 0 where
  pub trim : Bytes → Bytes
  pub write_permissions : Permissions → Bytes
  pub parse_permissions : Bytes → Option Permissions
  -- {"uuid": …, "key": …}, styled
  pub write_expire_key : Bytes → Bytes → Bytes
  pub parse_expire_key : Bytes → Option (Bytes × Bytes)
  pub write_number : ℕ → Bytes
  pub parse_number : Bytes → Option ℕ

-- What is written is read back.
pub record IsFaithful (c : Codec) : Type 0 where
  pub permissions : (p : Permissions) → c.parse_permissions (c.write_permissions p) ≡ some p
  pub expire_key : (u k : Bytes) → c.parse_expire_key (c.write_expire_key u k) ≡ some (u, k)
  pub number : (n : ℕ) → n < 2 ^ 64 → c.parse_number (c.write_number n) ≡ some n

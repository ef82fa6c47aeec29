-- ===== src/Checkout/KeySet.antt =====
-- src/checkout/key_set.c: the signing keys that a caller trusts, by their key ids.
pub mod Keys
pub mod Store
pub mod Merge
pub mod Select
mod Runs
use tamga_c.Prelude.{ℕ, Bytes, List}

-- `key_id` is what `strcmp` sees of the copied id; `public_key` has 32 bytes.
pub record Entry : Type 0 where
  pub key_id : Bytes
  pub public_key : Bytes

-- `entries` is entries[0 .. count); the array is NULL exactly while `capacity` is 0.
pub record KeySet : Type 0 where
  pub entries : List Entry
  pub capacity : ℕ

-- ===== src/Checkout/Claims.antt =====
-- src/checkout/claims.c: the claims inside the signed payload, and the expiry.
pub mod Expiry
mod Runs
use tamga_c.Prelude.{Bool, true, false, Option, none, some, ◌&&◌, not, if◌then◌else◌, codes, ℕ, ◌+◌}
use tamga_c.Prelude.Int.{ℤ, pos, ◌-ℤ◌, ltb_ℤ}
use tamga_c.Memory.Exec.{Result, ok, err}
use tamga_c.Errors.{ErrorCode, invalid_json}
use tamga_c.Json.{Json, Doubles, object_get, as_object, as_int, is_null}

-- TamgaFileClaims: `expiry` is there exactly while `has_expiry` is set.
pub record Claims : Type 0 where
  pub issued_at : ℤ
  pub expiry : Option ℤ

abbrev pub skew_tolerance : ℤ
skew_tolerance = pos 60

issued : Option ℤ → ℤ
issued none = pos 0
issued (some value) = value

with_expiry : ℤ → Option ℤ → Result ErrorCode Claims
with_expiry iat none = err invalid_json
with_expiry iat (some value) = ok (record { issued_at = iat; expiry = some value })

read_object : Doubles → Option Json → Result ErrorCode Claims
read_object d none = err invalid_json
read_object d (some meta) =
    let iat = issued (as_int d (object_get (some meta) (codes "iat"))) in
    let exp = object_get (some meta) (codes "exp") in
    if is_null exp
    then ok (record { issued_at = iat; expiry = none })
    else with_expiry iat (as_int d exp)

-- tamga_claims_read, its out-pointer not NULL.
unfoldable pub claims_read : Doubles → Option Json → Result ErrorCode Claims
unfolding read_object with_expiry issued
claims_read d meta = read_object d (as_object meta)

past : Option ℤ → ℤ → Bool
past none now = false
past (some expiry) now =
    if ltb_ℤ now skew_tolerance then false else ltb_ℤ expiry (now -ℤ skew_tolerance)

-- tamga_claims_are_expired. The difference is taken of a `now` of at least the tolerance only, so
-- it is the difference of int64_t too.
unfoldable pub are_expired : Claims → ℤ → Bool
unfolding past
are_expired claims now = past claims.expiry now

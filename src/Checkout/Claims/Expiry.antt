-- ===== src/Checkout/Claims/Expiry.antt =====
-- When claims have expired, and which expiry is read.
use tamga_c.Prelude.{
  ◌≡◌, ◌↔◌, ◌⊎◌, inl, inr, sym, ap, true, false, Option, none, some, arith, if◌then◌else◌,
  Bool-cases, Option-cases, codes,
}
use tamga_c.Prelude.Int.{ℤ, pos, negsuc, ◌+ℤ◌, ◌-ℤ◌, ◌≤ℤ◌, ◌<ℤ◌, ltb_ℤ}
use tamga_c.Memory.Exec.{ok, ok-injective}
use tamga_c.Json.{
  Json, null, boolean, integer, real, string, array, object, Doubles, object_get, as_object, as_int,
  is_null,
}
use tamga_c.Checkout.Claims.{
  Claims, skew_tolerance, read_object, with_expiry, claims_read, are_expired,
}

past_iff :
    (e now : ℤ)
    → ((if ltb_ℤ now skew_tolerance then false else ltb_ℤ e (now -ℤ skew_tolerance)) ≡ true)
      ↔ ((skew_tolerance ≤ℤ now) × ((e +ℤ skew_tolerance) <ℤ now))
past_iff (pos e) (pos now) = ground arith
past_iff (pos e) (negsuc now) = ground arith
past_iff (negsuc e) (pos now) = ground arith
past_iff (negsuc e) (negsuc now) = ground arith

-- Claims have expired exactly where they have an expiry and the clock, at 60 seconds or later, is
-- more than 60 seconds past it.
pub are_expired_iff :
    (claims : Claims) (now : ℤ)
    → (are_expired claims now ≡ true) ↔ (
        (e : ℤ) × (claims.expiry ≡ some e)
        × (skew_tolerance ≤ℤ now)
        × ((e +ℤ skew_tolerance) <ℤ now))
unfolding are_expired
are_expired_iff claims now = (
  (λ h. elim (Option-cases claims.expiry) [
    | inl never ↦ absurd (cc (simp never at h))
    | inr (e, there) ↦
        let (late, past) = (past_iff e now).0 (simp there at h) in (e, there, late, past)
  ]),
  λ (e, there, late, past). simp there ((past_iff e now).1 (late, past)),
)

later_lem :
    (e now later : ℤ)
    → now ≤ℤ later
    → (skew_tolerance ≤ℤ now) × ((e +ℤ skew_tolerance) <ℤ now)
    → (skew_tolerance ≤ℤ later) × ((e +ℤ skew_tolerance) <ℤ later)
later_lem (pos e) (pos now) (pos later) h k = ground arith
later_lem (negsuc e) (pos now) (pos later) h k = ground arith
later_lem e (pos now) (negsuc later) h (k, _) = absurd (omega arith)
later_lem e (negsuc now) later h (k, _) = absurd (omega arith)

-- Claims that have expired stay expired.
pub are_expired-later :
    (claims : Claims) (now later : ℤ)
    → now ≤ℤ later
    → are_expired claims now ≡ true
    → are_expired claims later ≡ true
are_expired-later claims now later h expired_now =
    let (e, there, late, past) = (are_expired_iff claims now).0 expired_now in
    let (late', past') = later_lem e now later h (late, past) in
    (are_expired_iff claims later).1 (e, there, late', past')

abbrev exp_of : Json → Option Json
exp_of meta = object_get (some meta) (codes "exp")

read_object_lem :
    (d : Doubles) (meta : Json) (claims : Claims)
    → read_object d (some meta) ≡ ok claims
    → ((is_null (exp_of meta) ≡ true) × (claims.expiry ≡ none))
      ⊎ ((e : ℤ) × (as_int d (exp_of meta) ≡ some e) × (claims.expiry ≡ some e))
unfolding read_object with_expiry
read_object_lem d meta claims h = elim (Bool-cases (is_null (exp_of meta))) [
  | inl nothing ↦
      inl (nothing, ap (λ (c : Claims). c.expiry) (sym (ok-injective (rw nothing at h))))
  | inr there ↦ elim (Option-cases (as_int d (exp_of meta))) [
    | inl no_integer ↦ absurd (cc (rw (there, no_integer) at h))
    | inr (e, whole) ↦
        inr (e, whole, ap (λ (c : Claims). c.expiry) (sym (ok-injective (rw (there, whole) at h))))
  ]
]

-- Claims that are read have no expiry only where `exp` is missing or null; otherwise the expiry is
-- the integer that `exp` stands for. An `exp` of another kind is never taken for no expiry.
pub claims_read-expiry :
    (d : Doubles) (meta : Json) (claims : Claims)
    → claims_read d (some meta) ≡ ok claims
    → ((is_null (object_get (some meta) (codes "exp")) ≡ true) × (claims.expiry ≡ none))
      ⊎ ((e : ℤ) × (as_int d (object_get (some meta) (codes "exp")) ≡ some e)
          × (claims.expiry ≡ some e))
unfolding claims_read as_object read_object
claims_read-expiry d (object members) claims h = read_object_lem d (object members) claims h
claims_read-expiry d null claims h = cc
claims_read-expiry d (boolean b) claims h = cc
claims_read-expiry d (integer i) claims h = cc
claims_read-expiry d (real x) claims h = cc
claims_read-expiry d (string s) claims h = cc
claims_read-expiry d (array items) claims h = cc

-- ===== src/Memory/Growth.antt =====
-- The loop that doubles a capacity until it reaches what is needed, as src/util/buf.c and
-- src/checkout/key_set.c both write it.
use tamga_c.Prelude.{
  ℕ, zero, suc, ◌*◌, ◌^◌, ◌≤◌, ◌<◌, ◌≡◌, ◌≢◌, ap, Option, none, some, arith, ltb, if◌then◌else◌,
}
use native.Mathlib.Nat.{pow-suc}
use tamga_c.Memory.{checked_mul, size_max}
use tamga_c.Memory.Checked.{checked_mul_exact}

-- `stuck`: the fuel ran out, which is no outcome of the loop.
pub data Growth : Type 0 where
  grown : ℕ → Growth
  overflow stuck : Growth

abbrev go_on : Option ℕ → (ℕ → Growth) → Growth
go_on none next = overflow
go_on (some doubled) next = next doubled

unfoldable pub double_until : ℕ → ℕ → ℕ → Growth
double_until zero new_cap needed = stuck
double_until (suc fuel) new_cap needed =
    let more = go_on (checked_mul new_cap 2) (λ doubled. double_until fuel doubled needed) in
    if ltb new_cap needed then more else grown new_cap

-- With fuel for one round more than it takes to double the start past every `size_t`, the loop ends
-- by its test or by an overflow, and never for want of fuel.
pub double_until-ne-stuck :
    (fuel new_cap needed : ℕ)
    → size_max < new_cap * 2 ^ fuel
    → double_until (suc fuel) new_cap needed ≢ stuck
unfolding double_until
double_until-ne-stuck zero new_cap needed h = ground (arith, checked_mul_exact new_cap 2)
double_until-ne-stuck (suc fuel) new_cap needed h =
    let power : new_cap * 2 ^ suc fuel ≡ new_cap * 2 * 2 ^ fuel =
      omega (arith, ap (λ (t : ℕ). new_cap * t) (pow-suc 2 fuel)) in
    ground (
      arith,
      checked_mul_exact new_cap 2,
      double_until-ne-stuck fuel (new_cap * 2) needed (omega arith),
    )

-- From a start that is a `size_t`, the capacity that the loop ends with holds what is needed, is not
-- below the start, and is a `size_t`.
pub double_until-grown :
    (fuel new_cap needed got : ℕ)
    → new_cap ≤ size_max
    → double_until fuel new_cap needed ≡ grown got
    → (needed ≤ got) × (new_cap ≤ got) × (got ≤ size_max)
unfolding double_until
double_until-grown zero new_cap needed got small e = cc
double_until-grown (suc fuel) new_cap needed got small e =
    ground (arith, checked_mul_exact new_cap 2, double_until-grown fuel (new_cap * 2) needed got)

-- For a need of at most 2^63 the loop does not overflow.
pub double_until-ne-overflow :
    (fuel new_cap needed : ℕ) → needed ≤ 2 ^ 63 → double_until fuel new_cap needed ≢ overflow
unfolding double_until
double_until-ne-overflow zero new_cap needed h = λ e. cc
double_until-ne-overflow (suc fuel) new_cap needed h =
    ground
      (arith, checked_mul_exact new_cap 2, double_until-ne-overflow fuel (new_cap * 2) needed h)

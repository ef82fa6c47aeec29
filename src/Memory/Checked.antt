-- ===== src/Memory/Checked.antt =====
-- The checked operations answer exactly when the true result is a `size_t`.
use tamga_c.Prelude.{
  ℕ, zero, suc, ◌+◌, ◌*◌, ◌/◌, ◌%◌, ◌≤◌, ◌<◌, ◌≡◌, inl, inr, none, some, arith, leb, ltb,
  if◌then◌else◌, Bool-cases, ltb→lt,
}
use native.Mathlib.Nat.{div-add-mod, mod-lt}
use tamga_c.Memory.{checked_add, checked_mul, size_max}

-- For two values of `size_t` the sum is reported if it is one, and refused if not.
pub checked_add_exact :
    (a b : ℕ)
    → b ≤ size_max
    → checked_add a b ≡ (if leb (a + b) size_max then some (a + b) else none)
unfolding checked_add
checked_add_exact a b h = ground arith

product_above : (m d q r b : ℕ) → d * q + r ≡ m → r < d → q < b → m < d * b
product_above m d q r b e h k = let room : d * suc q ≤ d * b = grind arith in omega (arith, room)

product_within : (m d q r b : ℕ) → d * q + r ≡ m → b ≤ q → d * b ≤ m
product_within m d q r b e k = let room : d * b ≤ d * q = grind arith in omega (arith, room)

-- The product of any two numbers is reported if it is a `size_t`, and refused if not.
pub checked_mul_exact :
    (a b : ℕ) → checked_mul a b ≡ (if leb (a * b) size_max then some (a * b) else none)
unfolding checked_mul
checked_mul_exact zero b = ground arith
checked_mul_exact (suc a) b =
    let whole = div-add-mod size_max (suc a) in
    let rest : size_max % suc a < suc a = mod-lt size_max (omega arith) in
    elim (Bool-cases (ltb (size_max / suc a) b)) [
      | inl over ↦
          let above =
            product_above size_max (suc a) (size_max / suc a) (size_max % suc a) b whole rest
              (ltb→lt _ _ over) in
          rw over (ground arith)
      | inr fits ↦
          let within =
            product_within size_max (suc a) (size_max / suc a) (size_max % suc a) b whole
              (ground arith) in
          rw fits (ground arith)
    ]

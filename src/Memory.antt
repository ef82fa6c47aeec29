-- ===== src/Memory.antt =====
-- src/tamga_mem.c: arithmetic on `size_t` that reports overflow. `size_t` has 64 bits.
pub mod Exec
pub mod Checked
pub mod Growth
pub mod Copy
mod Runs
use tamga_c.Prelude.{
  ℕ, ◌+◌, ◌-◌, ◌*◌, ◌/◌, ◌^◌, ◌&&◌, not, Option, none, some, ltb, ◌==◌, if◌then◌else◌,
}

abbrev pub size_max : ℕ
size_max = 2 ^ 64 - 1

-- `none` is a false return; the out-pointer of every call is there.
unfoldable pub checked_add : ℕ → ℕ → Option ℕ
checked_add a b = if ltb (size_max - b) a then none else some (a + b)

unfoldable pub checked_mul : ℕ → ℕ → Option ℕ
checked_mul a b = if not (a == 0) && ltb (size_max / a) b then none else some (a * b)

-- TAMGA_MAX_REASONABLE_LEN
abbrev pub max_reasonable_len : ℕ
max_reasonable_len = 16 * 1024 * 1024

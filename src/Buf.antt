-- ===== src/Buf.antt =====
-- src/util/buf.c: a growable byte buffer whose first failure sticks.
pub mod Laws
pub mod Granted
pub mod Written
mod Runs
use tamga_c.Prelude.{
  ℕ, ◌+◌, Bool, true, false, Option, none, some, [], ◌∷◌, ◌++◌, ltb, leb, ◌==◌, if◌then◌else◌,
  length, Bytes, contains_byte,
}
use tamga_c.Memory.{checked_add}
use tamga_c.Memory.Growth.{Growth, grown, overflow, stuck, double_until}
use tamga_c.Memory.Exec.{Allocator}

-- `content` is data[0 .. len); `data` is NULL exactly while `capacity` is 0.
pub record Buf : Type 0 where
  pub content : Bytes
  pub capacity : ℕ
  pub failed : Bool

-- TAMGA_BUF_MIN_CAP
abbrev pub min_capacity : ℕ
min_capacity = 64

abbrev pub empty : Buf
empty = record { content = []; capacity = 0; failed = false }

abbrev pub fail : Buf → Buf
fail b = record b { failed = true }

-- A function on a buffer returns the buffer, its result, and the count of allocator requests.
abbrev pub BufStep : Type 0 → Type 0
BufStep A = Buf → Allocator → ℕ → A × Buf × ℕ

-- The old block is copied to a new one; growing never calls `realloc`.
grow_to : ℕ → BufStep Bool
grow_to new_cap b m n =
    if m.grants n new_cap
    then (true, record b { capacity = new_cap }, n + 1)
    else (false, fail b, n + 1)

-- With the fuel that `double_until-ne-stuck` asks for, `stuck` does not come up.
after_growth : Growth → BufStep Bool
after_growth (grown new_cap) b m n = grow_to new_cap b m n
after_growth overflow b m n = (false, fail b, n)
after_growth stuck b m n = (false, fail b, n)

make_room : ℕ → BufStep Bool
make_room needed b m n =
    if leb needed b.capacity
    then (true, b, n)
    else after_growth
        (double_until 65 (if ltb b.capacity min_capacity then min_capacity else b.capacity) needed)
        b m n

reserve_needed : Option ℕ → BufStep Bool
reserve_needed none b m n = (false, fail b, n)
reserve_needed (some needed) b m n = make_room needed b m n

-- tamga_buf_reserve
unfoldable pub reserve : ℕ → BufStep Bool
unfolding reserve_needed make_room after_growth grow_to
reserve extra b m n =
    if b.failed then (false, b, n) else reserve_needed (checked_add (length b.content) extra) b m n

unfoldable pub append_reserved : Bytes → Bool × Buf × ℕ → Buf × ℕ
append_reserved bytes (true, b, n) = (record b { content = b.content ++ bytes }, n)
append_reserved bytes (false, b, n) = (b, n)

-- tamga_buf_append; its `data` is never NULL where `len` is not 0.
unfoldable pub append : Bytes → Buf → Allocator → ℕ → Buf × ℕ
unfolding append_reserved
append bytes b m n =
    if b.failed
    then (b, n)
    else if length bytes == 0
    then (b, n)
    else append_reserved bytes (reserve (length bytes) b m n)

-- A loop of tamga_buf_append_byte over the bytes.
unfoldable pub append_bytes : Bytes → Buf → Allocator → ℕ → Buf × ℕ
append_bytes [] b m n = (b, n)
append_bytes (c ∷ cs) b m n = let (b', n') = append (c ∷ []) b m n in append_bytes cs b' m n'

detach_reserved : Bool × Buf × ℕ → Option Bytes × ℕ
detach_reserved (true, b, n) = (some b.content, n)
detach_reserved (false, b, n) = (none, n)

-- tamga_buf_detach_impl, without the buffer that it leaves empty or failed behind.
detach : Bool → Buf → Allocator → ℕ → Option Bytes × ℕ
detach allow_interior_nul b m n =
    if b.failed
    then (none, n)
    else if (if allow_interior_nul then false else contains_byte 0 b.content)
    then (none, n)
    else detach_reserved (reserve 1 b m n)

unfoldable pub detach_terminated : Buf → Allocator → ℕ → Option Bytes × ℕ
unfolding detach detach_reserved
detach_terminated b = detach true b

unfoldable pub detach_string : Buf → Allocator → ℕ → Option Bytes × ℕ
unfolding detach detach_reserved
detach_string b = detach false b

-- tamga_buf_detach: the raw bytes. An empty buffer that has no block yet gets one.
unfoldable pub detach_raw : Buf → Allocator → ℕ → Option Bytes × ℕ
unfolding detach_reserved
detach_raw b m n =
    if b.failed
    then (none, n)
    else if b.capacity == 0
    then detach_reserved (reserve 1 b m n)
    else (some b.content, n)

-- ===== src/Json/Write/Double.antt =====
-- tamga_json_write_double of src/util/json_write.c. What the C library formats and reads is a
-- parameter.
pub mod Text
use tamga_c.Prelude.{
  ℕ, zero, suc, ◌+◌, ◌-◌, ◌≤◌, Bool, true, false, not, ◌&&◌, ◌||◌, Option, none, some, List, [],
  ◌∷◌, ◌++◌, ltb, leb, ◌==◌, if◌then◌else◌, length, take, drop, get_or, replicate, Bytes, codes,
}
use tamga_c.Prelude.Int.{ℤ, pos, negsuc, ◌+ℤ◌, ltb_ℤ}
use tamga_c.Buf.{append, append_bytes}
use tamga_c.Buf.Written.{Write, ◌then◌, skip, append_fmt}

-- `%lld`; and of a double, by its bits: `isfinite`, the `%.*e` of a precision unless it does not fit
-- into 64 bytes, whether `strtod` of a text is the double, `strtol` of base 10, and `e%+d`.
pub record Formats : Type 0 where
  pub integer : ℤ → Option Bytes
  pub is_finite : ℕ → Bool
  pub exponential : ℕ → ℕ → Option Bytes
  pub reads_back : Bytes → ℕ → Bool
  pub strtol : Bytes → ℤ
  pub exponent : ℤ → Option Bytes

abbrev null_text : Write
null_text = append (codes "null")

-- The first text of the precisions from one on that is read back as the double. `tries` is how many
-- precisions are left, of 18.
unfoldable pub shortest : Formats → ℕ → ℕ → ℕ → Option Bytes
shortest f x precision zero = none
shortest f x precision (suc tries) =
    let rest = shortest f x (precision + 1) tries in choose (f.exponential precision x) rest
  where
    choose : Option Bytes → Option Bytes → Option Bytes
    choose none rest = none
    choose (some text) rest = if f.reads_back text x then some text else rest

abbrev is_e : ℕ → Bool
is_e c = c == b'e' || c == b'E'

-- The bytes before the exponent without the point, and what follows its sign `e`.
unfoldable pub split_digits : Bytes → Bytes × Option Bytes
split_digits [] = ([], none)
split_digits (c ∷ cs) =
    let (digits, exponent) = split_digits cs in
    if is_e c
    then ([], some cs)
    else if c == b'.'
    then (digits, exponent)
    else (c ∷ digits, exponent)

-- Trailing zeros, but not the first digit.
unfoldable pub strip_zeros : Bytes → Bytes
strip_zeros [] = []
strip_zeros (d ∷ ds) = d ∷ strip ds
  where
    strip : Bytes → Bytes
    strip [] = []
    strip (c ∷ cs) = let rest = strip cs in if length rest == 0 && c == b'0' then [] else c ∷ rest

unfoldable pub exponent_of : Formats → Option Bytes → ℤ
exponent_of f none = pos 0
exponent_of f (some text) = f.strtol text

abbrev is_short : ℤ → Bool
is_short kk = ltb_ℤ (pos 0) kk && ltb_ℤ kk (pos 17)

abbrev is_small : ℤ → Bool
is_small kk = ltb_ℤ (negsuc 4) kk && ltb_ℤ kk (pos 1)

-- 0 < kk <= 16
unfoldable pub write_decimal : ℕ → Bytes → Write
write_decimal kk digits =
    if leb (length digits) kk
    then append digits
    then append_bytes (replicate (kk - length digits) b'0')
    then append (codes ".0")
    else append (take kk digits) then append (b'.' ∷ []) then append (drop kk digits)

-- -5 < kk <= 0, with -kk zeros.
unfoldable pub write_small : ℕ → Bytes → Write
write_small zeros digits =
    append (codes "0.") then append_bytes (replicate zeros b'0') then append digits

unfoldable pub write_exponential : Formats → ℤ → Bytes → Write
write_exponential f kk digits =
    append (take 1 digits)
    then (if ltb 1 (length digits) then append (b'.' ∷ []) then append (drop 1 digits) else skip)
    then append_fmt (f.exponent (kk +ℤ negsuc 0))

abbrev magnitude : ℤ → ℕ
magnitude (pos n) = n
magnitude (negsuc n) = suc n

unfoldable pub write_digits : Formats → ℤ → Bytes → Write
unfolding write_decimal write_small write_exponential
write_digits f kk digits =
    if is_short kk
    then write_decimal (magnitude kk) digits
    else if is_small kk
    then write_small (magnitude kk) digits
    else write_exponential f kk digits

-- The array of the digits has 32 places.
unfoldable pub write_parts : Formats → Bool → Bytes × Option Bytes → Write
unfolding strip_zeros exponent_of write_digits
write_parts f negative (digits, exponent) =
    if ltb 32 (length digits)
    then null_text
    else if length digits == 0
    then null_text
    else (if negative then append (b'-' ∷ []) else skip)
      then write_digits f (exponent_of f exponent +ℤ pos 1) (strip_zeros digits)

unfoldable pub write_scratch : Formats → Option Bytes → Write
unfolding split_digits write_parts
write_scratch f none = null_text
write_scratch f (some []) = write_parts f false (split_digits [])
write_scratch f (some (c ∷ cs)) =
    if c == b'-'
    then write_parts f true (split_digits cs)
    else write_parts f false (split_digits (c ∷ cs))

unfoldable pub write_double : Formats → ℕ → Write
unfolding shortest write_scratch
write_double f x = if f.is_finite x then write_scratch f (shortest f x 0 18) else null_text

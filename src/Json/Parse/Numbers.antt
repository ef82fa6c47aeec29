-- ===== src/Json/Parse/Numbers.antt =====
-- Number tokens: tamga_json_parse_number of src/util/json_parse.c.
pub mod Shorter
use tamga_c.Prelude.{
  ℕ, ◌+◌, ◌-◌, ◌∷◌, [], ◌++◌, Bool, true, false, ◌||◌, ◌&&◌, not, Option, none, some, ltb, ◌==◌,
  if◌then◌else◌, length, Bytes,
}
use tamga_c.Prelude.Options.{◌>>=◌}
use tamga_c.Prelude.Int.{ℤ}
use tamga_c.Json.{Json, integer, real}
use tamga_c.Json.Parse.Reader.{peek, advance}
use tamga_c.Json.Parse.Utf8.{between}

-- The C library's strtoll and strtod on a whole token: `none` where it stops early or, for strtoll,
-- where it sets errno. A double is given by its bits.
pub record Conversions : Type 0 where
  pub strtoll : Bytes → Option ℤ
  pub strtod : Bytes → Option ℕ

abbrev max_number_chars : ℕ
max_number_chars = 340

abbrev is_digit : ℕ → Bool
is_digit c = between b'0' b'9' c

-- The run of digits at the front, and what follows it.
unfoldable pub digit_run : Bytes → Bytes × Bytes
digit_run [] = ([], [])
digit_run (c ∷ cs) =
    let (run, rest) = digit_run cs in if is_digit c then (c ∷ run, rest) else ([], c ∷ cs)

-- A part of a token that needs a digit at its front.
digits1 : Bytes → Option (Bytes × Bytes)
digits1 text = if is_digit (peek text) then some (digit_run text) else none

sign_part : Bytes → Bytes × Bytes
sign_part text = if peek text == b'-' then (b'-' ∷ [], advance text) else ([], text)

-- A zero stands alone.
whole_part : Bytes → Option (Bytes × Bytes)
whole_part text = if peek text == b'0' then some (b'0' ∷ [], advance text) else digits1 text

fraction_part : Bytes → Option (Bytes × Bytes)
fraction_part text =
    if peek text == b'.'
    then (do (run, rest) ← digits1 (advance text); some (b'.' ∷ run, rest))
    else some ([], text)

exponent_sign : Bytes → Bytes × Bytes
exponent_sign text =
    if peek text == b'+' || peek text == b'-' then (peek text ∷ [], advance text) else ([], text)

exponent_part : Bytes → Option (Bytes × Bytes)
exponent_part text =
    if peek text == b'e' || peek text == b'E'
    then (do
      let signed = exponent_sign (advance text)
      (run, rest) ← digits1 signed.1
      some (peek text ∷ (signed.0 ++ run), rest))
    else some ([], text)

-- The token, whether it is an integer's, and what follows it.
unfoldable pub number_token : Bytes → Option ((Bytes × Bool) × Bytes)
unfolding sign_part whole_part fraction_part exponent_part exponent_sign digits1
number_token text = do
  let signed = sign_part text
  (whole, text1) ← whole_part signed.1
  (fraction, text2) ← fraction_part text1
  (exponent, text3) ← exponent_part text2
  some (
    (signed.0 ++ (whole ++ (fraction ++ exponent)), length fraction == 0 && length exponent == 0),
    text3,
  )

as_real : Conversions → Bytes → Option Json
as_real c token = do bits ← c.strtod token; some (real bits)

integer_or : Option ℤ → Option Json → Option Json
integer_or (some i) other = some (integer i)
integer_or none other = other

-- An integer outside int64_t is carried as a double.
unfoldable pub number_value : Conversions → Bytes × Bool → Option Json
unfolding as_real integer_or
number_value c (token, is_integer) =
    if ltb max_number_chars (length token)
    then none
    else if is_integer
    then integer_or (c.strtoll token) (as_real c token)
    else as_real c token

unfoldable pub read_number : Conversions → Bytes → Option (Json × Bytes)
read_number c text = do
  (token, rest) ← number_token text
  value ← number_value c token
  some (value, rest)

-- ===== src/Json/Parse/Numbers/Shorter.antt =====
-- A number that is read is off the text.
use mathlib.Core.Option.{some-injective}
use mathlib.Core.Path.{subst}
use tamga_c.Prelude.{
  ℕ, ◌≤◌, ◌<◌, ◌≡◌, inl, inr, ap, Bool, true, Option, none, some, arith, [], ◌∷◌, ◌||◌, ltb, ◌==◌,
  length, Bytes, Bool-cases,
}
use tamga_c.Prelude.Options.{◌>>=◌, >>=-eq-some}
use tamga_c.Prelude.Int.{ℤ}
use tamga_c.Json.{Json, integer, real}
use tamga_c.Json.Parse.Reader.{peek, advance}
use tamga_c.Json.Parse.Numbers.{
  Conversions, is_digit, digit_run, digits1, sign_part, whole_part, fraction_part, exponent_sign,
  exponent_part, number_token, as_real, integer_or, max_number_chars, number_value, read_number,
}

pub advance-le : (text : Bytes) → length (advance text) ≤ length text
advance-le [] = omega arith
advance-le (c ∷ cs) = omega arith

-- A byte that is looked at and is not NUL is there.
pub advance-lt :
    (text : Bytes) (c : ℕ) → peek text ≡ c → 0 < c → length (advance text) < length text
advance-lt [] c h k = absurd (omega arith)
advance-lt (d ∷ ds) c h k = omega arith

digit_run-le : (text : Bytes) → length (digit_run text).1 ≤ length text
unfolding digit_run
digit_run-le [] = omega arith
digit_run-le (c ∷ cs) = elim (Bool-cases (is_digit c)) [
  | inl a ↦ rw a (omega (arith, digit_run-le cs))
  | inr a ↦ rw a (omega arith)
]

digit_run-lt :
    (text : Bytes) → is_digit (peek text) ≡ true → length (digit_run text).1 < length text
unfolding digit_run
digit_run-lt [] h = cc
digit_run-lt (c ∷ cs) h = rw h (omega (arith, digit_run-le cs))

digits1-lt : (text run rest : Bytes) → digits1 text ≡ some (run, rest) → length rest < length text
unfolding digits1
digits1-lt text run rest h = elim (Bool-cases (is_digit (peek text))) [
  | inl a ↦
      let same = some-injective _ _ (rw a at h) in
      omega (arith, digit_run-lt text a, ap (λ (o : Bytes × Bytes). length o.1) same)
  | inr a ↦ absurd (cc (rw a at h))
]

sign_part-le : (text : Bytes) → length (sign_part text).1 ≤ length text
unfolding sign_part
sign_part-le text = ground (arith, advance-le text)

exponent_sign-le : (text : Bytes) → length (exponent_sign text).1 ≤ length text
unfolding exponent_sign
exponent_sign-le text = ground (arith, advance-le text)

whole_part-lt :
    (text run rest : Bytes) → whole_part text ≡ some (run, rest) → length rest < length text
unfolding whole_part
whole_part-lt text run rest h = elim (Bool-cases (peek text == b'0')) [
  | inl a ↦
      let same = some-injective _ _ (rw a at h) in
      omega (
        arith,
        advance-lt text b'0' (ground arith) (omega arith),
        ap (λ (o : Bytes × Bytes). length o.1) same,
      )
  | inr a ↦ digits1-lt text run rest (rw a at h)
]

fraction_part-le :
    (text run rest : Bytes) → fraction_part text ≡ some (run, rest) → length rest ≤ length text
unfolding fraction_part
fraction_part-le text run rest h = elim (Bool-cases (peek text == b'.')) [
  | inl a ↦
      let (o, read, h') = >>=-eq-some (digits1 (advance text)) _ (rw a at h) in
      let same = some-injective _ _ h' in
      omega (
        arith,
        digits1-lt (advance text) o.0 o.1 read,
        advance-le text,
        ap (λ (o : Bytes × Bytes). length o.1) same,
      )
  | inr a ↦ omega (arith, ap (λ (o : Bytes × Bytes). length o.1) (some-injective _ _ (rw a at h)))
]

exponent_part-le :
    (text run rest : Bytes) → exponent_part text ≡ some (run, rest) → length rest ≤ length text
unfolding exponent_part
exponent_part-le text run rest h = elim (Bool-cases (peek text == b'e' || peek text == b'E')) [
  | inl a ↦
      let after = (exponent_sign (advance text)).1 in
      let (o, read, h') = >>=-eq-some (digits1 after) _ (rw a at h) in
      let same = some-injective _ _ h' in
      omega (
        arith,
        digits1-lt after o.0 o.1 read,
        exponent_sign-le (advance text),
        advance-le text,
        ap (λ (o : Bytes × Bytes). length o.1) same,
      )
  | inr a ↦ omega (arith, ap (λ (o : Bytes × Bytes). length o.1) (some-injective _ _ (rw a at h)))
]

number_token-lt :
    (text : Bytes) (token : Bytes × Bool) (rest : Bytes)
    → number_token text ≡ some (token, rest)
    → length rest < length text
unfolding number_token
number_token-lt text token rest h =
    let (o1, r1, h1) = >>=-eq-some (whole_part (sign_part text).1) _ h in
    let (o2, r2, h2) = >>=-eq-some (fraction_part o1.1) _ h1 in
    let (o3, r3, h3) = >>=-eq-some (exponent_part o2.1) _ h2 in
    omega (
      arith,
      sign_part-le text,
      whole_part-lt (sign_part text).1 o1.0 o1.1 r1,
      fraction_part-le o1.1 o2.0 o2.1 r2,
      exponent_part-le o2.1 o3.0 o3.1 r3,
      ap (λ (o : (Bytes × Bool) × Bytes). length o.1) (some-injective _ _ h3),
    )

-- A number is an integer or a double.
pub data IsNumber : Json → Type 0 where
  an_integer : {i : ℤ} → IsNumber (integer i)
  a_real : {bits : ℕ} → IsNumber (real bits)

as_real-IsNumber :
    (bits : Option ℕ) (v : Json) → (bits >>= λ b. some (real b)) ≡ some v → IsNumber v
as_real-IsNumber none v h = cc
as_real-IsNumber (some b) v h = subst IsNumber (some-injective _ _ h) a_real

integer_or-IsNumber :
    (whole : Option ℤ) (c : Conversions) (token : Bytes) (v : Json)
    → integer_or whole (as_real c token) ≡ some v
    → IsNumber v
unfolding integer_or as_real
integer_or-IsNumber (some i) c token v h = subst IsNumber (some-injective _ _ h) an_integer
integer_or-IsNumber none c token v h = as_real-IsNumber (c.strtod token) v h

number_value-IsNumber :
    (c : Conversions) (token : Bytes × Bool) (v : Json) → number_value c token ≡ some v → IsNumber v
unfolding number_value as_real
number_value-IsNumber c (token, whole) v h =
    elim (Bool-cases (ltb max_number_chars (length token))) [
      | inl long ↦ absurd (cc (rw long at h))
      | inr short ↦ elim (Bool-cases whole) [
        | inl a ↦ integer_or-IsNumber (c.strtoll token) c token v (rw (short, a) at h)
        | inr a ↦ as_real-IsNumber (c.strtod token) v (rw (short, a) at h)
      ]
    ]

pub read_number_lem :
    (c : Conversions) (text : Bytes) (v : Json) (rest : Bytes)
    → read_number c text ≡ some (v, rest)
    → IsNumber v × (length rest < length text)
unfolding read_number
read_number_lem c text v rest h =
    let (o, r, h1) = >>=-eq-some (number_token text) _ h in
    let (w, r2, h2) = >>=-eq-some (number_value c o.0) _ h1 in
    let same = some-injective _ _ h2 in
    (
      subst IsNumber (ap (λ (o : Json × Bytes). o.0) same) (number_value-IsNumber c o.0 w r2),
      omega (arith, number_token-lt text o.0 o.1 r, ap (λ (o : Json × Bytes). length o.1) same),
    )

-- ===== src/Json/Parse/Strings/Escapes.antt =====
-- What an escape and a plain sequence stand for is UTF-8.
use mathlib.Core.Option.{some-injective}
use mathlib.Core.Path.{subst}
use native.Mathlib.Nat.{pow-suc}
use tamga_c.Prelude.{
  ℕ, zero, suc, ◌+◌, ◌-◌, ◌*◌, ◌^◌, ◌≤◌, ◌<◌, ◌≡◌, ◌≢◌, ◌⊎◌, inl, inr, refl, sym, ap, ◌∙◌, not,
  ◌||◌, Option, none, some, arith, [], ◌∷◌, ltb, ◌==◌, length, length-drop, take, drop, Bytes,
  Bool-cases,
}
use tamga_c.Prelude.Options.{>>=-eq-some}
use tamga_c.Json.Parse.Reader.{peek, advance}
use tamga_c.Json.Parse.Utf8.{between, sequence_len, utf8_encode}
use tamga_c.Json.Parse.Utf8.Valid.{IsScalar, IsUtf8, one_character, sequence_len_lem}
use tamga_c.Json.Parse.Strings.{
  hex_digit, hex_digits, read_hex4, join_surrogates, low_half, scalar, read_unicode, simple_escape,
  escaped, read_escape, read_plain,
}

hex_digit-lt : (c d : ℕ) → hex_digit c ≡ some d → d < 16
unfolding hex_digit
hex_digit-lt c d h = ground arith

hex_digits-lt :
    (k value bound : ℕ) (text : Bytes) (v : ℕ) (rest : Bytes)
    → hex_digits k value text ≡ some (v, rest)
    → value < bound
    → (v < bound * 16 ^ k) × (length rest ≤ length text)
unfolding hex_digits
hex_digits-lt zero value bound text v rest h lt =
    let same = some-injective _ _ h in
    let e : value ≡ v = ap (λ (o : ℕ × Bytes). o.0) same in
    let e' : text ≡ rest = ap (λ (o : ℕ × Bytes). o.1) same in
    (omega arith, omega (arith, ap length e'))
hex_digits-lt (suc k) value bound [] v rest h lt = cc
hex_digits-lt (suc k) value bound (c ∷ cs) v rest h lt =
    let (d, digit, h') = >>=-eq-some (hex_digit c) (λ d. hex_digits k (value * 16 + d) cs) h in
    let small = hex_digit-lt c d digit in
    let (less, shorter) =
      hex_digits-lt k (value * 16 + d) (bound * 16) cs v rest h' (omega arith) in
    (omega (arith, less, ap (λ (t : ℕ). bound * t) (pow-suc 16 k)), omega arith)

read_hex4-lt :
    (text : Bytes) (v : ℕ) (rest : Bytes)
    → read_hex4 text ≡ some (v, rest)
    → (v < 0x10000) × (length rest ≤ length text)
unfolding read_hex4
read_hex4-lt text v rest h = elim (Bool-cases (ltb (length text) 4)) [
  | inl short ↦ absurd (cc (rw short at h))
  | inr long ↦ hex_digits-lt 4 0 1 text v rest (rw long at h) (omega arith)
]

join_lem :
    (unit : ℕ) (o : ℕ × Bytes) (c : ℕ) (rest : Bytes)
    → 0xd800 ≤ unit
    → unit ≤ 0xdbff
    → join_surrogates unit o ≡ some (c, rest)
    → IsScalar c × (length rest ≤ length o.1)
unfolding join_surrogates
join_lem unit (low, after) c rest p q h = elim (Bool-cases (ltb low 0xdc00 || ltb 0xdfff low)) [
  | inl outside ↦ absurd (cc (rw outside at h))
  | inr inside ↦
      let same = some-injective _ _ (rw inside at h) in
      let e : 0x10000 + (unit - 0xd800) * 1024 + (low - 0xdc00) ≡ c =
        ap (λ (o : ℕ × Bytes). o.0) same in
      let e' : after ≡ rest = ap (λ (o : ℕ × Bytes). o.1) same in
      ((ground arith, inr (omega (arith, e))), omega (arith, ap length e'))
]

scalar_lem :
    (unit : ℕ) (text : Bytes) (c : ℕ) (rest : Bytes)
    → unit < 0x10000
    → scalar (unit, text) ≡ some (c, rest)
    → IsScalar c × (length rest ≤ length text)
unfolding scalar low_half
scalar_lem unit text c rest small h = elim (Bool-cases (between 0xd800 0xdbff unit)) [
  | inl high ↦
      elim (Bool-cases
        (ltb (length text) 6 || not (peek text == b'\\') || not (peek (advance text) == b'u'))) [
          | inl alone ↦ absurd (cc (rw (high, alone) at h))
          | inr paired ↦
              let (o, read, joined) =
                >>=-eq-some (read_hex4 (drop 2 text)) (join_surrogates unit)
                  (rw (high, paired) at h) in
              let (low, after) = o in
              let (_, shorter) = read_hex4-lt (drop 2 text) low after read in
              let (scalar_value, shorter') =
                join_lem unit (low, after) c rest (ground arith) (ground arith) joined in
              (scalar_value, omega (arith, length-drop 2 text))
        ]
  | inr other ↦ elim (Bool-cases (between 0xdc00 0xdfff unit)) [
    | inl low ↦ absurd (cc (rw (other, low) at h))
    | inr plain ↦
        let same = some-injective _ _ (rw (other, plain) at h) in
        let e : unit ≡ c = ap (λ (o : ℕ × Bytes). o.0) same in
        let e' : text ≡ rest = ap (λ (o : ℕ × Bytes). o.1) same in
        let outside : (unit < 0xd800) ⊎ (0xdfff < unit) = elim (Bool-cases (ltb unit 0xd800)) [
          | inl a ↦ inl (ground arith)
          | inr a ↦ inr (ground arith)
        ] in
        (subst IsScalar e (omega arith, outside), omega (arith, ap length e'))
  ]
]

read_unicode_lem :
    (text : Bytes) (c : ℕ) (rest : Bytes)
    → read_unicode text ≡ some (c, rest)
    → IsScalar c × (length rest ≤ length text)
unfolding read_unicode
read_unicode_lem text c rest h =
    let (o, read, h') = >>=-eq-some (read_hex4 text) scalar h in
    let (unit, after) = o in
    let (small, shorter) = read_hex4-lt text unit after read in
    let (value, shorter') = scalar_lem unit after c rest small h' in (value, omega arith)

simple_escape-lt : (e b : ℕ) → simple_escape e ≡ some b → b < 0x80
unfolding simple_escape
simple_escape-lt e b h = ground arith

ascii-IsUtf8 : (b : ℕ) → b < 0x80 → IsUtf8 (b ∷ [])
unfolding utf8_encode
ascii-IsUtf8 b h =
    let e : utf8_encode b ≡ b ∷ [] = ground arith in
    subst IsUtf8 e (one_character b (omega arith, inl (omega arith)))

-- What a reader of a part of a string gives: UTF-8, and a text that is shorter by a byte at least.
abbrev pub Reads : Bytes → Bytes → Bytes → Type 0
Reads text bytes rest = IsUtf8 bytes × (length rest < length text)

escaped_lem :
    (e : ℕ) (cs : Bytes) (simple : Option ℕ) (bytes rest : Bytes)
    → simple_escape e ≡ simple
    → escaped e cs simple ≡ some (bytes, rest)
    → IsUtf8 bytes × (length rest ≤ length cs)
unfolding escaped
escaped_lem e cs (some b) bytes rest simple h =
    let same = some-injective _ _ h in
    let e' : cs ≡ rest = ap (λ (o : Bytes × Bytes). o.1) same in
    (
      subst IsUtf8 (ap (λ (o : Bytes × Bytes). o.0) same)
          (ascii-IsUtf8 b (simple_escape-lt e b simple)),
      omega (arith, ap length e'),
    )
escaped_lem e cs none bytes rest simple h = elim (Bool-cases (e == b'u')) [
  | inr unknown ↦ absurd (cc (rw unknown at h))
  | inl unicode ↦
      let (u, read, h') =
        >>=-eq-some (read_unicode cs) (λ u. some (utf8_encode u.0, u.1)) (rw unicode at h) in
      let (c, after) = u in
      let (value, shorter) = read_unicode_lem cs c after read in
      let same = some-injective _ _ h' in
      let e' : after ≡ rest = ap (λ (o : Bytes × Bytes). o.1) same in
      (
        subst IsUtf8 (ap (λ (o : Bytes × Bytes). o.0) same) (one_character c value),
        omega (arith, ap length e'),
      )
]

pub read_escape_lem :
    (text bytes rest : Bytes) → read_escape text ≡ some (bytes, rest) → Reads text bytes rest
unfolding read_escape
read_escape_lem [] bytes rest h = cc
read_escape_lem (e ∷ cs) bytes rest h =
    let (valid, shorter) = escaped_lem e cs (simple_escape e) bytes rest refl h in
    (valid, omega arith)

pub read_plain_lem :
    (text bytes rest : Bytes) → read_plain text ≡ some (bytes, rest) → Reads text bytes rest
unfolding read_plain
read_plain_lem text bytes rest h = elim (Bool-cases (ltb (peek text) 0x20)) [
  | inl control ↦ absurd (cc (rw control at h))
  | inr printable ↦ elim (Bool-cases (sequence_len text == 0)) [
    | inl invalid ↦ absurd (cc (rw (printable, invalid) at h))
    | inr valid ↦
        let (fits, c, value, front) = sequence_len_lem text (ground arith) in
        let same = some-injective _ _ (rw (printable, valid) at h) in
        let e : take (sequence_len text) text ≡ bytes = ap (λ (o : Bytes × Bytes). o.0) same in
        let e' : drop (sequence_len text) text ≡ rest = ap (λ (o : Bytes × Bytes). o.1) same in
        (
          subst IsUtf8 (sym front ∙ e) (one_character c value),
          (let some_bytes : sequence_len text ≢ 0 = ground arith in
              omega (arith, some_bytes, ap length e', length-drop (sequence_len text) text)),
        )
  ]
]

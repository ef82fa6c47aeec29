-- ===== src/Http/Text/Decoded.antt =====
-- Percent-encoding is read back, and lets nothing through that a query gives a meaning to.
use tamga_c.Prelude.{
  ℕ, ◌/◌, ◌%◌, ==_iff, ◌*◌, ◌+◌, ◌≡◌, refl, ap, Bool, true, false, Option, none, some, arith, [],
  ◌∷◌, ◌++◌, ◌==◌, ◌&&◌, ◌||◌, if◌then◌else◌, Bytes, IsByte, All, All-append, Bool-cases, inl, inr,
  passes_below, passes_below_lem,
}
use tamga_c.Memory.Exec.{Allocator}
use tamga_c.Buf.{append_bytes}
use tamga_c.Buf.Written.{written_lem, append_bytes-Writes}
use tamga_c.Prelude.Options.{◌>>=◌}
use tamga_c.Hex.{hex_value}
use tamga_c.Http.Text.{
  is_unreserved, encode_byte, encoded_bytes, url_encode, digit_high, digit_low, within,
}

-- Where a reader of percent-encoded text is: outside of an escape, or behind so much of one.
pub data Pending : Type 0 where
  idle percent : Pending
  digit : ℕ → Pending

-- What RFC 3986 reads: `%` and two digits are their byte, and every other byte is itself.
unfoldable read : Pending → Bytes → Option Bytes
read idle [] = some []
read idle (c ∷ cs) =
    let rest = read (if c == b'%' then percent else idle) cs in
    if c == b'%' then rest else (do bs ← rest; some (c ∷ bs))
read percent [] = none
read percent (c ∷ cs) = do high ← hex_value c; read (digit high) cs
read (digit high) [] = none
read (digit high) (c ∷ cs) = do low ← hex_value c; bs ← read idle cs; some ((high * 16 + low) ∷ bs)

unfoldable pub percent_decode : Bytes → Option Bytes
unfolding read
percent_decode text = read idle text

is_digit_of : ℕ → Option ℕ → Bool
is_digit_of v none = false
is_digit_of v (some d) = d == v

is_digit_of_lem : (v : ℕ) (d : Option ℕ) → is_digit_of v d ≡ true → d ≡ some v
unfolding is_digit_of
is_digit_of_lem v none h = cc
is_digit_of_lem v (some d) h = ap some ((==_iff d v).0 h)

digit_table :
    passes_below
      (λ c.
        is_digit_of (c / 16) (hex_value (digit_high c))
        && is_digit_of (c % 16) (hex_value (digit_low c))
        && is_unreserved (digit_high c)
        && is_unreserved (digit_low c))
      256
    ≡ true
unfolding passes_below is_unreserved within is_digit_of hex_value
digit_table = refl

-- The two digits of a byte are read back, and are unreserved.
digits_lem :
    (c : ℕ)
    → IsByte c
    → (hex_value (digit_high c) ≡ some (c / 16))
      × (hex_value (digit_low c) ≡ some (c % 16))
      × (is_unreserved (digit_high c) ≡ true)
      × (is_unreserved (digit_low c) ≡ true)
digits_lem c h =
    let t = passes_below_lem _ 256 c digit_table h in
    (
      is_digit_of_lem _ _ (ground (arith, t)),
      is_digit_of_lem _ _ (ground (arith, t)),
      ground (arith, t),
      ground (arith, t),
    )

read-encode_byte :
    (c : ℕ) (rest : Bytes)
    → IsByte c
    → read idle (encode_byte c ++ rest) ≡ (do bs ← read idle rest; some (c ∷ bs))
unfolding read encode_byte
read-encode_byte c rest h = elim (Bool-cases (is_unreserved c)) [
  | inl plain ↦
      let other : (c == b'%') ≡ false = unfold is_unreserved within in ground arith in
      simp (plain, other)
  | inr reserved ↦
      let (high, low, _, _) = digits_lem c h in
      let whole : c / 16 * 16 + c % 16 ≡ c = omega arith in simp (reserved, high, low, whole)
]

read-encoded_bytes :
    (value : Bytes) → All IsByte value → read idle (encoded_bytes value) ≡ some value
unfolding encoded_bytes read
read-encoded_bytes [] h = refl
read-encoded_bytes (c ∷ cs) (byte, bytes) =
    simp (read-encode_byte c (encoded_bytes cs) byte, read-encoded_bytes cs bytes)

-- Unreserved, or the sign that starts an escape.
abbrev pub IsQueryText : ℕ → Type 0
IsQueryText c = (is_unreserved c || c == b'%') ≡ true

encode_byte-query : (c : ℕ) → IsByte c → All IsQueryText (encode_byte c)
unfolding encode_byte
encode_byte-query c h = elim (Bool-cases (is_unreserved c)) [
  | inl plain ↦ rw plain (ground (arith, plain), tt)
  | inr reserved ↦
      let (_, _, high, low) = digits_lem c h in
      rw reserved (ground arith, (ground (arith, high), (ground (arith, low), tt)))
]

encoded_bytes-query : (value : Bytes) → All IsByte value → All IsQueryText (encoded_bytes value)
unfolding encoded_bytes
encoded_bytes-query [] h = tt
encoded_bytes-query (c ∷ cs) (byte, bytes) =
    All-append IsQueryText (encode_byte c) _ (encode_byte-query c byte)
      (encoded_bytes-query cs bytes)

-- Every byte of what tamga_url_encode returns is unreserved or `%`, so that none of them delimits a
-- part of a URL, and percent-decoding it gives the value back.
pub url_encode_safe :
    (value : Bytes) (m : Allocator) (n : ℕ) (out : Bytes)
    → All IsByte value
    → (url_encode value m n).0 ≡ some out
    → All IsQueryText out × (percent_decode out ≡ some value)
unfolding url_encode percent_decode
url_encode_safe value m n out h e =
    let (same, _) =
      written_lem (append_bytes (encoded_bytes value)) _ m n out (append_bytes-Writes _) e in
    rw same (encoded_bytes-query value h, read-encoded_bytes value h)

-- ===== src/Hex/RoundTrip.antt =====
-- Decoding undoes encoding, and encoding a decoded text gives it back in lower case.
use tamga_c.Prelude.{
  ℕ, ◌+◌, ◌*◌, ◌/◌, ◌%◌, ◌≤◌, ◌≡◌, refl, Bool, true, false, ◌&&◌, Option, none, some, [], ◌∷◌, map,
  arith, leb, ◌==◌, ==_iff, if◌then◌else◌, passes_below, passes_below_lem, length, All, IsByte,
  Bytes,
}
use tamga_c.Prelude.Options.{>>=-eq-some}
use Prim.Native.Nat.{bit_or}
use mathlib.Core.Option.{some-injective}
use tamga_c.Hex.{hex_value, hex_high, hex_low, decode_pair, decode_pairs, hex_decode, hex_encode}

-- The value of an `Option` that is there, as a test.
abbrev holds : ℕ → Option ℕ → Bool
holds b none = false
holds b (some x) = x == b

holds→eq : (b : ℕ) (o : Option ℕ) → holds b o ≡ true → o ≡ some b
holds→eq b none h = cc
holds→eq b (some x) h = ground arith

pair_table : passes_below (λ b. holds b (decode_pair (hex_high b) (hex_low b))) 256 ≡ true
unfolding passes_below decode_pair hex_value
pair_table = refl

decode_pair-hex : (b : ℕ) → IsByte b → decode_pair (hex_high b) (hex_low b) ≡ some b
decode_pair-hex b h = holds→eq b _ (passes_below_lem _ 256 b pair_table h)

decode_pairs-hex_encode : (bs : Bytes) → All IsByte bs → decode_pairs (hex_encode bs) ≡ some bs
unfolding decode_pairs hex_encode
decode_pairs-hex_encode [] h = refl
decode_pairs-hex_encode (b ∷ bs) (hb, h) =
    rw (decode_pair-hex b hb) (rw (decode_pairs-hex_encode bs h))

pub length-hex_encode : (bs : Bytes) → length (hex_encode bs) ≡ 2 * length bs
unfolding hex_encode
length-hex_encode [] = omega arith
length-hex_encode (b ∷ bs) = omega (arith, length-hex_encode bs)

-- Decoding the hexadecimal text of any bytes gives those bytes.
pub hex_decode-hex_encode : (bs : Bytes) → All IsByte bs → hex_decode (hex_encode bs) ≡ some bs
unfolding hex_decode
hex_decode-hex_encode bs h = ground (arith, length-hex_encode bs, decode_pairs-hex_encode bs h)

-- An ASCII letter in lower case; any other byte as it is.
abbrev pub to_lower : ℕ → ℕ
to_lower c = if leb b'A' c && leb c b'Z' then c + 32 else c

-- The digit of a value is the character it was read from, in lower case.
digit_ok : ℕ → Option ℕ → Bool
digit_ok c none = true
digit_ok c (some v) = hex_low v == to_lower c && leb v 15

digit_table : passes_below (λ c. digit_ok c (hex_value c)) 256 ≡ true
unfolding passes_below digit_ok hex_value
digit_table = refl

digit_lem : (c v : ℕ) → IsByte c → hex_value c ≡ some v → (hex_low v ≡ to_lower c) × (v ≤ 15)
unfolding digit_ok
digit_lem c v hc e =
    let split : digit_ok c (some v) ≡ true =
      rw e at (passes_below_lem (λ d. digit_ok d (hex_value d)) 256 c digit_table hc) in
    (ground arith, ground arith)

-- The nibbles that `(hi << 4) | lo` puts together.
nibble_table : passes_below (λ x. (bit_or (x / 16 * 16) (x % 16) == x)) 256 ≡ true
unfolding passes_below
nibble_table = refl

nibbles : (hi lo : ℕ) → hi ≤ 15 → lo ≤ 15 → bit_or (hi * 16) lo ≡ hi * 16 + lo
nibbles hi lo h l =
    let whole : bit_or ((hi * 16 + lo) / 16 * 16) ((hi * 16 + lo) % 16) ≡ hi * 16 + lo =
      (==_iff _ _).0 (passes_below_lem _ 256 (hi * 16 + lo) nibble_table (omega arith)) in
    let left : (hi * 16 + lo) / 16 * 16 ≡ hi * 16 = omega arith in
    let right : (hi * 16 + lo) % 16 ≡ lo = omega arith in rw (left, right) at whole

hex_high-low : (b : ℕ) → hex_high b ≡ hex_low (b / 16 % 16)
hex_high-low b = let e : b / 16 % 16 % 16 ≡ b / 16 % 16 = omega arith in rw e

decode_pair_lem :
    (c d b : ℕ)
    → IsByte c
    → IsByte d
    → decode_pair c d ≡ some b
    → IsByte b × (hex_high b ≡ to_lower c) × (hex_low b ≡ to_lower d)
unfolding decode_pair
decode_pair_lem c d b hc hd e =
    let (hi, eh, e') = >>=-eq-some (hex_value c) _ e in
    let (lo, el, e'') = >>=-eq-some (hex_value d) _ e' in
    let (ph, lh) = digit_lem c hi hc eh in
    let (pl, ll) = digit_lem d lo hd el in
    let value : hi * 16 + lo ≡ b = ground (arith, nibbles hi lo lh ll) in
    let high : b / 16 % 16 ≡ hi % 16 = omega arith in
    let low : b % 16 ≡ lo % 16 = omega arith in (omega arith, rw high ph, rw low pl)

decode_pairs_lem :
    (text bs : Bytes)
    → All IsByte text
    → decode_pairs text ≡ some bs
    → All IsByte bs × (hex_encode bs ≡ map to_lower text)
unfolding decode_pairs hex_encode
decode_pairs_lem [] bs h e = rw (← some-injective _ _ e) (tt, refl)
decode_pairs_lem (c ∷ []) bs h e = cc
decode_pairs_lem (c ∷ d ∷ rest) bs (hc, (hd, h)) e =
    let (b, eb, e') = >>=-eq-some (decode_pair c d) _ e in
    let (tail, et, e'') = >>=-eq-some (decode_pairs rest) _ e' in
    let (pb, ph, pl) = decode_pair_lem c d b hc hd eb in
    let (ptail, ptext) = decode_pairs_lem rest tail h et in
    rw (← some-injective _ _ e'') ((pb, ptail), rw (ph, pl, ptext))

-- The bytes of a decoded text are bytes, and encoding them gives the text in lower case.
pub hex_encode-hex_decode :
    (text bs : Bytes)
    → All IsByte text
    → hex_decode text ≡ some bs
    → All IsByte bs × (hex_encode bs ≡ map to_lower text)
unfolding hex_decode
hex_encode-hex_decode text bs h e = decode_pairs_lem text bs h (ground arith)

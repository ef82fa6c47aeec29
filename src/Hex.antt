-- ===== src/Hex.antt =====
-- src/util/hex.c: hexadecimal text to bytes and back.
pub mod RoundTrip
mod Runs
use Prim.Native.Nat.{bit_or}
use tamga_c.Prelude.{
  ℕ, ◌+◌, ◌-◌, ◌*◌, ◌/◌, ◌%◌, Bool, ◌&&◌, not, Option, none, some, [], ◌∷◌, leb, ◌==◌,
  if◌then◌else◌, length, get_or, Bytes, codes,
}
use tamga_c.Prelude.Options.{◌>>=◌}

abbrev pub hex_digits : Bytes
hex_digits = codes "0123456789abcdef"

-- `none` is the source's -1.
unfoldable pub hex_value : ℕ → Option ℕ
hex_value c =
    if leb b'0' c && leb c b'9'
    then some (c - b'0')
    else if leb b'a' c && leb c b'f'
    then some (c - b'a' + 10)
    else if leb b'A' c && leb c b'F'
    then some (c - b'A' + 10)
    else none

-- One round of the decoding loop: `(unsigned char)((hi << 4) | lo)`.
decode_pair : ℕ → ℕ → Option ℕ
decode_pair c d = do hi ← hex_value c; lo ← hex_value d; some (bit_or (hi * 16) lo % 256)

decode_pairs : Bytes → Option Bytes
decode_pairs [] = some []
decode_pairs (c ∷ []) = none
decode_pairs (c ∷ d ∷ rest) = do b ← decode_pair c d; bs ← decode_pairs rest; some (b ∷ bs)

-- `none` is a false return. The bytes that were written before it are not read by any caller.
unfoldable pub hex_decode : Bytes → Option Bytes
unfolding decode_pairs decode_pair hex_value
hex_decode text = if length text % 2 == 0 then decode_pairs text else none

abbrev pub hex_high : ℕ → ℕ
hex_high b = get_or hex_digits (b / 16 % 16) 0

abbrev pub hex_low : ℕ → ℕ
hex_low b = get_or hex_digits (b % 16) 0

unfoldable pub hex_encode : Bytes → Bytes
hex_encode [] = []
hex_encode (b ∷ bs) = hex_high b ∷ hex_low b ∷ hex_encode bs

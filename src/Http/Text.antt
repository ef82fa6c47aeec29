-- ===== src/Http/Text.antt =====
-- The text that goes into a request, of src/http/client.c: the API version, header values and
-- percent-encoding.
pub mod Safety
pub mod Decoded
use Prim.Native.Nat.{bit_and}
use tamga_c.Prelude.{
  ℕ, ◌+◌, ◌-◌, ◌/◌, ◌%◌, ◌≡◌, Bool, true, false, not, ◌&&◌, ◌||◌, Option, [], ◌∷◌, ◌++◌, ltb, leb,
  ◌==◌, if◌then◌else◌, get_or, Bytes, codes,
}
use tamga_c.Memory.Exec.{Allocator}
use tamga_c.Buf.{append_bytes}
use tamga_c.Buf.Written.{written}

within : ℕ → ℕ → ℕ → Bool
within low high c = leb low c && leb c high

unfoldable pub is_version_char : ℕ → Bool
unfolding within
is_version_char c =
    within b'0' b'9' c || within b'a' b'z' c || within b'A' b'Z' c || c == b'.' || c == b'-'

-- The bytes that the loop appends, `kept` of them before.
unfoldable pub version_bytes : ℕ → Bytes → Bytes
version_bytes kept [] = []
version_bytes kept (c ∷ cs) =
    let chosen = if is_version_char c then c ∷ [] else [] in
    let rest = version_bytes (if is_version_char c then kept + 1 else kept) cs in
    if ltb kept 32 then chosen ++ rest else []

-- tamga_sanitize_api_version, its argument not NULL.
unfoldable pub sanitize_api_version : Bytes → Allocator → ℕ → Option Bytes × ℕ
sanitize_api_version version = written (append_bytes (version_bytes 0 version))

-- tamga_header_value_is_safe, its argument not NULL.
unfoldable pub header_value_is_safe : Bytes → Bool
header_value_is_safe [] = true
header_value_is_safe (c ∷ cs) =
    let rest = header_value_is_safe cs in if c == 13 || c == 10 then false else rest

unfoldable pub is_unreserved : ℕ → Bool
unfolding within
is_unreserved c =
    within b'A' b'Z' c
    || within b'a' b'z' c
    || within b'0' b'9' c
    || c == b'-'
    || c == b'_'
    || c == b'.'
    || c == b'~'

abbrev pub upper_digits : Bytes
upper_digits = codes "0123456789ABCDEF"

-- `c >> 4` and `c & 0x0F`.
abbrev pub digit_high : ℕ → ℕ
digit_high c = get_or upper_digits (c / 16 % 16) 0

abbrev pub digit_low : ℕ → ℕ
digit_low c = get_or upper_digits (c % 16) 0

unfoldable pub encode_byte : ℕ → Bytes
encode_byte c = if is_unreserved c then c ∷ [] else b'%' ∷ digit_high c ∷ digit_low c ∷ []

-- The bytes that the loop appends.
unfoldable pub encoded_bytes : Bytes → Bytes
encoded_bytes [] = []
encoded_bytes (c ∷ cs) = encode_byte c ++ encoded_bytes cs

-- tamga_url_encode, its argument not NULL.
unfoldable pub url_encode : Bytes → Allocator → ℕ → Option Bytes × ℕ
url_encode value = written (append_bytes (encoded_bytes value))

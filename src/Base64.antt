-- ===== src/Base64.antt =====
-- src/util/base64.c: standard base64, strict about padding and leftover bits.
pub mod Alphabet
pub mod Shape
pub mod Quartets
pub mod RoundTrip
pub mod Sizes
pub mod Alloc
mod Runs
use tamga_c.Memory.{checked_add, checked_mul}
use tamga_c.Prelude.{
  ℕ, zero, suc, ◌+◌, ◌-◌, ◌*◌, ◌/◌, ◌%◌, ◌^◌, Bool, ◌&&◌, not, Option, none, some, List, [], ◌∷◌,
  ◌++◌, ltb, leb, ◌==◌, if◌then◌else◌, length, take, get_or, replicate, Bytes, codes,
}
use tamga_c.Prelude.Options.{◌>>=◌}

abbrev pub pad_char : ℕ
pad_char = b'='

abbrev pub alphabet : Bytes
alphabet = codes "ABCDEFGHIJKLMNOPQRSTUVWXYZabcdefghijklmnopqrstuvwxyz0123456789+/"

-- The numbers n, n + 1, …: `count` of them.
abbrev upward : ℕ → ℕ → List ℕ
upward zero n = []
upward (suc count) n = n ∷ upward count (n + 1)

-- The 256 entries of TAMGA_B64_REVERSE, by runs; 0xff is "not in the alphabet".
abbrev pub reverse_table : List ℕ
reverse_table =
    replicate 43 0xff
    ++ ((62 ∷ replicate 3 0xff)
        ++ ((63 ∷ upward 10 52)
            ++ (replicate 7 0xff
                ++ (upward 26 0 ++ (replicate 6 0xff ++ (upward 26 26 ++ replicate 133 0xff))))))

unfoldable pub sextet : ℕ → ℕ
sextet c = get_or reverse_table c 0xff

-- TAMGA_B64_ALPHABET[s & 0x3F]
unfoldable pub letter : ℕ → ℕ
letter s = get_or alphabet (s % 64) 0

unfoldable pub decoded_cap : ℕ → Option ℕ
decoded_cap encoded_len = do groups ← checked_add encoded_len 3; checked_mul (groups / 4) 3

pub encoded_len : ℕ → Option ℕ
encoded_len decoded_len = do groups ← checked_add decoded_len 2; checked_mul (groups / 3) 4

-- `while (pad < 2 && body_len > 0 && in[body_len - 1] == '=')`; `room` is 2 - pad.
unfoldable pub strip_padding : ℕ → Bytes → ℕ → ℕ → ℕ × ℕ
strip_padding zero text body_len pad = (body_len, pad)
strip_padding (suc room) text body_len pad =
    let more = strip_padding room text (body_len - 1) (pad + 1) in
    if ltb 0 body_len && get_or text (body_len - 1) 0 == pad_char then more else (body_len, pad)

-- `(accum << 6) | sextet`. The shift leaves six zero bits, so the or is a sum. The accumulator is
-- taken with the 32 bits that `uint_fast32_t` has at least; only its low 14 are ever read.
abbrev pub shift_in : ℕ → ℕ → ℕ
shift_in accum s = (accum * 64 + s) % 2 ^ 32

-- `out[written++] = byte`, before the bytes that the later rounds write.
abbrev pub write : ℕ → Bytes × ℕ × ℕ → Bytes × ℕ × ℕ
write byte (out, accum, bits) = (byte ∷ out, accum, bits)

-- The decoding loop: the bytes that it writes, and the final `accum` and `accum_bits`.
unfoldable pub decode_chars : Bytes → ℕ → ℕ → Option (Bytes × ℕ × ℕ)
decode_chars [] accum bits = some ([], accum, bits)
decode_chars (c ∷ cs) accum bits =
    let s = sextet c in
    let accum' = shift_in accum s in
    let short = decode_chars cs accum' (bits + 6) in
    let long : Option (Bytes × ℕ × ℕ) = (do
      state ← decode_chars cs accum' (bits + 6 - 8)
      some (write (accum' / 2 ^ (bits + 6 - 8) % 256) state)) in
    if s == 0xff then none else if leb 8 (bits + 6) then long else short

-- The bits left over after the last whole byte must be zero.
unfoldable pub check_leftover : Bytes × ℕ × ℕ → Option Bytes
check_leftover (out, accum, bits) =
    if ltb 0 bits && not (accum % 2 ^ bits == 0) then none else some out

unfoldable pub decode_body : Bytes → Option Bytes
decode_body body = do state ← decode_chars body 0 0; check_leftover state

-- The tests on the lengths that stand before the loop.
unfoldable pub lengths_ok : Bytes → ℕ → ℕ → Bool
lengths_ok text body_len pad =
    if ltb 0 body_len && get_or text (body_len - 1) 0 == pad_char
    then Bool.false
    else if ltb 0 pad && not ((body_len + pad) % 4 == 0)
    then Bool.false
    else if body_len % 4 == 1
    then Bool.false
    else if pad == 1 && not (body_len % 4 == 3)
    then Bool.false
    else not (pad == 2 && not (body_len % 4 == 2))

-- tamga_base64_decode: `none` is a false return.
unfoldable pub base64_decode : Bytes → Option Bytes
base64_decode text =
    if length text == 0
    then some []
    else (let (body_len, pad) = strip_padding 2 text (length text) 0 in
        if lengths_ok text body_len pad then decode_body (take body_len text) else none)

-- tamga_base64_encode, without the NUL at the end.
unfoldable pub base64_encode : Bytes → Bytes
unfolding letter
base64_encode [] = []
base64_encode (a ∷ []) =
    let triple = a * 2 ^ 16 in
    letter (triple / 2 ^ 18) ∷ letter (triple / 2 ^ 12) ∷ pad_char ∷ pad_char ∷ []
base64_encode (a ∷ b ∷ []) =
    let triple = a * 2 ^ 16 + b * 2 ^ 8 in
    letter (triple / 2 ^ 18) ∷ letter (triple / 2 ^ 12) ∷ letter (triple / 2 ^ 6) ∷ pad_char ∷ []
base64_encode (a ∷ b ∷ c ∷ rest) =
    let triple = a * 2 ^ 16 + b * 2 ^ 8 + c in
    letter (triple / 2 ^ 18)
    ∷ letter (triple / 2 ^ 12)
    ∷ letter (triple / 2 ^ 6)
    ∷ letter triple
    ∷ base64_encode rest

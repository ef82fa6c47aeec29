-- ===== src/Uuid/Spellings.antt =====
-- The four spellings of a UUID.
use mathlib.Core.List.{append-nil}
use tamga_c.Prelude.{
  ℕ, ◌≡◌, refl, sym, ap, ◌∙◌, false, some, arith, [], ◌∷◌, ◌++◌, length, length-append, get_or, All,
  Bytes, IsByte, bytes_eq, c_string-id, contains_byte, contains_byte-append,
}
use tamga_c.Hex.{hex_encode}
use tamga_c.Hex.RoundTrip.{hex_decode-hex_encode, length-hex_encode}
use tamga_c.Uuid.{urn, parse_hyphenated, parse_text, uuid_parse, uuid_format}
use tamga_c.Uuid.Groups.{
  parse_hyphenated-uuid_format, length-uuid_format, clean-uuid_format, clean-hex_encode,
}

whole-parse :
    (bs : Bytes)
    → length bs ≡ 16
    → All IsByte bs
    → parse_hyphenated (uuid_format (some bs)) ≡ some bs
whole-parse bs h bytes =
    ap parse_hyphenated (sym (append-nil (uuid_format (some bs))))
    ∙ parse_hyphenated-uuid_format bs [] h bytes

plain-parse : (bs : Bytes) → length bs ≡ 16 → All IsByte bs → parse_text (hex_encode bs) ≡ some bs
unfolding parse_text
plain-parse bs h bytes =
    let size : length (hex_encode bs) ≡ 32 = omega (arith, length-hex_encode bs) in
    rw (size, hex_decode-hex_encode bs bytes) refl

hyphenated-parse :
    (bs : Bytes) → length bs ≡ 16 → All IsByte bs → parse_text (uuid_format (some bs)) ≡ some bs
unfolding parse_text
hyphenated-parse bs h bytes = rw (length-uuid_format bs h, whole-parse bs h bytes) refl

get_or-length : (xs : Bytes) (c : ℕ) → get_or (xs ++ c ∷ []) (length xs) 0 ≡ c
get_or-length [] c = refl
get_or-length (x ∷ xs) c = get_or-length xs c

urn-parse :
    (bs : Bytes)
    → length bs ≡ 16
    → All IsByte bs
    → parse_text (urn ++ uuid_format (some bs)) ≡ some bs
unfolding parse_text bytes_eq
urn-parse bs h bytes = rw (length-uuid_format bs h, whole-parse bs h bytes) refl

braced-parse :
    (bs : Bytes)
    → length bs ≡ 16
    → All IsByte bs
    → parse_text (b'{' ∷ (uuid_format (some bs) ++ b'}' ∷ [])) ≡ some bs
unfolding parse_text
braced-parse bs h bytes =
    let text = uuid_format (some bs) in
    let size = length-append text (b'}' ∷ []) in
    let closing : get_or (text ++ b'}' ∷ []) 36 0 ≡ b'}' =
      ap (λ i. get_or (text ++ b'}' ∷ []) i 0) (sym (length-uuid_format bs h))
      ∙ get_or-length text b'}' in
    rw (size, length-uuid_format bs h, closing, parse_hyphenated-uuid_format bs (b'}' ∷ []) h bytes)
      refl

-- A UUID in each of its four spellings, hyphenated, as a URN, in braces and as digits alone, is read as
-- its 16 bytes.
pub uuid_parse_spellings :
    (bs : Bytes)
    → length bs ≡ 16
    → All IsByte bs
    → (let text = uuid_format (some bs) in
        (uuid_parse (some text) ≡ some bs)
        × (uuid_parse (some (urn ++ text)) ≡ some bs)
        × (uuid_parse (some (b'{' ∷ (text ++ b'}' ∷ []))) ≡ some bs)
        × (uuid_parse (some (hex_encode bs)) ≡ some bs))
unfolding uuid_parse contains_byte
uuid_parse_spellings bs h bytes =
    let text = uuid_format (some bs) in
    let clean = clean-uuid_format bs h bytes in
    let in_braces : contains_byte 0 (text ++ b'}' ∷ []) ≡ false =
      contains_byte-append 0 text (b'}' ∷ []) ∙ rw clean refl in
    (
      ap parse_text (c_string-id text clean) ∙ hyphenated-parse bs h bytes,
      ap parse_text (c_string-id (urn ++ text) clean) ∙ urn-parse bs h bytes,
      ap parse_text (c_string-id (b'{' ∷ (text ++ b'}' ∷ [])) in_braces) ∙ braced-parse bs h bytes,
      ap parse_text (c_string-id (hex_encode bs) (clean-hex_encode bs bytes))
          ∙ plain-parse bs h bytes,
    )

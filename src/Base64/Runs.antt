-- ===== src/Base64/Runs.antt =====
-- Runs of the codec, and its theorems at concrete inputs.
use tamga_c.Prelude.{◌≡◌, ◌⊎◌, refl, none, some, [], ◌∷◌, arith, All, IsByte, Bytes, codes}
use tamga_c.Base64.{
  sextet, decode_chars, check_leftover, decode_body, strip_padding, lengths_ok, base64_decode,
  base64_encode,
}
use tamga_c.Base64.Shape.{unpadded}
use tamga_c.Base64.RoundTrip.{base64_decode-base64_encode, base64_decode_canonical}

foob : base64_encode (codes "foob") ≡ codes "Zm9vYg=="
unfolding base64_encode
foob = refl

abbrev text : Bytes
text = codes "Zm9vYg=="

decodes_foob : base64_decode text ≡ some (codes "foob")
unfolding base64_decode strip_padding lengths_ok decode_body decode_chars check_leftover sextet
decodes_foob = refl

-- A padding character inside the text, a single leftover character, leftover bits that are set.
refused :
    (base64_decode (codes "Zm=v") ≡ none)
    × (base64_decode (codes "Zm9vY") ≡ none)
    × (base64_decode (codes "Zm9vYh==") ≡ none)
    × (base64_decode (codes "Zm9v====") ≡ none)
unfolding base64_decode strip_padding lengths_ok decode_body decode_chars check_leftover sextet
refused = (refl, refl, refl, refl)

base64_decode-base64_encode_example :
    (base64_decode (base64_encode (0 ∷ 255 ∷ [])) ≡ some (0 ∷ 255 ∷ []))
    × (base64_decode (unpadded (0 ∷ 255 ∷ [])) ≡ some (0 ∷ 255 ∷ []))
base64_decode-base64_encode_example = base64_decode-base64_encode (0 ∷ 255 ∷ []) (omega arith)

base64_decode_canonical_example :
    All IsByte (codes "foob")
    × ((text ≡ base64_encode (codes "foob")) ⊎ (text ≡ unpadded (codes "foob")))
base64_decode_canonical_example =
    base64_decode_canonical text (codes "foob") (omega arith) decodes_foob

-- ===== src/Hex/Runs.antt =====
-- Runs of the codec, and its theorems at concrete inputs.
use tamga_c.Prelude.{All, IsByte, map, ◌≡◌, refl, none, some, [], ◌∷◌, arith, codes}
use tamga_c.Hex.{hex_decode, hex_encode}
use tamga_c.Hex.RoundTrip.{hex_decode-hex_encode, hex_encode-hex_decode, to_lower}

encodes_lowercase : hex_encode (0x00 ∷ 0x0f ∷ 0xa5 ∷ 0xff ∷ []) ≡ codes "000fa5ff"
unfolding hex_encode
encodes_lowercase = refl

decodes_either_case : hex_decode (codes "DeAdBeEf") ≡ some (0xde ∷ 0xad ∷ 0xbe ∷ 0xef ∷ [])
unfolding hex_decode
decodes_either_case = refl

rejects_odd_length : hex_decode (codes "abc") ≡ none
unfolding hex_decode
rejects_odd_length = refl

hex_decode-hex_encode_example : hex_decode (hex_encode (0 ∷ 165 ∷ [])) ≡ some (0 ∷ 165 ∷ [])
hex_decode-hex_encode_example = hex_decode-hex_encode (0 ∷ 165 ∷ []) (omega arith)

hex_encode-hex_decode_example :
    All IsByte (0xde ∷ 0xad ∷ []) × (hex_encode (0xde ∷ 0xad ∷ []) ≡ map to_lower (codes "DeAd"))
unfolding hex_decode
hex_encode-hex_decode_example =
    hex_encode-hex_decode (codes "DeAd") (0xde ∷ 0xad ∷ []) (omega arith) refl

-- ===== src/Uuid/Runs.antt =====
-- Runs of the UUID functions, and their theorems at concrete inputs.
use tamga_c.Prelude.{
  ◌≡◌, refl, arith, some, none, [], ◌∷◌, ◌++◌, length, Bytes, codes, bytes_eq, c_string,
}
use tamga_c.Hex.{hex_decode, hex_encode}
use tamga_c.Uuid.{
  urn, parse_groups, parse_hyphenated, parse_text, uuid_parse, uuid_format, uuid_normalize,
}
use tamga_c.Uuid.Spellings.{uuid_parse_spellings}
use tamga_c.Uuid.Normal.{uuid_normalize_stable}

abbrev shouted : Bytes
shouted = codes "URN:UUID:00112233-4455-6677-8899-AABBCCDDEEFF"

abbrev normal : Bytes
normal = codes "00112233-4455-6677-8899-aabbccddeeff"

abbrev bytes : Bytes
bytes =
    0x00 ∷ 0x11 ∷ 0x22 ∷ 0x33 ∷ 0x44 ∷ 0x55 ∷ 0x66 ∷ 0x77 ∷ 0x88 ∷ 0x99 ∷ 0xaa ∷ 0xbb ∷ 0xcc ∷ 0xdd
    ∷ 0xee ∷ 0xff ∷ []

runs :
    (uuid_normalize (some shouted) ≡ some normal)
    × (uuid_format (some bytes) ≡ normal)
    × (uuid_parse (some (codes "{00112233-4455-6677-8899-aabbccddeeff)")) ≡ none)
    × (uuid_parse (some (codes "00112233-445566-77-8899-aabbccddeeff")) ≡ none)
unfolding uuid_normalize uuid_parse uuid_format parse_text parse_hyphenated parse_groups hex_decode
    hex_encode bytes_eq c_string
runs = (refl, refl, refl, refl)

uuid_parse_spellings_example :
    (let text = uuid_format (some bytes) in
      (uuid_parse (some text) ≡ some bytes)
      × (uuid_parse (some (urn ++ text)) ≡ some bytes)
      × (uuid_parse (some (b'{' ∷ (text ++ b'}' ∷ []))) ≡ some bytes)
      × (uuid_parse (some (hex_encode bytes)) ≡ some bytes))
uuid_parse_spellings_example = uuid_parse_spellings bytes refl (omega arith)

uuid_normalize_stable_example :
    (length normal ≡ 36)
    × (uuid_normalize (some normal) ≡ some normal)
    × (uuid_parse (some normal) ≡ uuid_parse (some shouted))
uuid_normalize_stable_example = uuid_normalize_stable shouted normal (omega arith) runs.0

-- ===== src/Uuid.antt =====
-- src/util/uuid.c: UUIDs in their four spellings, and the one that is written.
pub mod Groups
pub mod Spellings
pub mod Normal
mod Runs
use tamga_c.Prelude.{
  ℕ, ◌+◌, ◌*◌, Bool, true, false, ◌||◌, ◌&&◌, not, Option, none, some, List, [], ◌∷◌, ◌++◌, map,
  leb, ◌==◌, if◌then◌else◌, length, take, drop, get_or, Bytes, bytes_eq, c_string, codes,
}
use tamga_c.Prelude.Options.{◌>>=◌}
use tamga_c.Hex.{hex_decode, hex_encode}

-- TAMGA_UUID_GROUP_BYTES
abbrev group_bytes : List ℕ
group_bytes = 4 ∷ 2 ∷ 2 ∷ 2 ∷ 6 ∷ []

skip_hyphen : Bytes → Option Bytes
skip_hyphen [] = none
skip_hyphen (c ∷ cs) = if c == b'-' then some cs else none

-- The rounds of the loop: a hyphen stands in front of each group but the first.
unfoldable pub parse_groups : Bool → List ℕ → Bytes → Option Bytes
unfolding skip_hyphen
parse_groups first [] text = some []
parse_groups first (k ∷ ks) text = do
  digits ← if first then some text else skip_hyphen text
  bytes ← hex_decode (take (k * 2) digits)
  rest ← parse_groups false ks (drop (k * 2) digits)
  some (bytes ++ rest)

unfoldable pub parse_hyphenated : Bytes → Option Bytes
parse_hyphenated text = parse_groups true group_bytes text

abbrev lower : ℕ → ℕ
lower c = if leb b'A' c && leb c b'Z' then c + 32 else c

abbrev pub urn : Bytes
urn = codes "urn:uuid:"

unfoldable pub parse_text : Bytes → Option Bytes
parse_text text =
    if length text == 45
    then (if bytes_eq (map lower (take 9 text)) urn then parse_hyphenated (drop 9 text) else none)
    else if length text == 38
    then (if not (get_or text 0 0 == b'{') || not (get_or text 37 0 == b'}')
        then none
        else parse_hyphenated (drop 1 text))
    else if length text == 36
    then parse_hyphenated text
    else if length text == 32
    then hex_decode text
    else none

-- The 16 bytes, where the text is a UUID.
unfoldable pub uuid_parse : Option Bytes → Option Bytes
uuid_parse none = none
uuid_parse (some text) = parse_text (c_string text)

-- The text that is written, without its NUL.
unfoldable pub uuid_format : Option Bytes → Bytes
uuid_format none = []
uuid_format (some bytes) =
    let hex = hex_encode bytes in
    take 8 hex
    ++ b'-'
      ∷ (take 4 (drop 8 hex)
          ++ b'-'
            ∷ (take 4 (drop 12 hex)
                ++ b'-' ∷ (take 4 (drop 16 hex) ++ b'-' ∷ take 12 (drop 20 hex))))

unfoldable pub uuid_normalize : Option Bytes → Option Bytes
uuid_normalize text = do bytes ← uuid_parse text; some (uuid_format (some bytes))

-- ===== src/Json/Parse/Utf8.antt =====
-- UTF-8 in src/util/json_parse.c: the test of a sequence, and the encoding of an escape.
pub mod Valid
use tamga_c.Prelude.{
  ℕ, ◌+◌, ◌/◌, ◌%◌, ◌∷◌, [], Bool, ◌||◌, not, ltb, leb, ◌&&◌, ◌==◌, if◌then◌else◌, Bytes,
}

abbrev pub between : ℕ → ℕ → ℕ → Bool
between lo hi c = leb lo c && leb c hi

-- `(c & 0xC0) == 0x80`, of a byte.
abbrev pub is_continuation : ℕ → Bool
is_continuation c = c / 64 == 2

two : Bytes → ℕ
two [] = 0
two (b1 ∷ _) = if is_continuation b1 then 2 else 0

three : ℕ → Bytes → ℕ
three b0 [] = 0
three b0 (b1 ∷ []) = 0
three b0 (b1 ∷ b2 ∷ _) =
    let lower = if b0 == 0xe0 then 0xa0 else 0x80 in
    let upper = if b0 == 0xed then 0x9f else 0xbf in
    if ltb b1 lower || ltb upper b1 then 0 else if is_continuation b2 then 3 else 0

four : ℕ → Bytes → ℕ
four b0 [] = 0
four b0 (b1 ∷ []) = 0
four b0 (b1 ∷ b2 ∷ []) = 0
four b0 (b1 ∷ b2 ∷ b3 ∷ _) =
    let lower = if b0 == 0xf0 then 0x90 else 0x80 in
    let upper = if b0 == 0xf4 then 0x8f else 0xbf in
    if ltb b1 lower || ltb upper b1
    then 0
    else if not (is_continuation b2) || not (is_continuation b3)
    then 0
    else 4

-- tamga_utf8_sequence_len
unfoldable pub sequence_len : Bytes → ℕ
unfolding two three four
sequence_len [] = 0
sequence_len (b0 ∷ more) =
    if ltb b0 0x80
    then 1
    else if between 0xc2 0xdf b0
    then two more
    else if between 0xe0 0xef b0
    then three b0 more
    else if between 0xf0 0xf4 b0
    then four b0 more
    else 0

-- tamga_utf8_encode: the bytes that are appended. Where the code joins bits by `|` they do not
-- overlap, so the sum is the same byte.
unfoldable pub utf8_encode : ℕ → Bytes
utf8_encode c =
    if ltb c 0x80
    then c ∷ []
    else if ltb c 0x800
    then (0xc0 + c / 64) ∷ (0x80 + c % 64) ∷ []
    else if ltb c 0x10000
    then (0xe0 + c / 4096) ∷ (0x80 + c / 64 % 64) ∷ (0x80 + c % 64) ∷ []
    else (0xf0 + c / 262144) ∷ (0x80 + c / 4096 % 64) ∷ (0x80 + c / 64 % 64) ∷ (0x80 + c % 64) ∷ []

-- ===== src/Json/Write/Strings.antt =====
-- The text of a string: a reference for tamga_json_write_escaped of src/util/json_write.c, by the table
-- of JSON's short escapes and the hexadecimal digits of RFC 8259.
use tamga_c.Prelude.{
  ℕ, ◌+◌, ◌/◌, ◌%◌, ◌<◌, ◌≡◌, refl, true, false, List, [], ◌∷◌, ◌++◌, ltb, ◌==◌, if◌then◌else◌,
  Bytes, bytes_eq, bytes_eq_iff, passes_below, passes_below_lem, arith, Bool-cases, inl, inr,
}
use tamga_c.Buf.Written.{Writes, skip-Writes, append-Writes, then-Writes}
use tamga_c.Json.Write.{escape, write_escapes, write_escaped}

-- Each byte that has a short escape, with the letter of it.
abbrev short_escapes : List (ℕ × ℕ)
short_escapes =
    (34, b'"') ∷ (92, b'\\') ∷ (8, b'b') ∷ (12, b'f') ∷ (10, b'n') ∷ (13, b'r') ∷ (9, b't') ∷ []

abbrev digit_of : ℕ → ℕ
digit_of n = if ltb n 10 then 48 + n else 87 + n

abbrev long_escape : ℕ → Bytes
long_escape c = b'\\' ∷ b'u' ∷ b'0' ∷ b'0' ∷ digit_of (c / 16) ∷ digit_of (c % 16) ∷ []

-- By the table, else by the code of a control, else as it is.
unfoldable pub escaped_by : List (ℕ × ℕ) → ℕ → Bytes
escaped_by [] c = if ltb c 32 then long_escape c else c ∷ []
escaped_by ((byte, letter) ∷ table) c =
    if c == byte then b'\\' ∷ letter ∷ [] else escaped_by table c

unfoldable pub escapes : Bytes → Bytes
escapes [] = []
escapes (c ∷ cs) = escaped_by short_escapes c ++ escapes cs

unfoldable pub quoted : Bytes → Bytes
quoted bytes = (b'"' ∷ [] ++ escapes bytes) ++ b'"' ∷ []

low_bytes : passes_below (λ c. bytes_eq (escape c) (escaped_by short_escapes c)) 93 ≡ true
unfolding passes_below bytes_eq escape escaped_by
low_bytes = refl

high_byte : (c : ℕ) → 92 < c → escape c ≡ escaped_by short_escapes c
unfolding escape escaped_by
high_byte c h = let plain : ltb c 32 ≡ false = ground arith in ground arith

pub escape-escaped_by : (c : ℕ) → escape c ≡ escaped_by short_escapes c
escape-escaped_by c = elim (Bool-cases (ltb c 93)) [
  | inl low ↦
      (bytes_eq_iff (escape c) (escaped_by short_escapes c)).0
        (passes_below_lem _ 93 c low_bytes (ground (arith, low)))
  | inr high ↦ high_byte c (ground (arith, high))
]

write_escapes-Writes : (bytes : Bytes) → Writes (write_escapes bytes) (escapes bytes)
unfolding write_escapes escapes
write_escapes-Writes [] = skip-Writes
write_escapes-Writes (c ∷ cs) =
    rw⁻¹ (escape-escaped_by c)
      (then-Writes _ _ _ _ (append-Writes (escape c)) (write_escapes-Writes cs))

pub write_escaped-Writes : (bytes : Bytes) → Writes (write_escaped bytes) (quoted bytes)
unfolding write_escaped quoted
write_escaped-Writes bytes =
    then-Writes _ _ _ _
      (then-Writes _ _ _ _ (append-Writes (b'"' ∷ [])) (write_escapes-Writes bytes))
      (append-Writes (b'"' ∷ []))

-- ===== src/Json/Parse/Strings.antt =====
-- String tokens: tamga_json_parse_string_into of src/util/json_parse.c.
pub mod Escapes
pub mod Text
use tamga_c.Prelude.{
  ℕ, zero, suc, ◌+◌, ◌-◌, ◌*◌, ◌∷◌, [], Bool, ◌||◌, not, Option, none, some, ltb, ◌==◌,
  if◌then◌else◌, length, take, drop, Bytes,
}
use tamga_c.Prelude.Options
use tamga_c.Memory.Exec.{Allocator, ok}
use tamga_c.Buf
use tamga_c.Buf.{Buf, append, append_bytes}
use tamga_c.Json.Parse.Reader.{
  Fault, malformed, out_of_memory, exhausted, Parser, pure, fail, scan, ◌>>=◌, ◌>>◌, peek, advance,
}
use tamga_c.Json.Parse.Utf8.{between, sequence_len, utf8_encode}

hex_digit : ℕ → Option ℕ
hex_digit c =
    if between b'0' b'9' c
    then some (c - b'0')
    else if between b'a' b'f' c
    then some (c - b'a' + 10)
    else if between b'A' b'F' c
    then some (c - b'A' + 10)
    else none

-- The loop of tamga_json_read_hex4. The low bits of `value << 4` are clear, so `|` adds the digit.
hex_digits : ℕ → ℕ → Bytes → Option (ℕ × Bytes)
hex_digits zero value text = some (value, text)
hex_digits (suc more) value [] = none
hex_digits (suc more) value (c ∷ cs) =
    Options.◌>>=◌ (hex_digit c) (λ d. hex_digits more (value * 16 + d) cs)

unfoldable pub read_hex4 : Bytes → Option (ℕ × Bytes)
unfolding hex_digits hex_digit
read_hex4 text = if ltb (length text) 4 then none else hex_digits 4 0 text

join_surrogates : ℕ → ℕ × Bytes → Option (ℕ × Bytes)
join_surrogates unit (low, rest) =
    if ltb low 0xdc00 || ltb 0xdfff low
    then none
    else some (0x10000 + (unit - 0xd800) * 1024 + (low - 0xdc00), rest)

-- A low surrogate has to follow, as an escape of its own.
low_half : ℕ → Bytes → Option (ℕ × Bytes)
low_half unit text =
    if ltb (length text) 6 || not (peek text == b'\\') || not (peek (advance text) == b'u')
    then none
    else Options.◌>>=◌ (read_hex4 (drop 2 text)) (join_surrogates unit)

scalar : ℕ × Bytes → Option (ℕ × Bytes)
scalar (unit, rest) =
    if between 0xd800 0xdbff unit
    then low_half unit rest
    else if between 0xdc00 0xdfff unit
    then none
    else some (unit, rest)

-- What stands behind `\u`: the code point.
unfoldable pub read_unicode : Bytes → Option (ℕ × Bytes)
unfolding read_hex4 scalar low_half join_surrogates
read_unicode text = Options.◌>>=◌ (read_hex4 text) scalar

-- The escapes of one letter, each with the byte that it stands for.
simple_escape : ℕ → Option ℕ
simple_escape e =
    if e == b'"' || e == b'\\' || e == b'/'
    then some e
    else if e == b'b'
    then some 8
    else if e == b'f'
    then some 12
    else if e == b'n'
    then some 10
    else if e == b'r'
    then some 13
    else if e == b't'
    then some 9
    else none

escaped : ℕ → Bytes → Option ℕ → Option (Bytes × Bytes)
escaped e cs (some b) = some (b ∷ [], cs)
escaped e cs none =
    if e == b'u' then Options.◌>>=◌ (read_unicode cs) (λ u. some (utf8_encode u.0, u.1)) else none

-- The bytes that the text behind a backslash stands for.
unfoldable pub read_escape : Bytes → Option (Bytes × Bytes)
unfolding escaped simple_escape
read_escape [] = none
read_escape (e ∷ cs) = escaped e cs (simple_escape e)

-- One sequence of the text that is not an escape.
unfoldable pub read_plain : Bytes → Option (Bytes × Bytes)
read_plain text =
    if ltb (peek text) 0x20
    then none
    else if sequence_len text == 0
    then none
    else some (take (sequence_len text) text, drop (sequence_len text) text)

pub data Step : Type 0 where
  more finished : Buf → Step

put : Buf → Bytes → Parser Step
put b bytes text m n = let (b', n') = append bytes b m n in (ok (more b', text), n')

put_bytes : Buf → Bytes → Parser Step
put_bytes b bytes text m n = let (b', n') = append_bytes bytes b m n in (ok (more b', text), n')

-- `return tamga_buf_ok(out)`: the one false return without a message, which stands for memory.
close : Buf → Parser Step
close b = if b.failed then fail out_of_memory else pure (finished b)

-- One round of the loop.
unfoldable pub string_step : Buf → Parser Step
unfolding put put_bytes close
string_step b [] = fail malformed []
string_step b (c ∷ cs) =
    if c == b'"'
    then close b cs
    else if c == b'\\'
    then (scan read_escape >>= put_bytes b) cs
    else (scan read_plain >>= put b) (c ∷ cs)

go_round : (Buf → Parser Buf) → Step → Parser Buf
go_round loop (finished b) = pure b
go_round loop (more b) = loop b

unfoldable pub string_loop : ℕ → Buf → Parser Buf
unfolding go_round
string_loop zero b = fail exhausted
string_loop (suc fuel) b = string_step b >>= go_round (string_loop fuel)

-- Every round reads a byte at least, so the length of the text is fuel enough.
unfoldable pub string_into : Parser Buf
string_into text =
    if peek text == b'"'
    then string_loop (suc (length text)) Buf.empty (advance text)
    else fail malformed text

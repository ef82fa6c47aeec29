-- ===== src/Json/Parse/Runs.antt =====
-- Runs of the parser, and its theorems at concrete inputs.
use tamga_c.Prelude.{
  ◌≢◌, ◌≡◌, ◌++◌, length, inl, arith, refl, true, ◌-◌, Option, none, some, [], ◌∷◌, Bytes, codes,
  bytes_eq, contains_byte, c_string,
}
use tamga_c.Prelude.Int.{ℤ, pos}
use tamga_c.Memory.{checked_add, checked_mul}
use tamga_c.Memory.Growth.{double_until}
use tamga_c.Memory.Exec.{Allocator, Result, ok, err}
use tamga_c.Buf.{append_bytes, append, detach_string, detach_raw, reserve}
use tamga_c.Json.{Json, null, integer, string, array, object, nil, cons, end, member}
use tamga_c.Json.Clone.{new_node, new_string, grow, snoc, snoc_member, copy_key, has_key, replace}
use tamga_c.Json.Build.{array_append, object_set}
use tamga_c.Json.Parse.Reader.{Fault, malformed, exhausted}
use tamga_c.Json.Parse.Utf8.{sequence_len, utf8_encode}
use tamga_c.Json.Parse.Utf8.Valid.{sequence_len-utf8_encode}
use tamga_c.Json.Parse.Strings.{
  read_hex4, read_unicode, read_escape, read_plain, string_step, string_loop, string_into,
}
use tamga_c.Json.Parse.Numbers.{Conversions, digit_run, number_token, number_value, read_number}
use tamga_c.Json.Parse.Strict.{IsStrict}
use tamga_c.Json.Parse.Strict.Documents.{json_parse-IsStrict, json_parse-ne-exhausted}
use tamga_c.Json.Parse.{
  max_depth, skip_ws, match_literal, parse_key, parse_string, parse_number, parse_literal, kind,
  delimiter, on_kind, on_delimiter, unless_closed, parse_value, json_parse,
}

abbrev generous : Allocator
generous = record { grants = λ n size. true }

-- Tokens of one digit.
abbrev one_digit : Bytes → Option ℤ
one_digit (d ∷ []) = some (pos (d - b'0'))
one_digit _ = none

abbrev conversions : Conversions
conversions = record { strtoll = one_digit; strtod = λ token. some 0 }

abbrev parse : Bytes → Result Fault Json
parse text = (json_parse conversions text generous 0).0

runs :
    (parse (codes " [1, {\"a\": true, \"a\": \"x\\u00e9\"} ,null]\n")
      ≡ ok (
          array (
            cons (integer (pos 1)) (
              cons
                (object (member (codes "a") (string (120 ∷ 195 ∷ 169 ∷ [])) end))
                (cons null nil)))))
    × (parse (codes "[1,]") ≡ err malformed)
    × (parse (codes "01") ≡ err malformed)
    × (parse (codes "\"\\ud800\"") ≡ err malformed)
    × (parse (codes "{\"\\u0000\":1}") ≡ err malformed)
    × (parse (codes "\"\\ud83d\\ude00\"") ≡ ok (string (240 ∷ 159 ∷ 152 ∷ 128 ∷ [])))
    × (parse (codes "1 2") ≡ err malformed)
    × (parse [] ≡ err malformed)
unfolding json_parse parse_value kind delimiter on_kind on_delimiter unless_closed skip_ws
    match_literal parse_key parse_string parse_number parse_literal read_number number_value
    number_token digit_run string_into string_loop string_step read_plain read_escape read_unicode
    read_hex4 utf8_encode sequence_len array_append object_set new_node new_string grow snoc
    snoc_member copy_key has_key replace append_bytes append detach_string detach_raw reserve
    bytes_eq contains_byte c_string checked_add checked_mul double_until
runs = (refl, refl, refl, refl, refl, refl, refl, refl)

parses : parse (codes "[[]]") ≡ ok (array (cons (array nil) nil))
unfolding json_parse parse_value kind delimiter on_kind on_delimiter unless_closed skip_ws
    array_append new_node grow snoc checked_mul
parses = refl

json_parse-ne-exhausted_example : parse (codes "[{\"a\"") ≢ err exhausted
json_parse-ne-exhausted_example = json_parse-ne-exhausted conversions (codes "[{\"a\"") generous 0

json_parse-IsStrict_example : IsStrict max_depth (array (cons (array nil) nil))
json_parse-IsStrict_example =
    json_parse-IsStrict conversions (codes "[[]]") generous 0 (array (cons (array nil) nil)) parses

abbrev euro : Bytes
euro = 226 ∷ 130 ∷ 172 ∷ 33 ∷ []

euro_len : sequence_len euro ≡ 3
unfolding sequence_len
euro_len = refl

sequence_len-utf8_encode_example :
    sequence_len (utf8_encode 0x20ac ++ codes "!") ≡ length (utf8_encode 0x20ac)
sequence_len-utf8_encode_example =
    sequence_len-utf8_encode 0x20ac (codes "!") (omega arith, inl (omega arith))

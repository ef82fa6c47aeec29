-- ===== src/Json/Parse.antt =====
-- src/util/json_parse.c: the recursive-descent parser.
pub mod Reader
pub mod Utf8
pub mod Strings
pub mod Numbers
pub mod Strict
mod Runs
use tamga_c.Prelude.{
  ℕ, zero, suc, ◌+◌, ◌-◌, ◌*◌, ◌∷◌, [], Bool, ◌||◌, not, Option, none, some, ltb, ◌==◌,
  if◌then◌else◌, length, take, drop, Bytes, bytes_eq, codes,
}
use tamga_c.Memory.{max_reasonable_len}
use tamga_c.Memory.Exec
use tamga_c.Memory.Exec.{Allocator, Exec, Result, ok, err, or_error, lift}
use tamga_c.Buf.{Buf, detach_string, detach_raw}
use tamga_c.Json.{Json, Items, Members, null, boolean, array, object, nil, end}
use tamga_c.Json.Clone.{Refused, new_node, new_string}
use tamga_c.Json.Build.{array_append, object_set}
use Reader.{
  Fault, malformed, out_of_memory, exhausted, Parser, pure, fail, run, scan, ◌>>=◌, ◌>>◌, peek,
  advance,
}
use Utf8.{between}
use Strings.{string_into}
use Numbers.{Conversions, read_number}

-- TAMGA_JSON_MAX_DEPTH
abbrev pub max_depth : ℕ
max_depth = 64

is_ws : ℕ → Bool
is_ws c = c == 32 || c == 9 || c == 10 || c == 13

unfoldable pub skip_ws : Bytes → Bytes
unfolding is_ws
skip_ws [] = []
skip_ws (c ∷ cs) = let rest = skip_ws cs in if is_ws c then rest else c ∷ cs

unfoldable pub match_literal : Bytes → Bytes → Option (Unit {0} × Bytes)
match_literal literal text =
    if ltb (length text) (length literal)
    then none
    else if not (bytes_eq (take (length literal) text) literal)
    then none
    else some (tt, drop (length literal) text)

-- A step that moves over text and cannot fail.
abbrev pub skipping : (Bytes → Bytes) → Parser (Unit {0})
skipping move text m n = (ok (tt, move text), n)

-- `if (peek == c) pos++; else fail`
abbrev pub expect : ℕ → Parser (Unit {0})
expect c text = if peek text == c then pure tt (advance text) else fail malformed text

-- A NULL result that no message goes with.
abbrev pub built : {A : Type 0} → Exec Refused A → Parser A
built act = run (Exec.map_error (λ _. out_of_memory) act)

abbrev pub detached : Fault → (Allocator → ℕ → Option Bytes × ℕ) → Parser Bytes
detached e act = run (λ m n. let (out, n') = act m n in (or_error e out, n'))

-- A key without a string is reported as an invalid key, also where it is the block that was refused.
unfoldable pub parse_key : Parser Bytes
parse_key = do b ← string_into; detached malformed (detach_string b)

unfoldable pub parse_string : Parser Json
parse_string = do
  b ← string_into
  bytes ← detached out_of_memory (detach_raw b)
  built (new_string bytes)

unfoldable pub parse_number : Conversions → Parser Json
parse_number c = do value ← scan (read_number c); built (new_node value)

unfoldable pub parse_literal : Bytes → Json → Parser Json
parse_literal literal value = do scan (match_literal literal); built (new_node value)

-- What the first byte of a value says.
pub data Kind : Type 0 where
  brace bracket quote letter_t letter_f letter_n digit unexpected : Kind

unfoldable pub kind : ℕ → Kind
kind c =
    if c == b'{'
    then brace
    else if c == b'['
    then bracket
    else if c == b'"'
    then quote
    else if c == b't'
    then letter_t
    else if c == b'f'
    then letter_f
    else if c == b'n'
    then letter_n
    else if c == b'-' || between b'0' b'9' c
    then digit
    else unexpected

-- What stands behind an element: a comma, the closing byte, or neither.
pub data Delimiter : Type 0 where
  comma closing neither : Delimiter

unfoldable pub delimiter : ℕ → ℕ → Delimiter
delimiter close c = if c == b',' then comma else if c == close then closing else neither

-- The switch of tamga_json_parse_value.
unfoldable pub on_kind : Conversions → Parser Json → Parser Json → Kind → Parser Json
on_kind c read_object read_array brace = read_object
on_kind c read_object read_array bracket = read_array
on_kind c read_object read_array quote = parse_string
on_kind c read_object read_array letter_t = parse_literal (codes "true") (boolean Bool.true)
on_kind c read_object read_array letter_f = parse_literal (codes "false") (boolean Bool.false)
on_kind c read_object read_array letter_n = parse_literal (codes "null") null
on_kind c read_object read_array digit = parse_number c
on_kind c read_object read_array unexpected = fail malformed

-- Behind an opening byte: the closing one ends an empty container.
unfoldable pub unless_closed : ℕ → Json → Parser Json → Parser Json
unless_closed close empty more text =
    if peek text == close then pure empty (advance text) else more text

unfoldable pub on_delimiter : Json → Parser Json → Delimiter → Parser Json
on_delimiter whole more comma text = more (skip_ws (advance text))
on_delimiter whole more closing text = pure whole (advance text)
on_delimiter whole more neither text = fail malformed text

-- Each call gives the fuel that it has left to the next; `depth` is the depth of the value.
unfoldable mutual
  -- tamga_json_parse_value
  pub parse_value : Conversions → ℕ → ℕ → Parser Json
  parse_value c zero depth text = fail exhausted text
  parse_value c (suc fuel) depth text =
      if not (ltb depth max_depth)
      then fail malformed text
      else on_kind c (parse_object c fuel depth) (parse_array c fuel depth)
          (kind (peek (skip_ws text))) (skip_ws text)

  -- tamga_json_parse_array
  pub parse_array : Conversions → ℕ → ℕ → Parser Json
  parse_array c zero depth = fail exhausted
  parse_array c (suc fuel) depth = do
    built (new_node (array nil))
    skipping (λ text. skip_ws (advance text))
    unless_closed b']' (array nil) (parse_items c fuel depth nil 0 0)

  -- Its loop.
  pub parse_items : Conversions → ℕ → ℕ → Items → ℕ → ℕ → Parser Json
  parse_items c zero depth items count capacity = fail exhausted
  parse_items c (suc fuel) depth items count capacity = do
    item ← parse_value c fuel (depth + 1)
    (items', count', capacity') ← built (array_append items count capacity item)
    skipping skip_ws
    λ text.
        on_delimiter (array items') (parse_items c fuel depth items' count' capacity')
          (delimiter b']' (peek text)) text

  -- tamga_json_parse_object
  pub parse_object : Conversions → ℕ → ℕ → Parser Json
  parse_object c zero depth = fail exhausted
  parse_object c (suc fuel) depth = do
    built (new_node (object end))
    skipping (λ text. skip_ws (advance text))
    unless_closed b'}' (object end) (parse_members c fuel depth end 0 0)

  -- Its loop.
  pub parse_members : Conversions → ℕ → ℕ → Members → ℕ → ℕ → Parser Json
  parse_members c zero depth members count capacity = fail exhausted
  parse_members c (suc fuel) depth members count capacity = do
    key ← parse_key
    skipping skip_ws
    expect b':'
    item ← parse_value c fuel (depth + 1)
    (members', count', capacity') ← built (object_set members count capacity key item)
    skipping skip_ws
    λ text.
        on_delimiter (object members') (parse_members c fuel depth members' count' capacity')
          (delimiter b'}' (peek text)) text

-- What is left behind the value may be white space only.
at_end : Json → Parser Json
at_end value text = if length (skip_ws text) == 0 then pure value [] else fail malformed text

abbrev forget_rest : Result Fault (Json × Bytes) → Result Fault Json
forget_rest (ok (value, rest)) = ok value
forget_rest (err e) = err e

-- tamga_json_parse, its text not NULL.
unfoldable pub json_parse : Conversions → Bytes → Exec Fault Json
unfolding at_end
json_parse c text m n =
    if ltb max_reasonable_len (length text)
    then (err malformed, n)
    else (let (r, n') = (parse_value c (3 * length text + 3) 0 >>= at_end) text m n in
        (forget_rest r, n'))

-- ===== src/Json/Write.antt =====
-- src/util/json_write.c: the two serializers.
pub mod Sort
pub mod Double
pub mod Strings
pub mod Printed
pub mod Canonical
mod Runs
use tamga_c.Prelude.{
  ℕ, zero, suc, ◌+◌, ◌*◌, ◌/◌, ◌%◌, Bool, true, false, ◌&&◌, Option, none, some, List, [], ◌∷◌,
  ◌++◌, ltb, ◌==◌, if◌then◌else◌, length, get_elem?, Bytes, codes, c_string,
}
use tamga_c.Prelude.Int.{ℤ}
use tamga_c.Memory.Exec.{Allocator, Result, ok, err}
use tamga_c.Buf.{Buf, fail, append, append_bytes}
use tamga_c.Buf.Written.{Write, ◌then◌, skip, written, append_fmt}
use tamga_c.Hex.{hex_high, hex_low}
use tamga_c.Json.{
  Json, Items, Members, null, boolean, integer, real, string, array, object, nil, cons, end, member,
}
use Sort.{iota, sort_keys}
use Double.{Formats, write_double}

-- The bytes that one byte of a string is written by. The hexadecimal digits are those of hex.c.
unfoldable pub escape : ℕ → Bytes
escape c =
    if c == b'"'
    then codes "\\\""
    else if c == b'\\'
    then codes "\\\\"
    else if c == 8
    then codes "\\b"
    else if c == 12
    then codes "\\f"
    else if c == 10
    then codes "\\n"
    else if c == 13
    then codes "\\r"
    else if c == 9
    then codes "\\t"
    else if ltb c 32
    then codes "\\u00" ++ hex_high c ∷ hex_low c ∷ []
    else c ∷ []

-- The loop: one append for each byte.
unfoldable pub write_escapes : Bytes → Write
write_escapes [] = skip
write_escapes (c ∷ cs) = append (escape c) then write_escapes cs

-- tamga_json_write_escaped
unfoldable pub write_escaped : Bytes → Write
write_escaped bytes = append (b'"' ∷ []) then write_escapes bytes then append (b'"' ∷ [])

-- tamga_buf_mark_failed
abbrev pub mark_failed : Write
mark_failed b m n = (fail b, n)

unfoldable pub comma_unless : Bool → Write
comma_unless first = if first then skip else append (b',' ∷ [])

-- One member: its key, up to a NUL, or a failed buffer where there is none, and its value.
unfoldable pub write_row : Option (Bytes × Write) → Write
unfolding write_escaped write_escapes
write_row none = mark_failed
write_row (some (key, write)) = write_escaped (c_string key) then append (b':' ∷ []) then write

-- The members at these places, in their order. Behind a failure nothing more is appended.
unfoldable pub write_rows : Bool → List (Bytes × Write) → List ℕ → Write
unfolding comma_unless write_row
write_rows first rows [] = skip
write_rows first rows (i ∷ order) =
    comma_unless first then write_row (get_elem? rows i) then write_rows false rows order

abbrev pub keys_of : List (Bytes × Write) → List Bytes
keys_of [] = []
keys_of ((key, write) ∷ rows) = key ∷ keys_of rows

unfoldable pub with_order : Result (Unit {0}) (List ℕ) → List (Bytes × Write) → Write
with_order (err e) rows = mark_failed
with_order (ok order) rows = write_rows true rows order then append (b'}' ∷ [])

-- tamga_json_write_object, with the writers of the members' values.
unfoldable pub write_object : Bool → List (Bytes × Write) → Write
unfolding with_order
write_object canonical rows b m n =
    let (b', n') = append (b'{' ∷ []) b m n in
    if canonical && ltb 1 (length rows)
    then (let (order, n2) = sort_keys (keys_of rows) m n' in with_order order rows b' m n2)
    else with_order (ok (iota (length rows))) rows b' m n'

unfoldable pub write_items : Bool → List Write → Write
unfolding comma_unless
write_items first [] = skip
write_items first (write ∷ writes) = comma_unless first then write then write_items false writes

-- tamga_json_write_value. The elements of a container are written by their own writers, in the order
-- that the container asks for.
unfoldable mutual
  pub write_value : Formats → Bool → Json → Write
  write_value f canonical null = append (codes "null")
  write_value f canonical (boolean true) = append (codes "true")
  write_value f canonical (boolean false) = append (codes "false")
  write_value f canonical (integer i) = append_fmt (f.integer i)
  write_value f canonical (real x) = write_double f x
  write_value f canonical (string bytes) = write_escaped bytes
  write_value f canonical (array items) =
      append (b'[' ∷ [])
      then write_items true (item_writers f canonical items)
      then append (b']' ∷ [])
  write_value f canonical (object members) =
      write_object canonical (member_writers f canonical members)

  pub item_writers : Formats → Bool → Items → List Write
  item_writers f canonical nil = []
  item_writers f canonical (cons x xs) = write_value f canonical x ∷ item_writers f canonical xs

  pub member_writers : Formats → Bool → Members → List (Bytes × Write)
  member_writers f canonical end = []
  member_writers f canonical (member k v rest) =
      (k, write_value f canonical v) ∷ member_writers f canonical rest

-- tamga_json_write_canonical and tamga_json_write
unfoldable pub json_write_canonical : Formats → Json → Allocator → ℕ → Option Bytes × ℕ
json_write_canonical f value = written (write_value f true value)

unfoldable pub json_write : Formats → Json → Allocator → ℕ → Option Bytes × ℕ
json_write f value = written (write_value f false value)

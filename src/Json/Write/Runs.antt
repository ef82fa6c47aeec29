-- ===== src/Json/Write/Runs.antt =====
-- Runs of the two serializers, and their theorems at concrete documents.
use mathlib.Core.List.{Pairwise, Perm, forall_mem-cons, not-mem-nil}
use mathlib.Core.List.Perm
use tamga_c.Prelude.{
  ◌≡◌, refl, ap, arith, true, false, none, some, List, [], ◌∷◌, get_or, Bytes, codes, contains_byte,
  c_string,
}
use tamga_c.Prelude.Int.{pos}
use tamga_c.Memory.{checked_add, checked_mul}
use tamga_c.Memory.Growth.{double_until}
use tamga_c.Memory.Exec.{Allocator}
use tamga_c.Buf.{append_bytes, append, append_reserved, detach_string, reserve}
use tamga_c.Buf.Written.{append_fmt, written}
use tamga_c.Fingerprint.Lexical.{◌≼◌}
use tamga_c.Json.{
  Members, null, boolean, integer, real, string, array, object, nil, cons, end, member,
}
use tamga_c.Json.Write.Double.{
  Formats, shortest, split_digits, strip_zeros, exponent_of, write_decimal, write_small,
  write_exponential, write_digits, write_parts, write_scratch, write_double,
}
use tamga_c.Json.Write.Sort.{
  key_cmp, not_after, key_le, merge, merge_pass, merge_passes, iota_from, iota, sorted_places,
  sort_keys,
}
use tamga_c.Json.Write.Sort.Keys.{sorted_places_sorted}
use tamga_c.Json.Write.{
  escape, write_escapes, write_escaped, comma_unless, write_row, write_rows, with_order,
  write_object, write_items, write_value, json_write_canonical, json_write,
}
use tamga_c.Json.Write.Strings.{quoted, escapes, escaped_by}
use tamga_c.Json.Write.Printed.{
  printed, row_text, rows_text, comma_text, places, object_text, items_text, json_write-printed,
}
use tamga_c.Json.Write.Canonical.{DistinctKeys, entries, canonical_order}

abbrev generous : Allocator
generous = record { grants = λ n size. true }

abbrev formats : Formats
formats = record {
  integer = λ i. some (codes "7");
  is_finite = λ x. true;
  exponential = λ precision x. some (codes "1.50e+00");
  reads_back = λ text x. true;
  strtol = λ text. pos 0;
  exponent = λ e. none;
}

-- {"b":["\n"],"a":7}
abbrev members : Members
members =
    member (codes "b") (array (cons (string (10 ∷ [])) nil))
      (member (codes "a") (integer (pos 7)) end)

abbrev others : Members
others =
    member (codes "a") (integer (pos 7))
      (member (codes "b") (array (cons (string (10 ∷ [])) nil)) end)

prints :
    (printed formats false (object members) ≡ codes "{\"b\":[\"\\n\"],\"a\":7}")
    × (printed formats true (object members) ≡ codes "{\"a\":7,\"b\":[\"\\n\"]}")
unfolding printed object_text rows_text comma_text row_text quoted escapes escaped_by c_string
    items_text places sorted_places key_cmp not_after key_le merge merge_pass merge_passes iota_from
    iota
prints = (refl, refl)

writes :
    ((json_write_canonical formats (object members) generous 0).0
      ≡ some (codes "{\"a\":7,\"b\":[\"\\n\"]}"))
    × ((json_write formats (real 0) generous 0).0 ≡ some (codes "1.5"))
unfolding json_write_canonical json_write written append_fmt append append_bytes append_reserved
    detach_string reserve checked_add checked_mul double_until contains_byte write_value
    write_object write_items write_rows write_row with_order comma_unless write_escaped
    write_escapes escape sort_keys sorted_places key_cmp not_after key_le merge merge_pass
    merge_passes iota_from iota c_string write_double shortest write_scratch split_digits
    write_parts strip_zeros exponent_of write_digits write_decimal write_small write_exponential
writes = (refl, refl)

json_write-printed_example :
    let value = boolean true in
    let out = codes "true" in
    ((json_write formats value generous 0).0 ≡ some out
      → (out ≡ printed formats false value) × (contains_byte 0 out ≡ false))
    × ((json_write_canonical formats value generous 0).0 ≡ some out
        → (out ≡ printed formats true value) × (contains_byte 0 out ≡ false))
json_write-printed_example = json_write-printed formats (boolean true) generous 0 (codes "true")

abbrev keys : List Bytes
keys = codes "b" ∷ codes "a" ∷ codes "ab" ∷ []

sorted_places_sorted_example :
    Perm (sorted_places keys) (iota 3)
    × Pairwise (λ i j. get_or keys i [] ≼ get_or keys j []) (sorted_places keys)
sorted_places_sorted_example = sorted_places_sorted keys

-- {"b":null,"a":true}
abbrev pair : Members
pair = member (codes "b") null (member (codes "a") (boolean true) end)

abbrev turned : Members
turned = member (codes "a") (boolean true) (member (codes "b") null end)

pair-DistinctKeys : DistinctKeys (entries pair)
pair-DistinctKeys =
    Pairwise.cons
      ((forall_mem-cons (λ x. hlevel)).1 (
        (λ e. (let heads = ap (λ k. get_or k 0 0) e in omega (arith, heads))),
        λ x m. absurd (not-mem-nil m),
      ))
      (Pairwise.cons (λ x m. absurd (not-mem-nil m)) Pairwise.nil)

canonical_texts :
    ((json_write_canonical formats (object pair) generous 0).0
      ≡ some (codes "{\"a\":true,\"b\":null}"))
    × ((json_write_canonical formats (object turned) generous 5).0
        ≡ some (codes "{\"a\":true,\"b\":null}"))
unfolding json_write_canonical json_write written append_fmt append append_bytes append_reserved
    detach_string reserve checked_add checked_mul double_until contains_byte write_value
    write_object write_items write_rows write_row with_order comma_unless write_escaped
    write_escapes escape sort_keys sorted_places key_cmp not_after key_le merge merge_pass
    merge_passes iota_from iota c_string
canonical_texts = (refl, refl)

canonical_order_example : codes "{\"a\":true,\"b\":null}" ≡ codes "{\"a\":true,\"b\":null}"
canonical_order_example =
    canonical_order formats pair turned generous generous 0 5 _ _ pair-DistinctKeys
      (Perm.swap _ _ _) canonical_texts.0 canonical_texts.1

-- ===== src/Fingerprint/Runs.antt =====
-- Runs of the canonical string, and its theorems at concrete inputs.
mod Insertion
use mathlib.Core.List.{Perm}
use mathlib.Core.List.Perm
use tamga_c.Prelude.{
  ℕ, ◌≡◌, ◌↔◌, refl, arith, true, false, some, none, List, [], ◌∷◌, ◌++◌, map, All, Bytes, codes,
  bytes_eq, contains_byte, c_string,
}
use tamga_c.Memory.{checked_add, checked_mul}
use tamga_c.Memory.Growth.{double_until}
use tamga_c.Memory.Exec.{Allocator, ok, err}
use tamga_c.Errors.{invalid_fingerprint_component}
use tamga_c.Buf.{append, detach_string, reserve}
use tamga_c.Checkout.Pem.{trim, trim_start, trim_end}
use tamga_c.Fingerprint.{
  separator, compare, compare_text, memcmp, is_control, has_control, is_label, label_length,
  assemble, build_component, build_all, is_repeated, has_duplicates, write_components,
  write_canonical, build_canonical,
}
use tamga_c.Fingerprint.Entries.{Entry, Input, entry, IsEntry, component_of}
use tamga_c.Fingerprint.Identity.{build_canonical_iff}
use tamga_c.Fingerprint.Labels.{AreDistinct, has_duplicates_iff}
use tamga_c.Fingerprint.Lexical.{lex, compare_text-lex}
use Insertion.{insert, insertion_sort, insertion_sort-Sorts}

abbrev generous : Allocator
generous = record { grants = λ n size. true }

abbrev host : Input
host = (some (codes "host"), some (codes " a=b\n"))

abbrev id : Input
id = (some (codes "id"), some (codes "7"))

abbrev text : Bytes
text = codes "tamga-fingerprint-v1" ++ separator ∷ (codes "host=a=b" ++ separator ∷ codes "id=7")

builds :
    ((build_canonical insertion_sort (id ∷ host ∷ []) generous 0).0 ≡ ok text)
    × ((build_canonical insertion_sort (host ∷ id ∷ []) generous 5).0 ≡ ok text)
    × ((build_canonical insertion_sort (host ∷ id ∷ host ∷ []) generous 0).0
        ≡ err invalid_fingerprint_component)
    × ((build_canonical insertion_sort [] generous 0).0 ≡ err invalid_fingerprint_component)
unfolding build_canonical insertion_sort insert compare compare_text memcmp label_length has_control
    is_control is_label assemble build_component build_all is_repeated has_duplicates
    write_components write_canonical append detach_string reserve trim trim_start trim_end bytes_eq
    contains_byte c_string checked_add checked_mul double_until
builds = (refl, refl, refl, refl)

build_canonical_iff_example :
    (text ≡ text) ↔ Perm (map entry (id ∷ host ∷ [])) (map entry (host ∷ id ∷ []))
build_canonical_iff_example =
    build_canonical_iff insertion_sort insertion_sort (id ∷ host ∷ []) (host ∷ id ∷ []) generous
      generous 0 5 text text insertion_sort-Sorts insertion_sort-Sorts builds.0 builds.1

abbrev entries : List Entry
entries = (codes "id", codes "7") ∷ (codes "host", codes "a=b") ∷ []

entries-IsEntry : All IsEntry entries
unfolding is_label has_control is_control
entries-IsEntry = (
  record { label = refl; named = omega arith; value = refl },
  (record { label = refl; named = omega arith; value = refl }, tt),
)

has_duplicates_iff_example :
    (has_duplicates (insertion_sort compare (map component_of entries)) ≡ false)
    ↔ AreDistinct entries
has_duplicates_iff_example =
    has_duplicates_iff insertion_sort entries insertion_sort-Sorts entries-IsEntry

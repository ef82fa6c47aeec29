-- ===== src/Fingerprint.antt =====
-- src/util/fingerprint.c: the canonical string of a machine's components.
pub mod Lexical
pub mod Entries
pub mod Built
pub mod Identity
pub mod Labels
mod Runs
use tamga_c.Prelude.{
  ℕ, ◌+◌, ◌*◌, Bool, true, false, ◌||◌, ◌&&◌, not, Option, none, some, List, [], ◌∷◌, ltb, leb,
  ◌==◌, if◌then◌else◌, length, take, Bytes, bytes_eq, c_string, codes,
}
use tamga_c.Memory.{checked_mul}
use tamga_c.Memory.Exec
use tamga_c.Memory.Exec.{
  Allocator, Exec, Result, ok, err, pure, raise, lift, guard, or_error, allocate, ◌>>=◌, ◌>>◌,
}
use tamga_c.Errors.{ErrorCode, null_argument, invalid_fingerprint_component, out_of_memory}
use tamga_c.Buf
use tamga_c.Buf.{Buf, append, detach_string}
use tamga_c.Checkout.Pem.{trim}

-- TAMGA_FINGERPRINT_DOMAIN, TAMGA_FINGERPRINT_SEPARATOR
abbrev pub domain : Bytes
domain = codes "tamga-fingerprint-v1"

abbrev pub separator : ℕ
separator = 0x1f

abbrev pub equals : ℕ
equals = 61

-- TamgaFpComponent; `len` is the length of `text`.
pub record Component : Type 0 where
  pub text : Bytes
  pub label_len : ℕ

-- Its size on a 64-bit target.
abbrev component_size : ℕ
component_size = 24

unfoldable pub is_control : ℕ → Bool
is_control c = leb c 0x1f || c == 0x7f

unfoldable pub has_control : Bytes → Bool
has_control [] = false
has_control (c ∷ cs) = is_control c || has_control cs

unfoldable pub is_label : Bytes → Bool
is_label [] = true
is_label (c ∷ cs) = if ltb c 0x21 || ltb 0x7e c || c == equals then false else is_label cs

-- The label's length, where it is valid.
unfoldable pub label_length : Bytes → Option ℕ
label_length label = if is_label label && ltb 0 (length label) then some (length label) else none

-- What a comparison says of its first operand: a negative, zero or positive result.
pub data Order : Type 0 where
  before same after : Order

-- memcmp on two spans of one length.
unfoldable pub memcmp : Bytes → Bytes → Order
memcmp [] ys = same
memcmp (x ∷ xs) [] = same
memcmp (x ∷ xs) (y ∷ ys) = if ltb x y then before else if ltb y x then after else memcmp xs ys

by_length : ℕ → ℕ → Order → Order
by_length a b before = before
by_length a b after = after
by_length a b same = if a == b then same else if ltb a b then before else after

-- The body of the comparison, on the two texts.
unfoldable pub compare_text : Bytes → Bytes → Order
unfolding by_length
compare_text x y =
    let shortest = if ltb (length x) (length y) then length x else length y in
    by_length (length x) (length y)
      (if ltb 0 shortest then memcmp (take shortest x) (take shortest y) else same)

unfoldable pub compare : Component → Component → Order
compare a b = compare_text a.text b.text

-- "label=value" in a buffer of its own.
unfoldable pub assemble : Bytes → Bytes → Exec ErrorCode Bytes
assemble label value m n =
    let (b1, n1) = append label Buf.empty m n in
    let (b2, n2) = append (equals ∷ []) b1 m n1 in
    let (b3, n3) = append value b2 m n2 in
    let (out, n4) = detach_string b3 m n3 in (or_error out_of_memory out, n4)

-- The white space that is trimmed, and the two loops that trim it, are those of src/checkout/pem.c.
unfoldable pub build_component : Option Bytes → Option Bytes → Exec ErrorCode Component
build_component label value = do
  name ← lift (or_error null_argument label)
  content ← lift (or_error null_argument value)
  label_len ← lift (or_error invalid_fingerprint_component (label_length (c_string name)))
  guard (not (has_control (trim (c_string content)))) invalid_fingerprint_component
  text ← assemble (c_string name) (trim (c_string content))
  pure (record { text = text; label_len = label_len })

unfoldable pub build_all : List (Option Bytes × Option Bytes) → Exec ErrorCode (List Component)
build_all [] = pure []
build_all ((label, value) ∷ more) = do
  first ← build_component label value
  rest ← build_all more
  pure (first ∷ rest)

-- The test of two neighbours.
unfoldable pub is_repeated : Component → Component → Bool
is_repeated prev cur =
    prev.label_len == cur.label_len
    && bytes_eq (take cur.label_len prev.text) (take cur.label_len cur.text)

unfoldable pub has_duplicates : List Component → Bool
has_duplicates [] = false
has_duplicates (a ∷ []) = false
has_duplicates (a ∷ b ∷ rest) = is_repeated a b || has_duplicates (b ∷ rest)

unfoldable pub write_components : List Component → Buf → Allocator → ℕ → Buf × ℕ
write_components [] b m n = (b, n)
write_components (c ∷ cs) b m n =
    let (b1, n1) = append (separator ∷ []) b m n in
    let (b2, n2) = append c.text b1 m n1 in write_components cs b2 m n2

unfoldable pub write_canonical : List Component → Exec ErrorCode Bytes
write_canonical components m n =
    let (b1, n1) = append domain Buf.empty m n in
    let (b2, n2) = write_components components b1 m n1 in
    let (out, n3) = detach_string b2 m n2 in (or_error out_of_memory out, n3)

-- The C library's qsort.
abbrev pub Qsort : Type 0
Qsort = (Component → Component → Order) → List Component → List Component

-- tamga_fingerprint_build_canonical, its arrays not NULL: labels and values, each of which may be.
unfoldable pub build_canonical : Qsort → List (Option Bytes × Option Bytes) → Exec ErrorCode Bytes
build_canonical qsort inputs = do
  guard (ltb 0 (length inputs)) invalid_fingerprint_component
  total ← lift (or_error out_of_memory (checked_mul (length inputs) component_size))
  allocate out_of_memory total
  components ← build_all inputs
  let sorted = qsort compare components
  guard (not (has_duplicates sorted)) invalid_fingerprint_component
  write_canonical sorted

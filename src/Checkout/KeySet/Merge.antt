-- ===== src/Checkout/KeySet/Merge.antt =====
-- src/checkout/key_set.c: adding every usable key of a published document, all of them or none.
pub mod Rows
pub mod Atomic
use tamga_c.Prelude.{
  ℕ, ◌+◌, Bool, true, false, ◌&&◌, ◌||◌, not, Option, none, some, List, [], ◌∷◌, ◌++◌, ltb, ◌==◌,
  if◌then◌else◌, length, Bytes, bytes_eq, c_string, codes,
}
use tamga_c.Memory.Exec
use tamga_c.Memory.Exec.{Allocator, Exec, Result, ok, err, pure, raise}
use tamga_c.Errors.{ErrorCode, out_of_memory, length_invalid, invalid_json}
use tamga_c.Hex.RoundTrip.{to_lower}
use tamga_c.Json.{Json, Items, nil, cons, object_get, as_object, as_array, as_string}
use tamga_c.Checkout.Primitives.{Primitives}
use tamga_c.Checkout.KeySet.{Entry, KeySet}
use tamga_c.Checkout.KeySet.Keys.{create, key_id_compute, key_decode, read_document}
use tamga_c.Checkout.KeySet.Store.{SetExec, ◌>>=◌, ◌>>◌, run, reserve, append}

-- The two C strings are equal but for the case of ASCII letters.
unfoldable pub equals_ignoring_case : Bytes → Bytes → Bool
equals_ignoring_case [] [] = true
equals_ignoring_case [] (y ∷ ys) = false
equals_ignoring_case (x ∷ xs) [] = false
equals_ignoring_case (x ∷ xs) (y ∷ ys) =
    let rest = equals_ignoring_case xs ys in if to_lower x == to_lower y then rest else false

-- The counters that the staging loop writes.
pub record Tally : Type 0 where
  pub skipped : ℕ
  pub mismatched : ℕ

abbrev skip : Tally → Tally
skip t = record t { skipped = t.skipped + 1 }

abbrev mismatch : Tally → Tally
mismatch t = record t { mismatched = t.mismatched + 1 }

usable : Option Bytes → Option Bytes → Option Bytes → Option (Bytes × Bytes × Bytes)
usable (some served_id) (some algorithm) (some public_key) =
    if length (c_string served_id) == 0
    then none
    else some (c_string served_id, c_string algorithm, public_key)
usable _ _ _ = none

-- The fields of a row that can be used: its id, its algorithm and its public key.
unfoldable pub row_fields : Json → Option (Bytes × Bytes × Bytes)
unfolding usable
row_fields resource =
    let attributes = object_get (some resource) (codes "attributes") in
    usable (as_string (object_get (some resource) (codes "id")))
      (as_string (object_get attributes (codes "algorithm")))
      (as_string (object_get attributes (codes "publicKey")))

-- Only a refused allocation is an error of the whole call; any other row is skipped.
add_decoded : Primitives → Bytes → Bytes → Tally → Result ErrorCode Bytes → SetExec Tally
add_decoded p served_id public_key t (ok decoded) = do
  append served_id decoded
  run (pure (if bytes_eq (key_id_compute p public_key) served_id then t else mismatch t))
add_decoded p served_id public_key t (err out_of_memory) = run (raise out_of_memory)
add_decoded p served_id public_key t (err _) = run (pure (skip t))

abbrev settle : {A : Type 0} → Exec ErrorCode A → SetExec (Result ErrorCode A)
settle act s m n = let (r, n') = act m n in (ok r, s, n')

stage_fields : Primitives → Tally → Option (Bytes × Bytes × Bytes) → SetExec Tally
stage_fields p t none = run (pure (skip t))
stage_fields p t (some (served_id, algorithm, public_key)) =
    if equals_ignoring_case algorithm (codes "ed25519")
    then (do decoded ← settle (key_decode public_key); add_decoded p served_id public_key t decoded)
    else run (pure (skip t))

stage_object : Primitives → Tally → Option Json → SetExec Tally
stage_object p t none = run (pure (skip t))
stage_object p t (some resource) = stage_fields p t (row_fields resource)

-- tamga_key_set_stage_resource
unfoldable pub stage_resource : Primitives → Tally → Json → SetExec Tally
unfolding stage_object stage_fields add_decoded row_fields
stage_resource p t resource = stage_object p t (as_object (some resource))

unfoldable pub stage_all : Primitives → Tally → Items → SetExec Tally
stage_all p t nil = run (pure t)
stage_all p t (cons x xs) = do t' ← stage_resource p t x; stage_all p t' xs

-- What the call reports: `*out_added`, and the two counters.
pub record Report : Type 0 where
  pub added : ℕ
  pub tally : Tally

take_over : List Entry → SetExec (Unit {0})
take_over staged s m n = (ok tt, record s { entries = s.entries ++ staged }, n)

staged_of : Result ErrorCode Tally × KeySet × ℕ → Result ErrorCode (Tally × KeySet) × ℕ
staged_of (ok t, set, n) = (ok (t, set), n)
staged_of (err e, set, n) = (err e, n)

stage_into : Primitives → Items → KeySet → Exec ErrorCode (Tally × KeySet)
stage_into p items set m n =
    staged_of (stage_all p (record { skipped = 0; mismatched = 0 }) items set m n)

-- The rows are staged into a set of their own.
unfoldable pub staged_rows : Primitives → Items → Exec ErrorCode (Tally × KeySet)
unfolding stage_into staged_of
staged_rows p items = Exec.◌>>=◌ create (stage_into p items)

-- tamga_key_set_add_json, its pointers not NULL.
unfoldable pub add_json : Primitives → Bytes → SetExec Report
unfolding staged_rows take_over
add_json p json = do
  items ← run (read_document p json)
  (tally, staged) ← run (staged_rows p items)
  reserve (length staged.entries)
  take_over staged.entries
  run (pure (record { added = length staged.entries; tally = tally }))

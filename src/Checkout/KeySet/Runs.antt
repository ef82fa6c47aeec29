-- ===== src/Checkout/KeySet/Runs.antt =====
-- The theorems on key sets at concrete inputs.
use tamga_c.Prelude.{
  ℕ, ◌≡◌, ◌≢◌, ◌⊎◌, refl, false, some, none, arith, [], ◌∷◌, length, All, Bytes, bytes_eq, c_string,
  codes, replicate,
}
use tamga_c.Memory.Exec.{Result, ok, err}
use tamga_c.Errors.{ErrorCode, unknown_signing_key}
use tamga_c.Json.{Items, array_items, as_array, as_object}
use tamga_c.Json.{Json, object_get, as_string}
use tamga_c.Checkout.Samples.{generous, primitives, good_key, enc, payload, key_document, key_set}
use tamga_c.Checkout.KeySet.Keys.{
  new_set, read_document, create, key_decode, key_id_compute, copy_id,
}
use tamga_c.Base64.{
  decoded_cap, base64_decode, strip_padding, lengths_ok, decode_body, decode_chars, check_leftover,
  sextet,
}
use tamga_c.Base64.Alloc.{decode_alloc}
use tamga_c.Hex.{hex_encode}
use tamga_c.Memory.{checked_add, checked_mul}
use tamga_c.Memory.Growth.{double_until}
use tamga_c.Checkout.KeySet.Store.{append, reserve}
use tamga_c.Checkout.KeySet.Store.Keeps.{IsValid, Extended, append-Extended}
use tamga_c.Checkout.KeySet.Merge.{
  add_json, staged_rows, stage_all, stage_resource, equals_ignoring_case,
}
use tamga_c.Checkout.KeySet.Merge.Atomic.{Reports, add_json-Extended}
use tamga_c.Checkout.KeySet.Select.{
  signature_length, lookup, find_verifier, label_failure, claims_key_id, select, unpublished_key_id,
}
use tamga_c.Checkout.KeySet.Select.Verdicts.{
  FirstWith, verifies, kid_of, find_verifier_lem, label_failure_unknown,
}

key_set-IsValid : IsValid key_set
key_set-IsValid = record { fits = omega arith; bounded = omega arith }

append-Extended_example :
    Extended
      (λ _ more. more ≡ record { key_id = c_string (codes "k2"); public_key = good_key } ∷ [])
      key_set
      (append (codes "k2") good_key key_set generous 0)
append-Extended_example = append-Extended (codes "k2") good_key key_set generous 0 key_set-IsValid

abbrev rows : Items
rows = array_items (object_get (some key_document) (codes "data"))

reads : (read_document primitives (codes "K") generous 0).0 ≡ ok rows
unfolding read_document object_get as_array array_items bytes_eq
reads = refl

-- One of the two rows of the document holds a key.
adds_one :
    (add_json primitives (codes "K") key_set generous 0).0
    ≡ ok (record { added = 1; tally = record { skipped = 1; mismatched = 1 } })
unfolding add_json read_document object_get as_array array_items as_string as_object bytes_eq
    staged_rows create stage_all stage_resource equals_ignoring_case key_decode key_id_compute
    hex_encode append reserve copy_id c_string checked_add checked_mul double_until decode_alloc
    decoded_cap base64_decode strip_padding lengths_ok decode_body decode_chars check_leftover
    sextet
adds_one = refl

add_json-Extended_example :
    Extended (Reports rows) key_set (add_json primitives (codes "K") key_set generous 0)
add_json-Extended_example =
    add_json-Extended primitives (codes "K") rows key_set generous 0 key_set-IsValid reads

find_verifier_lem_example :
    ((key : Bytes)
      → find_verifier primitives key_set enc (replicate 64 0) ≡ some key
      → (length (replicate {A = ℕ} 64 0) ≡ signature_length)
        × FirstWith (verifies primitives enc (replicate 64 0)) key key_set.entries)
    × (find_verifier primitives key_set enc (replicate 64 0) ≡ none
        → (length (replicate {A = ℕ} 64 0) ≢ signature_length)
          ⊎ All
              (λ e. primitives.ed25519_verify e.public_key enc (replicate 64 0) ≡ false)
              key_set.entries)
find_verifier_lem_example = find_verifier_lem primitives key_set enc (replicate 64 0)

names_k1 : kid_of payload ≡ some (codes "k1")
unfolding claims_key_id object_get as_string bytes_eq
names_k1 = refl

k1 : c_string (codes "k1") ≡ codes "k1"
unfolding c_string
k1 = refl

labelled : label_failure new_set (ok payload) ≡ err unknown_signing_key
unfolding label_failure select lookup claims_key_id object_get as_string bytes_eq c_string
labelled = refl

label_failure_unknown_example :
    (p : Json) × (kid : Bytes) × (◌≡◌ {A = Result ErrorCode Json} (ok payload) (ok p))
    × (kid_of p ≡ some kid)
    × (c_string kid ≢ [])
    × (c_string kid ≢ unpublished_key_id)
    × All (λ e. e.key_id ≢ c_string kid) new_set.entries
label_failure_unknown_example = label_failure_unknown new_set (ok payload) labelled

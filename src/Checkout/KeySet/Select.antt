-- ===== src/Checkout/KeySet/Select.antt =====
-- src/checkout/key_set.c: finding the key that a file names, the key that verifies it, and the
-- error for a file that none verifies.
pub mod Verdicts
use tamga_c.Prelude.{
  ℕ, Bool, true, false, not, Option, none, some, List, [], ◌∷◌, ◌==◌, if◌then◌else◌, length, Bytes,
  bytes_eq, c_string, codes,
}
use tamga_c.Memory.Exec.{Result, ok, err}
use tamga_c.Errors.{
  ErrorCode, out_of_memory, null_argument, invalid_json, signature_invalid, unknown_signing_key,
  signing_key_not_published,
}
use tamga_c.Json.{Json, object_get, as_string}
use tamga_c.Checkout.Primitives.{Primitives}
use tamga_c.Checkout.KeySet.{Entry, KeySet}

-- TAMGA_UNPUBLISHED_KEY_ID
abbrev pub unpublished_key_id : Bytes
unpublished_key_id = codes "e3b0c44298fc1c14"

abbrev pub signature_length : ℕ
signature_length = 64

find_entry : List Entry → Bytes → Option Bytes
find_entry [] key_id = none
find_entry (e ∷ es) key_id =
    let rest = find_entry es key_id in if bytes_eq e.key_id key_id then some e.public_key else rest

-- tamga_key_set_lookup: the first entry under this id.
unfoldable pub lookup : KeySet → Bytes → Option Bytes
unfolding find_entry
lookup set key_id = find_entry set.entries (c_string key_id)

select_missing : Bytes → Option Bytes → Result ErrorCode Bytes
select_missing key_id (some public_key) = ok public_key
select_missing key_id none =
    if bytes_eq key_id unpublished_key_id
    then err signing_key_not_published
    else err unknown_signing_key

-- tamga_key_set_select, its set not NULL; `none` is a NULL id.
unfoldable pub select : KeySet → Option Bytes → Result ErrorCode Bytes
unfolding select_missing
select set none = err invalid_json
select set (some key_id) =
    if length (c_string key_id) == 0
    then err invalid_json
    else select_missing (c_string key_id) (lookup set key_id)

-- tamga_claims_key_id
unfoldable pub claims_key_id : Option Json → Option Bytes
claims_key_id meta = as_string (object_get meta (codes "kid"))

first_verifier : Primitives → List Entry → Bytes → Bytes → Option Bytes
first_verifier p [] message signature = none
first_verifier p (e ∷ es) message signature =
    let rest = first_verifier p es message signature in
    if p.ed25519_verify e.public_key message signature then some e.public_key else rest

-- tamga_key_set_find_verifier: the first key that verifies.
unfoldable pub find_verifier : Primitives → KeySet → Bytes → Bytes → Option Bytes
unfolding first_verifier
find_verifier p set message signature =
    if length signature == signature_length
    then first_verifier p set.entries message signature
    else none

-- `key != NULL`
abbrev pub is_there : Option Bytes → Bool
is_there none = false
is_there (some key) = true

label_selected : Result ErrorCode Bytes → Result ErrorCode (Unit {0})
label_selected (ok key) = err signature_invalid
label_selected (err invalid_json) = err signature_invalid
label_selected (err e) = err e

label_unread : ErrorCode → Result ErrorCode (Unit {0})
label_unread out_of_memory = err out_of_memory
label_unread null_argument = err null_argument
label_unread _ = err signature_invalid

-- tamga_key_set_label_failure: the probe's status, with the payload where there is one.
unfoldable pub label_failure : KeySet → Result ErrorCode Json → Result ErrorCode (Unit {0})
unfolding label_selected label_unread
label_failure set (err e) = label_unread e
label_failure set (ok payload) =
    label_selected (select set (claims_key_id (object_get (some payload) (codes "meta"))))

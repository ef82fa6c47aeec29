-- ===== src/Checkout/KeySet/Keys.antt =====
-- src/checkout/key_set.c: key ids, the decoding of published keys, and the reading of a document.
use tamga_c.Prelude.{ℕ, ◌+◌, ◌||◌, not, some, [], ltb, ◌==◌, length, take, Bytes, codes}
use tamga_c.Memory.{max_reasonable_len}
use tamga_c.Memory.Exec.{Exec, pure, lift, guard, or_error, map_error, allocate, ◌>>=◌, ◌>>◌}
use tamga_c.Errors.{ErrorCode, out_of_memory, length_invalid, invalid_json}
use tamga_c.Hex.{hex_encode}
use tamga_c.Base64.Alloc.{decode_alloc}
use tamga_c.Json.{Items, object_get, as_array}
use tamga_c.Checkout.Primitives.{Primitives}
use tamga_c.Checkout.Cert.{base64_error, parse_error}
use tamga_c.Checkout.KeySet.{KeySet}

-- sizeof(TamgaSigningKeySet) on a 64-bit target.
abbrev pub set_size : ℕ
set_size = 24

abbrev pub key_length : ℕ
key_length = 32

abbrev pub new_set : KeySet
new_set = record { entries = []; capacity = 0 }

-- tamga_key_set_create, its out-pointer not NULL.
unfoldable pub create : Exec ErrorCode KeySet
create = do allocate out_of_memory set_size; pure new_set

-- tamga_strdup of an id: NULL where the copy is refused or longer than the library accepts.
unfoldable pub copy_id : Bytes → Exec ErrorCode (Unit {0})
copy_id key_id = do
  guard (not (ltb max_reasonable_len (length key_id))) out_of_memory
  allocate out_of_memory (length key_id + 1)

-- tamga_signing_key_id_compute: eight bytes of the digest of the base64 text itself.
unfoldable pub key_id_compute : Primitives → Bytes → Bytes
key_id_compute p public_key = hex_encode (take 8 (p.sha256 public_key))

-- tamga_signing_key_decode; its error is `*out_status`.
unfoldable pub key_decode : Bytes → Exec ErrorCode Bytes
key_decode public_key = do
  decoded ← map_error base64_error (decode_alloc public_key)
  guard (length decoded == key_length) length_invalid
  pure decoded

-- The rows of a document: what tamga_key_set_add_json does before it stages them.
unfoldable pub read_document : Primitives → Bytes → Exec ErrorCode Items
read_document p json = do
  guard (not (length json == 0 || ltb max_reasonable_len (length json))) length_invalid
  document ← map_error parse_error (p.json_parse json)
  lift (or_error invalid_json (as_array (object_get (some document) (codes "data"))))

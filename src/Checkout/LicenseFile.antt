-- ===== src/Checkout/LicenseFile.antt =====
-- src/checkout/license_file.c: verifying a licence file.
pub mod Soundness
mod Runs
use tamga_c.Prelude.{
  ℕ, ◌+◌, ◌-◌, Bool, true, false, ◌&&◌, not, Option, none, some, ltb, ◌==◌, if◌then◌else◌, length,
  take, drop, Bytes, codes,
}
use tamga_c.Prelude.Int.{ℤ}
use tamga_c.Memory.Exec.{Exec, pure, raise, lift, guard, or_error, map_error, allocate, ◌>>=◌, ◌>>◌}
use tamga_c.Errors.{
  ErrorCode, out_of_memory, null_argument, unsupported_scheme, signature_invalid, decryption_failed,
  unknown,
}
use tamga_c.Base64.Alloc.{decode_alloc}
use tamga_c.Json.{Json}
use tamga_c.Checkout.Primitives.{Primitives}
use tamga_c.Checkout.Pem.{pem_extract}
use tamga_c.Checkout.Cert.{Cert, base64_error, alg_equals, cert_parse}
use tamga_c.Checkout.Claims.{Claims}
use tamga_c.Checkout.KeySet.{KeySet}
use tamga_c.Checkout.KeySet.Select.{find_verifier, is_there, signature_length}
use tamga_c.Checkout.Payload.{Trust, single, any_of, parse_payload, conclude}

abbrev pem_begin : Bytes
pem_begin = codes "-----BEGIN LICENSE FILE-----"

abbrev pem_end : Bytes
pem_end = codes "-----END LICENSE FILE-----"

abbrev pub alg_plain : Bytes
alg_plain = codes "base64+ed25519+v2"

abbrev pub alg_encrypted : Bytes
alg_encrypted = codes "aes-256-gcm+ed25519+v2"

abbrev pub nonce_length : ℕ
nonce_length = 12

abbrev pub tag_length : ℕ
tag_length = 16

-- tamga_license_open: the certificate, and whether its payload is encrypted.
unfoldable pub license_open : Primitives → Bytes → Exec ErrorCode (Cert × Bool)
license_open p pem = do
  body ← pem_extract pem pem_begin pem_end
  cert ← cert_parse p body
  if alg_equals cert alg_plain
      then pure (cert, false)
      else if alg_equals cert alg_encrypted
      then pure (cert, true)
      else raise unsupported_scheme

-- tamga_license_decode_signature
unfoldable pub decode_signature : Cert → Exec ErrorCode Bytes
decode_signature cert = do
  signature ← map_error base64_error (decode_alloc cert.sig)
  guard (length signature == signature_length) signature_invalid
  pure signature

-- Nonce, ciphertext and tag stand in one block.
decrypt : Primitives → Bytes → Option Bytes → Exec ErrorCode Bytes
decrypt p block license_key = do
  secret ← lift (or_error null_argument license_key)
  guard (not (ltb (length block) (nonce_length + tag_length))) decryption_failed
  key ← lift (or_error unknown (p.derive_license_file_key secret))
  allocate out_of_memory (length block - nonce_length)
  lift (
      or_error decryption_failed
        (p.gcm_open key (take nonce_length block) (drop nonce_length block)))

-- tamga_license_decode_payload; a NULL licence key is `none`.
unfoldable pub decode_payload : Primitives → Cert → Bool → Option Bytes → Exec ErrorCode Bytes
unfolding decrypt
decode_payload p cert encrypted license_key = do
  block ← map_error base64_error (decode_alloc cert.enc)
  if encrypted then decrypt p block license_key else pure block

-- The signature is checked over the base64 text of `enc`, not over what it encodes.
unfoldable pub check_signature : Primitives → Trust → Cert → Bytes → Bool
check_signature p (single key) cert signature = p.ed25519_verify key cert.enc signature
check_signature p (any_of keys) cert signature = is_there (find_verifier p keys cert.enc signature)

-- tamga_license_file_verify_core, its pointers not NULL.
unfoldable pub verify_core :
    Primitives → Bytes → Trust → Option Bytes → ℤ → Exec ErrorCode (Json × Claims)
verify_core p pem trust license_key now = do
  (cert, encrypted) ← license_open p pem
  signature ← decode_signature cert
  conclude p trust (check_signature p trust cert signature)
      (do plaintext ← decode_payload p cert encrypted license_key; parse_payload p plaintext) now

-- tamga_license_file_verify_at; `none` is a NULL pointer.
unfoldable pub verify_at :
    Primitives → Option Bytes → Option Bytes → Option Bytes → ℤ → Exec ErrorCode (Json × Claims)
verify_at p pem pubkey license_key now = do
  key ← lift (or_error null_argument pubkey)
  text ← lift (or_error null_argument pem)
  verify_core p text (single key) license_key now

-- tamga_license_file_verify_at_with_key_set
unfoldable pub verify_at_with_key_set :
    Primitives → Option Bytes → Option KeySet → Option Bytes → ℤ → Exec ErrorCode (Json × Claims)
verify_at_with_key_set p pem keys license_key now = do
  set ← lift (or_error null_argument keys)
  text ← lift (or_error null_argument pem)
  verify_core p text (any_of set) license_key now

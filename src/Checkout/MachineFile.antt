-- ===== src/Checkout/MachineFile.antt =====
-- src/checkout/machine_file.c: verifying a machine file.
pub mod Algorithm
pub mod Cipher
pub mod Plaintext
pub mod Named
pub mod Soundness
mod Runs
use tamga_c.Prelude.{
  ℕ, ◌+◌, ◌-◌, Bool, true, false, ◌&&◌, ◌||◌, not, Option, none, some, ltb, ◌==◌, if◌then◌else◌,
  length, take, drop, Bytes, codes, bytes_eq,
}
use tamga_c.Prelude.Int.{ℤ, pos, ltb_ℤ}
use tamga_c.Memory.{max_reasonable_len}
use tamga_c.Memory.Exec.{Exec, pure, raise, lift, guard, or_error, map_error, ◌>>=◌, ◌>>◌}
use tamga_c.Errors.{
  ErrorCode, null_argument, unsupported_scheme, length_invalid, key_id_not_applicable,
}
use tamga_c.Base64.Alloc.{decode_alloc}
use tamga_c.Json.{Json}
use tamga_c.Checkout.Primitives.{Primitives}
use tamga_c.Checkout.Pem.{pem_extract}
use tamga_c.Checkout.Cert.{Cert, base64_error, cert_parse}
use tamga_c.Checkout.Claims.{Claims}
use tamga_c.Checkout.KeySet.{KeySet}
use tamga_c.Checkout.KeySet.Keys.{key_length}
use tamga_c.Checkout.KeySet.Select.{find_verifier, is_there, signature_length}
use tamga_c.Checkout.Payload.{Trust, single, any_of, parse_payload, conclude}
use Algorithm.{alg_split}
use Cipher.{open_encrypted}

-- TamgaScheme, and any other value of the uint32_t that the functions take.
pub data Scheme : Type 0 where
  unset ed25519 rsa_pkcs1 rsa_pss ecdsa_p256 rsa_jwt : Scheme
  other : ℕ → Scheme

abbrev pem_begin : Bytes
pem_begin = codes "-----BEGIN MACHINE FILE-----"

abbrev pem_end : Bytes
pem_end = codes "-----END MACHINE FILE-----"

-- tamga_machine_alg_suffix
unfoldable pub alg_suffix : Scheme → Option Bytes
alg_suffix ed25519 = some (codes "ed25519")
alg_suffix rsa_pkcs1 = some (codes "rsa-sha256")
alg_suffix rsa_pss = some (codes "rsa-pss-sha256")
alg_suffix ecdsa_p256 = some (codes "ecdsa-p256")
alg_suffix _ = none

-- tamga_machine_check_signature
unfoldable pub check_scheme : Primitives → Scheme → Bytes → Bytes → Bytes → Bool
check_scheme p ed25519 pubkey message signature =
    if not (length pubkey == key_length) || not (length signature == signature_length)
    then false
    else p.ed25519_verify pubkey message signature
check_scheme p rsa_pkcs1 pubkey message signature = p.rsa_verify_pkcs1 pubkey message signature
check_scheme p rsa_pss pubkey message signature = p.rsa_verify_pss pubkey message signature
check_scheme p ecdsa_p256 pubkey message signature = p.ecdsa_verify pubkey message signature
check_scheme p _ pubkey message signature = false

-- Whether the payload is encrypted, by the encoding that `alg` begins with.
encoding : Bytes → Exec ErrorCode Bool
encoding prefix =
    if bytes_eq prefix (codes "base64")
    then pure false
    else if bytes_eq prefix (codes "aes-256-gcm")
    then pure true
    else raise unsupported_scheme

-- tamga_machine_open
unfoldable pub machine_open : Primitives → Bytes → Scheme → Exec ErrorCode (Cert × Bool)
unfolding encoding
machine_open p pem scheme = do
  expected ← lift (or_error unsupported_scheme (alg_suffix scheme))
  body ← pem_extract pem pem_begin pem_end
  cert ← cert_parse p body
  (prefix, suffix) ← lift (or_error unsupported_scheme (alg_split cert.alg))
  guard (bytes_eq suffix expected) unsupported_scheme
  encrypted ← encoding prefix
  pure (cert, encrypted)

-- tamga_machine_decode_payload; a NULL licence key or fingerprint is `none`.
unfoldable pub decode_payload :
    Primitives → Cert → Bool → Option Bytes → Option Bytes → Exec ErrorCode Bytes
decode_payload p cert encrypted license_key fingerprint =
    if encrypted
    then open_encrypted p cert.enc license_key fingerprint
    else map_error base64_error (decode_alloc cert.enc)

unfoldable pub check_signature : Primitives → Scheme → Trust → Cert → Bytes → Bool
check_signature p scheme (single key) cert signature = check_scheme p scheme key cert.enc signature
check_signature p scheme (any_of keys) cert signature =
    is_there (find_verifier p keys cert.enc signature)

key_length_ok : Trust → Exec ErrorCode (Unit {0})
key_length_ok (single key) =
    guard (not (length key == 0 || ltb max_reasonable_len (length key))) length_invalid
key_length_ok (any_of keys) = pure tt

-- tamga_machine_file_verify_core, its pointers not NULL.
unfoldable pub verify_core :
    Primitives
    → Bytes
    → Scheme
    → Trust
    → Option Bytes
    → Option Bytes
    → ℤ
    → Exec ErrorCode (Json × Claims)
unfolding key_length_ok
verify_core p pem scheme trust license_key fingerprint now = do
  key_length_ok trust
  (cert, encrypted) ← machine_open p pem scheme
  signature ← map_error base64_error (decode_alloc cert.sig)
  conclude p trust (check_signature p scheme trust cert signature)
      (do
        plaintext ← decode_payload p cert encrypted license_key fingerprint
        parse_payload p plaintext)
      now

-- tamga_machine_file_verify_at; `none` is a NULL pointer.
unfoldable pub verify_at :
    Primitives
    → Option Bytes
    → Scheme
    → Option Bytes
    → Option Bytes
    → Option Bytes
    → ℤ
    → Exec ErrorCode (Json × Claims)
verify_at p pem scheme pubkey license_key fingerprint now = do
  key ← lift (or_error null_argument pubkey)
  text ← lift (or_error null_argument pem)
  verify_core p text scheme (single key) license_key fingerprint now

is_ed25519 : Scheme → Bool
is_ed25519 ed25519 = true
is_ed25519 _ = false

-- Only an Ed25519 key can be chosen by its key id.
applicable : Scheme → Exec ErrorCode (Unit {0})
applicable scheme =
    if is_ed25519 scheme
    then pure tt
    else do lift (or_error unsupported_scheme (alg_suffix scheme)); raise key_id_not_applicable

-- tamga_machine_file_verify_at_with_key_set
unfoldable pub verify_at_with_key_set :
    Primitives
    → Option Bytes
    → Scheme
    → Option KeySet
    → Option Bytes
    → Option Bytes
    → ℤ
    → Exec ErrorCode (Json × Claims)
unfolding applicable is_ed25519
verify_at_with_key_set p pem scheme keys license_key fingerprint now = do
  set ← lift (or_error null_argument keys)
  applicable scheme
  text ← lift (or_error null_argument pem)
  verify_core p text scheme (any_of set) license_key fingerprint now

-- tamga_machine_file_ttl_is_valid; TAMGA_MACHINE_FILE_MAX_TTL_SECONDS is 31536000.
unfoldable pub ttl_is_valid : ℤ → Bool
ttl_is_valid ttl = ltb_ℤ (pos 0) ttl && not (ltb_ℤ (pos 31_536_000) ttl)

-- ===== src/Checkout/MachineFile/Cipher.antt =====
-- tamga_machine_open_encrypted of src/checkout/machine_file.c.
use tamga_c.Prelude.{
  ◌+◌, ◌-◌, ◌||◌, not, Option, ltb, ◌==◌, length, take, drop, Bytes, contains_byte,
}
use tamga_c.Memory.Exec.{Exec, pure, lift, guard, or_error, map_error, allocate, ◌>>=◌, ◌>>◌}
use tamga_c.Errors.{ErrorCode, out_of_memory, null_argument, decryption_failed, unknown}
use tamga_c.Base64.Alloc.{decode_alloc}
use tamga_c.Checkout.Primitives.{Primitives}
use tamga_c.Checkout.Cert.{base64_error}
use tamga_c.Checkout.LicenseFile.{nonce_length, tag_length}
use tamga_c.Checkout.MachineFile.Algorithm.{index_of}

-- The two halves of `enc` around its one '.', none of them empty.
unfoldable pub halves : Bytes → Exec ErrorCode (Bytes × Bytes)
halves enc = do
  dot ← lift (or_error decryption_failed (index_of b'.' enc))
  let nonce_b64 = take dot enc
  let cipher_b64 = drop (dot + 1) enc
  guard (not (length nonce_b64 == 0 || length cipher_b64 == 0)) decryption_failed
  guard (not (contains_byte b'.' cipher_b64)) decryption_failed
  pure (nonce_b64, cipher_b64)

unfoldable pub open_encrypted :
    Primitives → Bytes → Option Bytes → Option Bytes → Exec ErrorCode Bytes
open_encrypted p enc license_key fingerprint = do
  secret ← lift (or_error null_argument license_key)
  machine ← lift (or_error null_argument fingerprint)
  (nonce_b64, cipher_b64) ← halves enc
  nonce ← map_error base64_error (decode_alloc nonce_b64)
  guard (length nonce == nonce_length) decryption_failed
  cipher ← map_error base64_error (decode_alloc cipher_b64)
  guard (ltb tag_length (length cipher)) decryption_failed
  key ← lift (or_error unknown (p.derive_machine_file_key secret machine))
  allocate out_of_memory (length cipher - tag_length)
  lift (or_error decryption_failed (p.gcm_open key nonce cipher))

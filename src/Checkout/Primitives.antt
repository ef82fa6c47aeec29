-- ===== src/Checkout/Primitives.antt =====
-- What the offline files use of src/crypto and src/util/json_parse.c: the interface of the
-- verifiers, of the key derivation, of the cipher and of the parser.
use tamga_c.Prelude.{Bool, Option, Bytes}
use tamga_c.Memory.Exec.{Exec}
use tamga_c.Json.{Json, Doubles}

-- A parse that returns NULL: tamga_json_error_is_out_of_memory tells the two apart.
pub data ParseFailure : Type 0 where
  malformed out_of_memory : ParseFailure

pub record Primitives : Type 0 where
  -- tamga_ed25519_verify: key, message, signature.
  pub ed25519_verify : Bytes → Bytes → Bytes → Bool
  -- tamga_rsa_verify_pkcs1_sha256, tamga_rsa_verify_pss_sha256 and tamga_ecdsa_p256_verify.
  pub rsa_verify_pkcs1 : Bytes → Bytes → Bytes → Bool
  pub rsa_verify_pss : Bytes → Bytes → Bytes → Bool
  pub ecdsa_verify : Bytes → Bytes → Bytes → Bool
  -- tamga_sha256
  pub sha256 : Bytes → Bytes
  -- tamga_derive_license_file_key, tamga_derive_machine_file_key: `none` is a false return.
  pub derive_license_file_key : Bytes → Option Bytes
  pub derive_machine_file_key : Bytes → Bytes → Option Bytes
  -- tamga_gcm_open without additional data: key, nonce, ciphertext with its tag.
  pub gcm_open : Bytes → Bytes → Bytes → Option Bytes
  -- tamga_json_parse
  pub json_parse : Bytes → Exec ParseFailure Json
  pub doubles : Doubles

-- ===== src/Checkout/Cert.antt =====
-- src/checkout/cert.c: the certificate inside the envelope.
pub mod Parsed
use tamga_c.Prelude.{Bool, Option, Bytes, codes, bytes_eq, some}
use tamga_c.Memory.Exec.{Exec, lift, or_error, map_error, pure, ◌>>=◌, ◌>>◌}
use tamga_c.Errors.{ErrorCode, out_of_memory, invalid_base64, invalid_json}
use tamga_c.Base64.Alloc
use tamga_c.Base64.Alloc.{Failure, decode_alloc}
use tamga_c.Json.{Json, object_get, as_string}
use tamga_c.Checkout.Primitives
use tamga_c.Checkout.Primitives.{Primitives, ParseFailure}

pub record Cert : Type 0 where
  pub enc : Bytes
  pub sig : Bytes
  pub alg : Bytes

-- How every caller reports a failure of tamga_base64_decode_alloc_why and of tamga_json_parse.
abbrev pub base64_error : Failure → ErrorCode
base64_error Failure.out_of_memory = out_of_memory
base64_error Failure.malformed = invalid_base64

abbrev pub parse_error : ParseFailure → ErrorCode
parse_error ParseFailure.out_of_memory = out_of_memory
parse_error ParseFailure.malformed = invalid_json

-- tamga_cert_alg_equals: the length and every byte.
abbrev pub alg_equals : Cert → Bytes → Bool
alg_equals cert expected = bytes_eq cert.alg expected

-- tamga_cert_parse, its pointers not NULL.
unfoldable pub cert_parse : Primitives → Bytes → Exec ErrorCode Cert
cert_parse p body = do
  decoded ← map_error base64_error (decode_alloc body)
  root ← map_error parse_error (p.json_parse decoded)
  enc ← lift (or_error invalid_json (as_string (object_get (some root) (codes "enc"))))
  sig ← lift (or_error invalid_json (as_string (object_get (some root) (codes "sig"))))
  alg ← lift (or_error invalid_json (as_string (object_get (some root) (codes "alg"))))
  pure (record { enc = enc; sig = sig; alg = alg })

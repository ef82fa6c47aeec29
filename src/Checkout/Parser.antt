-- ===== src/Checkout/Parser.antt =====
-- The offline files with src/util/json_parse.c as the parser that they call.
pub mod Delivered
mod Runs
use tamga_c.Prelude.{Bytes}
use tamga_c.Memory.Exec.{Exec, map_error}
use tamga_c.Json.{Json}
use tamga_c.Json.Parse.Reader
use tamga_c.Json.Parse.Reader.{Fault}
use tamga_c.Json.Parse.Numbers.{Conversions}
use tamga_c.Json.Parse.{json_parse}
use tamga_c.Checkout.Primitives.{Primitives, ParseFailure, malformed, out_of_memory}

-- `exhausted` is no outcome of the parser.
abbrev as_failure : Fault → ParseFailure
as_failure Reader.malformed = malformed
as_failure Reader.out_of_memory = out_of_memory
as_failure Reader.exhausted = malformed

abbrev pub parser : Conversions → Bytes → Exec ParseFailure Json
parser c text = map_error as_failure (json_parse c text)

abbrev pub with_parser : Conversions → Primitives → Primitives
with_parser c p = record {
  ed25519_verify = p.ed25519_verify;
  rsa_verify_pkcs1 = p.rsa_verify_pkcs1;
  rsa_verify_pss = p.rsa_verify_pss;
  ecdsa_verify = p.ecdsa_verify;
  sha256 = p.sha256;
  derive_license_file_key = p.derive_license_file_key;
  derive_machine_file_key = p.derive_machine_file_key;
  gcm_open = p.gcm_open;
  json_parse = parser c;
  doubles = p.doubles;
}

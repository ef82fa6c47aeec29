-- ===== src/Checkout/Parser/Runs.antt =====
-- Files whose certificates and payloads are JSON texts.
use tamga_c.Prelude.{
  ◌≡◌, ◌-◌, refl, Option, none, some, [], ◌∷◌, ◌++◌, Bytes, codes, bytes_eq, contains_byte,
  c_string,
}
use tamga_c.Prelude.Int.{ℤ, pos}
use tamga_c.Memory.{checked_add, checked_mul}
use tamga_c.Memory.Growth.{double_until}
use tamga_c.Memory.Exec.{ok}
use tamga_c.Base64.{
  decoded_cap, base64_decode, strip_padding, lengths_ok, decode_body, decode_chars, check_leftover,
  sextet,
}
use tamga_c.Base64.Alloc.{decode_alloc}
use tamga_c.Buf.{append_bytes, append, detach_string, detach_raw, reserve}
use tamga_c.Json.{object, end, object_get, as_string, as_object, as_int, is_null}
use tamga_c.Json.Clone.{
  clone, clone_members, snoc, snoc_member, copy_key, has_key, replace, new_node, new_string, grow,
}
use tamga_c.Json.Build.{array_append, object_set}
use tamga_c.Json.Parse.Utf8.{sequence_len, utf8_encode}
use tamga_c.Json.Parse.Strings.{
  read_hex4, read_unicode, read_escape, read_plain, string_step, string_loop, string_into,
}
use tamga_c.Json.Parse.Numbers.{Conversions, digit_run, number_token, number_value, read_number}
use tamga_c.Json.Parse.{
  skip_ws, match_literal, parse_key, parse_string, parse_number, parse_literal, kind, delimiter,
  on_kind, on_delimiter, unless_closed, parse_value, json_parse,
}
use tamga_c.Checkout.Samples.{generous, primitives, good_key}
use tamga_c.Checkout.Primitives.{Primitives}
use tamga_c.Checkout.Pem.{pem_extract, trim, trim_start, trim_end, drop_spaces, body_between}
use tamga_c.Checkout.Cert.{cert_parse}
use tamga_c.Checkout.Claims.{Claims, claims_read, are_expired}
use tamga_c.Checkout.Payload.{single, conclude, finish, parse_payload}
use tamga_c.Checkout.LicenseFile
use tamga_c.Checkout.MachineFile
use tamga_c.Checkout.MachineFile.{rsa_pkcs1, machine_open, alg_suffix, check_scheme}
use tamga_c.Checkout.MachineFile.Algorithm.{alg_split, index_of, last_index_of}
use tamga_c.Checkout.Parser.{with_parser}
use tamga_c.Checkout.Parser.Delivered.{Delivered, license_file-Delivered, machine_file-Delivered}

-- Tokens of one digit.
abbrev one_digit : Bytes → Option ℤ
one_digit (d ∷ []) = some (pos (d - b'0'))
one_digit _ = none

abbrev conversions : Conversions
conversions = record { strtoll = one_digit; strtod = λ token. some 0 }

-- Any text is signed under the good key.
abbrev signed : Primitives
signed = record {
  ed25519_verify = λ key message signature. bytes_eq key good_key;
  rsa_verify_pkcs1 = λ key message signature. bytes_eq key good_key;
  rsa_verify_pss = primitives.rsa_verify_pss;
  ecdsa_verify = primitives.ecdsa_verify;
  sha256 = primitives.sha256;
  derive_license_file_key = primitives.derive_license_file_key;
  derive_machine_file_key = primitives.derive_machine_file_key;
  gcm_open = primitives.gcm_open;
  json_parse = primitives.json_parse;
  doubles = primitives.doubles;
}

abbrev issued : Claims
issued = record { issued_at = pos 1; expiry = some (pos 9) }

-- The payload is {"meta":{"iat":1,"exp":9},"data":{}}.
abbrev license_pem : Bytes
license_pem =
    codes "-----BEGIN LICENSE FILE-----\n"
    ++ codes "eyJlbmMiOiJleUp0WlhSaElqcDdJbWxoZENJNk1Td2laWGh3SWpvNWZTd2laR0Yw"
    ++ codes "WVNJNmUzMTkiLCJzaWciOiJBQUFBQUFBQUFBQUFBQUFBQUFBQUFBQUFBQUFBQUFB"
    ++ codes "QUFBQUFBQUFBQUFBQUFBQUFBQUFBQUFBQUFBQUFBQUFBQUFBQUFBQUFBQUFBQUFB"
    ++ codes "QUFBQUFBQT09IiwiYWxnIjoiYmFzZTY0K2VkMjU1MTkrdjIifQ=="
    ++ codes "\n-----END LICENSE FILE-----\n"

abbrev machine_pem : Bytes
machine_pem =
    codes "-----BEGIN MACHINE FILE-----\n"
    ++ codes "eyJlbmMiOiJleUp0WlhSaElqcDdJbWxoZENJNk1Td2laWGh3SWpvNWZTd2laR0Yw"
    ++ codes "WVNJNmUzMTkiLCJzaWciOiJBQUFBQUFBQUFBQUFBQUFBQUFBQUFBQUFBQUFBQUFB"
    ++ codes "QUFBQUFBQUFBQUFBQUFBQUFBQUFBQUFBQUFBQUFBQUFBQUFBQUFBQUFBQUFBQUFB"
    ++ codes "QUFBQUFBQT09IiwiYWxnIjoiYmFzZTY0K3JzYS1zaGEyNTYrdjIifQ=="
    ++ codes "\n-----END MACHINE FILE-----\n"

accepts :
    ((LicenseFile.verify_core
        (with_parser conversions signed)
        license_pem
        (single good_key)
        none
        (pos 60)
        generous
        0).0
      ≡ ok (object end, issued))
    × ((MachineFile.verify_core
          (with_parser conversions signed)
          machine_pem
          rsa_pkcs1
          (single good_key)
          none
          none
          (pos 60)
          generous
          0).0
        ≡ ok (object end, issued))
unfolding LicenseFile.verify_core LicenseFile.license_open LicenseFile.decode_signature
    LicenseFile.check_signature LicenseFile.decode_payload MachineFile.verify_core machine_open
    alg_suffix check_scheme MachineFile.check_signature MachineFile.decode_payload alg_split
    index_of last_index_of pem_extract trim trim_start trim_end drop_spaces body_between
    append_bytes append detach_string detach_raw reserve cert_parse decode_alloc decoded_cap
    base64_decode strip_padding lengths_ok decode_body decode_chars check_leftover sextet object_get
    as_string as_object conclude finish parse_payload claims_read as_int is_null are_expired clone
    clone_members snoc snoc_member copy_key has_key replace new_node new_string grow bytes_eq
    contains_byte c_string double_until checked_add checked_mul json_parse parse_value kind
    delimiter on_kind on_delimiter unless_closed skip_ws match_literal parse_key parse_string
    parse_number parse_literal read_number number_value number_token digit_run string_into
    string_loop string_step read_plain read_escape read_unicode read_hex4 utf8_encode sequence_len
    array_append object_set
accepts = (refl, refl)

license_file-Delivered_example :
    (file : LicenseFile.Soundness.Genuine
      (with_parser conversions signed)
      license_pem
      (single good_key)
      none
      (pos 60)
      (object end)
      issued)
    × Delivered conversions signed file.plaintext (pos 60) (object end) issued
license_file-Delivered_example =
    license_file-Delivered conversions signed license_pem (single good_key) none (pos 60) generous 0
      (object end) issued accepts.0

machine_file-Delivered_example :
    (file : MachineFile.Soundness.Authentic
      (with_parser conversions signed)
      machine_pem
      rsa_pkcs1
      (single good_key)
      none
      none
      (pos 60)
      (object end)
      issued)
    × Delivered conversions signed file.plaintext (pos 60) (object end) issued
machine_file-Delivered_example =
    machine_file-Delivered conversions signed machine_pem rsa_pkcs1 (single good_key) none none
      (pos 60) generous 0 (object end) issued accepts.1

-- ===== src/Checkout/LicenseFile/Runs.antt =====
-- Runs of the licence file's verifier.
use tamga_c.Prelude.{◌≡◌, refl, false, none, Bytes, codes, replicate}
use tamga_c.Prelude.Int.{pos}
use tamga_c.Memory.Exec.{ok, err}
use tamga_c.Errors.{signature_invalid, expired}
use tamga_c.Checkout.Samples.{
  generous, primitives, good_key, other_key, enc, sig, resource, claims, key_set,
}
use tamga_c.Checkout.Cert.{Cert}
use tamga_c.Checkout.Payload.{single, any_of}
use tamga_c.Checkout.LicenseFile.{
  verify_core, license_open, decode_signature, check_signature, decode_payload,
}
use tamga_c.Checkout.Pem.{pem_extract, trim, trim_start, trim_end, drop_spaces, body_between}
use tamga_c.Buf.{append_bytes, append, detach_string, reserve}
use tamga_c.Checkout.Cert.{cert_parse}
use tamga_c.Base64.{
  decoded_cap, base64_decode, strip_padding, lengths_ok, decode_body, decode_chars, check_leftover,
  sextet,
}
use tamga_c.Base64.Alloc.{decode_alloc}
use tamga_c.Json.{object_get, as_string, as_object, as_int, is_null}
use tamga_c.Json.Clone.{
  clone, clone_members, snoc_member, copy_key, has_key, new_node, new_string, grow,
}
use tamga_c.Checkout.Payload.{conclude, finish, parse_payload}
use tamga_c.Checkout.Claims.{claims_read, are_expired}
use tamga_c.Checkout.KeySet.Select.{find_verifier}
use tamga_c.Memory.{checked_add, checked_mul}
use tamga_c.Memory.Growth.{double_until}
use tamga_c.Prelude.{bytes_eq, contains_byte, c_string}
use tamga_c.Checkout.LicenseFile.Soundness.{Genuine, verify_core-Genuine}

abbrev pem : Bytes
pem = codes "\n-----BEGIN LICENSE FILE-----\nQQ\n==\n-----END LICENSE FILE-----\n"

abbrev certificate : Cert
certificate = record { enc = enc; sig = sig; alg = codes "base64+ed25519+v2" }

runs :
    ((verify_core primitives pem (single good_key) none (pos 1060) generous 0).0
      ≡ ok (resource, claims))
    × ((verify_core primitives pem (any_of key_set) none (pos 1060) generous 0).0
        ≡ ok (resource, claims))
    × ((verify_core primitives pem (any_of key_set) none (pos 1061) generous 0).0 ≡ err expired)
    × ((verify_core primitives pem (single other_key) none (pos 1061) generous 0).0
        ≡ err signature_invalid)
unfolding verify_core license_open decode_signature check_signature decode_payload pem_extract trim
    trim_start trim_end drop_spaces body_between append_bytes append detach_string reserve
    cert_parse decode_alloc decoded_cap base64_decode strip_padding lengths_ok decode_body
    decode_chars check_leftover sextet object_get as_string as_object find_verifier conclude finish
    parse_payload claims_read as_int is_null are_expired clone clone_members snoc_member copy_key
    has_key new_node new_string grow bytes_eq contains_byte c_string double_until checked_add
    checked_mul
runs = (refl, refl, refl, refl)

opens : license_open primitives pem generous 0 ≡ (ok (certificate, false), 2)
unfolding license_open pem_extract trim trim_start trim_end drop_spaces body_between append_bytes
    append detach_string reserve cert_parse decode_alloc decoded_cap base64_decode strip_padding
    lengths_ok decode_body decode_chars check_leftover sextet object_get as_string bytes_eq
    contains_byte double_until checked_add checked_mul
opens = refl

reads_signature : decode_signature certificate generous 2 ≡ (ok (replicate 64 0), 3)
unfolding decode_signature decode_alloc decoded_cap base64_decode strip_padding lengths_ok
    decode_body decode_chars check_leftover sextet checked_add checked_mul
reads_signature = refl

verify_core-Genuine_example :
    Genuine primitives pem (any_of key_set) none (pos 1060) resource claims
verify_core-Genuine_example =
    verify_core-Genuine primitives pem (any_of key_set) none (pos 1060) generous 0 resource claims
      runs.1

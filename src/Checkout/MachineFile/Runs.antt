-- ===== src/Checkout/MachineFile/Runs.antt =====
-- Runs of the machine file's verifier, and its theorems at concrete inputs.
use tamga_c.Prelude.{
  ◌≡◌, refl, none, some, ◌∷◌, ◌++◌, Bytes, codes, bytes_eq, contains_byte, c_string,
}
use tamga_c.Prelude.Int.{pos}
use tamga_c.Memory.{checked_add, checked_mul}
use tamga_c.Memory.Growth.{double_until}
use tamga_c.Memory.Exec.{ok}
use tamga_c.Base64.{
  decoded_cap, base64_decode, strip_padding, lengths_ok, decode_body, decode_chars, check_leftover,
  sextet,
}
use tamga_c.Base64.Alloc.{decode_alloc}
use tamga_c.Buf.{append_bytes, append, detach_string, reserve}
use tamga_c.Json.{object_get, as_string, as_object, as_int, is_null}
use tamga_c.Json.Clone.{
  clone, clone_members, snoc_member, copy_key, has_key, new_node, new_string, grow,
}
use tamga_c.Checkout.Samples.{generous, primitives, good_key, resource, claims}
use tamga_c.Checkout.Pem.{pem_extract, trim, trim_start, trim_end, drop_spaces, body_between}
use tamga_c.Checkout.Cert.{cert_parse}
use tamga_c.Checkout.Claims.{claims_read, are_expired}
use tamga_c.Checkout.Payload.{single, conclude, finish, parse_payload}
use tamga_c.Checkout.MachineFile.{
  rsa_pkcs1, verify_core, machine_open, alg_suffix, check_scheme, check_signature, decode_payload,
}
use tamga_c.Checkout.MachineFile.Algorithm.{plus, alg_split, index_of, last_index_of}
use tamga_c.Checkout.MachineFile.Algorithm.Joined.{alg_split-join}
use tamga_c.Checkout.MachineFile.Soundness.{Authentic, verify_core-Authentic}

abbrev pem : Bytes
pem = codes "-----BEGIN MACHINE FILE-----\nTQ==\n-----END MACHINE FILE-----\n"

accepts :
    (verify_core primitives pem rsa_pkcs1 (single good_key) none none (pos 0) generous 0).0
    ≡ ok (resource, claims)
unfolding verify_core machine_open alg_suffix check_scheme check_signature decode_payload alg_split
    index_of last_index_of pem_extract trim trim_start trim_end drop_spaces body_between
    append_bytes append detach_string reserve cert_parse decode_alloc decoded_cap base64_decode
    strip_padding lengths_ok decode_body decode_chars check_leftover sextet object_get as_string
    as_object conclude finish parse_payload claims_read as_int is_null are_expired clone
    clone_members snoc_member copy_key has_key new_node new_string grow bytes_eq contains_byte
    c_string double_until checked_add checked_mul
accepts = refl

verify_core-Authentic_example :
    Authentic primitives pem rsa_pkcs1 (single good_key) none none (pos 0) resource claims
verify_core-Authentic_example =
    verify_core-Authentic primitives pem rsa_pkcs1 (single good_key) none none (pos 0) generous 0
      resource claims accepts

splits : alg_split (codes "base64+a+b+v2") ≡ some (codes "base64", codes "a+b")
unfolding alg_split index_of last_index_of bytes_eq
splits = refl

alg_split-join_example :
    alg_split (codes "base64" ++ plus ∷ (codes "a+b" ++ codes "+v2"))
    ≡ some (codes "base64", codes "a+b")
unfolding contains_byte
alg_split-join_example = alg_split-join (codes "base64") (codes "a+b") refl

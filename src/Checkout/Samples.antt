-- ===== src/Checkout/Samples.antt =====
-- Concrete primitives, an allocator and documents for the runs of the modules beside this one.
use tamga_c.Prelude.{
  Bool, true, false, ◌&&◌, some, [], ◌∷◌, ◌++◌, if◌then◌else◌, Bytes, bytes_eq, codes, replicate,
  take,
}
use tamga_c.Prelude.Int.{pos}
use tamga_c.Memory.Exec.{Allocator, Exec, ok, err}
use tamga_c.Json.{Json, Doubles, end, member, object, string, integer, array, nil, cons}
use tamga_c.Checkout.Primitives.{Primitives, ParseFailure, malformed}
use tamga_c.Checkout.Claims.{Claims}
use tamga_c.Checkout.KeySet.{Entry, KeySet}

abbrev pub generous : Allocator
generous = record { grants = λ n size. true }

-- No sample holds a double.
abbrev pub doubles : Doubles
doubles = record {
  le = λ a b. false;
  lt = λ a b. false;
  eq = λ a b. false;
  neg = λ a. a;
  from_int64 = λ i. 0;
  to_int64 = λ a. pos 0;
}

abbrev pub good_key : Bytes
good_key = replicate 32 7

abbrev pub other_key : Bytes
other_key = replicate 32 8

abbrev pub enc : Bytes
enc = codes "Qg=="

-- The base64 text of 64 zero bytes.
abbrev pub sig : Bytes
sig = replicate 86 b'A' ++ codes "=="

abbrev pub resource : Json
resource = object (member (codes "id") (string (codes "L1")) end)

abbrev pub claims : Claims
claims = record { issued_at = pos 1; expiry = some (pos 1000) }

abbrev meta : Json
meta = object (
    member (codes "iat") (integer (pos 1))
      (member (codes "exp") (integer (pos 1000)) (member (codes "kid") (string (codes "k1")) end)))

abbrev pub payload : Json
payload = object (member (codes "meta") meta (member (codes "data") resource end))

abbrev certificate : Bytes → Json
certificate alg = object (
    member (codes "enc") (string enc)
      (member (codes "sig") (string sig) (member (codes "alg") (string alg) end)))

-- The text "A" holds a licence file's certificate, "M" a machine file's, "B" the payload and "K" a
-- document of keys.
abbrev row : Json
row = object (
    member (codes "id") (string (codes "k1")) (
      member (codes "attributes")
        (object (
          member (codes "algorithm") (string (codes "Ed25519"))
            (member (codes "publicKey") (string (replicate 43 b'A' ++ codes "=")) end)))
        end))

abbrev pub key_document : Json
key_document = object (member (codes "data") (array (cons row (cons (string (codes "x")) nil))) end)

abbrev parse : Bytes → Exec ParseFailure Json
parse text m n =
    if bytes_eq text (codes "A")
    then (ok (certificate (codes "base64+ed25519+v2")), n)
    else if bytes_eq text (codes "M")
    then (ok (certificate (codes "base64+rsa-sha256+v2")), n)
    else if bytes_eq text (codes "B")
    then (ok payload, n)
    else if bytes_eq text (codes "K")
    then (ok key_document, n)
    else (err malformed, n)

abbrev only_good : Bytes → Bytes → Bytes → Bool
only_good key message signature = bytes_eq key good_key && bytes_eq message enc

abbrev pub primitives : Primitives
primitives = record {
  ed25519_verify = only_good;
  rsa_verify_pkcs1 = only_good;
  rsa_verify_pss = only_good;
  ecdsa_verify = only_good;
  sha256 = λ text. take 32 (text ++ replicate 32 0);
  derive_license_file_key = λ secret. some secret;
  derive_machine_file_key = λ secret machine. some secret;
  gcm_open = λ key nonce cipher. some cipher;
  json_parse = parse;
  doubles = doubles;
}

abbrev pub held : Entry
held = record { key_id = codes "k1"; public_key = good_key }

abbrev pub unused : Entry
unused = record { key_id = codes "k0"; public_key = other_key }

abbrev pub key_set : KeySet
key_set = record { entries = unused ∷ held ∷ []; capacity = 4 }

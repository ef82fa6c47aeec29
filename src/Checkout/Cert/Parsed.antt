-- ===== src/Checkout/Cert/Parsed.antt =====
-- What a certificate that tamga_cert_parse returns has to do with the body of the envelope.
use mathlib.Core.Path.{subst}
use tamga_c.Prelude.{ℕ, ◌≡◌, Option, some, Bytes, codes}
use tamga_c.Memory.Exec.{
  Allocator, ok, lift, or_error, map_error, >>=-eq-ok, ok-injective, or_error-eq-ok,
  map_error-eq-ok,
}
use tamga_c.Errors.{invalid_json}
use tamga_c.Base64.{base64_decode}
use tamga_c.Base64.Alloc.{decode_alloc, decode_alloc-eq-ok}
use tamga_c.Json.{Json, object_get, as_string}
use tamga_c.Checkout.Primitives.{Primitives}
use tamga_c.Checkout.Cert.{Cert, base64_error, parse_error, cert_parse}

abbrev text_at : Json → Bytes → Option Bytes
text_at root key = as_string (object_get (some root) key)

-- The fields of the certificate are the strings of the JSON text that the body encodes.
pub record Parsed (p : Primitives) (body : Bytes) (cert : Cert) : Type 0 where
  pub decoded : Bytes
  pub decodes : base64_decode body ≡ some decoded
  pub root : Json
  pub memory : Allocator
  pub requests : ℕ
  pub parses : (p.json_parse decoded memory requests).0 ≡ ok root
  pub enc_text : as_string (object_get (some root) (codes "enc")) ≡ some cert.enc
  pub sig_text : as_string (object_get (some root) (codes "sig")) ≡ some cert.sig
  pub alg_text : as_string (object_get (some root) (codes "alg")) ≡ some cert.alg

pub cert_parse-Parsed :
    (p : Primitives) (body : Bytes) (m : Allocator) (n : ℕ) (cert : Cert)
    → (cert_parse p body m n).0 ≡ ok cert
    → Parsed p body cert
unfolding cert_parse
cert_parse-Parsed p body m n cert h =
    let (decoded, h0, k0) = >>=-eq-ok (map_error base64_error (decode_alloc body)) _ h in
    let (root, h1, k1) = >>=-eq-ok (map_error parse_error (p.json_parse decoded)) _ k0 in
    let (enc, h2, k2) =
      >>=-eq-ok (lift (or_error invalid_json (text_at root (codes "enc")))) _ k1 in
    let (sig, h3, k3) =
      >>=-eq-ok (lift (or_error invalid_json (text_at root (codes "sig")))) _ k2 in
    let (alg, h4, k4) =
      >>=-eq-ok (lift (or_error invalid_json (text_at root (codes "alg")))) _ k3 in
    let same : record { enc = enc; sig = sig; alg = alg } ≡ cert = ok-injective k4 in
    subst (Parsed p body) same (record {
      decoded = decoded;
      decodes =
          decode_alloc-eq-ok body m n decoded
            (map_error-eq-ok base64_error (decode_alloc body) m n h0);
      root = root;
      memory = m;
      requests = _;
      parses = map_error-eq-ok parse_error (p.json_parse decoded) m _ h1;
      enc_text = or_error-eq-ok invalid_json (text_at root (codes "enc")) h2;
      sig_text = or_error-eq-ok invalid_json (text_at root (codes "sig")) h3;
      alg_text = or_error-eq-ok invalid_json (text_at root (codes "alg")) h4;
    })

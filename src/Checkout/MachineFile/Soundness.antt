-- ===== src/Checkout/MachineFile/Soundness.antt =====
-- What stands behind a machine file that is accepted.
use mathlib.Core.Path.{subst}
use tamga_c.Prelude.{
  ℕ, ◌≡◌, inl, inr, ap, ◌∙◌, ◌∷◌, ◌++◌, Bool, true, Option, some, if◌then◌else◌, Bytes, bytes_eq,
  bytes_eq_iff, Bool-cases, codes,
}
use tamga_c.Prelude.Int.{ℤ}
use tamga_c.Memory.Exec.{
  Allocator, ok, lift, guard, or_error, map_error, ◌>>=◌, >>=-eq-ok, ok-injective, guard-eq-ok,
  or_error-eq-ok, map_error-eq-ok,
}
use tamga_c.Errors.{unsupported_scheme}
use tamga_c.Base64.{base64_decode}
use tamga_c.Base64.Alloc.{decode_alloc, decode_alloc-eq-ok}
use tamga_c.Json.{Json}
use tamga_c.Checkout.Primitives.{Primitives}
use tamga_c.Checkout.Pem.{trim, drop_spaces, pem_extract}
use tamga_c.Checkout.Pem.Extract.{pem_extract_sound}
use tamga_c.Checkout.Cert.{Cert, base64_error, parse_error, cert_parse}
use tamga_c.Checkout.Cert.Parsed.{Parsed, cert_parse-Parsed}
use tamga_c.Checkout.Claims.{Claims}
use tamga_c.Checkout.KeySet.Select.Verdicts.{found_verifier_lem}
use tamga_c.Checkout.Payload.{Trust, single, any_of, parse_payload}
use tamga_c.Checkout.Payload.Signed.{IsSigned}
use tamga_c.Checkout.Payload.Verdict.{Accepted, conclude_sound}
use tamga_c.Checkout.MachineFile.{
  Scheme, pem_begin, pem_end, alg_suffix, check_scheme, encoding, machine_open, decode_payload,
  check_signature, key_length_ok, verify_core,
}
use tamga_c.Checkout.MachineFile.Named.{IsSignedAs, IsSigned-IsSignedAs}
use tamga_c.Checkout.MachineFile.Plaintext.{Opens, decode_payload-Opens}
use tamga_c.Checkout.MachineFile.Algorithm.{alg_split}
use tamga_c.Checkout.MachineFile.Algorithm.Parts.{alg_split_sound}

-- The algorithm's name that fits a signing suffix.
abbrev named : Bool → Bytes → Bytes
named encrypted suffix =
    (if encrypted then codes "aes-256-gcm" else codes "base64") ++ b'+' ∷ (suffix ++ codes "+v2")

-- The text holds this certificate between its markers, and the certificate names the algorithm of
-- the caller's scheme.
pub record Opened (p : Primitives) (pem : Bytes) (scheme : Scheme) (cert : Cert) (encrypted : Bool)
    : Type 0 where
  pub raw : Bytes
  pub enclosed : trim pem ≡ pem_begin ++ (raw ++ pem_end)
  pub certificate : Parsed p (drop_spaces raw) cert
  pub suffix : Bytes
  pub suffix_of_scheme : alg_suffix scheme ≡ some suffix
  pub algorithm : cert.alg ≡ named encrypted suffix

encoding_lem :
    (prefix : Bytes) (m : Allocator) (n : ℕ) (encrypted : Bool)
    → (encoding prefix m n).0 ≡ ok encrypted
    → prefix ≡ (if encrypted then codes "aes-256-gcm" else codes "base64")
unfolding encoding
encoding_lem prefix m n encrypted h = elim (Bool-cases (bytes_eq prefix (codes "base64"))) [
  | inl plain ↦
      subst (λ b. prefix ≡ (if b then codes "aes-256-gcm" else codes "base64"))
        (ok-injective (rw plain at h)) ((bytes_eq_iff prefix (codes "base64")).0 plain)
  | inr other_one ↦ elim (Bool-cases (bytes_eq prefix (codes "aes-256-gcm"))) [
    | inl sealed ↦
        subst (λ b. prefix ≡ (if b then codes "aes-256-gcm" else codes "base64"))
          (ok-injective (rw (other_one, sealed) at h))
          ((bytes_eq_iff prefix (codes "aes-256-gcm")).0 sealed)
    | inr neither ↦ absurd (cc (rw (other_one, neither) at h))
  ]
]

machine_open-Opened :
    (p : Primitives) (pem : Bytes) (scheme : Scheme) (m : Allocator) (n : ℕ) (cert : Cert)
    (encrypted : Bool)
    → (machine_open p pem scheme m n).0 ≡ ok (cert, encrypted)
    → Opened p pem scheme cert encrypted
unfolding machine_open
machine_open-Opened p pem scheme m n cert encrypted h =
    let (expected, h0, k0) =
      >>=-eq-ok (lift (or_error unsupported_scheme (alg_suffix scheme))) _ h in
    let (body, h1, k1) = >>=-eq-ok (pem_extract pem pem_begin pem_end) _ k0 in
    let (c, h2, k2) = >>=-eq-ok (cert_parse p body) _ k1 in
    let (parts, h3, k3) = >>=-eq-ok (lift (or_error unsupported_scheme (alg_split c.alg))) _ k2 in
    let (prefix, suffix) = parts in
    let (_, h4, k4) = >>=-eq-ok (guard (bytes_eq suffix expected) unsupported_scheme) _ k3 in
    let (e, h5, k5) = >>=-eq-ok (encoding prefix) _ k4 in
    let same = ok-injective k5 in
    let (raw, enclosed, text, clean, _) = pem_extract_sound pem pem_begin pem_end m _ body h1 in
    let fits = (bytes_eq_iff suffix expected).0 (guard-eq-ok _ unsupported_scheme m _ h4) in
    let (joined, _) =
      alg_split_sound c.alg prefix suffix (or_error-eq-ok unsupported_scheme _ h3) in
    let start = encoding_lem prefix m _ e h5 in
    subst (λ (o : Cert × Bool). Opened p pem scheme o.0 o.1) same
      (record {
        raw = raw;
        enclosed = enclosed;
        certificate = subst (λ t. Parsed p t c) text (cert_parse-Parsed p body m _ c h2);
        suffix = expected;
        suffix_of_scheme = or_error-eq-ok unsupported_scheme (alg_suffix scheme) h0;
        algorithm =
            joined
            ∙ ap (λ (q : Bytes × Bytes). q.0 ++ b'+' ∷ (q.1 ++ codes "+v2")) (pair start fits);
      })
  where
    pair : {a b c d : Bytes} → a ≡ b → c ≡ d → ◌≡◌ {A = Bytes × Bytes} (a, c) (b, d)
    pair h k = cc

check_signature-IsSigned :
    (p : Primitives) (scheme : Scheme) (trust : Trust) (cert : Cert) (signature : Bytes)
    → check_signature p scheme trust cert signature ≡ true
    → IsSigned p (check_scheme p scheme) trust cert.enc signature
unfolding check_signature
check_signature-IsSigned p scheme (single key) cert signature h = h
check_signature-IsSigned p scheme (any_of set) cert signature h =
    found_verifier_lem p set cert.enc signature h

-- Everything that stands behind an accepted machine file.
pub record Authentic (p : Primitives) (pem : Bytes) (scheme : Scheme) (trust : Trust)
    (license_key fingerprint : Option Bytes) (now : ℤ) (resource : Json) (claims : Claims)
    : Type 0 where
  pub cert : Cert
  pub encrypted : Bool
  pub opened : Opened p pem scheme cert encrypted
  pub signature : Bytes
  pub signature_text : base64_decode cert.sig ≡ some signature
  pub signed : IsSigned p (check_scheme p scheme) trust cert.enc signature
  pub signed_as : IsSignedAs p opened.suffix trust cert.enc signature
  pub plaintext : Bytes
  pub plaintext_opens : Opens p cert.enc encrypted license_key fingerprint plaintext
  pub payload : Json
  pub memory : Allocator
  pub requests : ℕ
  pub payload_parses : (p.json_parse plaintext memory requests).0 ≡ ok payload
  pub accepted : Accepted p payload now resource claims

-- A machine file is accepted only if it is authentic: its certificate stands between the markers
-- and names the algorithm of the caller's scheme, its signature verifies over the text of `enc`
-- under that scheme and the key, by the primitive of the algorithm that the certificate names, or by
-- Ed25519 under a held key of the set, its payload is what that text encodes or encrypts, the claims are those of the payload and have not expired, and the
-- resource is a copy of the payload's `data`.
pub verify_core-Authentic :
    (p : Primitives) (pem : Bytes) (scheme : Scheme) (trust : Trust)
    (license_key fingerprint : Option Bytes) (now : ℤ) (m : Allocator) (n : ℕ) (resource : Json)
    (claims : Claims)
    → (verify_core p pem scheme trust license_key fingerprint now m n).0 ≡ ok (resource, claims)
    → Authentic p pem scheme trust license_key fingerprint now resource claims
unfolding verify_core parse_payload
verify_core-Authentic p pem scheme trust license_key fingerprint now m n resource claims h =
    let (_, _, k) = >>=-eq-ok (key_length_ok trust) _ h in
    let (o, h0, k0) = >>=-eq-ok (machine_open p pem scheme) _ k in
    let (cert, encrypted) = o in
    let (signature, h1, k1) = >>=-eq-ok (map_error base64_error (decode_alloc cert.sig)) _ k0 in
    let plain = decode_payload p cert encrypted license_key fingerprint in
    let (verified, payload, read, accepted) =
      conclude_sound p trust (check_signature p scheme trust cert signature)
        (plain >>= parse_payload p) now m _ resource claims k1 in
    let (plaintext, h2, k2) = >>=-eq-ok plain (parse_payload p) read in
    let opened = machine_open-Opened p pem scheme m _ cert encrypted h0 in
    let signed = check_signature-IsSigned p scheme trust cert signature verified in
    record {
      cert = cert;
      encrypted = encrypted;
      opened = opened;
      signature = signature;
      signature_text =
          decode_alloc-eq-ok cert.sig m _ signature
            (map_error-eq-ok base64_error (decode_alloc cert.sig) m _ h1);
      signed = signed;
      signed_as =
          IsSigned-IsSignedAs p scheme opened.suffix trust cert.enc signature
            opened.suffix_of_scheme signed;
      plaintext = plaintext;
      plaintext_opens =
          decode_payload-Opens p cert encrypted license_key fingerprint m _ plaintext h2;
      payload = payload;
      memory = m;
      requests = _;
      payload_parses = map_error-eq-ok parse_error (p.json_parse plaintext) m _ k2;
      accepted = accepted;
    }

-- ===== src/Checkout/LicenseFile/Soundness.antt =====
-- What stands behind a licence file that is accepted.
use mathlib.Core.Path.{subst}
use tamga_c.Prelude.{
  ℕ, ◌+◌, ◌-◌, ◌≡◌, inl, inr, refl, ap, ◌++◌, Bool, true, false, not, Option, some, ltb, ◌==◌,
  ==_iff, if◌then◌else◌, length, take, drop, Bytes, bytes_eq_iff, Bool-cases,
}
use tamga_c.Prelude.Int.{ℤ}
use tamga_c.Memory.Exec.{
  Allocator, Exec, Result, ok, pure, raise, lift, guard, or_error, map_error, allocate, ◌>>=◌,
  >>=-eq-ok, ok-injective, guard-eq-ok, or_error-eq-ok, map_error-eq-ok,
}
use tamga_c.Errors.{
  ErrorCode, null_argument, unsupported_scheme, signature_invalid, decryption_failed, unknown,
  out_of_memory,
}
use tamga_c.Base64.{base64_decode}
use tamga_c.Base64.Alloc.{decode_alloc, decode_alloc-eq-ok}
use tamga_c.Json.{Json}
use tamga_c.Checkout.Primitives.{Primitives}
use tamga_c.Checkout.Pem.{trim, drop_spaces, pem_extract}
use tamga_c.Checkout.Pem.Extract.{pem_extract_sound}
use tamga_c.Checkout.Cert.{Cert, base64_error, parse_error, alg_equals, cert_parse}
use tamga_c.Checkout.Cert.Parsed.{Parsed, cert_parse-Parsed}
use tamga_c.Checkout.Claims.{Claims}
use tamga_c.Checkout.KeySet.Select.{signature_length}
use tamga_c.Checkout.KeySet.Select.Verdicts.{found_verifier_lem}
use tamga_c.Checkout.Payload.{Trust, single, any_of, parse_payload}
use tamga_c.Checkout.Payload.Signed.{IsSigned}
use tamga_c.Checkout.Payload.Verdict.{Accepted, conclude_sound}
use tamga_c.Checkout.LicenseFile.{
  pem_begin, pem_end, alg_plain, alg_encrypted, nonce_length, tag_length, license_open,
  decode_signature, decrypt, decode_payload, check_signature, verify_core,
}

-- The text holds this certificate between its markers, and the certificate's algorithm says whether
-- the payload is encrypted.
pub record Opened (p : Primitives) (pem : Bytes) (cert : Cert) (encrypted : Bool) : Type 0 where
  pub raw : Bytes
  pub enclosed : trim pem ≡ pem_begin ++ (raw ++ pem_end)
  pub certificate : Parsed p (drop_spaces raw) cert
  pub algorithm : cert.alg ≡ (if encrypted then alg_encrypted else alg_plain)

by_algorithm : Cert → Exec ErrorCode (Cert × Bool)
by_algorithm cert =
    if alg_equals cert alg_plain
    then pure (cert, false)
    else if alg_equals cert alg_encrypted
    then pure (cert, true)
    else raise unsupported_scheme

by_algorithm_lem :
    (c : Cert) (m : Allocator) (n : ℕ) (cert : Cert) (encrypted : Bool)
    → (by_algorithm c m n).0 ≡ ok (cert, encrypted)
    → (c ≡ cert) × (cert.alg ≡ (if encrypted then alg_encrypted else alg_plain))
unfolding by_algorithm
by_algorithm_lem c m n cert encrypted h = elim (Bool-cases (alg_equals c alg_plain)) [
  | inl plain ↦
      settled c false cert encrypted ((bytes_eq_iff c.alg alg_plain).0 plain) (rw plain at h)
  | inr other ↦ elim (Bool-cases (alg_equals c alg_encrypted)) [
    | inl sealed ↦
        settled c true cert encrypted ((bytes_eq_iff c.alg alg_encrypted).0 sealed)
          (rw (other, sealed) at h)
    | inr neither ↦ absurd (cc (rw (other, neither) at h))
  ]
]
  where
    settled :
        (c : Cert) (b : Bool) (cert : Cert) (encrypted : Bool)
        → c.alg ≡ (if b then alg_encrypted else alg_plain)
        → ◌≡◌ {A = Result ErrorCode (Cert × Bool)} (ok (c, b)) (ok (cert, encrypted))
        → (c ≡ cert) × (cert.alg ≡ (if encrypted then alg_encrypted else alg_plain))
    settled c b cert encrypted e h =
        let same = ok-injective h in
        (
          ap (λ (o : Cert × Bool). o.0) same,
          subst (λ (o : Cert × Bool). o.0.alg ≡ (if o.1 then alg_encrypted else alg_plain)) same e,
        )

license_open-Opened :
    (p : Primitives) (pem : Bytes) (m : Allocator) (n : ℕ) (cert : Cert) (encrypted : Bool)
    → (license_open p pem m n).0 ≡ ok (cert, encrypted)
    → Opened p pem cert encrypted
unfolding license_open by_algorithm
license_open-Opened p pem m n cert encrypted h =
    let (body, h0, k0) = >>=-eq-ok (pem_extract pem pem_begin pem_end) _ h in
    let (c, h1, k1) = >>=-eq-ok (cert_parse p body) by_algorithm k0 in
    let (raw, enclosed, same, clean, _) = pem_extract_sound pem pem_begin pem_end m n body h0 in
    let (c_is, algorithm) = by_algorithm_lem c m _ cert encrypted k1 in
    record {
      raw = raw;
      enclosed = enclosed;
      certificate =
          subst (Parsed p (drop_spaces raw)) c_is
            (subst (λ text. Parsed p text c) same (cert_parse-Parsed p body m _ c h1));
      algorithm = algorithm;
    }

decode_signature_lem :
    (cert : Cert) (m : Allocator) (n : ℕ) (signature : Bytes)
    → (decode_signature cert m n).0 ≡ ok signature
    → (base64_decode cert.sig ≡ some signature) × (length signature ≡ signature_length)
unfolding decode_signature
decode_signature_lem cert m n signature h =
    let (s, h0, k0) = >>=-eq-ok (map_error base64_error (decode_alloc cert.sig)) _ h in
    let (_, h1, k1) = >>=-eq-ok (guard (length s == signature_length) signature_invalid) _ k0 in
    let same = ok-injective k1 in
    subst (λ s. (base64_decode cert.sig ≡ some s) × (length s ≡ signature_length)) same
      (
        decode_alloc-eq-ok cert.sig m n s
            (map_error-eq-ok base64_error (decode_alloc cert.sig) m n h0),
        (==_iff (length s) signature_length).0 (guard-eq-ok _ signature_invalid m _ h1),
      )

-- The plaintext of a certificate: what `enc` encodes, or what the cipher opens of it under the key
-- that is derived from the licence key, nonce first.
abbrev pub Opens : Primitives → Cert → Bool → Option Bytes → Bytes → Type 0
Opens p cert false license_key plaintext = base64_decode cert.enc ≡ some plaintext
Opens p cert true license_key plaintext =
    (block : Bytes) × (secret : Bytes) × (key : Bytes) × (base64_decode cert.enc ≡ some block)
    × (license_key ≡ some secret)
    × (p.derive_license_file_key secret ≡ some key)
    × (ltb (length block) (nonce_length + tag_length) ≡ false)
    × (p.gcm_open key (take nonce_length block) (drop nonce_length block) ≡ some plaintext)

not-eq-true : (b : Bool) → not b ≡ true → b ≡ false
not-eq-true true h = cc
not-eq-true false h = refl

decode_payload-Opens :
    (p : Primitives) (cert : Cert) (encrypted : Bool) (license_key : Option Bytes) (m : Allocator)
    (n : ℕ) (plaintext : Bytes)
    → (decode_payload p cert encrypted license_key m n).0 ≡ ok plaintext
    → Opens p cert encrypted license_key plaintext
unfolding decode_payload decrypt
decode_payload-Opens p cert false license_key m n plaintext h =
    let (block, h0, k0) = >>=-eq-ok (map_error base64_error (decode_alloc cert.enc)) _ h in
    let same = ok-injective k0 in
    subst (λ b. base64_decode cert.enc ≡ some b) same
      (decode_alloc-eq-ok cert.enc m n block
        (map_error-eq-ok base64_error (decode_alloc cert.enc) m n h0))
decode_payload-Opens p cert true license_key m n plaintext h =
    let (block, h0, k0) = >>=-eq-ok (map_error base64_error (decode_alloc cert.enc)) _ h in
    let (secret, h1, k1) = >>=-eq-ok (lift (or_error null_argument license_key)) _ k0 in
    let long_enough = not (ltb (length block) (nonce_length + tag_length)) in
    let (_, h2, k2) = >>=-eq-ok (guard long_enough decryption_failed) _ k1 in
    let (key, h3, k3) =
      >>=-eq-ok (lift (or_error unknown (p.derive_license_file_key secret))) _ k2 in
    let opened = p.gcm_open key (take nonce_length block) (drop nonce_length block) in
    let (_, _, k4) =
      >>=-eq-ok (allocate out_of_memory (length block - nonce_length))
        (λ _. lift (or_error decryption_failed opened)) {m = m} {n = _} k3 in
    (
      block,
      secret,
      key,
      decode_alloc-eq-ok cert.enc m n block
          (map_error-eq-ok base64_error (decode_alloc cert.enc) m n h0),
      or_error-eq-ok null_argument license_key h1,
      or_error-eq-ok unknown (p.derive_license_file_key secret) h3,
      not-eq-true _ (guard-eq-ok long_enough decryption_failed m _ h2),
      or_error-eq-ok decryption_failed opened k4,
    )

check_signature-IsSigned :
    (p : Primitives) (trust : Trust) (cert : Cert) (signature : Bytes)
    → check_signature p trust cert signature ≡ true
    → IsSigned p p.ed25519_verify trust cert.enc signature
unfolding check_signature
check_signature-IsSigned p (single key) cert signature h = h
check_signature-IsSigned p (any_of set) cert signature h =
    found_verifier_lem p set cert.enc signature h

-- Everything that stands behind an accepted licence file: the certificate, the signature over the
-- text of `enc`, the plaintext and its payload.
pub record Genuine (p : Primitives) (pem : Bytes) (trust : Trust) (license_key : Option Bytes)
    (now : ℤ) (resource : Json) (claims : Claims) : Type 0 where
  pub cert : Cert
  pub encrypted : Bool
  pub opened : Opened p pem cert encrypted
  pub signature : Bytes
  pub signature_text : base64_decode cert.sig ≡ some signature
  pub whole_signature : length signature ≡ signature_length
  pub signed : IsSigned p p.ed25519_verify trust cert.enc signature
  pub plaintext : Bytes
  pub plaintext_opens : Opens p cert encrypted license_key plaintext
  pub payload : Json
  pub memory : Allocator
  pub requests : ℕ
  pub payload_parses : (p.json_parse plaintext memory requests).0 ≡ ok payload
  pub accepted : Accepted p payload now resource claims

-- A licence file is accepted only if it is genuine: its certificate stands between the markers, its
-- 64-byte signature verifies over the text of `enc` under the key, or under a held key of the set,
-- its payload is what that text encodes or encrypts, the claims are those of the payload and have
-- not expired, and the resource is a copy of the payload's `data`.
pub verify_core-Genuine :
    (p : Primitives) (pem : Bytes) (trust : Trust) (license_key : Option Bytes) (now : ℤ)
    (m : Allocator) (n : ℕ) (resource : Json) (claims : Claims)
    → (verify_core p pem trust license_key now m n).0 ≡ ok (resource, claims)
    → Genuine p pem trust license_key now resource claims
unfolding verify_core parse_payload
verify_core-Genuine p pem trust license_key now m n resource claims h =
    let (o, h0, k0) = >>=-eq-ok (license_open p pem) _ h in
    let (cert, encrypted) = o in
    let (signature, h1, k1) = >>=-eq-ok (decode_signature cert) _ k0 in
    let probe : Exec ErrorCode Json =
      decode_payload p cert encrypted license_key >>= parse_payload p in
    let (verified, payload, read, accepted) =
      conclude_sound p trust (check_signature p trust cert signature) probe now m _ resource claims
        k1 in
    let (plaintext, h2, k2) =
      >>=-eq-ok (decode_payload p cert encrypted license_key) (parse_payload p) read in
    let (text, whole) = decode_signature_lem cert m _ signature h1 in
    record {
      cert = cert;
      encrypted = encrypted;
      opened = license_open-Opened p pem m n cert encrypted h0;
      signature = signature;
      signature_text = text;
      whole_signature = whole;
      signed = check_signature-IsSigned p trust cert signature verified;
      plaintext = plaintext;
      plaintext_opens = decode_payload-Opens p cert encrypted license_key m _ plaintext h2;
      payload = payload;
      memory = m;
      requests = _;
      payload_parses = map_error-eq-ok parse_error (p.json_parse plaintext) m _ k2;
      accepted = accepted;
    }

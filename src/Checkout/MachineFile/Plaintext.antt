-- ===== src/Checkout/MachineFile/Plaintext.antt =====
-- What the plaintext of a machine file has to do with the text of `enc`.
use tamga_c.Prelude.{
  ℕ, suc, ◌+◌, ◌-◌, ◌≡◌, ap, ◌∷◌, ◌++◌, Bool, true, false, not, ◌||◌, Option, some, arith, ltb,
  ◌==◌, ==_iff, length, take, drop, Bytes, contains_byte, take-append-drop,
}
use tamga_c.Memory.Exec.{
  Allocator, ok, lift, guard, or_error, map_error, allocate, >>=-eq-ok, ok-injective, guard-eq-ok,
  or_error-eq-ok, map_error-eq-ok,
}
use tamga_c.Errors.{out_of_memory, null_argument, decryption_failed, unknown}
use tamga_c.Base64.{base64_decode}
use tamga_c.Base64.Alloc.{decode_alloc, decode_alloc-eq-ok}
use tamga_c.Checkout.Primitives.{Primitives}
use tamga_c.Checkout.Cert.{Cert, base64_error}
use tamga_c.Checkout.LicenseFile.{nonce_length, tag_length}
use tamga_c.Checkout.MachineFile.{decode_payload}
use tamga_c.Checkout.MachineFile.Algorithm.{index_of}
use tamga_c.Checkout.MachineFile.Algorithm.Parts.{index_of_lem}
use tamga_c.Checkout.MachineFile.Cipher.{halves, open_encrypted}

-- An encrypted payload: the texts of the nonce and of the ciphertext stand around a '.', and the
-- key is derived from the licence key and the fingerprint.
pub record Unsealed (p : Primitives) (enc secret machine plaintext : Bytes) : Type 0 where
  pub nonce_text : Bytes
  pub cipher_text : Bytes
  pub joined : enc ≡ nonce_text ++ b'.' ∷ cipher_text
  pub nonce : Bytes
  pub nonce_decodes : base64_decode nonce_text ≡ some nonce
  pub nonce_whole : length nonce ≡ nonce_length
  pub cipher : Bytes
  pub cipher_decodes : base64_decode cipher_text ≡ some cipher
  pub longer_than_tag : ltb tag_length (length cipher) ≡ true
  pub key : Bytes
  pub derived : p.derive_machine_file_key secret machine ≡ some key
  pub authenticated : p.gcm_open key nonce cipher ≡ some plaintext

abbrev pub Opens : Primitives → Bytes → Bool → Option Bytes → Option Bytes → Bytes → Type 0
Opens p enc false license_key fingerprint plaintext = base64_decode enc ≡ some plaintext
Opens p enc true license_key fingerprint plaintext =
    (secret : Bytes) × (machine : Bytes) × (license_key ≡ some secret)
    × (fingerprint ≡ some machine)
    × Unsealed p enc secret machine plaintext

halves_lem :
    (enc : Bytes) (m : Allocator) (n : ℕ) (left right : Bytes)
    → (halves enc m n).0 ≡ ok (left, right)
    → enc ≡ left ++ b'.' ∷ right
unfolding halves
halves_lem enc m n left right h =
    let (dot, h0, k0) = >>=-eq-ok (lift (or_error decryption_failed (index_of b'.' enc))) _ h in
    let filled = not (length (take dot enc) == 0 || length (drop (dot + 1) enc) == 0) in
    let (_, _, k1) = >>=-eq-ok (guard filled decryption_failed) _ k0 in
    let single_dot = not (contains_byte b'.' (drop (dot + 1) enc)) in
    let (_, _, k2) = >>=-eq-ok (guard single_dot decryption_failed) _ k1 in
    let same = ok-injective k2 in
    let (at, _) = index_of_lem b'.' enc dot (or_error-eq-ok decryption_failed _ h0) in
    let next : dot + 1 ≡ suc dot = omega arith in
    cc (
      take-append-drop dot enc,
      at,
      next,
      ap (λ (o : Bytes × Bytes). o.0) same,
      ap (λ (o : Bytes × Bytes). o.1) same,
    )

open_encrypted-Unsealed :
    (p : Primitives) (enc : Bytes) (license_key fingerprint : Option Bytes) (m : Allocator) (n : ℕ)
    (plaintext : Bytes)
    → (open_encrypted p enc license_key fingerprint m n).0 ≡ ok plaintext
    → Opens p enc true license_key fingerprint plaintext
unfolding open_encrypted
open_encrypted-Unsealed p enc license_key fingerprint m n plaintext h =
    let (secret, h0, k0) = >>=-eq-ok (lift (or_error null_argument license_key)) _ h in
    let (machine, h1, k1) = >>=-eq-ok (lift (or_error null_argument fingerprint)) _ k0 in
    let (parts, h2, k2) = >>=-eq-ok (halves enc) _ k1 in
    let (left, right) = parts in
    let (nonce, h3, k3) = >>=-eq-ok (map_error base64_error (decode_alloc left)) _ k2 in
    let (_, h4, k4) = >>=-eq-ok (guard (length nonce == nonce_length) decryption_failed) _ k3 in
    let (cipher, h5, k5) = >>=-eq-ok (map_error base64_error (decode_alloc right)) _ k4 in
    let (_, h6, k6) = >>=-eq-ok (guard (ltb tag_length (length cipher)) decryption_failed) _ k5 in
    let (key, h7, k7) =
      >>=-eq-ok (lift (or_error unknown (p.derive_machine_file_key secret machine))) _ k6 in
    let (_, _, k8) =
      >>=-eq-ok (allocate out_of_memory (length cipher - tag_length))
        (λ _. lift (or_error decryption_failed (p.gcm_open key nonce cipher))) {m = m} {n = _} k7 in
    (
      secret,
      machine,
      or_error-eq-ok null_argument license_key h0,
      or_error-eq-ok null_argument fingerprint h1,
      record {
        nonce_text = left;
        cipher_text = right;
        joined = halves_lem enc m n left right h2;
        nonce = nonce;
        nonce_decodes =
            decode_alloc-eq-ok left m _ nonce
              (map_error-eq-ok base64_error (decode_alloc left) m _ h3);
        nonce_whole =
            (==_iff (length nonce) nonce_length).0 (guard-eq-ok _ decryption_failed m _ h4);
        cipher = cipher;
        cipher_decodes =
            decode_alloc-eq-ok right m _ cipher
              (map_error-eq-ok base64_error (decode_alloc right) m _ h5);
        longer_than_tag = guard-eq-ok _ decryption_failed m _ h6;
        key = key;
        derived = or_error-eq-ok unknown (p.derive_machine_file_key secret machine) h7;
        authenticated = or_error-eq-ok decryption_failed (p.gcm_open key nonce cipher) k8;
      },
    )

pub decode_payload-Opens :
    (p : Primitives) (cert : Cert) (encrypted : Bool) (license_key fingerprint : Option Bytes)
    (m : Allocator) (n : ℕ) (plaintext : Bytes)
    → (decode_payload p cert encrypted license_key fingerprint m n).0 ≡ ok plaintext
    → Opens p cert.enc encrypted license_key fingerprint plaintext
unfolding decode_payload
decode_payload-Opens p cert false license_key fingerprint m n plaintext h =
    decode_alloc-eq-ok cert.enc m n plaintext
      (map_error-eq-ok base64_error (decode_alloc cert.enc) m n h)
decode_payload-Opens p cert true license_key fingerprint m n plaintext h =
    open_encrypted-Unsealed p cert.enc license_key fingerprint m n plaintext h

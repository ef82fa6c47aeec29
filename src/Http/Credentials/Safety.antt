-- ===== src/Http/Credentials/Safety.antt =====
-- An Authorization header that is built from safe credentials is safe itself.
use mathlib.Core.Option.{some-injective}
use tamga_c.Prelude.{
  ℕ, ◌%◌, ◌≡◌, refl, true, false, not, ◌||◌, arith, Option, none, some, [], ◌∷◌, ◌++◌, ◌==◌,
  if◌then◌else◌, length, Bytes, codes, passes_below, passes_below_lem,
}
use tamga_c.Memory.Exec.{
  Allocator, Result, ok, pure, map_error, or_error-eq-ok, ◌>>=◌, ◌>>◌, >>=-eq-ok, map_error-eq-ok,
  ok-injective, lift, or_error, allocate,
}
use tamga_c.Memory.{checked_add}
use tamga_c.Memory.Copy.{strdup}
use tamga_c.Base64.{letter, base64_encode, encoded_len}
use tamga_c.Base64.Alphabet.{letter_mod}
use tamga_c.Base64.Alloc.{malformed, out_of_memory, encode_alloc}
use tamga_c.Buf.Written.{
  Write, ◌then◌, append_str, written, text_of, append_str-Writes, then-Writes, written_lem,
}
use tamga_c.Http.{
  Header, Client, AuthKind, bearer, license, basic_email_password, basic_token, basic_license,
  query_token, raw,
}
use tamga_c.Http.Text.{header_value_is_safe}
use tamga_c.Http.Text.Safety.{header_value_is_safe-append}
use tamga_c.Http.Transport.{Refused, refused}
use tamga_c.Http.Config.{handed, safe_or_null}
use tamga_c.Http.Credentials.{prefixed, basic, auth_value, named_header, auth_header, colon}

letter_table : passes_below (λ s. not (letter s == 13 || letter s == 10)) 64 ≡ true
unfolding passes_below letter
letter_table = refl

letter_plain : (s : ℕ) → (letter s == 13 || letter s == 10) ≡ false
letter_plain s =
    let t = passes_below_lem _ 64 (s % 64) letter_table (omega arith) in
    let t' = rw (letter_mod s) at t in ground (arith, t')

base64_encode_safe : (bytes : Bytes) → header_value_is_safe (base64_encode bytes) ≡ true
unfolding base64_encode header_value_is_safe
base64_encode_safe [] = refl
base64_encode_safe (a ∷ []) = simp letter_plain
base64_encode_safe (a ∷ b ∷ []) = simp letter_plain
base64_encode_safe (a ∷ b ∷ c ∷ rest) = simp (letter_plain, base64_encode_safe rest)

encode_alloc-eq-ok :
    (input : Bytes) (m : Allocator) (n : ℕ) (out : Bytes)
    → (encode_alloc input m n).0 ≡ ok out
    → out ≡ base64_encode input
unfolding encode_alloc
encode_alloc-eq-ok input m n out h =
    let (enc_len, _, h1) =
      >>=-eq-ok (lift (or_error malformed (encoded_len (length input))))
        (λ enc_len. (do
          total ← lift (or_error malformed (checked_add enc_len 1))
          allocate out_of_memory total
          pure (base64_encode input)))
        {m = m} {n = n} h in
    let (total, _, h2) =
      >>=-eq-ok (lift (or_error malformed (checked_add enc_len 1)))
        (λ total. (do allocate out_of_memory total; pure (base64_encode input))) {m = m} {n = _}
        h1 in
    let (_, _, h3) =
      >>=-eq-ok (allocate out_of_memory total) (λ _. pure (base64_encode input)) {m = m} {n = _}
        h2 in
    cc (ok-injective h3)

-- The value that goes into the header, if one does, is safe.
abbrev Safe : Result Refused (Option Bytes) → Type 0
Safe r = (value : Option Bytes) → r ≡ ok value → safe_or_null value ≡ true

prefixed-Safe :
    (scheme : Bytes) (credential : Option Bytes) (m : Allocator) (n : ℕ)
    → header_value_is_safe scheme ≡ true
    → safe_or_null credential ≡ true
    → Safe (prefixed scheme credential m n).0
unfolding prefixed
prefixed-Safe scheme credential m n hs hc value h =
    let act = append_str (some scheme) then append_str credential in
    let (text, made, h1) =
      >>=-eq-ok (handed refused (written act)) (λ text. pure (some text)) {m = m} {n = n} h in
    let (same, _) =
      written_lem act (scheme ++ text_of credential) m n text
        (then-Writes _ _ scheme (text_of credential) (append_str-Writes (some scheme))
          (append_str-Writes credential))
        (or_error-eq-ok refused _ made) in
    rw⁻¹ (ok-injective h1) (
      unfold safe_or_null in
      rw (same, header_value_is_safe-append) (ground (arith, hs, text_safe credential hc)))
  where
    text_safe :
        (credential : Option Bytes)
        → safe_or_null credential ≡ true
        → header_value_is_safe (text_of credential) ≡ true
    text_safe none h = unfold header_value_is_safe in refl
    text_safe (some c) h = unfold safe_or_null in h

basic-Safe : (pair : Write) (m : Allocator) (n : ℕ) → Safe (basic pair m n).0
unfolding basic
basic-Safe pair m n value h =
    let (text, _, h1) =
      >>=-eq-ok (handed refused (written pair))
        (λ text. (do
          encoded ← map_error (λ _. refused) (encode_alloc text)
          prefixed (codes "Basic ") (some encoded)))
        {m = m} {n = n} h in
    let (encoded, made, h2) =
      >>=-eq-ok (map_error (λ _. refused) (encode_alloc text))
        (λ encoded. prefixed (codes "Basic ") (some encoded)) {m = m} {n = _} h1 in
    let same =
      encode_alloc-eq-ok text m _ encoded
        (map_error-eq-ok (λ _. refused) (encode_alloc text) m _ made) in
    prefixed-Safe (codes "Basic ") (some encoded) m _ (unfold header_value_is_safe in refl)
      (unfold safe_or_null in rw same (base64_encode_safe text)) value h2

auth_value-Safe :
    (kind : AuthKind) (primary secondary : Option Bytes) (m : Allocator) (n : ℕ)
    → safe_or_null primary ≡ true
    → Safe (auth_value kind primary secondary m n).0
unfolding auth_value
auth_value-Safe bearer primary secondary m n h =
    prefixed-Safe (codes "Bearer ") primary m n (unfold header_value_is_safe in refl) h
auth_value-Safe license primary secondary m n h =
    prefixed-Safe (codes "License ") primary m n (unfold header_value_is_safe in refl) h
auth_value-Safe basic_email_password primary secondary m n h =
    basic-Safe (append_str primary then colon then append_str secondary) m n
auth_value-Safe basic_token primary secondary m n h = basic-Safe (append_str primary then colon) m n
auth_value-Safe basic_license primary secondary m n h =
    basic-Safe (append_str (some (codes "license:")) then append_str primary) m n
auth_value-Safe query_token primary secondary m n h =
    λ value e. rw⁻¹ (ok-injective e) (unfold safe_or_null in refl)
auth_value-Safe (raw k) primary secondary m n h = λ value e. cc

-- A header whose value has no line break.
abbrev pub IsSafeHeader : Header → Type 0
IsSafeHeader header = header_value_is_safe header.value ≡ true

named_header-IsSafeHeader :
    (value : Option Bytes) (m : Allocator) (n : ℕ) (header : Header)
    → safe_or_null value ≡ true
    → (named_header value m n).0 ≡ ok (some header)
    → IsSafeHeader header
unfolding named_header safe_or_null
named_header-IsSafeHeader none m n header s h = cc (ok-injective h)
named_header-IsSafeHeader (some value) m n header s h =
    let (name, _, h1) =
      >>=-eq-ok (strdup refused (codes "Authorization"))
        (λ name. pure (some (record { name = name; value = value }))) {m = m} {n = n} h in
    rw⁻¹ (some-injective _ _ (ok-injective h1)) s

pub auth_header-IsSafeHeader :
    (client : Client) (m : Allocator) (n : ℕ) (header : Header)
    → safe_or_null client.auth_primary ≡ true
    → (auth_header client m n).0 ≡ ok (some header)
    → IsSafeHeader header
unfolding auth_header
auth_header-IsSafeHeader client m n header s h =
    let act = auth_value client.auth_kind client.auth_primary client.auth_secondary in
    let (value, made, h1) = >>=-eq-ok act (λ value. named_header value) {m = m} {n = n} h in
    named_header-IsSafeHeader value m _ header
      (auth_value-Safe client.auth_kind client.auth_primary client.auth_secondary m n s value made)
      h1

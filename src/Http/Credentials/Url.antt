-- ===== src/Http/Credentials/Url.antt =====
-- The URL that tamga_client_build_url of src/http/client.c returns, and where a token in it ends up.
use mathlib.Core.List.{append_assoc}
use tamga_c.Prelude.{
  ℕ, ◌≡◌, refl, ap, ◌∙◌, Bool, true, false, ◌&&◌, ◌⊎◌, Option, none, some, [], ◌∷◌, ◌++◌,
  if◌then◌else◌, Bytes, codes, IsByte, All, Bool-cases, inl, inr,
}
use tamga_c.Memory.Exec.{Allocator}
use tamga_c.Buf.{Buf, empty, append}
use tamga_c.Buf.Laws.{IsValid, detach_string_lem}
use tamga_c.Buf.Granted.{empty-IsValid}
use tamga_c.Buf.Written.{
  Write, Writes, ◌then◌, skip, append_str, text_of, skip-Writes, append-Writes, append_str-Writes,
  then-Writes, if-Writes,
}
use tamga_c.Http.{Client, PathScope}
use tamga_c.Http.Text.{url_encode}
use tamga_c.Http.Text.Decoded.{IsQueryText, percent_decode, url_encode_safe}
use tamga_c.Http.Credentials.{
  is_query_token, has_query, scope_base, encode_token, add_token, build_url,
}

-- The base, the path and the query, in this order.
abbrev pub plain_url : Client → PathScope → Bytes → Option Bytes → Bytes
plain_url client scope path query =
    (scope_base scope client ++ path)
    ++ (if has_query query then b'?' ∷ [] ++ text_of query else [])

abbrev plain_writes : Client → PathScope → Bytes → Option Bytes → Write
plain_writes client scope path query =
    append_str (some (scope_base scope client))
    then append_str (some path)
    then (if has_query query then append (b'?' ∷ []) then append_str query else skip)

plain_writes-Writes :
    (client : Client) (scope : PathScope) (path : Bytes) (query : Option Bytes)
    → Writes (plain_writes client scope path query) (plain_url client scope path query)
plain_writes-Writes client scope path query =
    then-Writes _ _ _ _
      (then-Writes _ _ _ _ (append_str-Writes (some (scope_base scope client)))
        (append_str-Writes (some path)))
      (if-Writes (has_query query) _ _ _ _
        (then-Writes _ _ _ _ (append-Writes (b'?' ∷ [])) (append_str-Writes query)) skip-Writes)

-- A token behind it, which percent-decodes to the credential and delimits nothing.
abbrev pub HasToken : Client → Option Bytes → Bytes → Bytes → Type 0
HasToken client query front url =
    (encoded : Bytes) × (token : Bytes) × (client.auth_primary ≡ some token)
    × (url
        ≡ front ++ (((if has_query query then b'&' else b'?') ∷ []) ++ codes "token=" ++ encoded))
    × All IsQueryText encoded
    × (percent_decode encoded ≡ some token)

add_token-eq-some :
    (behind_query : Bool) (e : Option Bytes) (front : Bytes) (b : Buf) (m : Allocator) (n : ℕ)
    (url : Bytes)
    → IsValid b
    → (b.failed ≡ false → b.content ≡ front)
    → (add_token behind_query e b m n).0 ≡ some url
    → (encoded : Bytes) × (e ≡ some encoded)
      × (url ≡ front ++ (((if behind_query then b'&' else b'?') ∷ []) ++ codes "token=" ++ encoded))
unfolding add_token
add_token-eq-some behind_query none front b m n url v h k = cc
add_token-eq-some behind_query (some encoded) front b m n url v h k =
    let sign = (if behind_query then b'&' else b'?') ∷ [] in
    let act = append sign then append_str (some (codes "token=")) then append_str (some encoded) in
    let done =
      then-Writes (append sign then append_str (some (codes "token="))) (append_str (some encoded))
        _ _ (then-Writes _ _ _ _ (append-Writes sign) (append_str-Writes (some (codes "token="))))
        (append_str-Writes (some encoded)) b m n v in
    let (same, live, _) = detach_string_lem (act b m n).0 m _ url done.valid k in
    let (live', content) = done.live live in
    let added = (sign ++ codes "token=") ++ encoded in
    (
      encoded,
      refl,
      same
          ∙ content
          ∙ ap (λ c. c ++ added) (h live')
          ∙ ap (λ t. front ++ t) (append_assoc sign (codes "token=") encoded),
    )

encode_token-eq-some :
    (primary : Option Bytes) (m : Allocator) (n : ℕ) (encoded : Bytes)
    → (encode_token primary m n).0 ≡ some encoded
    → (token : Bytes) × (primary ≡ some token) × ((url_encode token m n).0 ≡ some encoded)
unfolding encode_token
encode_token-eq-some none m n encoded h = cc
encode_token-eq-some (some token) m n encoded h = (token, refl, h)

-- A URL that is built is the base of its scope, the path, and the query behind a `?` if it is not
-- empty; and only where the client's credential is a query token, there is one more parameter, whose
-- value percent-decodes to the token and has no byte in it that delimits a part of a URL.
pub build_url_lem :
    (client : Client) (scope : PathScope) (path : Bytes) (query : Option Bytes) (m : Allocator)
    (n : ℕ) (url : Bytes)
    → ((token : Bytes) → client.auth_primary ≡ some token → All IsByte token)
    → (build_url client scope path query m n).0 ≡ some url
    → let front = plain_url client scope path query in
      let carried = is_query_token client.auth_kind && client.auth_configured in
      ((carried ≡ false) × (url ≡ front)) ⊎ (carried ≡ true) × HasToken client query front url
unfolding build_url
build_url_lem client scope path query m n url bytes h =
    let carried = is_query_token client.auth_kind && client.auth_configured in
    let first = plain_writes-Writes client scope path query empty m n empty-IsValid in
    let act = plain_writes client scope path query in
    elim (Bool-cases carried) [
      | inr plain ↦
          let (same, live, _) =
            detach_string_lem (act empty m n).0 m (act empty m n).1 url first.valid
              (rw plain at h) in
          inl (plain, same ∙ (first.live live).1)
      | inl token_kind ↦
          let (b, n1) = act empty m n in
          let (encoded, made, same) =
            add_token-eq-some (has_query query) (encode_token client.auth_primary m n1).0
              (plain_url client scope path query) b m (encode_token client.auth_primary m n1).1 url
              first.valid (λ live. (first.live live).1) (rw token_kind at h) in
          let (token, there, out) = encode_token-eq-some client.auth_primary m n1 encoded made in
          let (plain_text, decoded) = url_encode_safe token m n1 encoded (bytes token there) out in
          inr (token_kind, (encoded, token, there, same, plain_text, decoded))
    ]

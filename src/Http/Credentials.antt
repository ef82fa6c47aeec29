-- ===== src/Http/Credentials.antt =====
-- How a client's credentials get into a request, of src/http/client.c: tamga_client_auth_header and
-- tamga_client_build_url.
pub mod Safety
pub mod Url
use tamga_c.Prelude.{
  ℕ, Bool, true, false, not, ◌&&◌, Option, none, some, [], ◌∷◌, ◌==◌, if◌then◌else◌, length, Bytes,
  codes,
}
use tamga_c.Memory.Exec.{Allocator, Exec, pure, raise, map_error, ◌>>=◌, ◌>>◌}
use tamga_c.Memory.Copy.{strdup}
use tamga_c.Base64.Alloc.{encode_alloc}
use tamga_c.Buf.{Buf, empty, append, detach_string}
use tamga_c.Buf.Written.{Write, ◌then◌, skip, append_str, written}
use tamga_c.Http.{
  Header, Client, AuthKind, bearer, license, basic_email_password, basic_token, basic_license,
  query_token, raw, PathScope, account, origin,
}
use tamga_c.Http.Text.{url_encode}
use tamga_c.Http.Transport.{Refused, refused}
use tamga_c.Http.Config.{handed}

abbrev pub colon : Write
colon = append (b':' ∷ [])

-- `Bearer <token>` and `License <key>`
unfoldable pub prefixed : Bytes → Option Bytes → Exec Refused (Option Bytes)
prefixed scheme credential = do
  value ← handed refused (written (append_str (some scheme) then append_str credential))
  pure (some value)

unfoldable pub basic : Write → Exec Refused (Option Bytes)
unfolding prefixed
basic write_pair = do
  pair ← handed refused (written write_pair)
  encoded ← map_error (λ _. refused) (encode_alloc pair)
  prefixed (codes "Basic ") (some encoded)

-- The value of the header; `none` where the credential is carried in the URL.
unfoldable pub auth_value : AuthKind → Option Bytes → Option Bytes → Exec Refused (Option Bytes)
unfolding prefixed basic
auth_value bearer primary secondary = prefixed (codes "Bearer ") primary
auth_value license primary secondary = prefixed (codes "License ") primary
auth_value basic_email_password primary secondary =
    basic (append_str primary then colon then append_str secondary)
auth_value basic_token primary secondary = basic (append_str primary then colon)
auth_value basic_license primary secondary =
    basic (append_str (some (codes "license:")) then append_str primary)
auth_value query_token primary secondary = pure none
auth_value (raw k) primary secondary = raise refused

unfoldable pub named_header : Option Bytes → Exec Refused (Option Header)
named_header none = pure none
named_header (some value) = do
  name ← strdup refused (codes "Authorization")
  pure (some (record { name = name; value = value }))

-- tamga_client_auth_header
unfoldable pub auth_header : Client → Exec Refused (Option Header)
auth_header client = do
  value ← auth_value client.auth_kind client.auth_primary client.auth_secondary
  named_header value

unfoldable pub is_query_token : AuthKind → Bool
is_query_token query_token = true
is_query_token _ = false

-- A query that is NULL or empty is none.
unfoldable pub has_query : Option Bytes → Bool
has_query none = false
has_query (some query) = not (length query == 0)

unfoldable pub scope_base : PathScope → Client → Bytes
scope_base origin client = client.origin
scope_base account client = client.base_url

unfoldable pub encode_token : Option Bytes → Allocator → ℕ → Option Bytes × ℕ
encode_token none m n = (none, n)
encode_token (some token) m n = url_encode token m n

unfoldable pub add_token : Bool → Option Bytes → Buf → Allocator → ℕ → Option Bytes × ℕ
add_token behind_query none b m n = (none, n)
add_token behind_query (some encoded) b m n =
    let (b', n') =
      (append ((if behind_query then b'&' else b'?') ∷ [])
          then append_str (some (codes "token="))
          then append_str (some encoded))
        b m n in
    detach_string b' m n'

-- tamga_client_build_url
unfoldable pub build_url :
    Client → PathScope → Bytes → Option Bytes → Allocator → ℕ → Option Bytes × ℕ
build_url client scope path query m n =
    let (b, n1) =
      (append_str (some (scope_base scope client))
          then append_str (some path)
          then (if has_query query then append (b'?' ∷ []) then append_str query else skip))
        empty m n in
    if is_query_token client.auth_kind && client.auth_configured
    then (let (encoded, n2) = encode_token client.auth_primary m n1 in
        add_token (has_query query) encoded b m n2)
    else detach_string b m n1

-- ===== src/Http/Config.antt =====
-- The life of a client and its configuration, of src/http/client.c: tamga_client_new and the
-- tamga_client_set_ functions. The client is not NULL, and its old strings are freed.
pub mod Safety
use tamga_c.Prelude.{
  ℕ, ◌+◌, Bool, true, false, not, ◌&&◌, ◌||◌, Option, none, some, [], ◌∷◌, ltb, leb, ◌==◌,
  if◌then◌else◌, length, take, Bytes, bytes_eq, codes,
}
use tamga_c.Memory.Exec.{
  Allocator, Exec, Result, ok, err, pure, raise, lift, guard, or_error, allocate, ◌>>=◌, ◌>>◌,
}
use tamga_c.Memory.Copy.{strdup}
use tamga_c.Buf.{append}
use tamga_c.Buf.Written.{Write, ◌then◌, skip, append_str, written}
use tamga_c.Errors.{ErrorCode, null_argument, out_of_memory, unsupported_scheme, length_invalid}
use tamga_c.Http.{
  Client, AuthKind, bearer, license, basic_email_password, basic_token, basic_license, query_token,
  raw, Transport,
}
use tamga_c.Http.Text.{header_value_is_safe}
use tamga_c.Http.Transport.{custom_perform}

-- A string that may be NULL for want of memory.
abbrev pub handed : {E : Type 0} → E → (Allocator → ℕ → Option Bytes × ℕ) → Exec E Bytes
handed e act m n = let (out, n') = act m n in (or_error e out, n')

unfoldable pub skip_spaces : Bytes → Bytes
skip_spaces [] = []
skip_spaces (c ∷ cs) = let rest = skip_spaces cs in if c == 32 then rest else c ∷ cs

-- What is left in front of the slashes and the spaces at the end.
unfoldable pub drop_trailing : Bytes → Bytes
drop_trailing [] = []
drop_trailing (c ∷ cs) =
    let rest = drop_trailing cs in
    if length rest == 0 && (c == b'/' || c == 32) then [] else c ∷ rest

unfoldable pub starts_with : Bytes → Bytes → Bool
starts_with prefix text = bytes_eq (take (length prefix) text) prefix

unfoldable pub has_scheme : Bytes → Bool
unfolding starts_with
has_scheme host =
    (ltb 7 (length host) && starts_with (codes "http://") host)
    || (ltb 8 (length host) && starts_with (codes "https://") host)

-- tamga_client_compose_origin. `strncmp` against a scheme reads no further than `len` bytes where
-- the length test before it holds.
unfoldable pub compose_origin : Bytes → Allocator → ℕ → Option Bytes × ℕ
unfolding has_scheme
compose_origin host =
    let trimmed = drop_trailing (skip_spaces host) in
    written (
      (if has_scheme trimmed then skip else append_str (some (codes "https://")))
      then append trimmed)

-- tamga_client_compose_base_url
unfoldable pub compose_base_url : Bytes → Bytes → Allocator → ℕ → Option Bytes × ℕ
compose_base_url origin account_id = written (
    append_str (some origin)
    then append_str (some (codes "/v1/accounts/"))
    then append_str (some account_id))

-- sizeof(TamgaClient), sizeof(TamgaCustomTransport) and sizeof(TamgaHttpTransport) on a 64-bit
-- target.
abbrev pub client_size : ℕ
client_size = 96

abbrev pub transport_size : ℕ
transport_size = 24

-- The base URL is composed only where there is an origin.
unfoldable pub base_url_of : Bytes → Result ErrorCode Bytes → Exec ErrorCode Bytes
base_url_of account_id (ok origin) = handed out_of_memory (compose_base_url origin account_id)
base_url_of account_id (err e) = raise e

abbrev pub default_api_version : Bytes
default_api_version = codes "1.8"

-- The five strings of a new client: a string that is refused does not keep the next from being
-- asked for.
unfoldable pub new_strings :
    Bytes → Bytes → Allocator → ℕ → Result ErrorCode (Bytes × Bytes × Bytes × Bytes × Bytes) × ℕ
new_strings account_id host m n =
    let (account_id', n1) = strdup out_of_memory account_id m n in
    let (host', n2) = strdup out_of_memory host m n1 in
    let (version, n3) = strdup out_of_memory default_api_version m n2 in
    let (origin, n4) = handed out_of_memory (compose_origin host) m n3 in
    let (base_url, n5) = base_url_of account_id origin m n4 in
    (do
      a ← lift account_id'
      h ← lift host'
      v ← lift version
      o ← lift origin
      b ← lift base_url
      pure (a, h, v, o, b))
      m n5

abbrev is_some : Option Transport → Bool
is_some none = false
is_some (some t) = true

-- The fields that tamga_client_new sets, on the zeros of `calloc`; the transport is the one of this
-- build, if it has one.
abbrev pub new_client : Option Transport → Bytes × Bytes × Bytes × Bytes × Bytes → Client
new_client builtin (account_id, host, version, origin, base_url) = record {
  account_id = account_id;
  host = host;
  api_version = version;
  origin = origin;
  base_url = base_url;
  timeout_ms = 45000;
  max_retries = 3;
  auth_kind = bearer;
  auth_primary = none;
  auth_secondary = none;
  auth_configured = false;
  transport = builtin;
  transport_is_default = is_some builtin;
}

-- tamga_client_new, whose arguments are not NULL.
unfoldable pub client_new : Option Transport → Bytes → Bytes → Exec ErrorCode Client
client_new builtin account_id host = do
  guard (not (length account_id == 0 || length host == 0)) null_argument
  allocate out_of_memory client_size
  strings ← new_strings account_id host
  pure (new_client builtin strings)

unfoldable pub check_kind : AuthKind → Option Bytes → Exec ErrorCode (Unit {0})
check_kind basic_email_password none = raise null_argument
check_kind (raw k) secondary = raise unsupported_scheme
check_kind _ secondary = pure tt

unfoldable pub safe_or_null : Option Bytes → Bool
safe_or_null none = true
safe_or_null (some value) = header_value_is_safe value

unfoldable pub strdup_or_null : Option Bytes → Exec ErrorCode (Option Bytes)
strdup_or_null none = pure none
strdup_or_null (some value) = do copy ← strdup out_of_memory value; pure (some copy)

abbrev pub authenticated : Client → AuthKind → Bytes → Option Bytes → Client
authenticated client kind primary secondary = record client {
  auth_primary = some primary;
  auth_secondary = secondary;
  auth_kind = kind;
  auth_configured = true;
}

-- tamga_client_set_auth
unfoldable pub set_auth : AuthKind → Option Bytes → Option Bytes → Client → Exec ErrorCode Client
set_auth kind none secondary client = raise null_argument
set_auth kind (some primary) secondary client = do
  check_kind kind secondary
  guard (header_value_is_safe primary && safe_or_null secondary) null_argument
  primary_copy ← strdup out_of_memory primary
  secondary_copy ← strdup_or_null secondary
  pure (authenticated client kind primary_copy secondary_copy)

-- tamga_client_set_api_version
unfoldable pub set_api_version : Option Bytes → Client → Exec ErrorCode Client
set_api_version none client = raise null_argument
set_api_version (some version) client = do
  copy ← strdup out_of_memory version
  pure (record client { api_version = copy })

-- tamga_client_set_timeout_ms
unfoldable pub set_timeout_ms : ℕ → Client → Exec ErrorCode Client
set_timeout_ms timeout_ms client = do
  guard (not (timeout_ms == 0)) length_invalid
  pure (record client { timeout_ms = timeout_ms })

-- tamga_client_set_max_retries
unfoldable pub set_max_retries : ℕ → Client → Exec ErrorCode Client
set_max_retries max_retries client = do
  guard (not (ltb 16 max_retries)) length_invalid
  pure (record client { max_retries = max_retries })

abbrev pub over : Transport → Client → Client
over perform client = record client {
  transport = some (custom_perform perform);
  transport_is_default = false;
}

-- tamga_client_set_transport
unfoldable pub set_transport : Option Transport → Client → Exec ErrorCode Client
set_transport none client = raise null_argument
set_transport (some perform) client = do
  allocate out_of_memory transport_size
  allocate out_of_memory transport_size
  pure (over perform client)

-- ===== src/Http/Answer.antt =====
-- How an HTTP response becomes a TamgaResponse and, where the server refused, an error code:
-- tamga_response_from_http and tamga_map_api_error of src/http/client.c.
pub mod Codes
use tamga_c.Prelude.{
  ℕ, zero, suc, Bool, true, false, ◌&&◌, Option, none, some, List, [], ◌∷◌, ltb, leb, ◌==◌,
  if◌then◌else◌, length, Bytes, bytes_eq, codes, c_string,
}
use tamga_c.Prelude.Int.{ℤ, pos, negsuc}
use tamga_c.Memory.Exec.{Allocator, Exec, Result, ok, err, pure, raise, allocate, ◌>>=◌, ◌>>◌}
use tamga_c.Memory.Copy.{strdup}
use tamga_c.Json.{Json, object_get, array_at, as_string}
use tamga_c.Json.Parse.Reader.{Fault, malformed, out_of_memory, exhausted}
use tamga_c.Json.Parse.Numbers.{Conversions}
use tamga_c.Json.Parse.{json_parse}
use tamga_c.Errors.{
  ErrorCode, api, rate_limited, unauthorized, forbidden, not_found, server, check_in_not_required,
  license_not_encrypted, license_key_missing, ttl_invalid, scheme_not_supported, fingerprint_taken,
  dataset_invalid, pid_taken, machine_limit_exceeded, core_limit_exceeded, memory_limit_exceeded,
  disk_limit_exceeded, too_many_processes, meter_limit_exceeded, license_suspended, license_expired,
  license_not_allowed, signing_key_missing, secret_key_missing,
}
use tamga_c.Http.{HttpResponse, Reply}
use tamga_c.Http.Transport.{Refused, refused}

-- sizeof(TamgaResponse) on a 64-bit target.
abbrev pub response_size : ℕ
response_size = 56

-- A text that is not JSON leaves no tree; only the want of memory is a failure. `exhausted`, which
-- the parser does not answer, counts as the former.
unfoldable pub tree_of : Result Fault Json → Exec Refused (Option Json)
tree_of (ok tree) = pure (some tree)
tree_of (err out_of_memory) = raise refused
tree_of (err malformed) = pure none
tree_of (err exhausted) = pure none

unfoldable pub parse_body : Conversions → Option Bytes → Exec Refused (Option Json)
unfolding tree_of
parse_body c none = pure none
parse_body c (some body) =
    if length body == 0
    then pure none
    else (λ m n. let (r, n') = json_parse c body m n in tree_of r m n')

abbrev pub reply_of : HttpResponse → Option Json → Reply
reply_of http tree = record {
  status = http.status;
  body = http.body;
  json = tree;
  headers = http.headers;
  api_error_code = none;
}

-- tamga_response_from_http
unfoldable pub response_from_http : Conversions → HttpResponse → Exec Refused Reply
response_from_http c http = do
  allocate refused response_size
  tree ← parse_body c http.body
  pure (reply_of http tree)

unfoldable pub is_status : ℕ → ℤ → Bool
is_status code (pos s) = s == code
is_status code (negsuc n) = false

unfoldable pub is_success : ℤ → Bool
is_success (pos s) = leb 200 s && ltb s 300
is_success (negsuc n) = false

-- The code of the first error of a JSON:API error document, as a C string.
unfoldable pub error_code_of : Option Json → Option Bytes
error_code_of json =
    c_text (as_string (object_get (array_at (object_get json (codes "errors")) 0) (codes "code")))
  where
    c_text : Option Bytes → Option Bytes
    c_text none = none
    c_text (some text) = some (c_string text)

-- The codes that the chain of `strcmp` asks for, in its order.
abbrev pub known_codes : List (Bytes × ErrorCode)
known_codes =
    (codes "CHECK_IN_NOT_REQUIRED", check_in_not_required)
    ∷ (codes "LICENSE_NOT_ENCRYPTED", license_not_encrypted)
    ∷ (codes "LICENSE_KEY_MISSING", license_key_missing)
    ∷ (codes "TTL_INVALID", ttl_invalid)
    ∷ (codes "PRESIGN_TTL_INVALID", ttl_invalid)
    ∷ (codes "SCHEME_NOT_SUPPORTED", scheme_not_supported)
    ∷ (codes "FINGERPRINT_TAKEN", fingerprint_taken)
    ∷ (codes "DATASET_INVALID", dataset_invalid)
    ∷ (codes "PID_TAKEN", pid_taken)
    ∷ (codes "MACHINE_LIMIT_EXCEEDED", machine_limit_exceeded)
    ∷ (codes "CORE_LIMIT_EXCEEDED", core_limit_exceeded)
    ∷ (codes "MEMORY_LIMIT_EXCEEDED", memory_limit_exceeded)
    ∷ (codes "DISK_LIMIT_EXCEEDED", disk_limit_exceeded)
    ∷ (codes "TOO_MANY_PROCESSES", too_many_processes)
    ∷ (codes "METER_LIMIT_EXCEEDED", meter_limit_exceeded)
    ∷ (codes "LICENSE_SUSPENDED", license_suspended)
    ∷ (codes "LICENSE_EXPIRED", license_expired)
    ∷ (codes "LICENSE_NOT_ALLOWED", license_not_allowed)
    ∷ (codes "SIGNING_KEY_MISSING", signing_key_missing)
    ∷ (codes "SECRET_KEY_MISSING", secret_key_missing)
    ∷ []

unfoldable pub find_code : Bytes → List (Bytes × ErrorCode) → Option ErrorCode
find_code code [] = none
find_code code ((text, error) ∷ rest) =
    let found = find_code code rest in if bytes_eq code text then some error else found

-- The switch on the status.
unfoldable pub code_of_status : ℤ → ErrorCode
unfolding is_status
code_of_status status =
    if is_status 401 status
    then unauthorized
    else if is_status 403 status
    then forbidden
    else if is_status 404 status
    then not_found
    else if is_status 500 status
    then server
    else if is_status 502 status
    then server
    else if is_status 503 status
    then server
    else if is_status 504 status
    then server
    else api

unfoldable pub known_code : Option Bytes → Option ErrorCode
unfolding find_code
known_code none = none
known_code (some code) = find_code code known_codes

unfoldable pub or_status : Option ErrorCode → ℤ → ErrorCode
or_status none status = code_of_status status
or_status (some error) status = error

-- The code that tamga_map_api_error returns.
unfoldable pub map_api_error : ℤ → Option Bytes → ErrorCode
unfolding known_code or_status
map_api_error status code =
    if is_status 429 status then rate_limited else or_status (known_code code) status

-- Its copy of the server's code, which may be refused without a consequence.
unfoldable pub keep_code : Option Bytes → Allocator → ℕ → Option Bytes × ℕ
keep_code none m n = (none, n)
keep_code (some code) m n = let (copy, n') = strdup refused code m n in (kept copy, n')
  where
    kept : Result Refused Bytes → Option Bytes
    kept (ok copy) = some copy
    kept (err e) = none

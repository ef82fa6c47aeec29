-- ===== src/Http/Runs.antt =====
-- Runs of the HTTP client, and its theorems at concrete inputs.
use mathlib.Core.Option.{some-injective}
use tamga_c.Prelude.{
  ℕ, suc, ◌*◌, ◌^◌, ◌+◌, ◌≤◌, ◌<◌, ◌≡◌, ◌↔◌, ◌⊎◌, inl, refl, true, false, none, some, arith, List,
  [], ◌∷◌, Bytes, codes, All, IsByte, contains_byte, bytes_eq, ltb, if◌then◌else◌,
}
use tamga_c.Prelude.Int.{pos}
use tamga_c.Memory.{checked_add, checked_mul}
use tamga_c.Memory.Growth.{double_until}
use tamga_c.Memory.Copy.{strndup, strdup}
use tamga_c.Memory.Exec.{Allocator}
use tamga_c.Buf.{append_bytes, append, detach_string, reserve}
use tamga_c.Buf.Written.{append_str, written}
use tamga_c.Errors.{
  ErrorCode, no_transport, null_argument, out_of_memory, rate_limited, unauthorized, forbidden,
}
use tamga_c.Http.{Header, Request, Performed, Transport, Client, bearer, query_token, account}
use tamga_c.Http.Text.{header_value_is_safe, is_unreserved, encode_byte, encoded_bytes, url_encode}
use tamga_c.Http.Text.Decoded.{IsQueryText, percent_decode, url_encode_safe}
use tamga_c.Http.Retry.{request_is_retryable, retry_after_of, retry_delay_ms}
use tamga_c.Http.Retry.Bounds.{least, retry_delay_bounds}
use tamga_c.Http.Transport.{
  fresh, http_response_header, find_header, header_name_equal, lower, result_add_header,
  result_set_status,
}
use tamga_c.Http.Transport.Reach.{started, status_set, header_added, IsBounded, Filled-IsBounded}
use tamga_c.Http.Config.{
  new_client, skip_spaces, drop_trailing, has_scheme, compose_origin, compose_base_url, base_url_of,
  new_strings, client_new, check_kind, safe_or_null, strdup_or_null, set_auth, set_transport,
  authenticated, over,
}
use tamga_c.Http.Config.Safety.{
  IsSound, Configured, created, with_auth, with_transport, Configured-IsSound,
}
use tamga_c.Http.Credentials.{
  is_query_token, has_query, scope_base, encode_token, add_token, build_url,
}
use tamga_c.Http.Credentials.Url.{plain_url, HasToken, build_url_lem}
use tamga_c.Http.Answer.{
  parse_body, response_from_http, is_status, is_success, known_code, map_api_error,
}
use tamga_c.Http.Answer.Codes.{map_api_error_iff}
use tamga_c.Http.Send.{
  System, failed, Call, Wanted, delay_of, seconds_of, goes_again, judge, conclude, round, attempts,
  send_scoped,
}
use tamga_c.Http.Send.Loop.{sends, pauses, Bounded}
use tamga_c.Http.Send.Outcomes.{Explained}
use tamga_c.Http.Send.Calls.{send_scoped-Bounded, send_scoped-Explained}
use tamga_c.Http.Send.Headers.{IsSafeEvent, send_scoped-safe}
use tamga_c.Http.Send.Throttled.{last_outcome, attempts_throttled}

abbrev generous : Allocator
generous = record { grants = λ n size. true }

abbrev system : System
system = record {
  conversions = record { strtoll = λ t. none; strtod = λ t. none };
  process_id = 4242;
  strtoll = λ t. pos 7;
}

abbrev answer : ℕ → List Header → Performed
answer status headers = record {
  succeeded = true;
  response = record fresh { status = pos status; headers = headers };
}

abbrev retry_after : Header
retry_after = record { name = codes "retry-AFTER"; value = codes "7" }

-- 429, and then 204.
abbrev busy : Transport
busy k request = if ltb k 1 then answer 429 (retry_after ∷ []) else answer 204 []

abbrev fresh_client : Client
fresh_client = new_client none (
  codes "acme",
  codes " api.tamga.sh/ ",
  codes "1.8",
  codes "https://api.tamga.sh",
  codes "https://api.tamga.sh/v1/accounts/acme",
)

abbrev client : Client
client = over busy (authenticated fresh_client bearer (codes "t0ken") none)

abbrev wanted : Wanted
wanted = record {
  scope = account;
  method = codes "GET";
  path = codes "/me";
  query = some (codes "limit=1");
  body = none;
  otp = none;
  json_api_body = false;
}

client-Configured : Configured client
unfolding client_new new_strings base_url_of compose_origin compose_base_url has_scheme skip_spaces
    drop_trailing written append_str append detach_string reserve strdup strndup contains_byte
    checked_add double_until bytes_eq set_auth check_kind safe_or_null strdup_or_null
    header_value_is_safe set_transport
client-Configured =
    with_transport (some busy) generous 0
      (with_auth bearer (some (codes "t0ken")) none generous 0
        (created none (codes "acme") (codes " api.tamga.sh/ ") generous 0 refl) refl)
      refl

Configured-IsSound_example : IsSound client
Configured-IsSound_example = Configured-IsSound client client-Configured

send_scoped-Bounded_example :
    (request : Request) × Bounded request 3 (send_scoped system client wanted generous 0)
unfolding request_is_retryable bytes_eq
send_scoped-Bounded_example = send_scoped-Bounded system client wanted generous 0

send_scoped-safe_example :
    let run = send_scoped system client wanted generous 0 in
    (sends run.1 ≤ 17) × (pauses run.1 ≤ 960000) × All IsSafeEvent run.1
send_scoped-safe_example = send_scoped-safe system client wanted generous 0 client-Configured

send_scoped-Explained_example :
    let run = send_scoped system client wanted generous 0 in
    ((code : ErrorCode) × (run.0 ≡ failed code)
      × (run.1 ≡ [])
      × ((code ≡ no_transport) ⊎ (code ≡ null_argument) ⊎ (code ≡ out_of_memory)))
    ⊎ (perform : Transport) × (request : Request) × (k : ℕ) × (client.transport ≡ some perform)
      × (sends run.1 ≡ suc k)
      × Explained (perform k request) run.0
send_scoped-Explained_example = send_scoped-Explained system client wanted generous 0

abbrev call : Call
call = record {
  system = system;
  perform = busy;
  request = record {
    method = codes "GET";
    url = codes "https://api.tamga.sh/v1/health";
    headers = [];
    body = none;
    timeout_ms = 45000;
  };
  may_repeat = true;
  max_retries = 3;
}

repeats : let run = attempts 4 call 0 generous 0 in (sends run.1 ≡ 2) × (pauses run.1 ≡ 7000)
unfolding attempts round goes_again delay_of seconds_of retry_delay_ms retry_after_of
    http_response_header find_header header_name_equal lower is_status conclude response_from_http
    parse_body judge is_success sends pauses
repeats = (refl, refl)

attempts_throttled_example :
    let run = attempts 4 call 0 generous 0 in
    (run.0 ≡ last_outcome call 1 generous 0) × (sends run.1 ≡ 2)
attempts_throttled_example =
    attempts_throttled call 1 generous 0 refl (omega arith) first (inl (unfold is_status in refl))
  where
    first :
        (k : ℕ)
        → k < 1
        → ((busy k call.request).succeeded ≡ true)
          × (is_status 429 (busy k call.request).response.status ≡ true)
    first k h = let zero_th : k ≡ 0 = omega arith in unfold is_status in rw zero_th (refl, refl)

map_api_error_iff_example :
    let code = some (codes "LICENSE_EXPIRED") in
    ((map_api_error (pos 401) code ≡ rate_limited) ↔ (is_status 429 (pos 401) ≡ true))
    × ((map_api_error (pos 401) code ≡ unauthorized)
        ↔ ((is_status 401 (pos 401) ≡ true) × (known_code code ≡ none)))
    × ((map_api_error (pos 401) code ≡ forbidden)
        ↔ ((is_status 403 (pos 401) ≡ true) × (known_code code ≡ none)))
map_api_error_iff_example = map_api_error_iff (pos 401) (some (codes "LICENSE_EXPIRED"))

retry_delay_bounds_example :
    let d = retry_delay_ms 4242 2 (pos 90) in
    (1000 ≤ d)
    × (d ≤ 60000)
    × (jitter : ℕ) × (jitter < 1000)
    × (d ≡ (if ltb 0 90 then least 90 60 * 1000 else 2 ^ least 2 5 * 1000 + jitter))
retry_delay_bounds_example = retry_delay_bounds 4242 2 (pos 90)

Filled-IsBounded_example :
    IsBounded
      (result_add_header
        (some (codes "ETag"))
        (some (codes "1"))
        (result_set_status (pos 200) fresh)
        generous
        0).1
Filled-IsBounded_example = Filled-IsBounded _ (
    header_added (some (codes "ETag")) (some (codes "1")) generous 0 (status_set (pos 200) started))

abbrev token : Bytes
token = codes "a&b=c"

abbrev encoded_token : Bytes
encoded_token = codes "a%26b%3Dc"

url_encode_safe_example :
    All IsQueryText encoded_token × (percent_decode encoded_token ≡ some token)
unfolding url_encode written encoded_bytes encode_byte is_unreserved append_bytes append
    detach_string reserve contains_byte checked_add double_until
url_encode_safe_example =
    url_encode_safe token generous 0 encoded_token
      (omega arith, (omega arith, (omega arith, (omega arith, (omega arith, tt))))) refl

abbrev by_query : Client
by_query = authenticated fresh_client query_token token none

abbrev url : Bytes
url = codes "https://api.tamga.sh/v1/accounts/acme/me?limit=1&token=a%26b%3Dc"

token_bytes : (t : Bytes) → some token ≡ some t → All IsByte t
token_bytes t h =
    rw⁻¹ (some-injective token t h)
      (omega arith, (omega arith, (omega arith, (omega arith, (omega arith, tt)))))

build_url_lem_example :
    let front = plain_url by_query account (codes "/me") (some (codes "limit=1")) in
    let carried = is_query_token query_token in
    ((carried ≡ false) × (url ≡ front))
    ⊎ (carried ≡ true) × HasToken by_query (some (codes "limit=1")) front url
unfolding build_url url_encode written encoded_bytes encode_byte is_unreserved append_bytes append
    detach_string reserve contains_byte checked_add double_until append_str has_query scope_base
    is_query_token encode_token add_token checked_mul
build_url_lem_example =
    build_url_lem by_query account (codes "/me") (some (codes "limit=1")) generous 0 url token_bytes
      refl

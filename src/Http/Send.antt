-- ===== src/Http/Send.antt =====
-- tamga_client_send_scoped of src/http/client.c: the guards, the request, and the loop that sends it.
pub mod Loop
pub mod Outcomes
pub mod Calls
pub mod Headers
pub mod Throttled
use tamga_c.Prelude.{
  ℕ, zero, suc, ◌+◌, Bool, true, false, not, ◌&&◌, Option, none, some, List, [], ◌∷◌, ◌++◌, ltb,
  leb, ◌==◌, if◌then◌else◌, length, Bytes, codes,
}
use tamga_c.Prelude.Int.{ℤ, pos, negsuc}
use tamga_c.Memory.Exec.{Allocator, Exec, Result, ok, err}
use tamga_c.Json.Parse.Numbers.{Conversions}
use tamga_c.Errors.{ErrorCode, null_argument, out_of_memory, transport, no_transport}
use tamga_c.Http.{
  Header, Request, HttpResponse, Performed, Transport, TransportFailure, network, oversized,
  no_memory, Client, Reply, PathScope, account,
}
use tamga_c.Http.Text.{header_value_is_safe, sanitize_api_version}
use tamga_c.Http.Retry.{request_is_retryable, retry_delay_ms}
use tamga_c.Http.Transport.{Refused, refused, http_response_header}
use tamga_c.Http.Config.{handed, safe_or_null}
use tamga_c.Http.Credentials.{auth_header, build_url}
use tamga_c.Http.Answer.{
  response_from_http, is_status, is_success, error_code_of, map_api_error, keep_code,
}

-- The system: the conversions of numbers, the process id, and `strtoll` of base 10.
pub record System : Type 0 where
  pub conversions : Conversions
  pub process_id : ℕ
  pub strtoll : Bytes → ℤ

-- What a call does outside of the library.
pub data Event : Type 0 where
  sent : Request → Event
  slept : ℕ → Event

-- The result of a call: the response with TAMGA_OK, an error with the server's response, or an error
-- without one. `stuck` is the model's fuel, which no call runs out of.
pub data Outcome : Type 0 where
  success : Reply → Outcome
  rejected : ErrorCode → Reply → Outcome
  failed : ErrorCode → Outcome
  stuck : Outcome

abbrev pub Run : Type 0
Run = Outcome × List Event × ℕ

-- The parts of a call that stay the same for its attempts.
pub record Call : Type 0 where
  pub system : System
  pub perform : Transport
  pub request : Request
  pub may_repeat : Bool
  pub max_retries : ℕ

unfoldable pub failure_code : TransportFailure → ErrorCode
failure_code oversized = transport
failure_code no_memory = out_of_memory
failure_code network = transport

unfoldable pub seconds_of : System → Option Bytes → ℤ
seconds_of s none = pos 0
seconds_of s (some retry_after) = s.strtoll retry_after

unfoldable pub delay_of : System → ℕ → HttpResponse → ℕ
delay_of s attempt http =
    retry_delay_ms s.process_id attempt
      (seconds_of s (http_response_header http (codes "Retry-After")))

-- What a response means to the caller.
unfoldable pub judge : Result Refused Reply → Allocator → ℕ → Outcome × ℕ
judge (err e) m n = (failed out_of_memory, n)
judge (ok reply) m n =
    if is_success reply.status
    then (success reply, n)
    else (let code = error_code_of reply.json in
        let (copy, n') = keep_code code m n in
        (rejected (map_api_error reply.status code) (record reply { api_error_code = copy }), n'))

unfoldable pub conclude : Call → HttpResponse → Allocator → ℕ → Run
conclude call http m n =
    let (reply, n1) = response_from_http call.system.conversions http m n in
    let (outcome, n2) = judge reply m n1 in (outcome, [], n2)

-- 429 with retries left, to a request that may be repeated.
unfoldable pub goes_again : Call → ℕ → HttpResponse → Bool
goes_again call attempt http =
    is_status 429 http.status && ltb attempt call.max_retries && call.may_repeat

abbrev pub after : List Event → Run → Run
after events (outcome, more, n) = (outcome, events ++ more, n)

-- One round of the loop behind `perform`; `again` is the round of the next attempt.
unfoldable pub round : Call → (Allocator → ℕ → Run) → ℕ → Performed → Allocator → ℕ → Run
round call again attempt performed m n =
    if not performed.succeeded
    then (failed (failure_code performed.response.failure), [], n)
    else if goes_again call attempt performed.response
    then after (slept (delay_of call.system attempt performed.response) ∷ []) (again m n)
    else conclude call performed.response m n

-- The loop from an attempt on.
unfoldable pub attempts : ℕ → Call → ℕ → Allocator → ℕ → Run
attempts zero call attempt m n = (stuck, [], n)
attempts (suc fuel) call attempt m n =
    after (sent call.request ∷ []) (
      round call (attempts fuel call (attempt + 1)) attempt (call.perform attempt call.request) m n)

unfoldable pub content_type : Bool → Option Bytes → List Header
content_type json_api_body none = []
content_type json_api_body (some body) =
    record {
      name = codes "Content-Type";
      value = if json_api_body then codes "application/vnd.api+json" else codes "application/json";
    }
    ∷ []

unfoldable pub otp_header : Option Bytes → List Header
otp_header none = []
otp_header (some otp) = record { name = codes "Tamga-OTP"; value = otp } ∷ []

unfoldable pub optional_header : Option Header → List Header
optional_header none = []
optional_header (some header) = header ∷ []

unfoldable pub request_headers :
    Option Header → Bytes → Option Bytes → Option Bytes → Bool → List Header
request_headers auth version body otp json_api_body =
    optional_header auth
    ++ (record { name = codes "Tamga-Version"; value = version }
        ∷ record {
          name = codes "Accept";
          value = codes "application/vnd.api+json, application/json";
        }
        ∷ (content_type json_api_body body ++ otp_header otp))

-- What a caller of tamga_client_send_scoped passes beside the client.
pub record Wanted : Type 0 where
  pub scope : PathScope
  pub method : Bytes
  pub path : Bytes
  pub query : Option Bytes
  pub body : Option Bytes
  pub otp : Option Bytes
  pub json_api_body : Bool

-- The version is sanitised also where there is no URL.
unfoldable pub url_and_version : Client → Wanted → Allocator → ℕ → Option Bytes × Option Bytes × ℕ
url_and_version client wanted m n =
    let (url, n1) = build_url client wanted.scope wanted.path wanted.query m n in
    let (version, n2) = sanitize_api_version client.api_version m n1 in (url, version, n2)

unfoldable pub the_call :
    System → Transport → Client → Wanted → Option Header → Bytes → Bytes → Call
the_call s perform client wanted auth url version = record {
  system = s;
  perform = perform;
  request = record {
    method = wanted.method;
    url = url;
    headers = request_headers auth version wanted.body wanted.otp wanted.json_api_body;
    body = wanted.body;
    timeout_ms = client.timeout_ms;
  };
  may_repeat = request_is_retryable wanted.method wanted.path;
  max_retries = client.max_retries;
}

unfoldable pub send_built :
    System
    → Transport
    → Client
    → Wanted
    → Option Header
    → Option Bytes × Option Bytes × ℕ
    → Allocator
    → Run
send_built s perform client wanted auth (some url, some version, n) m =
    attempts (suc client.max_retries) (the_call s perform client wanted auth url version) 0 m n
send_built s perform client wanted auth (some url, none, n) m = (failed out_of_memory, [], n)
send_built s perform client wanted auth (none, version, n) m = (failed out_of_memory, [], n)

unfoldable pub send_with :
    System → Transport → Client → Wanted → Result Refused (Option Header) → Allocator → ℕ → Run
send_with s perform client wanted (err e) m n = (failed out_of_memory, [], n)
send_with s perform client wanted (ok auth) m n =
    send_built s perform client wanted auth (url_and_version client wanted m n) m

unfoldable pub send_over : Option Transport → System → Client → Wanted → Allocator → ℕ → Run
send_over none s client wanted m n = (failed no_transport, [], n)
send_over (some perform) s client wanted m n =
    if not client.auth_configured
    then (failed null_argument, [], n)
    else if not (safe_or_null wanted.otp)
    then (failed null_argument, [], n)
    else (let (auth, n') = auth_header client m n in send_with s perform client wanted auth m n')

-- tamga_client_send_scoped; the client and the place for the response are there.
unfoldable pub send_scoped : System → Client → Wanted → Allocator → ℕ → Run
send_scoped s client wanted = send_over client.transport s client wanted

-- tamga_client_send
unfoldable pub send : System → Client → Wanted → Allocator → ℕ → Run
unfolding send_scoped
send s client wanted = send_scoped s client (record wanted { scope = account })

-- ===== src/Http/Send/Headers.antt =====
-- The requests that a soundly configured client makes: nothing that a caller passes gets a line break
-- into a header.
use tamga_c.Prelude.{
  ℕ, suc, ◌≤◌, ◌≡◌, inl, inr, refl, Bool, true, false, arith, Option, none, some, List, [], ◌∷◌,
  Bytes, length, All, All-append,
}
use tamga_c.Memory.Exec.{Allocator}
use tamga_c.Http.{Header, Request, Client}
use tamga_c.Http.Text.{header_value_is_safe}
use tamga_c.Http.Text.Safety.{sanitize_api_version_lem}
use tamga_c.Http.Config.{safe_or_null}
use tamga_c.Http.Config.Safety.{IsSound, Configured, Configured-IsSound}
use tamga_c.Http.Credentials.Safety.{IsSafeHeader, auth_header-IsSafeHeader}
use tamga_c.Http.Send.{
  System, Event, sent, slept, Wanted, content_type, otp_header, optional_header, request_headers,
  the_call, send_scoped,
}
use tamga_c.Http.Send.Loop.{sends, pauses, IsOf, attempts-Bounded}
use tamga_c.Http.Send.Calls.{Started, send_scoped-Course, send_scoped-Bounded}

content_type-safe : (json : Bool) (body : Option Bytes) → All IsSafeHeader (content_type json body)
unfolding content_type header_value_is_safe
content_type-safe json none = tt
content_type-safe true (some body) = (refl, tt)
content_type-safe false (some body) = (refl, tt)

otp_header-safe : (otp : Option Bytes) → safe_or_null otp ≡ true → All IsSafeHeader (otp_header otp)
unfolding otp_header safe_or_null
otp_header-safe none h = tt
otp_header-safe (some otp) h = (h, tt)

optional_header-safe :
    (auth : Option Header)
    → ((header : Header) → auth ≡ some header → IsSafeHeader header)
    → All IsSafeHeader (optional_header auth)
unfolding optional_header
optional_header-safe none h = tt
optional_header-safe (some header) h = (h header refl, tt)

request_headers-safe :
    (auth : Option Header) (version : Bytes) (body otp : Option Bytes) (json : Bool)
    → ((header : Header) → auth ≡ some header → IsSafeHeader header)
    → header_value_is_safe version ≡ true
    → safe_or_null otp ≡ true
    → All IsSafeHeader (request_headers auth version body otp json)
unfolding request_headers
request_headers-safe auth version body otp json ha hv ho =
    All-append IsSafeHeader (optional_header auth) _ (optional_header-safe auth ha) (
      hv,
      (
        unfold header_value_is_safe in refl,
        All-append IsSafeHeader (content_type json body) (otp_header otp)
            (content_type-safe json body) (otp_header-safe otp ho),
      ),
    )

request_headers-few :
    (auth : Option Header) (version : Bytes) (body otp : Option Bytes) (json : Bool)
    → length (request_headers auth version body otp json) ≤ 5
unfolding request_headers optional_header content_type otp_header
request_headers-few none version none none json = omega arith
request_headers-few none version none (some o) json = omega arith
request_headers-few none version (some b) none json = omega arith
request_headers-few none version (some b) (some o) json = omega arith
request_headers-few (some a) version none none json = omega arith
request_headers-few (some a) version none (some o) json = omega arith
request_headers-few (some a) version (some b) none json = omega arith
request_headers-few (some a) version (some b) (some o) json = omega arith

-- What a request may carry: at most five headers, none with a line break in its value.
abbrev pub IsSafeRequest : Request → Type 0
IsSafeRequest request = (length request.headers ≤ 5) × All IsSafeHeader request.headers

-- What is sent may be sent, and a pause is between a second and a minute.
unfoldable pub IsSafeEvent : Event → Type 0
IsSafeEvent (sent request) = IsSafeRequest request
IsSafeEvent (slept ms) = (1000 ≤ ms) × (ms ≤ 60000)

all_safe :
    (request : Request) (events : List Event)
    → IsSafeRequest request
    → All (IsOf request) events
    → All IsSafeEvent events
unfolding IsOf IsSafeEvent
all_safe request [] safe h = tt
all_safe request (sent other ∷ events) safe (same, h) =
    (rw same safe, all_safe request events safe h)
all_safe request (slept ms ∷ events) safe (pause, h) = (pause, all_safe request events safe h)

the_call-safe :
    (s : System) (client : Client) (wanted : Wanted) (m : Allocator) (n : ℕ)
    → IsSound client
    → (started : Started s client wanted (send_scoped s client wanted m n))
    → IsSafeRequest
        (the_call s started.perform client wanted started.auth started.url started.version).request
unfolding the_call
the_call-safe s client wanted m n sound started = (
  request_headers-few started.auth started.version wanted.body wanted.otp wanted.json_api_body,
  request_headers-safe started.auth started.version wanted.body wanted.otp wanted.json_api_body
      (λ header e.
        auth_header-IsSafeHeader client started.memory started.time_auth header sound.primary_safe
          (rw e at started.auth_is))
      (sanitize_api_version_lem client.api_version started.memory started.time_version
        started.version started.version_is).1
      started.otp_is_safe,
)

-- A call of a client that the interface built and configured sends at most 17 requests and pauses for
-- at most 16 minutes altogether; none of its requests has a header value with a line break in it or
-- more than five headers, whatever the credentials, the version and the one-time password were.
pub send_scoped-safe :
    (s : System) (client : Client) (wanted : Wanted) (m : Allocator) (n : ℕ)
    → Configured client
    → let run = send_scoped s client wanted m n in
      (sends run.1 ≤ 17) × (pauses run.1 ≤ 960000) × All IsSafeEvent run.1
unfolding the_call
send_scoped-safe s client wanted m n made =
    let sound = Configured-IsSound client made in
    let few = sound.few_retries in
    let (request, bounded) = send_scoped-Bounded s client wanted m n in
    let count = bounded.few in
    let short = bounded.short in
    (
      ground (arith, count),
      ground (arith, short),
      elim (send_scoped-Course s client wanted m n) [
        | inl (code, o, e, _) ↦ rw e tt
        | inr started ↦
            let call =
              the_call s started.perform client wanted started.auth started.url started.version in
            let bounded' =
              attempts-Bounded (suc client.max_retries) call 0 started.memory started.time
                (omega arith) (omega arith) in
            rw started.run_is (
              all_safe call.request _ (the_call-safe s client wanted m n sound started)
                bounded'.events)
      ],
    )

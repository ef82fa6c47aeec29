-- ===== src/Http/Send/Calls.antt =====
-- A whole call of tamga_client_send_scoped: it is refused before anything is sent, or it is the loop.
use tamga_c.Prelude.{
  ℕ, suc, ◌-◌, ◌≡◌, ◌⊎◌, inl, inr, refl, true, arith, Option, none, some, [], if◌then◌else◌, Bytes,
  Bool-cases,
}
use tamga_c.Memory.Exec.{Allocator, Result, ok, err}
use tamga_c.Errors.{ErrorCode, null_argument, out_of_memory, no_transport}
use tamga_c.Http.{Header, Request, Transport, Client}
use tamga_c.Http.Text.{sanitize_api_version}
use tamga_c.Http.Retry.{request_is_retryable}
use tamga_c.Http.Transport.{Refused}
use tamga_c.Http.Config.{safe_or_null}
use tamga_c.Http.Credentials.{auth_header, build_url}
use tamga_c.Http.Send.{
  System, failed, Run, attempts, Wanted, url_and_version, the_call, send_built, send_with,
  send_over, send_scoped,
}
use tamga_c.Http.Send.Loop.{sends, pauses, IsSpaced, Bounded, attempts-Bounded}
use tamga_c.Http.Send.Outcomes.{Explained, attempts-Settled}

-- A run of the loop that a call comes to, with where its parts are from.
pub record Started (s : System) (client : Client) (wanted : Wanted) (run : Run) : Type 0 where
  pub perform : Transport
  pub auth : Option Header
  pub url : Bytes
  pub version : Bytes
  pub memory : Allocator
  pub time : ℕ
  pub time_auth : ℕ
  pub time_url : ℕ
  pub time_version : ℕ
  pub transport_is : client.transport ≡ some perform
  pub configured : client.auth_configured ≡ true
  pub otp_is_safe : safe_or_null wanted.otp ≡ true
  pub auth_is : (auth_header client memory time_auth).0 ≡ ok auth
  pub url_is : (build_url client wanted.scope wanted.path wanted.query memory time_url).0 ≡ some url
  pub version_is : (sanitize_api_version client.api_version memory time_version).0 ≡ some version
  pub run_is :
      run
      ≡ attempts
          (suc client.max_retries)
          (the_call s perform client wanted auth url version)
          0
          memory
          time

-- The call sends nothing and fails for want of a transport, of credentials or of memory, or it is
-- such a run.
abbrev pub Course : System → Client → Wanted → Run → Type 0
Course s client wanted run =
    ((code : ErrorCode) × (run.0 ≡ failed code)
      × (run.1 ≡ [])
      × ((code ≡ no_transport) ⊎ (code ≡ null_argument) ⊎ (code ≡ out_of_memory)))
    ⊎ Started s client wanted run

refuses :
    (s : System) (client : Client) (wanted : Wanted) (n : ℕ) (code : ErrorCode)
    → (code ≡ no_transport) ⊎ (code ≡ null_argument) ⊎ (code ≡ out_of_memory)
    → Course s client wanted (failed code, [], n)
refuses s client wanted n code h = inl (code, refl, refl, h)

module _ (s : System) (client : Client) (wanted : Wanted) (perform : Transport) (m : Allocator)
    (transport_is : client.transport ≡ some perform) (configured : client.auth_configured ≡ true)
    (otp_is_safe : safe_or_null wanted.otp ≡ true) where
  send_built-Course :
      (auth : Option Header) (n0 n1 n2 : ℕ) (url version : Option Bytes) (n : ℕ)
      → (auth_header client m n0).0 ≡ ok auth
      → (build_url client wanted.scope wanted.path wanted.query m n1).0 ≡ url
      → (sanitize_api_version client.api_version m n2).0 ≡ version
      → Course s client wanted (send_built s perform client wanted auth (url, version, n) m)
  unfolding send_built
  send_built-Course auth n0 n1 n2 none version n a u v =
      refuses s client wanted n out_of_memory (inr (inr refl))
  send_built-Course auth n0 n1 n2 (some url) none n a u v =
      refuses s client wanted n out_of_memory (inr (inr refl))
  send_built-Course auth n0 n1 n2 (some url) (some version) n a u v = inr (record {
    perform = perform;
    auth = auth;
    url = url;
    version = version;
    memory = m;
    time = n;
    time_auth = n0;
    time_url = n1;
    time_version = n2;
    transport_is = transport_is;
    configured = configured;
    otp_is_safe = otp_is_safe;
    auth_is = a;
    url_is = u;
    version_is = v;
    run_is = refl;
  })

  send_with-Course :
      (auth : Result Refused (Option Header)) (n0 n : ℕ)
      → (auth_header client m n0).0 ≡ auth
      → Course s client wanted (send_with s perform client wanted auth m n)
  unfolding send_with url_and_version
  send_with-Course (err e) n0 n a = refuses s client wanted n out_of_memory (inr (inr refl))
  send_with-Course (ok auth) n0 n a = send_built-Course auth n0 n _ _ _ _ a refl refl

send_over-Course :
    (t : Option Transport) (s : System) (client : Client) (wanted : Wanted) (m : Allocator) (n : ℕ)
    → client.transport ≡ t
    → Course s client wanted (send_over t s client wanted m n)
unfolding send_over
send_over-Course none s client wanted m n t = refuses s client wanted n no_transport (inl refl)
send_over-Course (some perform) s client wanted m n t = elim (Bool-cases client.auth_configured) [
  | inr bare ↦ simp bare (refuses s client wanted n null_argument (inr (inl refl)))
  | inl configured ↦ elim (Bool-cases (safe_or_null wanted.otp)) [
    | inr unsafe ↦
        simp (configured, unsafe) (refuses s client wanted n null_argument (inr (inl refl)))
    | inl safe ↦
        simp (configured, safe)
          (send_with-Course s client wanted perform m t configured safe (auth_header client m n).0 n
            _ refl)
  ]
]

pub send_scoped-Course :
    (s : System) (client : Client) (wanted : Wanted) (m : Allocator) (n : ℕ)
    → Course s client wanted (send_scoped s client wanted m n)
unfolding send_scoped
send_scoped-Course s client wanted m n = send_over-Course client.transport s client wanted m n refl

any_request : Request
any_request = record { method = []; url = []; headers = []; body = none; timeout_ms = 0 }

quiet :
    (left : ℕ) (run : Run) (code : ErrorCode)
    → run.0 ≡ failed code
    → run.1 ≡ []
    → Bounded any_request left run
unfolding sends pauses IsSpaced
quiet left (o, events, n) code outcome none_made = record {
  ends = λ h. cc;
  few = rw none_made (omega arith);
  short = rw none_made (omega arith);
  events = rw none_made tt;
  spaced = rw none_made tt;
}

-- A call ends. It makes at most one more request than the client has retries, and at most one where
-- the request may not be repeated; they are all the same request, and between two requests there is
-- one pause, of a second at least and a minute at most.
pub send_scoped-Bounded :
    (s : System) (client : Client) (wanted : Wanted) (m : Allocator) (n : ℕ)
    → (request : Request) × Bounded request
        (if request_is_retryable wanted.method wanted.path then client.max_retries else 0)
        (send_scoped s client wanted m n)
unfolding the_call
send_scoped-Bounded s client wanted m n = elim (send_scoped-Course s client wanted m n) [
  | inl (code, o, e, _) ↦ (any_request, quiet _ _ code o e)
  | inr run ↦
      let call = the_call s run.perform client wanted run.auth run.url run.version in
      let all : client.max_retries - 0 ≡ client.max_retries = omega arith in
      let bounded =
        attempts-Bounded (suc client.max_retries) call 0 run.memory run.time (omega arith)
          (omega arith) in
      (call.request, rw run.run_is (rw all at bounded))
]

-- TAMGA_OK and an error with a response are what the server answered last: where a call sends k + 1
-- requests, its outcome is explained by the transport's answer to number k; and where it sends none,
-- it fails for want of a transport, of credentials that may be sent, or of memory.
pub send_scoped-Explained :
    (s : System) (client : Client) (wanted : Wanted) (m : Allocator) (n : ℕ)
    → let run = send_scoped s client wanted m n in
      ((code : ErrorCode) × (run.0 ≡ failed code)
        × (run.1 ≡ [])
        × ((code ≡ no_transport) ⊎ (code ≡ null_argument) ⊎ (code ≡ out_of_memory)))
      ⊎ (perform : Transport) × (request : Request) × (k : ℕ) × (client.transport ≡ some perform)
        × (sends run.1 ≡ suc k)
        × Explained (perform k request) run.0
unfolding the_call
send_scoped-Explained s client wanted m n = elim (send_scoped-Course s client wanted m n) [
  | inl refused ↦ inl refused
  | inr run ↦
      let call = the_call s run.perform client wanted run.auth run.url run.version in
      let (k, count, explained) =
        attempts-Settled (suc client.max_retries) call 0 run.memory run.time (omega arith)
          (omega arith) in
      inr (
        run.perform,
        call.request,
        k,
        run.transport_is,
        rw run.run_is (omega (arith, count)),
        rw run.run_is explained,
      )
]

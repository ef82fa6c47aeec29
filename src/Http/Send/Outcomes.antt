-- ===== src/Http/Send/Outcomes.antt =====
-- What a call answers rests on the server's last answer, and on nothing else.
use tamga_c.Prelude.{
  ℕ, zero, suc, ◌+◌, ◌≤◌, ◌<◌, ◌≡◌, ◌⊎◌, inl, inr, refl, true, false, arith, Bool-cases,
}
use tamga_c.Memory.Exec.{Allocator, Result, ok, err, pure, allocate, ◌>>=◌, >>=-eq-ok, ok-injective}
use tamga_c.Json.Parse.Numbers.{Conversions}
use tamga_c.Errors.{out_of_memory}
use tamga_c.Http.{HttpResponse, Performed, Reply}
use tamga_c.Http.Transport.{Refused, refused}
use tamga_c.Http.Answer.{
  response_size, reply_of, parse_body, response_from_http, is_success, error_code_of, map_api_error,
}
use tamga_c.Http.Send.{
  Outcome, success, rejected, failed, stuck, Run, Call, failure_code, judge, conclude, goes_again,
  round, attempts,
}
use tamga_c.Http.Send.Loop.{sends, goes_again_lem}

-- The response tells what the server answered.
abbrev pub Tells : Performed → Reply → Type 0
Tells performed reply =
    (performed.succeeded ≡ true)
    × (reply.status ≡ performed.response.status)
    × (reply.body ≡ performed.response.body)
    × (reply.headers ≡ performed.response.headers)

-- What an outcome says of the transport's last answer: TAMGA_OK is a 2xx response, handed over as it
-- came; an error with a response is that response with a status outside of 2xx, under the code that
-- tamga_map_api_error finds; an error without one is the transport's failure, or the want of memory
-- for the response.
abbrev pub Explained : Performed → Outcome → Type 0
Explained performed (success reply) = Tells performed reply × (is_success reply.status ≡ true)
Explained performed (rejected code reply) =
    Tells performed reply
    × (is_success reply.status ≡ false)
    × (code ≡ map_api_error reply.status (error_code_of reply.json))
Explained performed (failed code) =
    (performed.succeeded ≡ false) × (code ≡ failure_code performed.response.failure)
    ⊎ (performed.succeeded ≡ true) × (code ≡ out_of_memory)
Explained performed stuck = ⊥

reply_lem :
    (c : Conversions) (http : HttpResponse) (m : Allocator) (n : ℕ) (reply : Reply)
    → (response_from_http c http m n).0 ≡ ok reply
    → (reply.status ≡ http.status) × (reply.body ≡ http.body) × (reply.headers ≡ http.headers)
unfolding response_from_http
reply_lem c http m n reply h =
    let (_, _, h1) =
      >>=-eq-ok (allocate refused response_size)
        (λ _. parse_body c http.body >>= λ tree. pure (reply_of http tree)) {m = m} {n = n} h in
    let (tree, _, h2) =
      >>=-eq-ok (parse_body c http.body) (λ tree. pure (reply_of http tree)) {m = m} {n = _} h1 in
    let same = ok-injective h2 in (cc same, cc same, cc same)

judge-Explained :
    (performed : Performed) (r : Result Refused Reply) (m : Allocator) (n : ℕ)
    → performed.succeeded ≡ true
    → ((reply : Reply)
        → r ≡ ok reply
        → (reply.status ≡ performed.response.status)
          × (reply.body ≡ performed.response.body)
          × (reply.headers ≡ performed.response.headers))
    → Explained performed (judge r m n).0
unfolding judge
judge-Explained performed (err e) m n h k = inr (h, refl)
judge-Explained performed (ok reply) m n h k =
    let (status, body, headers) = k reply refl in
    elim (Bool-cases (is_success reply.status)) [
      | inl good ↦ rw good ((h, status, body, headers), good)
      | inr bad ↦ rw bad ((h, status, body, headers), bad, refl)
    ]

-- The run made its last request as the k-th one, and its outcome is explained by the answer.
abbrev pub Settled : Call → ℕ → Run → Type 0
Settled call attempt run =
    (k : ℕ) × (suc k ≡ attempt + sends run.1) × Explained (call.perform k call.request) run.0

pub attempts-Settled :
    (fuel : ℕ) (call : Call) (attempt : ℕ) (m : Allocator) (n : ℕ)
    → attempt ≤ call.max_retries
    → call.max_retries < fuel + attempt
    → Settled call attempt (attempts fuel call attempt m n)
unfolding attempts round conclude sends
attempts-Settled zero call attempt m n h k = absurd (omega arith)
attempts-Settled (suc fuel) call attempt m n h k =
    let performed = call.perform attempt call.request in
    elim (Bool-cases performed.succeeded) [
      | inr bad ↦ rw bad (attempt, omega arith, inl (bad, refl))
      | inl good ↦ elim (Bool-cases (goes_again call attempt performed.response)) [
        | inr done ↦
            let (reply, n1) = response_from_http call.system.conversions performed.response m n in
            simp (good, done)
              (
                attempt,
                omega arith,
                judge-Explained performed reply m n1 good
                    (λ r e. reply_lem call.system.conversions performed.response m n r e),
              )
        | inl again ↦
            let (below, _) = goes_again_lem call attempt performed.response again in
            let (last, count, explained) =
              attempts-Settled fuel call (attempt + 1) m n (omega arith) (omega arith) in
            simp (good, again) (last, omega arith, explained)
      ]
    ]

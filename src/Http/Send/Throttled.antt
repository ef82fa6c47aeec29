-- ===== src/Http/Send/Throttled.antt =====
-- A request that may be repeated is sent until the server no longer answers 429 or the retries are
-- spent.
use tamga_c.Prelude.{
  ℕ, zero, suc, ◌+◌, ◌≤◌, ◌<◌, ◌≡◌, ◌⊎◌, inl, inr, refl, true, false, arith, [], ◌==◌,
  if◌then◌else◌, Bool-cases, ==_iff,
}
use tamga_c.Memory.Exec.{Allocator}
use tamga_c.Http.{HttpResponse}
use tamga_c.Http.Answer.{is_status}
use tamga_c.Http.Send.{Outcome, failed, Call, failure_code, conclude, goes_again, round, attempts}
use tamga_c.Http.Send.Loop.{sends}

-- The transport answers request number k with status 429.
abbrev pub Throttles : Call → ℕ → Type 0
Throttles call k =
    let performed = call.perform k call.request in
    (performed.succeeded ≡ true) × (is_status 429 performed.response.status ≡ true)

-- What comes of the transport's answer to request number k, where it is the last one.
abbrev pub last_outcome : Call → ℕ → Allocator → ℕ → Outcome
last_outcome call k m n =
    let performed = call.perform k call.request in
    if performed.succeeded
    then (conclude call performed.response m n).0
    else failed (failure_code performed.response.failure)

conclude_quiet :
    (call : Call) (http : HttpResponse) (m : Allocator) (n : ℕ) → (conclude call http m n).1 ≡ []
unfolding conclude
conclude_quiet call http m n = refl

module _ (call : Call) (last : ℕ) (m : Allocator) (n : ℕ) (repeats : call.may_repeat ≡ true)
    (enough : last ≤ call.max_retries) (throttled : (k : ℕ) → k < last → Throttles call k)
    (settled : (is_status 429 (call.perform last call.request).response.status ≡ false)
      ⊎ (last ≡ call.max_retries)) where
  stops : goes_again call last (call.perform last call.request).response ≡ false
  unfolding goes_again
  stops = elim settled [ inl other ↦ ground (arith, other) | inr spent ↦ ground (arith, spent) ]

  continues :
      (attempt : ℕ)
      → attempt < last
      → goes_again call attempt (call.perform attempt call.request).response ≡ true
  unfolding goes_again
  continues attempt h = let (_, status) = throttled attempt h in ground (arith, status, repeats)

  from_attempt :
      (fuel attempt : ℕ)
      → attempt ≤ last
      → last < fuel + attempt
      → let run = attempts fuel call attempt m n in
        (run.0 ≡ last_outcome call last m n) × (attempt + sends run.1 ≡ suc last)
  unfolding attempts round sends
  from_attempt zero attempt h k = absurd (omega arith)
  from_attempt (suc fuel) attempt h k = elim (Bool-cases (attempt == last)) [
    | inl here ↦
        let same : attempt ≡ last = (==_iff attempt last).0 here in
        rw same (elim (Bool-cases (call.perform last call.request).succeeded) [
          | inr bad ↦ simp bad (refl, omega arith)
          | inl good ↦ simp (good, stops, conclude_quiet) (refl, omega arith)
        ])
    | inr before ↦
        let below : attempt < last = ground arith in
        let (good, _) = throttled attempt below in
        let (outcome, count) = from_attempt fuel (attempt + 1) (omega arith) (omega arith) in
        simp (good, continues attempt below) (outcome, omega (arith, count))
  ]

  -- Where a request may be repeated, and the transport answers 429 to the first `last` requests, no
  -- more of them than there are retries, and something else to the next one or there are no retries
  -- left: then the call sends `last + 1` requests, and its outcome is what comes of the last answer.
  pub attempts_throttled :
      let run = attempts (suc call.max_retries) call 0 m n in
      (run.0 ≡ last_outcome call last m n) × (sends run.1 ≡ suc last)
  attempts_throttled =
      let (outcome, count) = from_attempt (suc call.max_retries) 0 (omega arith) (omega arith) in
      (outcome, omega (arith, count))

-- ===== src/Http/Send/Loop.antt =====
-- The loop ends: how often it sends, how long it waits, and what its outcome rests on.
use tamga_c.Prelude.{
  ℕ, zero, suc, ◌+◌, ◌-◌, ◌*◌, ◌≤◌, ◌<◌, ◌≡◌, ◌≢◌, inl, inr, refl, true, arith, List, [], ◌∷◌,
  if◌then◌else◌, All, Bool-cases,
}
use tamga_c.Memory.Exec.{Allocator, Result, ok, err}
use tamga_c.Http.{Request, HttpResponse, Reply}
use tamga_c.Http.Retry.Bounds.{retry_delay_bounds}
use tamga_c.Http.Transport.{Refused}
use tamga_c.Http.Answer.{response_from_http, is_success}
use tamga_c.Http.Send.{
  Event, sent, slept, Outcome, stuck, Run, Call, delay_of, judge, conclude, goes_again, after,
  round, attempts,
}

-- How many requests are among the events, and how long the pauses are together.
unfoldable pub sends : List Event → ℕ
sends [] = 0
sends (sent request ∷ events) = suc (sends events)
sends (slept ms ∷ events) = sends events

unfoldable pub pauses : List Event → ℕ
pauses [] = 0
pauses (sent request ∷ events) = pauses events
pauses (slept ms ∷ events) = ms + pauses events

-- The event sends this request, or it is a pause between a second and a minute.
unfoldable pub IsOf : Request → Event → Type 0
IsOf request (sent other) = other ≡ request
IsOf request (slept ms) = (1000 ≤ ms) × (ms ≤ 60000)

-- Requests and pauses alternate, from a request on: there is a pause before each request but the first.
unfoldable pub IsSpaced : List Event → Type 0
IsSpaced [] = Unit
IsSpaced (slept ms ∷ events) = ⊥
IsSpaced (sent request ∷ []) = Unit
IsSpaced (sent request ∷ sent other ∷ events) = ⊥
IsSpaced (sent request ∷ slept ms ∷ events) = IsSpaced events

-- A run that repeats its request at most `left` times.
pub record Bounded (request : Request) (left : ℕ) (run : Run) : Type 0 where
  pub ends : run.0 ≢ stuck
  pub few : sends run.1 ≤ suc left
  pub short : pauses run.1 ≤ left * 60000
  pub events : All (IsOf request) run.1
  pub spaced : IsSpaced run.1

judge_ends : (r : Result Refused Reply) (m : Allocator) (n : ℕ) → (judge r m n).0 ≢ stuck
unfolding judge
judge_ends (err e) m n h = cc
judge_ends (ok reply) m n h = elim (Bool-cases (is_success reply.status)) [
  | inl good ↦ cc (simp good at h)
  | inr bad ↦ cc (simp bad at h)
]

delay_lem :
    (call : Call) (a : ℕ) (http : HttpResponse)
    → let d = delay_of call.system a http in (1000 ≤ d) × (d ≤ 60000)
unfolding delay_of
delay_lem call a http =
    let (low, high, _, _, _) = retry_delay_bounds call.system.process_id a _ in (low, high)

-- How often a request may still be repeated from an attempt on.
abbrev pub left_from : Call → ℕ → ℕ
left_from call attempt = if call.may_repeat then call.max_retries - attempt else 0

-- A run behind one sent request, extended by the request.
abbrev After : Request → ℕ → Run → Type 0
After request left run = Bounded request left (after (sent request ∷ []) run)

ended :
    (request : Request) (left : ℕ) (o : Outcome) (n : ℕ) → o ≢ stuck → After request left (o, [], n)
unfolding sends pauses IsOf IsSpaced
ended request left o n h = record {
  ends = h;
  few = omega arith;
  short = omega arith;
  events = (refl, tt);
  spaced = tt;
}

again_lem :
    (request : Request) (left d : ℕ) (run : Run)
    → (1000 ≤ d) × (d ≤ 60000)
    → Bounded request left run
    → After request (suc left) (after (slept d ∷ []) run)
unfolding sends pauses IsOf IsSpaced
again_lem request left d run h b = record {
  ends = b.ends;
  few = omega (arith, b.few);
  short = let p = b.short in let q = h.1 in omega arith;
  events = (refl, (h, b.events));
  spaced = b.spaced;
}

pub goes_again_lem :
    (call : Call) (attempt : ℕ) (http : HttpResponse)
    → goes_again call attempt http ≡ true
    → (attempt < call.max_retries) × (call.may_repeat ≡ true)
unfolding goes_again
goes_again_lem call attempt http h = ground arith

pub attempts-Bounded :
    (fuel : ℕ) (call : Call) (attempt : ℕ) (m : Allocator) (n : ℕ)
    → attempt ≤ call.max_retries
    → call.max_retries < fuel + attempt
    → Bounded call.request (left_from call attempt) (attempts fuel call attempt m n)
unfolding attempts round conclude
attempts-Bounded zero call attempt m n h k = absurd (omega arith)
attempts-Bounded (suc fuel) call attempt m n h k =
    let performed = call.perform attempt call.request in
    elim (Bool-cases performed.succeeded) [
      | inr bad ↦ rw bad (ended call.request _ _ n (λ e. cc e))
      | inl good ↦ elim (Bool-cases (goes_again call attempt performed.response)) [
        | inr done ↦
            let (reply, n1) = response_from_http call.system.conversions performed.response m n in
            simp (good, done) (ended call.request _ _ _ (judge_ends reply m n1))
        | inl again ↦
            let (below, repeats) = goes_again_lem call attempt performed.response again in
            let rest = attempts-Bounded fuel call (attempt + 1) m n (omega arith) (omega arith) in
            let fewer : left_from call attempt ≡ suc (left_from call (attempt + 1)) =
              ground arith in
            simp (good, again)
              (rw fewer
                (again_lem call.request _ _ _ (delay_lem call attempt performed.response) rest))
      ]
    ]

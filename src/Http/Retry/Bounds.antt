-- ===== src/Http/Retry/Bounds.antt =====
-- How long a client waits before it sends a request again.
use tamga_c.Prelude.{
  ℕ, ◌+◌, ◌*◌, ◌%◌, ◌^◌, ◌≤◌, ◌<◌, ◌≡◌, refl, true, ◌&&◌, arith, ltb, leb, if◌then◌else◌,
  passes_below, passes_below_lem, Bool-cases, inl, inr,
}
use tamga_c.Prelude.Int.{ℤ, pos, negsuc, pos_part}
use tamga_c.Http.Retry.{retry_jitter_ms, backoff_seconds, retry_after_of, retry_delay_ms}

small_backoff : passes_below (λ a. leb 1 (2 ^ a) && leb (2 ^ a) 32) 6 ≡ true
unfolding passes_below
small_backoff = refl

-- The lesser of two numbers.
abbrev pub least : ℕ → ℕ → ℕ
least a b = if leb a b then a else b

backoff_lem :
    (attempt : ℕ)
    → let seconds = 2 ^ least attempt 5 in
      (backoff_seconds attempt ≡ seconds) × (1 ≤ seconds) × (seconds ≤ 32)
unfolding backoff_seconds
backoff_lem attempt =
    let a = least attempt 5 in
    let below : a < 6 = ground arith in
    let same : (if ltb 5 attempt then 5 else attempt) ≡ a = ground arith in
    let t = passes_below_lem _ 6 a small_backoff below in
    let (low, high) : (1 ≤ 2 ^ a) × (2 ^ a ≤ 32) = ground (arith, t) in
    (rw same (omega arith), low, high)

jitter_lt : (process_id attempt : ℕ) → retry_jitter_ms process_id attempt < 1000
unfolding retry_jitter_ms
jitter_lt process_id attempt = omega arith

retry_after_lem : (retry_after : ℤ) → retry_after_of retry_after ≡ pos_part retry_after
unfolding retry_after_of
retry_after_lem (pos n) = refl
retry_after_lem (negsuc n) = refl

no_wrap :
    (backoff jitter seconds : ℕ)
    → 1 ≤ backoff
    → backoff ≤ 32
    → jitter < 1000
    → (if ltb 0 seconds
        then (if ltb 60 seconds then 60 else seconds) * 1000 % 2 ^ 32
        else (backoff * 1000 % 2 ^ 32 + jitter) % 2 ^ 32)
      ≡ (if ltb 0 seconds then least seconds 60 * 1000 else backoff * 1000 + jitter)
no_wrap backoff jitter seconds low high below = elim (Bool-cases (ltb 0 seconds)) [
  | inl given ↦
      rw given
        (elim (Bool-cases (ltb 60 seconds)) [ inl long ↦ ground arith | inr short ↦ ground arith ])
  | inr none_given ↦ rw none_given (omega arith)
]

-- The delay before a request is sent again is, as a number that has not wrapped around, the seconds of
-- Retry-After, at most 60 of them, where they are positive, and else 1, 2, 4, 8, 16 or 32 seconds, by
-- the attempt, with less than a second of jitter. It is at least a second and at most a minute.
pub retry_delay_bounds :
    (process_id attempt : ℕ) (retry_after : ℤ)
    → let d = retry_delay_ms process_id attempt retry_after in
      (1000 ≤ d)
      × (d ≤ 60000)
      × (jitter : ℕ) × (jitter < 1000)
      × (d ≡ (
          if ltb 0 (pos_part retry_after)
          then least (pos_part retry_after) 60 * 1000
          else 2 ^ least attempt 5 * 1000 + jitter))
unfolding retry_delay_ms
retry_delay_bounds process_id attempt retry_after =
    let (same, low, high) = backoff_lem attempt in
    let below = jitter_lt process_id attempt in
    let seconds = 2 ^ least attempt 5 in
    let delay = retry_delay_ms process_id attempt retry_after in
    let exact : delay ≡ (
        if ltb 0 (pos_part retry_after)
        then least (pos_part retry_after) 60 * 1000
        else seconds * 1000 + retry_jitter_ms process_id attempt) =
      rw (same, retry_after_lem retry_after) (no_wrap seconds _ _ low high below) in
    (
      ground (arith, exact, low),
      ground (arith, exact, high, below),
      retry_jitter_ms process_id attempt,
      below,
      exact,
    )

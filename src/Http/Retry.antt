-- ===== src/Http/Retry.antt =====
-- Which requests are sent again, and after how long: tamga_request_is_retryable and
-- tamga_retry_delay_ms of src/http/client.c.
pub mod Bounds
use tamga_c.Prelude.{
  ℕ, ◌+◌, ◌-◌, ◌*◌, ◌%◌, ◌^◌, ◌≤◌, ◌≡◌, Bool, true, false, ◌&&◌, ◌||◌, List, [], ◌∷◌, ltb, leb,
  ◌==◌, if◌then◌else◌, length, drop, Bytes, bytes_eq, codes,
}
use tamga_c.Prelude.Int.{ℤ, pos, negsuc}

abbrev pub retryable_suffixes : List Bytes
retryable_suffixes =
    codes "/actions/validate"
    ∷ codes "/actions/validate-key"
    ∷ codes "/actions/check-in"
    ∷ codes "/actions/check-out"
    ∷ codes "/actions/ping"
    ∷ codes "/actions/ping-heartbeat"
    ∷ codes "/actions/reset-heartbeat"
    ∷ []

unfoldable pub ends_with : Bytes → Bytes → Bool
ends_with suffix path =
    leb (length suffix) (length path) && bytes_eq (drop (length path - length suffix) path) suffix

unfoldable pub ends_with_any : List Bytes → Bytes → Bool
unfolding ends_with
ends_with_any [] path = false
ends_with_any (suffix ∷ suffixes) path = ends_with suffix path || ends_with_any suffixes path

-- tamga_request_is_retryable, its arguments not NULL.
unfoldable pub request_is_retryable : Bytes → Bytes → Bool
request_is_retryable method path =
    if bytes_eq method (codes "GET")
    then true
    else if bytes_eq method (codes "POST")
    then ends_with_any retryable_suffixes path
    else false

-- tamga_retry_jitter_ms, in 64-bit arithmetic; the process id is the system's.
unfoldable pub retry_jitter_ms : ℕ → ℕ → ℕ
retry_jitter_ms process_id attempt =
    let seed = process_id * 2654435761 % 2 ^ 64 in (seed + attempt * 40503 % 2 ^ 64) % 2 ^ 64 % 1000

-- 1u << ((attempt > 5u) ? 5u : attempt)
unfoldable pub backoff_seconds : ℕ → ℕ
backoff_seconds attempt = 2 ^ (if ltb 5 attempt then 5 else attempt) % 2 ^ 32

-- A Retry-After of 0 or less counts as none.
unfoldable pub retry_after_of : ℤ → ℕ
retry_after_of (pos seconds) = seconds
retry_after_of (negsuc n) = 0

unfoldable pub retry_delay_ms : ℕ → ℕ → ℤ → ℕ
retry_delay_ms process_id attempt retry_after =
    let seconds = retry_after_of retry_after in
    if ltb 0 seconds
    then (if ltb 60 seconds then 60 else seconds) * 1000 % 2 ^ 32
    else (backoff_seconds attempt * 1000 % 2 ^ 32 + retry_jitter_ms process_id attempt) % 2 ^ 32

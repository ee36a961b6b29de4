-- ===== src/RateLimit/Limiter.antt =====
-- app/shared/auth/rate_limit/shared_auth_rate_limit_limiter_utils.py and
-- shared_auth_rate_limit_rules_utils.py. A time of `time.monotonic` and the lengths of time are counted in
-- ticks of its clock, which never goes back; a rejected call leaves the limiter as it was.
pub mod Window
pub mod InFlight
pub mod Bound
use tenon_backend.Base.{
  ℕ, ◌+◌, ◌-◌, Bool, true, false, Option, none, some, List, [], ◌∷◌, ◌++◌, keep, length, leb, ltb,
  or_else, if◌then◌else◌,
}
use tenon_backend.Base.Text.{Text}
use tenon_backend.Base.Dict.{Dict, lookup, assign, pop}
use tenon_backend.Base.Result.{Result, ok, err, http_error}

pub record RateLimitRule : Type 0 where
  pub limit : ℕ
  pub window_seconds : ℕ

pub record RateLimiter : Type 0 where
  pub store : Dict (List ℕ)
  pub last_seen : Dict ℕ
  pub in_flight : Dict ℕ

-- `__init__`, and what `reset` leaves.
abbrev pub fresh : RateLimiter
fresh = record { store = []; last_seen = []; in_flight = [] }

-- `now - t <= rule.window_seconds`
abbrev pub is_recent : ℕ → ℕ → ℕ → Bool
is_recent now window_seconds t = leb (now - t) window_seconds

-- `entries`
unfoldable pub recent_entries : ℕ → Text → RateLimitRule → RateLimiter → List ℕ
recent_entries now key rule limiter =
    keep (is_recent now rule.window_seconds) (or_else (lookup key limiter.store) [])

unfoldable pub allow : ℕ → Text → RateLimitRule → RateLimiter → Result RateLimiter
allow now key rule limiter =
    let entries = recent_entries now key rule limiter in
    if leb rule.limit (length entries)
    then err (http_error 429)
    else ok (record limiter { store = assign key (entries ++ now ∷ []) limiter.store })

-- `last is not None and now - last < min_interval_seconds`
abbrev pub is_too_soon : ℕ → ℕ → Option ℕ → Bool
is_too_soon now min_interval_seconds none = false
is_too_soon now min_interval_seconds (some last) = ltb (now - last) min_interval_seconds

unfoldable pub throttle : ℕ → Text → ℕ → RateLimiter → Result RateLimiter
throttle now key min_interval_seconds limiter =
    if is_too_soon now min_interval_seconds (lookup key limiter.last_seen)
    then err (http_error 429)
    else ok (record limiter { last_seen = assign key now limiter.last_seen })

-- `concurrency_guard` up to its `yield`, under the lock.
unfoldable pub enter_guard : Text → ℕ → RateLimiter → Result RateLimiter
enter_guard key max_in_flight limiter =
    let current = or_else (lookup key limiter.in_flight) 0 in
    if leb max_in_flight current
    then err (http_error 429)
    else ok (record limiter { in_flight = assign key (current + 1) limiter.in_flight })

-- Its `finally`. `remaining <= 0` holds where the count is at most one.
unfoldable pub leave_guard : Text → RateLimiter → RateLimiter
leave_guard key limiter =
    let current = or_else (lookup key limiter.in_flight) 1 in
    if leb current 1
    then record limiter { in_flight = pop key limiter.in_flight }
    else record limiter { in_flight = assign key (current - 1) limiter.in_flight }

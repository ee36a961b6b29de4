-- ===== src/RateLimit/Tests.antt =====
-- A short run of the rate limiter, and its theorems at it.
use tenon_backend.Base.{ℕ, ◌≤◌, ◌≡◌, refl, [], ◌∷◌, keep, length, arith}
use tenon_backend.Base.Text.{Text, codes, same_text}
use tenon_backend.Base.Dict.{lookup, assign}
use tenon_backend.Base.Result.{err, http_error}
use tenon_backend.RateLimit.Limiter.{
  RateLimitRule, RateLimiter, fresh, recent_entries, allow, enter_guard, leave_guard,
}
use tenon_backend.RateLimit.Limiter.InFlight.{Held, guards, count_entry, Held-guards}
use tenon_backend.RateLimit.Limiter.Window.{Log}
use tenon_backend.RateLimit.Limiter.Bound.{in_window, Log-count-le}

abbrev login : Text
login = codes "login"

abbrev two_in_ten : RateLimitRule
two_in_ten = record { limit = 2; window_seconds = 10 }

abbrev called : ℕ → ℕ → RateLimiter
called first second = record fresh { store = (login, first ∷ second ∷ []) ∷ [] }

-- The third call within the window is refused; behind it the first one no longer counts.
third_refused : allow 8 login two_in_ten (called 0 5) ≡ err (http_error 429)
unfolding allow recent_entries lookup same_text
third_refused = refl

two_calls : Log login two_in_ten 11 (0 ∷ 5 ∷ 11 ∷ []) (called 5 11)
unfolding allow recent_entries lookup assign same_text
two_calls =
    Log.passed {last = 5} {limiter = called 0 5}
      (Log.passed {last = 0} {limiter = record fresh { store = (login, 0 ∷ []) ∷ [] }}
        (Log.passed {limiter = fresh} (Log.start 0) (omega arith) refl) (omega arith) refl)
      (omega arith) refl

Log-count-le_example : length (keep (in_window 1 10) (0 ∷ 5 ∷ 11 ∷ [])) ≤ 2
Log-count-le_example = Log-count-le login two_in_ten 1 two_calls

abbrev one_held : RateLimiter
one_held = record fresh { in_flight = (login, 1) ∷ [] }

two_entered : Held login 2 1 (leave_guard login (record fresh { in_flight = (login, 2) ∷ [] }))
unfolding enter_guard lookup assign same_text
two_entered = Held.left (Held.entered {limiter = one_held} (Held.entered Held.start refl) refl)

Held-guards_example :
    (guards login (leave_guard login (record fresh { in_flight = (login, 2) ∷ [] }))
      ≡ count_entry 1)
    × (1 ≤ 2)
Held-guards_example = Held-guards login 2 two_entered

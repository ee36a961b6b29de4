-- ===== src/RateLimit/Limiter/Bound.antt =====
-- The bound that the sliding window of `allow` keeps.
use tenon_backend.Base.{
  ℕ, ◌+◌, ◌≤◌, ◌≡◌, ap, ◌∙◌, Bool, true, false, ◌&&◌, List, [], ◌∷◌, ◌++◌, keep, length,
  length-append, leb, arith, Bool-cases, inl, inr,
}
use tenon_backend.Base.Text.{Text}
use tenon_backend.Base.Result.{ok}
use tenon_backend.RateLimit.Limiter.{RateLimitRule, RateLimiter, is_recent, recent_entries, allow}
use tenon_backend.RateLimit.Limiter.Window.{
  Log, start, passed, passed_other, throttled, entered, left, keep-append, allow-ok, Log-StandsFor,
}

-- The times from one instant to the end of a window that begins there, both included.
abbrev pub in_window : ℕ → ℕ → ℕ → Bool
in_window from window t = leb from t && leb t (from + window)

abbrev one_if : Bool → ℕ
one_if true = 1
one_if false = 0

window_is_recent :
    (from window now : ℕ) (times : List ℕ)
    → in_window from window now ≡ true
    → length (keep (in_window from window) times) ≤ length (keep (is_recent now window) times)
window_is_recent from window now [] inside = omega arith
window_is_recent from window now (t ∷ times) inside =
    ground (arith, window_is_recent from window now times)

count_passed :
    (from window now : ℕ) (times : List ℕ)
    → length (keep (in_window from window) (times ++ now ∷ []))
      ≡ length (keep (in_window from window) times) + one_if (in_window from window now)
count_passed from window now times =
    ap length (keep-append (in_window from window) times (now ∷ []))
    ∙ length-append (keep (in_window from window) times) (keep (in_window from window) (now ∷ []))
    ∙ ap (λ n. length (keep (in_window from window) times) + n) (ground arith)

module _ (key : Text) (rule : RateLimitRule) (from : ℕ) where
  passed_inside :
      {last : ℕ} (now : ℕ) {times : List ℕ} (limiter : RateLimiter) {limiter' : RateLimiter}
      → Log key rule last times limiter
      → last ≤ now
      → allow now key rule limiter ≡ ok limiter'
      → in_window from rule.window_seconds now ≡ true
      → length (keep (in_window from rule.window_seconds) times) + 1 ≤ rule.limit
  unfolding recent_entries
  passed_inside now {times} limiter before le h inside =
      let (room, _) = allow-ok now key rule limiter h in
      let same = ap length (Log-StandsFor key rule before now le) in
      omega (arith, room, same, window_is_recent from rule.window_seconds now times inside)

  -- However the calls of a process come, with a clock that never goes back, the limiter lets at most
  -- `limit` calls of a key through within any window of the rule's length, both ends included, when the
  -- key always has the same rule and the limiter is not reset.
  pub Log-count-le :
      {last : ℕ} {times : List ℕ} {limiter : RateLimiter}
      → Log key rule last times limiter
      → length (keep (in_window from rule.window_seconds) times) ≤ rule.limit
  Log-count-le (start now) = omega arith
  Log-count-le (passed {now = now} {times} {limiter} before le h) =
      let counted = count_passed from rule.window_seconds now times in
      elim (Bool-cases (in_window from rule.window_seconds now)) [
        | inl inside ↦
            let one = ap one_if inside in
            omega (arith, counted, one, passed_inside now limiter before le h inside)
        | inr outside ↦
            let no_more = ap one_if outside in omega (arith, counted, no_more, Log-count-le before)
      ]
  Log-count-le (passed_other other other_rule before le ne h) = Log-count-le before
  Log-count-le (throttled name interval before le h) = Log-count-le before
  Log-count-le (entered name bound before h) = Log-count-le before
  Log-count-le (left name before) = Log-count-le before

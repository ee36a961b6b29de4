-- ===== src/RateLimit/Limiter/Window.antt =====
-- How many calls of one key the limiter lets through within its window.
use tenon_backend.Base.{
  ℕ, ◌+◌, ◌≤◌, ◌≡◌, refl, sym, ap, ◌∙◌, Bool, false, List, [], ◌∷◌, ◌++◌, keep, length, or_else,
  arith, Bool-cases, inl, inr,
}
use mathlib.Core.Path.{subst}
use tenon_backend.Base.Text.{Text, same_text}
use tenon_backend.Base.Dict.{lookup, assign, lookup-assign, lookup-assign_other}
use tenon_backend.Base.Result.{ok}
use tenon_backend.RateLimit.Limiter.{
  RateLimitRule, RateLimiter, fresh, is_recent, recent_entries, allow, throttle, enter_guard,
  leave_guard,
}

-- The calls of a process with a clock that never goes back: the time of the last one, and the times at
-- which `allow` let a call of `key` through, in their order. The key always has the same rule.
pub data Log (key : Text) (rule : RateLimitRule) : ℕ → List ℕ → RateLimiter → Type 0 where
  start : (now : ℕ) → Log key rule now [] fresh
  passed :
      {last now : ℕ} {times : List ℕ} {limiter limiter' : RateLimiter}
      → Log key rule last times limiter
      → last ≤ now
      → allow now key rule limiter ≡ ok limiter'
      → Log key rule now (times ++ now ∷ []) limiter'
  passed_other :
      {last now : ℕ} {times : List ℕ} {limiter limiter' : RateLimiter} (other : Text)
      (other_rule : RateLimitRule)
      → Log key rule last times limiter
      → last ≤ now
      → same_text other key ≡ false
      → allow now other other_rule limiter ≡ ok limiter'
      → Log key rule now times limiter'
  throttled :
      {last now : ℕ} {times : List ℕ} {limiter limiter' : RateLimiter} (name : Text) (interval : ℕ)
      → Log key rule last times limiter
      → last ≤ now
      → throttle now name interval limiter ≡ ok limiter'
      → Log key rule now times limiter'
  entered :
      {last : ℕ} {times : List ℕ} {limiter limiter' : RateLimiter} (name : Text) (bound : ℕ)
      → Log key rule last times limiter
      → enter_guard name bound limiter ≡ ok limiter'
      → Log key rule last times limiter'
  left :
      {last : ℕ} {times : List ℕ} {limiter : RateLimiter} (name : Text)
      → Log key rule last times limiter
      → Log key rule last times (leave_guard name limiter)

abbrev pub entries : Text → RateLimiter → List ℕ
entries key limiter = or_else (lookup key limiter.store) []

pub keep-append : (p : ℕ → Bool) (xs ys : List ℕ) → keep p (xs ++ ys) ≡ keep p xs ++ keep p ys
keep-append p [] ys = refl
keep-append p (x ∷ xs) ys = elim (Bool-cases (p x)) [
  | inl met ↦ rw met (ap (λ rest. x ∷ rest) (keep-append p xs ys))
  | inr unmet ↦ rw unmet (keep-append p xs ys)
]

-- What is recent later is recent now, so forgetting it now loses nothing.
keep-keep :
    (window now later : ℕ) (xs : List ℕ)
    → now ≤ later
    → keep (is_recent later window) (keep (is_recent now window) xs)
      ≡ keep (is_recent later window) xs
keep-keep window now later [] le = refl
keep-keep window now later (x ∷ xs) le = ground (arith, keep-keep window now later xs)

pub allow-ok :
    (now : ℕ) (key : Text) (rule : RateLimitRule) (limiter : RateLimiter) {limiter' : RateLimiter}
    → allow now key rule limiter ≡ ok limiter'
    → (length (recent_entries now key rule limiter) + 1 ≤ rule.limit)
      × (limiter'.store
          ≡ assign key (recent_entries now key rule limiter ++ now ∷ []) limiter.store)
unfolding allow
allow-ok now key rule limiter h = ground arith

throttle-store :
    (now : ℕ) (name : Text) (interval : ℕ) (limiter : RateLimiter) {limiter' : RateLimiter}
    → throttle now name interval limiter ≡ ok limiter'
    → limiter'.store ≡ limiter.store
unfolding throttle
throttle-store now name interval limiter h = ground arith

enter_guard-store :
    (name : Text) (bound : ℕ) (limiter : RateLimiter) {limiter' : RateLimiter}
    → enter_guard name bound limiter ≡ ok limiter'
    → limiter'.store ≡ limiter.store
unfolding enter_guard
enter_guard-store name bound limiter h = ground arith

leave_guard-store :
    (name : Text) (limiter : RateLimiter) → (leave_guard name limiter).store ≡ limiter.store
unfolding leave_guard
leave_guard-store name limiter = ground arith

-- From the last call on, the entries of the key stand for the whole log.
abbrev pub StandsFor : ℕ → ℕ → List ℕ → List ℕ → Type 0
StandsFor window last stored times =
    (now : ℕ) → last ≤ now → keep (is_recent now window) stored ≡ keep (is_recent now window) times

passed-entries :
    (now : ℕ) (key : Text) (rule : RateLimitRule) (limiter : RateLimiter) {limiter' : RateLimiter}
    → allow now key rule limiter ≡ ok limiter'
    → entries key limiter' ≡ recent_entries now key rule limiter ++ now ∷ []
passed-entries now key rule limiter h =
    ap (λ o. or_else o [])
      (ap (lookup key) (allow-ok now key rule limiter h).1
        ∙ lookup-assign key (recent_entries now key rule limiter ++ now ∷ []) limiter.store)

other-entries :
    (now : ℕ) (other key : Text) (rule : RateLimitRule) (limiter : RateLimiter)
    {limiter' : RateLimiter}
    → same_text other key ≡ false
    → allow now other rule limiter ≡ ok limiter'
    → entries key limiter' ≡ entries key limiter
other-entries now other key rule limiter ne h =
    ap (λ o. or_else o [])
      (ap (lookup key) (allow-ok now other rule limiter h).1
        ∙ lookup-assign_other other key (recent_entries now other rule limiter ++ now ∷ [])
            limiter.store ne)

same_store :
    (key : Text) (limiter limiter' : RateLimiter)
    → limiter'.store ≡ limiter.store
    → entries key limiter' ≡ entries key limiter
same_store key limiter limiter' same = ap (λ store. or_else (lookup key store) []) same

StandsFor-passed :
    (window last now : ℕ) (stored times : List ℕ)
    → last ≤ now
    → StandsFor window last stored times
    → StandsFor window now (keep (is_recent now window) stored ++ now ∷ []) (times ++ now ∷ [])
StandsFor-passed window last now stored times le before later le' =
    let recent = is_recent later window in
    let since : last ≤ later = omega (arith, le, le') in
    keep-append recent (keep (is_recent now window) stored) (now ∷ [])
    ∙ ap (λ xs. xs ++ keep recent (now ∷ []))
        (keep-keep window now later stored le' ∙ before later since)
    ∙ sym (keep-append recent times (now ∷ []))

pub Log-StandsFor :
    (key : Text) (rule : RateLimitRule) {last : ℕ} {times : List ℕ} {limiter : RateLimiter}
    → Log key rule last times limiter
    → StandsFor rule.window_seconds last (entries key limiter) times
unfolding lookup recent_entries
Log-StandsFor key rule (start now) = λ later le. refl
Log-StandsFor key rule (passed {last} {now} {times} {limiter} before le h) =
    subst (λ stored. StandsFor rule.window_seconds now stored (times ++ now ∷ []))
      (sym (passed-entries now key rule limiter h))
      (StandsFor-passed rule.window_seconds last now (entries key limiter) times le
        (Log-StandsFor key rule before))
Log-StandsFor key rule
      (passed_other {last} {now} {times} {limiter} other other_rule before le ne h) =
    subst (λ stored. StandsFor rule.window_seconds now stored times)
      (sym (other-entries now other key other_rule limiter ne h))
      (λ later le'. Log-StandsFor key rule before later (omega (arith, le, le')))
Log-StandsFor key rule
      (throttled {last} {now} {times} {limiter} {limiter'} name interval before le h) =
    subst (λ stored. StandsFor rule.window_seconds now stored times)
      (sym (same_store key limiter limiter' (throttle-store now name interval limiter h)))
      (λ later le'. Log-StandsFor key rule before later (omega (arith, le, le')))
Log-StandsFor key rule (entered {last} {times} {limiter} {limiter'} name bound before h) =
    subst (λ stored. StandsFor rule.window_seconds last stored times)
      (sym (same_store key limiter limiter' (enter_guard-store name bound limiter h)))
      (Log-StandsFor key rule before)
Log-StandsFor key rule (left {last} {times} {limiter} name before) =
    subst (λ stored. StandsFor rule.window_seconds last stored times)
      (sym (same_store key limiter (leave_guard name limiter) (leave_guard-store name limiter)))
      (Log-StandsFor key rule before)

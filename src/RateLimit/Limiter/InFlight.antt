-- ===== src/RateLimit/Limiter/InFlight.antt =====
-- The guards held for one key.
use tenon_backend.Base.{
  ℕ, zero, suc, ◌+◌, ◌-◌, ◌≤◌, ◌≡◌, refl, ap, ◌∙◌, false, Option, none, some, leb, or_else, arith,
  Bool-cases, inl, inr,
}
use tenon_backend.Base.Text.{Text, same_text}
use tenon_backend.Base.Dict.{
  lookup, assign, lookup-assign, lookup-pop, lookup-assign_other, lookup-pop_other,
}
use tenon_backend.Base.Result.{ok}
use tenon_backend.RateLimit.Limiter.{
  RateLimitRule, RateLimiter, fresh, allow, throttle, enter_guard, leave_guard,
}

-- The calls of a process, in any order, with the number of guards of `key` that are held. Guards of the
-- key are all entered with the same bound; those of other keys with any.
pub data Held (key : Text) (max_in_flight : ℕ) : ℕ → RateLimiter → Type 0 where
  start : Held key max_in_flight 0 fresh
  entered :
      {n : ℕ} {limiter limiter' : RateLimiter}
      → Held key max_in_flight n limiter
      → enter_guard key max_in_flight limiter ≡ ok limiter'
      → Held key max_in_flight (suc n) limiter'
  left :
      {n : ℕ} {limiter : RateLimiter}
      → Held key max_in_flight (suc n) limiter
      → Held key max_in_flight n (leave_guard key limiter)
  entered_other :
      {n : ℕ} {limiter limiter' : RateLimiter} (other : Text) (bound : ℕ)
      → Held key max_in_flight n limiter
      → same_text other key ≡ false
      → enter_guard other bound limiter ≡ ok limiter'
      → Held key max_in_flight n limiter'
  left_other :
      {n : ℕ} {limiter : RateLimiter} (other : Text)
      → Held key max_in_flight n limiter
      → same_text other key ≡ false
      → Held key max_in_flight n (leave_guard other limiter)
  allowed :
      {n : ℕ} {limiter limiter' : RateLimiter} (now : ℕ) (name : Text) (rule : RateLimitRule)
      → Held key max_in_flight n limiter
      → allow now name rule limiter ≡ ok limiter'
      → Held key max_in_flight n limiter'
  throttled :
      {n : ℕ} {limiter limiter' : RateLimiter} (now : ℕ) (name : Text) (interval : ℕ)
      → Held key max_in_flight n limiter
      → throttle now name interval limiter ≡ ok limiter'
      → Held key max_in_flight n limiter'

-- The entry of a key under which `n` guards are held: none for no guard.
abbrev pub count_entry : ℕ → Option ℕ
count_entry zero = none
count_entry (suc n) = some (suc n)

abbrev pub guards : Text → RateLimiter → Option ℕ
guards key limiter = lookup key limiter.in_flight

enter_guard-ok :
    (key : Text) (bound : ℕ) (limiter : RateLimiter) {limiter' : RateLimiter}
    → enter_guard key bound limiter ≡ ok limiter'
    → (suc (or_else (guards key limiter) 0) ≤ bound)
      × (limiter'.in_flight ≡ assign key (or_else (guards key limiter) 0 + 1) limiter.in_flight)
unfolding enter_guard
enter_guard-ok key bound limiter h = ground arith

leave_guard-none :
    (key : Text) (limiter : RateLimiter)
    → guards key limiter ≡ some 1
    → guards key (leave_guard key limiter) ≡ none
unfolding leave_guard
leave_guard-none key limiter h = rw h (lookup-pop key limiter.in_flight)

leave_guard_writes :
    (key : Text) (n : ℕ) (limiter : RateLimiter)
    → guards key limiter ≡ some (suc (suc n))
    → (leave_guard key limiter).in_flight ≡ assign key (suc n) limiter.in_flight
unfolding leave_guard
leave_guard_writes key n limiter h = ground arith

leave_guard-some :
    (key : Text) (n : ℕ) (limiter : RateLimiter)
    → guards key limiter ≡ some (suc (suc n))
    → guards key (leave_guard key limiter) ≡ some (suc n)
leave_guard-some key n limiter h =
    ap (lookup key) (leave_guard_writes key n limiter h)
    ∙ lookup-assign key (suc n) limiter.in_flight

leave_guard-count :
    (key : Text) (n : ℕ) (limiter : RateLimiter)
    → guards key limiter ≡ count_entry (suc n)
    → guards key (leave_guard key limiter) ≡ count_entry n
leave_guard-count key zero limiter h = leave_guard-none key limiter h
leave_guard-count key (suc n) limiter h = leave_guard-some key n limiter h

leave_guard_other :
    (other key : Text) (limiter : RateLimiter)
    → same_text other key ≡ false
    → guards key (leave_guard other limiter) ≡ guards key limiter
unfolding leave_guard
leave_guard_other other key limiter ne =
    let current = or_else (guards other limiter) 1 in
    elim (Bool-cases (leb current 1)) [
      | inl last ↦ rw last (lookup-pop_other other key limiter.in_flight ne)
      | inr more ↦ rw more (lookup-assign_other other key (current - 1) limiter.in_flight ne)
    ]

or_else_count : (n : ℕ) → or_else (count_entry n) 0 ≡ n
or_else_count zero = refl
or_else_count (suc n) = refl

allow-in_flight :
    (now : ℕ) (name : Text) (rule : RateLimitRule) (limiter : RateLimiter) {limiter' : RateLimiter}
    → allow now name rule limiter ≡ ok limiter'
    → limiter'.in_flight ≡ limiter.in_flight
unfolding allow
allow-in_flight now name rule limiter h = ground arith

throttle-in_flight :
    (now : ℕ) (name : Text) (interval : ℕ) (limiter : RateLimiter) {limiter' : RateLimiter}
    → throttle now name interval limiter ≡ ok limiter'
    → limiter'.in_flight ≡ limiter.in_flight
unfolding throttle
throttle-in_flight now name interval limiter h = ground arith

-- While the limiter is not reset, and whatever else the process does, the count stored for a key is the
-- number of its guards that are held, which is at most the bound that all of them are entered with; no entry is left once none is held.
pub Held-guards :
    (key : Text) (max_in_flight : ℕ) {n : ℕ} {limiter : RateLimiter}
    → Held key max_in_flight n limiter
    → (guards key limiter ≡ count_entry n) × (n ≤ max_in_flight)
unfolding lookup
Held-guards key bound start = (refl, omega arith)
Held-guards key bound (entered {n} {limiter} {limiter'} before h) =
    let (counted, _) = Held-guards key bound before in
    let (free, written) = enter_guard-ok key bound limiter h in
    let same : or_else (guards key limiter) 0 ≡ n =
      ap (λ o. or_else o 0) counted ∙ or_else_count n in
    let grown : or_else (guards key limiter) 0 + 1 ≡ suc n = omega (arith, same) in
    (
      ap (lookup key) written
          ∙ lookup-assign key (or_else (guards key limiter) 0 + 1) limiter.in_flight
          ∙ ap (λ k. some k) grown,
      omega (arith, free, same),
    )
Held-guards key bound (left {n} {limiter} before) =
    let (counted, few) = Held-guards key bound before in
    (leave_guard-count key n limiter counted, omega (arith, few))
Held-guards key bound (entered_other {n} {limiter} other other_bound before ne h) =
    let (counted, few) = Held-guards key bound before in
    let (_, written) = enter_guard-ok other other_bound limiter h in
    (
      ap (lookup key) written
          ∙ lookup-assign_other other key (or_else (guards other limiter) 0 + 1) limiter.in_flight
              ne
          ∙ counted,
      few,
    )
Held-guards key bound (left_other {n} {limiter} other before ne) =
    let (counted, few) = Held-guards key bound before in
    (leave_guard_other other key limiter ne ∙ counted, few)
Held-guards key bound (allowed {n} {limiter} now name rule before h) =
    let (counted, few) = Held-guards key bound before in
    (ap (lookup key) (allow-in_flight now name rule limiter h) ∙ counted, few)
Held-guards key bound (throttled {n} {limiter} now name interval before h) =
    let (counted, few) = Held-guards key bound before in
    (ap (lookup key) (throttle-in_flight now name interval limiter h) ∙ counted, few)

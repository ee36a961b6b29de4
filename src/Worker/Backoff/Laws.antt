-- ===== src/Worker/Backoff/Laws.antt =====
-- The retry delays: exact doubling up to the cap, bounds, and growth.
use tenon_backend.Base.{ℕ, zero, suc, ◌-◌, ◌*◌, ◌^◌, ◌≤◌, min, max, ◌≡◌, true, arith}
use native.Mathlib.Nat.{pow-suc}
use tenon_backend.Base.Text.{Text}
use tenon_backend.Worker.Backoff.{compute_backoff_seconds, is_provider_backoff_error, delay_seconds}

pow_pos : (n : ℕ) → 1 ≤ 2 ^ n
pow_pos zero = omega arith
pow_pos (suc n) = rw (pow-suc 2 n) (omega (arith, pow_pos n))

mul_le_left : (b : ℕ) {x y : ℕ} → x ≤ y → b * x ≤ b * y
mul_le_left b h = grind arith

-- What the delays are meant to be: the base at first, then twice the last one, never above the cap.
unfoldable pub doubled : ℕ → ℕ → ℕ → ℕ
doubled base_seconds max_seconds zero = min max_seconds base_seconds
doubled base_seconds max_seconds (suc n) = min max_seconds (2 * doubled base_seconds max_seconds n)

doubled-pow :
    (base_seconds max_seconds n : ℕ)
    → doubled base_seconds max_seconds n ≡ min max_seconds (base_seconds * 2 ^ n)
unfolding doubled
doubled-pow b m zero = omega arith
doubled-pow b m (suc n) = rw (pow-suc 2 n) (omega (arith, doubled-pow b m n))

-- From the first attempt on, the delay of an attempt is the base doubled once for each attempt
-- before it and cut at the cap, so each delay is the cap or twice the one before.
pub compute_backoff_seconds-eq-doubled :
    (n base_seconds max_seconds : ℕ)
    → compute_backoff_seconds (suc n) base_seconds max_seconds ≡ doubled base_seconds max_seconds n
unfolding compute_backoff_seconds
compute_backoff_seconds-eq-doubled n b m =
    let e : suc n - 1 ≡ n = omega arith in rw e (ground (arith, doubled-pow b m n))

compute_backoff_seconds_bounds :
    (attempt base_seconds max_seconds : ℕ)
    → base_seconds ≤ max_seconds
    → (base_seconds ≤ compute_backoff_seconds attempt base_seconds max_seconds)
      × (compute_backoff_seconds attempt base_seconds max_seconds ≤ max_seconds)
unfolding compute_backoff_seconds
compute_backoff_seconds_bounds attempt b m h =
    let grows : b * 1 ≤ b * 2 ^ (attempt - 1) = mul_le_left b (pow_pos (attempt - 1)) in
    ground (arith, grows)

-- With the base at most the cap, a retry waits at least the base and at most the larger of the cap
-- and three minutes; after a provider's rate limit or outage it waits at least 15 seconds.
pub delay_seconds_bounds :
    (lower : Text → Text) (attempt : ℕ) (error_str : Text) (base_seconds max_seconds : ℕ)
    → base_seconds ≤ max_seconds
    → let delay = delay_seconds lower attempt error_str base_seconds max_seconds in
      (base_seconds ≤ delay)
      × (delay ≤ max max_seconds 180)
      × (is_provider_backoff_error lower error_str ≡ true → 15 ≤ delay)
unfolding delay_seconds
delay_seconds_bounds lower attempt error_str b m h = ground (
  arith,
  compute_backoff_seconds_bounds attempt b m h,
  compute_backoff_seconds_bounds attempt (max b 15) (max m 180) (omega arith),
)

-- ===== src/Worker/Backoff.antt =====
-- `compute_backoff_seconds` of
-- app/shared/jobs/worker_runtime/shared_jobs_worker_runtime_types_model.py and the choice of its
-- bounds in shared_jobs_worker_runtime_failure_paths_service.py.
pub mod Laws
use tenon_backend.Base.{
  ℕ, ◌-◌, ◌*◌, ◌^◌, min, max, Bool, true, false, List, [], ◌∷◌, ltb, any, if◌then◌else◌,
}
use tenon_backend.Base.Text.{Text, codes, strip, contains}
use tenon_backend.Jobs.Shared.{is_empty}

unfoldable pub compute_backoff_seconds : ℕ → ℕ → ℕ → ℕ
compute_backoff_seconds attempt base_seconds max_seconds =
    if ltb attempt 1 then base_seconds else min max_seconds (base_seconds * 2 ^ (attempt - 1))

abbrev pub rate_limit_error_markers : List Text
rate_limit_error_markers =
    codes "ratelimiterror" ∷ codes "too many requests" ∷ codes "rate limit" ∷ codes "429" ∷ []

abbrev pub transient_provider_error_markers : List Text
transient_provider_error_markers =
    codes "apitimeouterror"
    ∷ codes "apiconnectionerror"
    ∷ codes "internalservererror"
    ∷ codes "serviceunavailableerror"
    ∷ codes "overloadederror"
    ∷ []

abbrev pub provider_backoff_base_seconds : ℕ
provider_backoff_base_seconds = 15

abbrev pub provider_backoff_max_seconds : ℕ
provider_backoff_max_seconds = 180

-- `lower` is `str.lower`.
module _ (lower : Text → Text) where
  -- The two tuples of markers are searched one after the other.
  unfoldable pub is_provider_backoff_error : Text → Bool
  is_provider_backoff_error error_str =
      let normalized = lower (strip error_str) in
      if is_empty normalized
      then false
      else if any (λ marker. contains marker normalized) rate_limit_error_markers
      then true
      else any (λ marker. contains marker normalized) transient_provider_error_markers

  -- The delay that `retry_or_dead_letter` computes.
  unfoldable pub delay_seconds : ℕ → Text → ℕ → ℕ → ℕ
  delay_seconds attempt error_str base_backoff_seconds max_backoff_seconds =
      if is_provider_backoff_error error_str
      then compute_backoff_seconds attempt (max base_backoff_seconds provider_backoff_base_seconds)
          (max max_backoff_seconds provider_backoff_max_seconds)
      else compute_backoff_seconds attempt base_backoff_seconds max_backoff_seconds

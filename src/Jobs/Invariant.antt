-- ===== src/Jobs/Invariant.antt =====
-- What holds of every row of `jobs`, and that each way in which the code writes a row keeps it.
use tenon_backend.Base.{
  ℕ, ◌≤◌, ◌≡◌, ◌≢◌, Option, none, some, arith, length, length-take-le, All, Bool-cases, inl, inr,
}
use tenon_backend.Base.Text.{Text}
use tenon_backend.Base.Result.{ok}
use tenon_backend.Json.{Fields}
use tenon_backend.Jobs.Model.{Job, Table, running}
use tenon_backend.Jobs.Flush.{Columns, flushed}
use tenon_backend.Jobs.Rows.{IsUnique}
use tenon_backend.Jobs.Shared.{
  IdempotentJobSpec, sanitize_error, max_job_error_chars, job_from_spec, normalize_spec,
  apply_idempotent_job_updates, normalize_idempotent_create_inputs, validate_payload_size,
}
use tenon_backend.Jobs.Claim.{claim_values}
use tenon_backend.Jobs.Status.{succeed, reschedule, bury, requeue_live, apply_dead_letter_requeue}

abbrev error_size : Option Text → ℕ
error_size none = 0
error_size (some text) = length text

-- A running job is leased, the stored error is short, and an attempt is allowed. More does not hold of all rows: a
-- flush that meets a row which another session has leased or finished since can leave a waiting job with a lease, or
-- a finished one with a due time.
pub record IsConsistent (job : Job) : Type 0 where
  pub running_leased : job.status ≡ running → (job.locked_at ≢ none) × (job.locked_by ≢ none)
  pub error_short : error_size job.last_error ≤ max_job_error_chars
  pub attempts_allowed : 1 ≤ job.max_attempts

pub record IsValid (jobs : Table) : Type 0 where
  pub unique : IsUnique jobs
  pub consistent : All IsConsistent jobs

length-sanitize_error : (text : Text) → length (sanitize_error text) ≤ max_job_error_chars
unfolding sanitize_error
length-sanitize_error text = length-take-le max_job_error_chars _

pub claim_values-IsConsistent :
    (now : ℕ) (worker_id : Text) (candidate job : Job)
    → IsConsistent job
    → IsConsistent (claim_values now worker_id candidate job)
unfolding claim_values
claim_values-IsConsistent now worker_id candidate job v = ground arith

pub succeed-IsConsistent :
    (result_json : Option Fields) (now : ℕ) (job : Job)
    → IsConsistent job
    → IsConsistent (succeed result_json now job)
unfolding succeed
succeed-IsConsistent result_json now job v = ground arith

pub reschedule-IsConsistent :
    (error_str : Text) (next_run_at now : ℕ) (job : Job)
    → IsConsistent job
    → IsConsistent (reschedule error_str next_run_at now job)
unfolding reschedule
reschedule-IsConsistent error_str next_run_at now job v =
    ground (arith, length-sanitize_error error_str)

pub bury-IsConsistent :
    (error_str : Text) (now : ℕ) (job : Job)
    → IsConsistent job
    → IsConsistent (bury error_str now job)
unfolding bury
bury-IsConsistent error_str now job v = ground (arith, length-sanitize_error error_str)

pub requeue_live-IsConsistent :
    (payload_json : Option Fields) (next_run_at now : ℕ) (job : Job)
    → IsConsistent job
    → IsConsistent (requeue_live payload_json next_run_at now job)
unfolding requeue_live
requeue_live-IsConsistent none next_run_at now job v = ground arith
requeue_live-IsConsistent (some payload_json) next_run_at now job v = ground arith

-- Whichever columns a flush writes, a recovered row is not running.
pub apply_dead_letter_requeue-IsConsistent :
    (now : ℕ) (columns : Columns) (job : Job)
    → IsConsistent job
    → IsConsistent (flushed columns (apply_dead_letter_requeue now) job)
unfolding apply_dead_letter_requeue flushed
apply_dead_letter_requeue-IsConsistent now columns job v = record {
  running_leased = ground arith;
  error_short = elim (Bool-cases columns.last_error) [
    | inl e ↦ rw e (omega arith)
    | inr e ↦ rw e v.error_short
  ];
  attempts_allowed = elim (Bool-cases columns.max_attempts) [
    | inl e ↦ rw e v.attempts_allowed
    | inr e ↦ rw e v.attempts_allowed
  ];
}

pub normalize_spec-attempts_allowed :
    (spec : IdempotentJobSpec) {normalized : IdempotentJobSpec}
    → normalize_spec spec ≡ ok normalized
    → 1 ≤ normalized.max_attempts
unfolding normalize_spec normalize_idempotent_create_inputs validate_payload_size
normalize_spec-attempts_allowed spec h = ground arith

pub job_from_spec-IsConsistent :
    (id : Text) (now company_id : ℕ) (spec : IdempotentJobSpec)
    → 1 ≤ spec.max_attempts
    → IsConsistent (job_from_spec id now company_id spec)
unfolding job_from_spec
job_from_spec-IsConsistent id now company_id spec allowed = ground arith

pub apply_idempotent_job_updates-IsConsistent :
    (now : ℕ) (spec : IdempotentJobSpec) (columns : Columns) (job : Job)
    → 1 ≤ spec.max_attempts
    → IsConsistent job
    → IsConsistent (flushed columns (apply_idempotent_job_updates now spec) job)
unfolding apply_idempotent_job_updates flushed
apply_idempotent_job_updates-IsConsistent now spec columns job allowed v = record {
  running_leased = elim (Bool-cases columns.locked_at) [
    | inl e ↦ elim (Bool-cases columns.locked_by) [
      | inl f ↦ rw e (rw f v.running_leased)
      | inr f ↦ rw e (rw f v.running_leased)
    ]
    | inr e ↦ elim (Bool-cases columns.locked_by) [
      | inl f ↦ rw e (rw f v.running_leased)
      | inr f ↦ rw e (rw f v.running_leased)
    ]
  ];
  error_short = elim (Bool-cases columns.last_error) [
    | inl e ↦ rw e v.error_short
    | inr e ↦ rw e v.error_short
  ];
  attempts_allowed = elim (Bool-cases columns.max_attempts) [
    | inl e ↦ rw e allowed
    | inr e ↦ rw e v.attempts_allowed
  ];
}

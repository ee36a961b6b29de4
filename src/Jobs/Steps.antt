-- ===== src/Jobs/Steps.antt =====
-- Every way in which the code of app/shared/jobs changes the table, as a step relation: one committed
-- statement is one step, so the runs are the interleavings of all the sessions.
pub mod Laws
pub mod Leases
pub mod Claims
pub mod Creation
use tenon_backend.Base.{ℕ, ◌+◌, ◌≤◌, ◌≡◌, Bool, true, ◌&&◌, Option, some, List, [], ◌∷◌}
use tenon_backend.Base.Text.{Text, same_text}
use tenon_backend.Json.{Fields}
use tenon_backend.Jobs.Model.{Job, Table}
use tenon_backend.Jobs.Flush.{Columns, flushed}
use tenon_backend.Jobs.Rows.{update_where, rowcount, insert_row}
use tenon_backend.Jobs.Shared.{
  IdempotentJobSpec, is_mutable_idempotent_job, apply_idempotent_job_updates, job_from_spec,
}
use tenon_backend.Jobs.Claim.{claim_filter, claim_values}
use tenon_backend.Jobs.Status.{
  succeed, reschedule, bury, requeue_live, is_live_key, apply_dead_letter_requeue,
  is_chosen_dead_letter, is_dead_letter_id,
}

abbrev pub has_id : Text → Job → Bool
has_id job_id job = same_text job.id job_id

-- An `UPDATE` of the code: its condition and what it writes. The flush of a job that was loaded before, a
-- recovery of a dead letter or an update from a specification, names the row by its id alone, whatever
-- has become of it, and writes some of the columns.
pub data Write : (Job → Bool) → (Job → Job) → Type 0 where
  lease :
      (now stale_before : ℕ) (worker_id : Text) (candidate : Job)
      → Write (claim_filter now stale_before candidate) (claim_values now worker_id candidate)
  success :
      (job_id : Text) (result_json : Option Fields) (now : ℕ)
      → Write (has_id job_id) (succeed result_json now)
  retry :
      (job_id error_str : Text) (next_run_at now : ℕ)
      → Write (has_id job_id) (reschedule error_str next_run_at now)
  burial : (job_id error_str : Text) (now : ℕ) → Write (has_id job_id) (bury error_str now)
  requeue :
      (company_id : ℕ) (job_type key : Text) (payload_json : Option Fields) (next_run_at now : ℕ)
      → Write (is_live_key company_id job_type key) (requeue_live payload_json next_run_at now)
  recovery :
      (job_id : Text) (now : ℕ) (columns : Columns)
      → Write (has_id job_id) (flushed columns (apply_dead_letter_requeue now))
  respecify :
      (job_id : Text) (now : ℕ) (spec : IdempotentJobSpec) (columns : Columns)
      → 1 ≤ spec.max_attempts
      → Write (has_id job_id) (flushed columns (apply_idempotent_job_updates now spec))

pub data Step (jobs jobs' : Table) : Type 0 where
  write :
      {condition : Job → Bool} {values : Job → Job}
      → Write condition values
      → jobs' ≡ update_where condition values jobs
      → Step jobs jobs'
  insert :
      (id : Text) (now company_id : ℕ) (spec : IdempotentJobSpec)
      → 1 ≤ spec.max_attempts
      → insert_row (job_from_spec id now company_id spec) jobs ≡ some jobs'
      → Step jobs jobs'

pub data Reach (start : Table) : Table → Type 0 where
  here : Reach start start
  next : {jobs jobs' : Table} → Reach start jobs → Step jobs jobs' → Reach start jobs'

-- A run with the leases that it granted, the last one first: a job's id and the attempt that the
-- lease is for.
pub data Run (start : Table) : List (Text × ℕ) → Table → Type 0 where
  begin : Run start [] start
  other :
      {log : List (Text × ℕ)} {jobs jobs' : Table}
      → Run start log jobs
      → Step jobs jobs'
      → Run start log jobs'
  grant :
      {log : List (Text × ℕ)} {jobs : Table} (now stale_before : ℕ) (worker_id : Text)
      (candidate : Job)
      → Run start log jobs
      → rowcount (claim_filter now stale_before candidate) jobs ≡ 1
      → Run start ((candidate.id, candidate.attempt + 1) ∷ log) (
          update_where
            (claim_filter now stale_before candidate)
            (claim_values now worker_id candidate)
            jobs)

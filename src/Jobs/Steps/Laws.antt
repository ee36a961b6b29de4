-- ===== src/Jobs/Steps/Laws.antt =====
-- What every step keeps: the invariant of the table, the identity of each row, and its attempts.
use tenon_backend.Base.{ℕ, ◌≤◌, ◌≡◌, Bool, true, none, some, arith, Bool-cases, inl, inr}
use tenon_backend.Base.Text.{Text}
use tenon_backend.Jobs.Model.{Job, Table}
use tenon_backend.Jobs.Rows.{get_by_id, update_where}
use tenon_backend.Jobs.Rows.Laws.{
  SameIdentity, All-update_where, update_where-IsUnique, insert_row-IsUnique, insert_row-All,
  get_by_id-update_where, get_by_id-insert_row,
}
use tenon_backend.Jobs.Shared.{apply_idempotent_job_updates, job_from_spec}
use tenon_backend.Jobs.Flush.{flushed}
use tenon_backend.Jobs.Claim.{claim_filter, claim_values}
use tenon_backend.Jobs.Status.{succeed, reschedule, bury, requeue_live, apply_dead_letter_requeue}
use tenon_backend.Jobs.Invariant
use tenon_backend.Jobs.Invariant.{IsConsistent, IsValid}
use tenon_backend.Jobs.Steps.{
  Write, lease, success, retry, burial, requeue, recovery, respecify, Step, write, insert, Reach,
  here, next,
}

pub Write-SameIdentity :
    {condition : Job → Bool} {values : Job → Job}
    → Write condition values
    → (job : Job) → SameIdentity job (values job)
unfolding claim_values succeed reschedule bury requeue_live apply_dead_letter_requeue
    apply_idempotent_job_updates flushed
Write-SameIdentity (lease now stale_before worker_id candidate) job = ground arith
Write-SameIdentity (success job_id result_json now) job = ground arith
Write-SameIdentity (retry job_id error_str next_run_at now) job = ground arith
Write-SameIdentity (burial job_id error_str now) job = ground arith
Write-SameIdentity (requeue company_id job_type key none next_run_at now) job = ground arith
Write-SameIdentity (requeue company_id job_type key (some p) next_run_at now) job = ground arith
Write-SameIdentity (recovery job_id now columns) job = ground arith
Write-SameIdentity (respecify job_id now spec columns allowed) job = ground arith

Write-IsConsistent :
    {condition : Job → Bool} {values : Job → Job}
    → Write condition values
    → (job : Job) → condition job ≡ true
    → IsConsistent job
    → IsConsistent (values job)
Write-IsConsistent (lease now stale_before worker_id candidate) job met v =
    Invariant.claim_values-IsConsistent now worker_id candidate job v
Write-IsConsistent (success job_id result_json now) job met v =
    Invariant.succeed-IsConsistent result_json now job v
Write-IsConsistent (retry job_id error_str next_run_at now) job met v =
    Invariant.reschedule-IsConsistent error_str next_run_at now job v
Write-IsConsistent (burial job_id error_str now) job met v =
    Invariant.bury-IsConsistent error_str now job v
Write-IsConsistent (requeue company_id job_type key payload_json next_run_at now) job met v =
    Invariant.requeue_live-IsConsistent payload_json next_run_at now job v
Write-IsConsistent (recovery job_id now columns) job met v =
    Invariant.apply_dead_letter_requeue-IsConsistent now columns job v
Write-IsConsistent (respecify job_id now spec columns allowed) job met v =
    Invariant.apply_idempotent_job_updates-IsConsistent now spec columns job allowed v

Write-attempt-le :
    {condition : Job → Bool} {values : Job → Job}
    → Write condition values
    → (job : Job) → condition job ≡ true
    → job.attempt ≤ (values job).attempt
unfolding claim_filter claim_values succeed reschedule bury requeue_live apply_dead_letter_requeue
    apply_idempotent_job_updates flushed
Write-attempt-le (lease now stale_before worker_id candidate) job met = ground arith
Write-attempt-le (success job_id result_json now) job met = ground arith
Write-attempt-le (retry job_id error_str next_run_at now) job met = ground arith
Write-attempt-le (burial job_id error_str now) job met = ground arith
Write-attempt-le (requeue company_id job_type key none next_run_at now) job met = ground arith
Write-attempt-le (requeue company_id job_type key (some p) next_run_at now) job met = ground arith
Write-attempt-le (recovery job_id now columns) job met = ground arith
Write-attempt-le (respecify job_id now spec columns allowed) job met = ground arith

pub Step-IsValid : {jobs jobs' : Table} → Step jobs jobs' → IsValid jobs → IsValid jobs'
Step-IsValid {jobs} {jobs'} (write {condition} {values} w e) v = rw e (record {
  unique = update_where-IsUnique condition values (Write-SameIdentity w) jobs v.unique;
  consistent =
      All-update_where condition values IsConsistent jobs (Write-IsConsistent w) v.consistent;
})
Step-IsValid {jobs} {jobs'} (insert id now company_id spec allowed inserted) v = record {
  unique = insert_row-IsUnique (job_from_spec id now company_id spec) jobs inserted v.unique;
  consistent =
      insert_row-All IsConsistent (job_from_spec id now company_id spec) jobs inserted
        (Invariant.job_from_spec-IsConsistent id now company_id spec allowed) v.consistent;
}

-- Whatever steps of the job repositories the sessions take, and in whatever order, the table stays
-- valid: unique keys, a lease on every running job, short errors, at least one allowed attempt.
pub Reach-IsValid : {start jobs : Table} → IsValid start → Reach start jobs → IsValid jobs
Reach-IsValid v here = v
Reach-IsValid v (next r s) = Step-IsValid s (Reach-IsValid v r)

-- A row stays under its id, and its attempts never fall.
pub record HasAttempts (jobs : Table) (job_id : Text) (attempts : ℕ) : Type 0 where
  pub row : Job
  pub found : get_by_id job_id jobs ≡ some row
  pub counted : attempts ≤ row.attempt

Write-HasAttempts :
    {condition : Job → Bool} {values : Job → Job} {jobs : Table} {job_id : Text} {attempts : ℕ}
    → Write condition values
    → HasAttempts jobs job_id attempts
    → HasAttempts (update_where condition values jobs) job_id attempts
Write-HasAttempts {condition} {values} {jobs} {job_id} {attempts} w h =
    elim (Bool-cases (condition h.row)) [
      | inl met ↦ record {
        row = values h.row;
        found =
            rw met at
              (get_by_id-update_where condition values job_id jobs (Write-SameIdentity w) h.found);
        counted = omega (arith, Write-attempt-le w h.row met, h.counted);
      }
      | inr not_met ↦ record {
        row = h.row;
        found =
            rw not_met at
              (get_by_id-update_where condition values job_id jobs (Write-SameIdentity w) h.found);
        counted = h.counted;
      }
    ]

pub Step-HasAttempts :
    {jobs jobs' : Table} {job_id : Text} {attempts : ℕ}
    → Step jobs jobs'
    → HasAttempts jobs job_id attempts
    → HasAttempts jobs' job_id attempts
Step-HasAttempts (write w e) h = rw e (Write-HasAttempts w h)
Step-HasAttempts {jobs} {job_id} (insert id now company_id spec allowed inserted) h = record {
  row = h.row;
  found = get_by_id-insert_row (job_from_spec id now company_id spec) jobs job_id inserted h.found;
  counted = h.counted;
}

pub Reach-HasAttempts :
    {start jobs : Table} {job_id : Text} {attempts : ℕ}
    → Reach start jobs
    → HasAttempts start job_id attempts
    → HasAttempts jobs job_id attempts
Reach-HasAttempts here h = h
Reach-HasAttempts (next r s) h = Step-HasAttempts s (Reach-HasAttempts r h)

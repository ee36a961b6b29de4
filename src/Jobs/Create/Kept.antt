-- ===== src/Jobs/Create/Kept.antt =====
-- What the idempotent creation and update of shared_jobs_repositories_repository_create_update_repository.py, in
-- app/shared/jobs/repositories, leaves of the rows that are there.
use tenon_backend.Base.{ℕ, ◌≡◌, false, some, ◌⊎◌}
use tenon_backend.Base.Text.{Text}
use tenon_backend.Base.Result.{Result}
use tenon_backend.Jobs.Model.{Job, Table}
use tenon_backend.Jobs.Rows.{get_by_id, insert_row}
use tenon_backend.Jobs.Flush.{changed_columns, flushed}
use tenon_backend.Jobs.Shared.{
  IdempotentJobSpec, is_mutable_idempotent_job, apply_idempotent_job_updates,
}

-- The row is there still, with its status, attempts and lease, and it is as it was if it may not be updated.
pub record IsKept (row : Job) (jobs : Table) : Type 0 where
  pub after : Job
  pub found : get_by_id row.id jobs ≡ some after
  pub status : after.status ≡ row.status
  pub attempt : after.attempt ≡ row.attempt
  pub locked_at : after.locked_at ≡ row.locked_at
  pub locked_by : after.locked_by ≡ row.locked_by
  pub fixed : is_mutable_idempotent_job row ≡ false → after ≡ row

module _ (now : ℕ) (spec : IdempotentJobSpec) (job : Job) where
  updated : Job → Job
  updated =
      flushed (changed_columns job (apply_idempotent_job_updates now spec job))
        (apply_idempotent_job_updates now spec)

-- A creation with no other session at work inserts a row or leaves the table.
Made : Table → Table → Type 0
Made jobs made = ((job : Job) × (insert_row job jobs ≡ some made)) ⊎ (made ≡ jobs)

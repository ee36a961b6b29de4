-- ===== src/Jobs/Create.antt =====
-- app/shared/jobs/repositories/shared_jobs_repositories_repository_create_get_repository.py and
-- shared_jobs_repositories_repository_create_update_repository.py: the idempotent insertion of a job.
-- The keyword arguments of a call are an `IdempotentJobSpec`. `id` is the fresh `uuid4`, `now` the
-- clock, and `meanwhile` what other sessions commit between the look-up and the insertion.
pub mod Laws
pub mod Kept
use tenon_backend.Base.{
  ◌&&◌, or_else, ℕ, ◌≡◌, Bool, true, false, Option, none, some, List, [], ◌∷◌, find, if◌then◌else◌,
}
use tenon_backend.Base.Text.{Text, same_text}
use tenon_backend.Base.Result.{Result, ok, err, integrity_error, ◌>>=◌, ◌>>◌}
use tenon_backend.Jobs.Model.{Job, Table}
use tenon_backend.Jobs.Rows.{get_by_id, has_key, update_where, insert_row}
use tenon_backend.Jobs.Flush.{flush}
use tenon_backend.Jobs.Shared.{
  IdempotentJobSpec, normalize_spec, job_from_spec, is_mutable_idempotent_job,
  apply_idempotent_job_updates,
}

unfoldable pub load_idempotent_job : ℕ → Text → Text → Table → Option Job
load_idempotent_job company_id job_type key = find (has_key company_id job_type key)

-- The insertion, and the look-up after an `IntegrityError`, which is raised again when the look-up
-- finds nothing.
unfoldable pub insert_or_get_existing : Job → Table → Result (Job × Table)
insert_or_get_existing job jobs = elim (insert_row job jobs) [
  | some jobs' ↦ ok (job, jobs')
  | none ↦ elim (load_idempotent_job job.company_id job.job_type job.idempotency_key jobs) [
    | some existing ↦ ok (existing, jobs)
    | none ↦ err integrity_error
  ]
]

-- `_insert_nested_or_get_existing`: the savepoint of `begin_nested` undoes a failed insertion.
unfoldable pub insert_nested_or_get_existing : Job → Table → Result (Job × Table)
insert_nested_or_get_existing job jobs = insert_or_get_existing job jobs

-- `_insert_commit_or_get_existing`
unfoldable pub insert_commit_or_get_existing : (Table → Table) → Job → Table → Result (Job × Table)
insert_commit_or_get_existing meanwhile job jobs =
    elim (load_idempotent_job job.company_id job.job_type job.idempotency_key jobs) [
      | some existing ↦ ok (existing, jobs)
      | none ↦ insert_or_get_existing job (meanwhile jobs)
    ]

unfoldable pub create_or_get_idempotent :
    (Table → Table) → Text → ℕ → ℕ → IdempotentJobSpec → Bool → Table → Result (Job × Table)
create_or_get_idempotent meanwhile id now company_id spec commit jobs = do
  normalized ← normalize_spec spec
  let job = job_from_spec id now company_id normalized
  if commit
      then insert_commit_or_get_existing meanwhile job jobs
      else insert_nested_or_get_existing job (meanwhile jobs)

-- `_update_existing_if_mutable` on a loaded job: the test looks at the loaded values, and the flush
-- writes what has changed of them to the row as it is then. The table is the one that the flush meets.
unfoldable pub update_existing_if_mutable : ℕ → IdempotentJobSpec → Job → Table → Job × Table
update_existing_if_mutable now spec job jobs =
    if is_mutable_idempotent_job job
    then (
      apply_idempotent_job_updates now spec job,
      flush (apply_idempotent_job_updates now spec) job jobs,
    )
    else (job, jobs)

-- The same with the end of a call that commits: a job that was changed is read again from its row.
unfoldable pub update_and_refresh : Bool → ℕ → IdempotentJobSpec → Job → Table → Job × Table
update_and_refresh commit now spec job jobs =
    let (updated, jobs') = update_existing_if_mutable now spec job jobs in
    (
      if commit && is_mutable_idempotent_job job
          then or_else (get_by_id job.id jobs') updated
          else updated,
      jobs',
    )

-- The part of `create_or_update_idempotent` behind the checks on its arguments. Other sessions commit
-- between the look-up and the flush too (`meanwhile`), and between the insertion and its update (`later`).
unfoldable pub create_or_update_normalized :
    (Table → Table)
    → (Table → Table)
    → Text
    → ℕ
    → ℕ
    → IdempotentJobSpec
    → Bool
    → Table
    → Result (Job × Table)
create_or_update_normalized meanwhile later id now company_id spec commit jobs =
    elim (load_idempotent_job company_id spec.job_type spec.idempotency_key jobs) [
      | some existing ↦ ok (update_and_refresh commit now spec existing (meanwhile jobs))
      | none ↦ do
        (job, jobs') ← create_or_get_idempotent meanwhile id now company_id spec commit jobs
        ok (update_and_refresh commit now spec job (later jobs'))
    ]

unfoldable pub create_or_update_idempotent :
    (Table → Table)
    → (Table → Table)
    → Text
    → ℕ
    → ℕ
    → IdempotentJobSpec
    → Bool
    → Table
    → Result (Job × Table)
create_or_update_idempotent meanwhile later id now company_id spec commit jobs = do
  normalized ← normalize_spec spec
  create_or_update_normalized meanwhile later id now company_id normalized commit jobs

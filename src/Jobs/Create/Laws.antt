-- ===== src/Jobs/Create/Laws.antt =====
-- The idempotent insertion: the job that a key names is there afterwards, and is made once.
use tenon_backend.Base.{ℕ, ◌≡◌, Bool, true, false, Option, some, [], ◌∷◌, arith, any, if◌then◌else◌}
use mathlib.Core.List.{Memᴰ}
use tenon_backend.Base.Text.{Text, same_text_iff}
use tenon_backend.Base.Result.{Result, ok, >>=-ok}
use tenon_backend.Jobs.Model.{Job, Table}
use tenon_backend.Jobs.Rows.{has_key, insert_row, conflicts}
use tenon_backend.Jobs.Rows.Unique.{find-mem}
use tenon_backend.Jobs.Shared.{IdempotentJobSpec, normalize_spec, job_from_spec}
use tenon_backend.Jobs.Create.{
  load_idempotent_job, insert_or_get_existing, insert_nested_or_get_existing,
  insert_commit_or_get_existing, create_or_get_idempotent,
}

pub has_key_self : (job : Job) → has_key job.company_id job.job_type job.idempotency_key job ≡ true
unfolding has_key
has_key_self job = ground (
  arith,
  same_text_iff job.job_type job.job_type,
  same_text_iff job.idempotency_key job.idempotency_key,
)

-- The job that the key of `job` names.
abbrev load_key_of : Job → Table → Option Job
load_key_of job = load_idempotent_job job.company_id job.job_type job.idempotency_key

pub insert_or_get_existing-loads :
    (job : Job) (jobs : Table) {found : Job} {jobs' : Table}
    → insert_or_get_existing job jobs ≡ ok (found, jobs')
    → load_key_of job jobs' ≡ some found
unfolding insert_or_get_existing load_idempotent_job insert_row
insert_or_get_existing-loads job jobs h = ground (arith, has_key_self job)

pub insert_commit_or_get_existing-loads :
    (meanwhile : Table → Table) (job : Job) (jobs : Table) {found : Job} {jobs' : Table}
    → insert_commit_or_get_existing meanwhile job jobs ≡ ok (found, jobs')
    → load_key_of job jobs' ≡ some found
unfolding insert_commit_or_get_existing
insert_commit_or_get_existing-loads meanwhile job jobs {found} {jobs'} h =
    ground
      (arith, insert_or_get_existing-loads job (meanwhile jobs) {found = found} {jobs' = jobs'})

-- A row that the key names keeps another one with that key out.
loaded-conflicts :
    (job : Job) (jobs : Table) {found : Job}
    → load_key_of job jobs ≡ some found
    → any (conflicts job) jobs ≡ true
unfolding load_idempotent_job conflicts
loaded-conflicts job [] h = cc
loaded-conflicts job (row ∷ rows) {found} h =
    ground (arith, loaded-conflicts job rows {found = found})

insert_or_get_existing-again :
    (job : Job) (jobs : Table) {found : Job}
    → load_key_of job jobs ≡ some found
    → insert_or_get_existing job jobs ≡ ok (found, jobs)
unfolding insert_or_get_existing insert_row
insert_or_get_existing-again job jobs h =
    rw (loaded-conflicts job jobs h, insert_or_get_existing) (rw (h, insert_or_get_existing))

pub load_idempotent_job-mem :
    (company_id : ℕ) (job_type key : Text) (jobs : Table) {found : Job}
    → load_idempotent_job company_id job_type key jobs ≡ some found
    → Memᴰ found jobs
unfolding load_idempotent_job
load_idempotent_job-mem company_id job_type key jobs h =
    find-mem (has_key company_id job_type key) jobs h

insert_commit_or_get_existing-again :
    (job : Job) (jobs : Table) {found : Job}
    → load_key_of job jobs ≡ some found
    → insert_commit_or_get_existing (λ t. t) job jobs ≡ ok (found, jobs)
unfolding insert_commit_or_get_existing
insert_commit_or_get_existing-again job jobs h = rw (h, insert_commit_or_get_existing)

-- The branches of the insertion proper, on the normalized arguments.
insert_job : (Table → Table) → Job → Bool → Table → Result (Job × Table)
insert_job meanwhile job commit jobs =
    if commit
    then insert_commit_or_get_existing meanwhile job jobs
    else insert_nested_or_get_existing job (meanwhile jobs)

insert_job-loads :
    (meanwhile : Table → Table) (job : Job) (commit : Bool) (jobs : Table) {found : Job}
    {jobs' : Table}
    → insert_job meanwhile job commit jobs ≡ ok (found, jobs')
    → load_key_of job jobs' ≡ some found
unfolding insert_job insert_nested_or_get_existing
insert_job-loads meanwhile job true jobs h =
    insert_commit_or_get_existing-loads meanwhile job jobs h
insert_job-loads meanwhile job false jobs h = insert_or_get_existing-loads job (meanwhile jobs) h

insert_job-again :
    (job : Job) (commit : Bool) (jobs : Table) {found : Job}
    → load_key_of job jobs ≡ some found
    → insert_job (λ t. t) job commit jobs ≡ ok (found, jobs)
unfolding insert_job insert_nested_or_get_existing insert_commit_or_get_existing
insert_job-again job true jobs h = insert_commit_or_get_existing-again job jobs h
insert_job-again job false jobs h = insert_or_get_existing-again job jobs h

pub create_or_get_ok :
    (meanwhile : Table → Table) (id : Text) (now company_id : ℕ) (spec : IdempotentJobSpec)
    (commit : Bool) (jobs : Table) {found : Job} {jobs' : Table}
    → create_or_get_idempotent meanwhile id now company_id spec commit jobs ≡ ok (found, jobs')
    → (normalized : IdempotentJobSpec) × (normalize_spec spec ≡ ok normalized)
      × (load_idempotent_job company_id normalized.job_type normalized.idempotency_key jobs'
          ≡ some found)
unfolding create_or_get_idempotent
create_or_get_ok meanwhile id now company_id spec commit jobs h =
    let (normalized, e, inserted) = >>=-ok (normalize_spec spec) _ h in
    (
      normalized,
      e,
      unfold job_from_spec in
          insert_job-loads meanwhile (job_from_spec id now company_id normalized) commit jobs
            (unfold insert_job in inserted),
    )

-- Once a call has returned a job, a second call with the same arguments, by either path, with any
-- fresh id and at any time, returns that job and leaves the table as it is.
pub create_or_get_idempotent-again :
    (meanwhile : Table → Table) (id id' : Text) (now now' company_id : ℕ) (spec : IdempotentJobSpec)
    (commit commit' : Bool) (jobs : Table) {found : Job} {jobs' : Table}
    → create_or_get_idempotent meanwhile id now company_id spec commit jobs ≡ ok (found, jobs')
    → create_or_get_idempotent (λ t. t) id' now' company_id spec commit' jobs' ≡ ok (found, jobs')
unfolding create_or_get_idempotent
create_or_get_idempotent-again meanwhile id id' now now' company_id spec commit commit' jobs {found}
      {jobs'} h =
    let (normalized, e, loaded) = create_or_get_ok meanwhile id now company_id spec commit jobs h in
    rw e (
      unfold job_from_spec insert_job in
      insert_job-again (job_from_spec id' now' company_id normalized) commit' jobs' loaded)

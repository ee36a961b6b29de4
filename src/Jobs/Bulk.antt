-- ===== src/Jobs/Bulk.antt =====
-- shared_jobs_repositories_repository_create_update_many_repository.py and
-- shared_jobs_repositories_repository_create_update_many_recovery_repository.py in
-- app/shared/jobs/repositories, with `load_idempotent_jobs_for_keys` of the specs: the idempotent
-- insertion of many jobs by one statement, and the recovery where a key is taken meanwhile.
-- `ids` are the `uuid4`s in the order in which they are drawn. `world n` is what other sessions commit
-- before the n-th attempt to insert. `atomic` says whether the database undoes the rows that a failed
-- statement has inserted. A failed statement does not end the transaction.
pub mod Map
pub mod Rounds
pub mod Answers
mod Tests
use tenon_backend.Base.{
  ℕ, zero, suc, ◌+◌, Bool, true, false, ◌&&◌, ◌==◌, Option, none, some, List, [], ◌∷◌, map, any,
  keep, length, if◌then◌else◌,
}
use tenon_backend.Base.Text.{Text, same_text}
use tenon_backend.Base.Result.{Result, ok, err, ◌>>=◌}
use tenon_backend.Jobs.Model.{Job, Table}
use tenon_backend.Jobs.Rows.{insert_row}
use tenon_backend.Jobs.Shared.{IdempotentJobSpec, normalize_many_specs, job_from_spec}
use tenon_backend.Jobs.Create.{insert_commit_or_get_existing, update_existing_if_mutable}

abbrev pub Key : Type 0
Key = Text × Text

abbrev pub key_of : IdempotentJobSpec → Key
key_of spec = (spec.job_type, spec.idempotency_key)

abbrev pub same_key : Key → Key → Bool
same_key (job_type, key) (other_type, other) = same_text job_type other_type && same_text key other

-- `dict[tuple[str, str], Job]`
abbrev pub JobMap : Type 0
JobMap = List (Key × Job)

-- `existing_map.get(key)`
unfoldable pub job_of : Key → JobMap → Option Job
job_of key [] = none
job_of key ((other, job) ∷ rest) = if same_key other key then some job else job_of key rest

-- `existing_map[key] = job`
unfoldable pub set_job : Key → Job → JobMap → JobMap
set_job key job [] = (key, job) ∷ []
set_job key job ((other, old) ∷ rest) =
    let later = set_job key job rest in
    if same_key other key then (other, job) ∷ rest else (other, old) ∷ later

unfoldable pub is_wanted : ℕ → List Key → Job → Bool
is_wanted company_id keys job =
    (job.company_id == company_id) && any (same_key (job.job_type, job.idempotency_key)) keys

unfoldable pub map_rows : JobMap → Table → JobMap
map_rows found [] = found
map_rows found (job ∷ jobs) = map_rows (set_job (job.job_type, job.idempotency_key) job found) jobs

unfoldable pub load_idempotent_jobs_for_keys : ℕ → List Key → Table → JobMap
load_idempotent_jobs_for_keys company_id keys jobs =
    map_rows [] (keep (is_wanted company_id keys) jobs)

-- `existing_map.update(created_map)`
unfoldable pub update_map : JobMap → JobMap → JobMap
update_map existing_map [] = existing_map
update_map existing_map ((key, job) ∷ created) = update_map (set_job key job existing_map) created

-- `_apply_updates_to_existing`: the specifications without a job, the map and the table.
unfoldable pub apply_updates_to_existing :
    ℕ → List IdempotentJobSpec → JobMap → Table → List IdempotentJobSpec × (JobMap × Table)
apply_updates_to_existing now [] existing_map jobs = ([], (existing_map, jobs))
apply_updates_to_existing now (spec ∷ specs) existing_map jobs =
    elim (job_of (key_of spec) existing_map) [
      | none ↦
          let (new_specs, after) = apply_updates_to_existing now specs existing_map jobs in
          (spec ∷ new_specs, after)
      | some existing ↦
          let (job, jobs') = update_existing_if_mutable now spec existing jobs in
          apply_updates_to_existing now specs (set_job (key_of spec) job existing_map) jobs'
    ]

-- `_insert_rows`: whether all rows are inserted, and the table with those before the first that is not.
unfoldable pub insert_rows : (ℕ → Text) → ℕ → ℕ → List IdempotentJobSpec → ℕ → Table → Bool × Table
insert_rows ids now company_id [] n jobs = (true, jobs)
insert_rows ids now company_id (spec ∷ specs) n jobs =
    elim (insert_row (job_from_spec (ids n) now company_id spec) jobs) [
      | none ↦ (false, jobs)
      | some jobs' ↦ insert_rows ids now company_id specs (suc n) jobs'
    ]

-- `_recover_per_key`: for each key the look-up, the insertion, and the look-up after an `IntegrityError`,
-- as `_insert_commit_or_get_existing` has them.
unfoldable pub recover_per_key :
    (ℕ → Table → Table)
    → (ℕ → Text)
    → ℕ
    → ℕ
    → List IdempotentJobSpec
    → ℕ
    → JobMap
    → Table
    → Result (JobMap × Table)
recover_per_key world ids now company_id [] n existing_map jobs = ok (existing_map, jobs)
recover_per_key world ids now company_id (spec ∷ specs) n existing_map jobs =
    insert_commit_or_get_existing (world n) (job_from_spec (ids n) now company_id spec) jobs
    >>= λ (job, jobs').
        recover_per_key world ids now company_id specs (suc n)
          (set_job (key_of spec) job existing_map) jobs'

recover_after :
    Bool
    → (ℕ → Table → Table)
    → (ℕ → Text)
    → ℕ
    → ℕ
    → List IdempotentJobSpec
    → JobMap
    → Table
    → Bool × Table
    → Result (JobMap × Table)
recover_after atomic world ids now company_id new_specs existing_map before (true, jobs) = ok (
  update_map existing_map (load_idempotent_jobs_for_keys company_id (map key_of new_specs) jobs),
  jobs,
)
recover_after atomic world ids now company_id new_specs existing_map before (false, jobs) =
    recover_per_key world ids now company_id new_specs (suc (length new_specs)) existing_map
      (if atomic then before else jobs)

unfoldable pub recover_bulk_insert_conflicts :
    Bool
    → (ℕ → Table → Table)
    → (ℕ → Text)
    → ℕ
    → ℕ
    → List IdempotentJobSpec
    → JobMap
    → Table
    → Result (JobMap × Table)
unfolding recover_after
recover_bulk_insert_conflicts atomic world ids now company_id new_specs existing_map jobs =
    let before = world zero jobs in
    recover_after atomic world ids now company_id new_specs existing_map before
      (insert_rows ids now company_id new_specs (suc zero) before)

-- `if new_specs:`
insert_new :
    Bool
    → (ℕ → Table → Table)
    → (ℕ → Text)
    → ℕ
    → ℕ
    → List IdempotentJobSpec × (JobMap × Table)
    → Result (JobMap × Table)
insert_new atomic world ids now company_id ([], after) = ok after
insert_new atomic world ids now company_id (spec ∷ specs, (existing_map, jobs)) =
    recover_bulk_insert_conflicts atomic world ids now company_id (spec ∷ specs) existing_map jobs

-- `_resolve_jobs_in_order`
unfoldable pub resolve_jobs_in_order : List IdempotentJobSpec → JobMap → List Job
resolve_jobs_in_order [] existing_map = []
resolve_jobs_in_order (spec ∷ specs) existing_map =
    let later = resolve_jobs_in_order specs existing_map in
    elim (job_of (key_of spec) existing_map) [ none ↦ later | some resolved ↦ resolved ∷ later ]

-- The part of the call behind the checks on its arguments.
unfoldable pub create_or_update_many_normalized :
    Bool
    → (ℕ → Table → Table)
    → (ℕ → Text)
    → ℕ
    → ℕ
    → List IdempotentJobSpec
    → Table
    → Result (List Job × Table)
unfolding insert_new
create_or_update_many_normalized atomic world ids now company_id [] jobs = ok ([], jobs)
create_or_update_many_normalized atomic world ids now company_id (spec ∷ specs) jobs =
    let normalized = spec ∷ specs in
    insert_new atomic world ids now company_id (
      apply_updates_to_existing now normalized
        (load_idempotent_jobs_for_keys company_id (map key_of normalized) jobs) jobs)
    >>= λ (existing_map, jobs'). ok (resolve_jobs_in_order normalized existing_map, jobs')

unfoldable pub create_or_update_many_idempotent :
    Bool
    → (ℕ → Table → Table)
    → (ℕ → Text)
    → ℕ
    → ℕ
    → List IdempotentJobSpec
    → Table
    → Result (List Job × Table)
create_or_update_many_idempotent atomic world ids now company_id specs jobs =
    normalize_many_specs specs >>= λ normalized.
    create_or_update_many_normalized atomic world ids now company_id normalized jobs

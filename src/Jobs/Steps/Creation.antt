-- ===== src/Jobs/Steps/Creation.antt =====
-- The idempotent insertion and update among other sessions is a run of the step relation.
use tenon_backend.Base.{
  refl, ℕ, ◌≡◌, ◌≤◌, Bool, true, false, some, arith, if◌then◌else◌, Bool-cases, Option-cases, inl,
  inr, ◌⊎◌,
}
use mathlib.Core.Path.{subst}
use tenon_backend.Base.Text.{Text}
use tenon_backend.Base.Result.{ok, >>=-ok}
use tenon_backend.Jobs.Model.{Job, Table}
use tenon_backend.Jobs.Rows.{insert_row}
use tenon_backend.Jobs.Flush.{changed_columns, flush}
use tenon_backend.Jobs.Shared.{
  IdempotentJobSpec, normalize_spec, job_from_spec, is_mutable_idempotent_job,
  apply_idempotent_job_updates,
}
use tenon_backend.Jobs.Create.{
  load_idempotent_job, insert_or_get_existing, insert_nested_or_get_existing,
  insert_commit_or_get_existing, create_or_get_idempotent, update_existing_if_mutable,
  update_and_refresh, create_or_update_normalized, create_or_update_idempotent,
}
use tenon_backend.Jobs.Invariant.{normalize_spec-attempts_allowed}
use tenon_backend.Jobs.Steps.{respecify, write, insert, Reach, here, next}
use tenon_backend.Jobs.Steps.Claims.{Reach-trans}

-- The table of a successful result.
Reach-ok :
    {jobs jobs' : Table} {found : Job} (result : Job × Table)
    → ok result ≡ ok (found, jobs')
    → Reach jobs result.1
    → Reach jobs jobs'
Reach-ok {jobs} {jobs'} {found} result same r =
    let e : result ≡ (found, jobs') = cc in subst (λ p. Reach jobs p.1) e r

insert_or_get_existing-cases :
    (job : Job) (jobs : Table) {found : Job} {jobs' : Table}
    → insert_or_get_existing job jobs ≡ ok (found, jobs')
    → (insert_row job jobs ≡ some jobs') ⊎ (jobs' ≡ jobs)
unfolding insert_or_get_existing
insert_or_get_existing-cases job jobs h = ground arith

module _ (meanwhile : Table → Table) (obeys : (jobs : Table) → Reach jobs (meanwhile jobs))
    (id : Text) (now company_id : ℕ) (spec : IdempotentJobSpec)
    (allowed : 1 ≤ spec.max_attempts) where
  insert_or_get_existing-Reach :
      (jobs : Table) {found : Job} {jobs' : Table}
      → insert_or_get_existing (job_from_spec id now company_id spec) jobs ≡ ok (found, jobs')
      → Reach jobs jobs'
  insert_or_get_existing-Reach jobs h =
      elim (insert_or_get_existing-cases (job_from_spec id now company_id spec) jobs h) [
        | inl inserted ↦ next here (insert id now company_id spec allowed inserted)
        | inr same ↦ rw same here
      ]

  insert_commit_or_get_existing-Reach :
      (jobs : Table) {found : Job} {jobs' : Table}
      → insert_commit_or_get_existing meanwhile (job_from_spec id now company_id spec) jobs
        ≡ ok (found, jobs')
      → Reach jobs jobs'
  unfolding insert_commit_or_get_existing
  insert_commit_or_get_existing-Reach jobs {found} {jobs'} h =
      let job = job_from_spec id now company_id spec in
      elim (Option-cases
        (load_idempotent_job job.company_id job.job_type job.idempotency_key jobs)) [
          | inl e ↦ Reach-trans (obeys jobs) (
              insert_or_get_existing-Reach (meanwhile jobs)
                (rw (e, insert_commit_or_get_existing) at h))
          | inr (existing, e) ↦
              Reach-ok (existing, jobs) (rw (e, insert_commit_or_get_existing) at h) here
        ]

module _ (meanwhile : Table → Table) (obeys : (jobs : Table) → Reach jobs (meanwhile jobs))
    (id : Text) (now company_id : ℕ) (spec : IdempotentJobSpec) (commit : Bool) where
  -- Whatever the other sessions commit meanwhile, a successful call moves the table by steps alone.
  pub create_or_get_idempotent-Reach :
      (jobs : Table) {found : Job} {jobs' : Table}
      → create_or_get_idempotent meanwhile id now company_id spec commit jobs ≡ ok (found, jobs')
      → Reach jobs jobs'
  unfolding create_or_get_idempotent
  create_or_get_idempotent-Reach jobs {found} {jobs'} h =
      let (normalized, e, inserted) = >>=-ok (normalize_spec spec) _ h in
      let allowed = normalize_spec-attempts_allowed spec e in
      branch normalized allowed commit inserted
    where
      branch :
          (normalized : IdempotentJobSpec)
          → 1 ≤ normalized.max_attempts
          → (path : Bool)
          → (if path
              then insert_commit_or_get_existing meanwhile
                  (job_from_spec id now company_id normalized)
                  jobs
              else insert_nested_or_get_existing
                  (job_from_spec id now company_id normalized)
                  (meanwhile jobs))
            ≡ ok (found, jobs')
          → Reach jobs jobs'
      branch normalized allowed true h =
          insert_commit_or_get_existing-Reach meanwhile obeys id now company_id normalized allowed
            jobs h
      branch normalized allowed false h = Reach-trans (obeys jobs) (
          insert_or_get_existing-Reach meanwhile obeys id now company_id normalized allowed
            (meanwhile jobs) {found = found} {jobs' = jobs'}
            (unfold insert_nested_or_get_existing in h))

-- A job that was loaded is updated by a step, whatever has become of its row.
update_existing_if_mutable-Reach :
    (now : ℕ) (spec : IdempotentJobSpec) (job : Job) (jobs : Table)
    → 1 ≤ spec.max_attempts
    → Reach jobs (update_existing_if_mutable now spec job jobs).1
unfolding update_existing_if_mutable flush
update_existing_if_mutable-Reach now spec job jobs allowed =
    elim (Bool-cases (is_mutable_idempotent_job job)) [
      | inl mutable_job ↦ rw mutable_job (
          next here (
            write
              (respecify job.id now spec
                (changed_columns job (apply_idempotent_job_updates now spec job)) allowed)
              refl))
      | inr fixed ↦ rw fixed here
    ]

module _ (meanwhile later : Table → Table) (obeys : (jobs : Table) → Reach jobs (meanwhile jobs))
    (obeys_later : (jobs : Table) → Reach jobs (later jobs)) (id : Text) (now company_id : ℕ)
    (spec : IdempotentJobSpec) (allowed : 1 ≤ spec.max_attempts) (commit : Bool)
    (jobs : Table) where
  create_or_update_normalized-Reach :
      {found : Job} {jobs' : Table}
      → create_or_update_normalized meanwhile later id now company_id spec commit jobs
        ≡ ok (found, jobs')
      → Reach jobs jobs'
  unfolding create_or_update_normalized update_and_refresh
  create_or_update_normalized-Reach {found} {jobs'} h =
      elim (Option-cases (load_idempotent_job company_id spec.job_type spec.idempotency_key jobs)) [
        | inl missing ↦
            let ((job, made), e, done) =
              >>=-ok (create_or_get_idempotent meanwhile id now company_id spec commit jobs) _
                (rw (missing, create_or_update_normalized) at h) in
            Reach-ok (update_and_refresh commit now spec job (later made)) done (
              Reach-trans
                (create_or_get_idempotent-Reach meanwhile obeys id now company_id spec commit jobs
                  e)
                (Reach-trans (obeys_later made)
                  (update_existing_if_mutable-Reach now spec job (later made) allowed)))
        | inr (existing, e) ↦
            let done : ok (update_and_refresh commit now spec existing (meanwhile jobs))
                ≡ ok (found, jobs') =
              rw (e, create_or_update_normalized) at h in
            Reach-ok (update_and_refresh commit now spec existing (meanwhile jobs)) done (
              Reach-trans (obeys jobs)
                (update_existing_if_mutable-Reach now spec existing (meanwhile jobs) allowed))
      ]

-- Whatever the other sessions commit between the statements, a successful call that creates or updates
-- a job moves the table by steps alone.
pub create_or_update_idempotent-Reach :
    (meanwhile later : Table → Table) (id : Text) (now company_id : ℕ) (spec : IdempotentJobSpec)
    (commit : Bool) (jobs : Table) {found : Job} {jobs' : Table}
    → ((t : Table) → Reach t (meanwhile t))
    → ((t : Table) → Reach t (later t))
    → create_or_update_idempotent meanwhile later id now company_id spec commit jobs
      ≡ ok (found, jobs')
    → Reach jobs jobs'
unfolding create_or_update_idempotent
create_or_update_idempotent-Reach meanwhile later id now company_id spec commit jobs obeys
      obeys_later h =
    let (normalized, e, rest) = >>=-ok (normalize_spec spec) _ h in
    create_or_update_normalized-Reach meanwhile later obeys obeys_later id now company_id normalized
      (normalize_spec-attempts_allowed spec e) commit jobs rest

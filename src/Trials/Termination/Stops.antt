-- ===== src/Trials/Termination/Stops.antt =====
-- What a termination has done when it returns: `terminate_trial_with_cleanup`.
use tenon_backend.Base.{
  ℕ, ◌==◌, ◌≡◌, refl, ◌∙◌, Bool, false, not, Option, some, List, [], ◌∷◌, any, find, keep, arith,
  Bool-cases, inl, inr,
}
use tenon_backend.Base.Text.{Text, strip, lstrip, is_space, same_text, same_text_iff}
use tenon_backend.Base.Result.{ok, >>=-ok}
use tenon_backend.Jobs.Model.{Job, Table}
use tenon_backend.Jobs.Rows.{update_where, insert_row}
use tenon_backend.Jobs.Shared.{
  IdempotentJobSpec, normalize_spec, normalize_idempotent_create_inputs, job_from_spec,
}
use tenon_backend.Jobs.Create.{
  create_or_get_idempotent, insert_or_get_existing, insert_nested_or_get_existing,
}
use tenon_backend.Trials.Model.{Trial, CandidateSession}
use tenon_backend.Trials.Termination.{
  flush_trial, store_trial, is_pending_session, expire, expire_pending_candidate_sessions,
  is_pending_trial_job, cancel, cancel_pending_trial_jobs, trial_cleanup_job_type,
  load_for_lifecycle, require_owner_for_lifecycle, trial_cleanup_spec, enqueue_trial_cleanup_job,
}

module _ (trial_id changed_at : ℕ) where
  -- An expired session is pending no more.
  expire-not_pending :
      (session : CandidateSession) → is_pending_session trial_id (expire changed_at session) ≡ false
  unfolding is_pending_session expire same_text
  expire-not_pending session = ground arith

  pub none_pending_session :
      (sessions : List CandidateSession)
      → any
          (is_pending_session trial_id)
          (expire_pending_candidate_sessions trial_id changed_at sessions)
        ≡ false
  unfolding expire_pending_candidate_sessions
  none_pending_session [] = refl
  none_pending_session (session ∷ sessions) =
      elim (Bool-cases (is_pending_session trial_id session)) [
        | inl pending ↦ rw (pending, expire-not_pending session) (none_pending_session sessions)
        | inr other ↦ rw (other, other) (none_pending_session sessions)
      ]

  -- The sessions that were not pending stay as they are.
  pub others_kept :
      (sessions : List CandidateSession)
      → keep
          (λ s. not (s.trial_id == trial_id))
          (expire_pending_candidate_sessions trial_id changed_at sessions)
        ≡ keep (λ s. not (s.trial_id == trial_id)) sessions
  unfolding expire_pending_candidate_sessions is_pending_session expire
  others_kept [] = refl
  others_kept (session ∷ sessions) = ground (arith, others_kept sessions)

cancel-not_pending :
    (trial : Trial) (sessions : List CandidateSession) (changed_at : ℕ) (job : Job)
    → is_pending_trial_job trial sessions (cancel changed_at job) ≡ false
unfolding is_pending_trial_job cancel
cancel-not_pending trial sessions changed_at job = ground arith

any-update_where :
    (condition : Job → Bool) (values : Job → Job) (jobs : Table)
    → ((job : Job) → condition (values job) ≡ false)
    → any condition (update_where condition values jobs) ≡ false
unfolding update_where
any-update_where condition values [] clears = refl
any-update_where condition values (job ∷ jobs) clears = elim (Bool-cases (condition job)) [
  | inl met ↦ rw (met, clears job) (any-update_where condition values jobs clears)
  | inr unmet ↦ rw (unmet, unmet) (any-update_where condition values jobs clears)
]

pub none_pending_job :
    (trial : Trial) (sessions : List CandidateSession) (changed_at : ℕ) (jobs : Table)
    → any
        (is_pending_trial_job trial sessions)
        (cancel_pending_trial_jobs trial sessions changed_at jobs)
      ≡ false
unfolding cancel_pending_trial_jobs
none_pending_job trial sessions changed_at jobs =
    any-update_where (is_pending_trial_job trial sessions) (cancel changed_at) jobs
      (cancel-not_pending trial sessions changed_at)

-- An insertion adds no row that the test chooses when the new row is not one.
any-insert_or_get_existing :
    (test : Job → Bool) (job : Job) (jobs : Table) {found : Job} {jobs' : Table}
    → insert_or_get_existing job jobs ≡ ok (found, jobs')
    → test job ≡ false
    → any test jobs ≡ false
    → any test jobs' ≡ false
unfolding insert_or_get_existing insert_row
any-insert_or_get_existing test job jobs h new old = ground arith

normalize_spec-job_type :
    (spec : IdempotentJobSpec) {normalized : IdempotentJobSpec}
    → normalize_spec spec ≡ ok normalized
    → normalized.job_type ≡ strip spec.job_type
unfolding normalize_spec normalize_idempotent_create_inputs
normalize_spec-job_type spec h = ground arith

strip_cleanup : strip trial_cleanup_job_type ≡ trial_cleanup_job_type
unfolding strip lstrip is_space
strip_cleanup = refl

pub find-id :
    (trial_id : ℕ) (trials : List Trial) {trial : Trial}
    → find (λ row. row.id == trial_id) trials ≡ some trial
    → trial.id ≡ trial_id
find-id trial_id [] h = cc
find-id trial_id (row ∷ rows) {trial} h = ground (arith, find-id trial_id rows {trial = trial})

pub find-store_trial :
    (trial_id : ℕ) (trial : Trial) (trials : List Trial) {found : Trial}
    → trial.id ≡ trial_id
    → find (λ row. row.id == trial_id) trials ≡ some found
    → find (λ row. row.id == trial_id) (store_trial trial trials) ≡ some trial
unfolding store_trial
find-store_trial trial_id trial [] same h = cc
find-store_trial trial_id trial (row ∷ rows) {found} same h =
    ground (arith, find-store_trial trial_id trial rows {found = found})

pub require_owner-find :
    (trial_id actor_user_id : ℕ) (trials : List Trial) {trial : Trial}
    → require_owner_for_lifecycle trial_id actor_user_id trials ≡ ok trial
    → (find (λ row. row.id == trial_id) trials ≡ some trial) × (trial.created_by ≡ actor_user_id)
unfolding require_owner_for_lifecycle load_for_lifecycle
require_owner-find trial_id actor_user_id trials h = ground arith

pub flush_trial-ok :
    (trial : Trial) (trials : List Trial) {trials' : List Trial}
    → flush_trial trial trials ≡ ok trials'
    → trials' ≡ store_trial trial trials
unfolding flush_trial
flush_trial-ok trial trials h = ground arith

-- The cleanup job is no job that a termination cancels.
pub cleanup-not_pending :
    (trial : Trial) (sessions : List CandidateSession) (job : Job)
    → job.job_type ≡ trial_cleanup_job_type
    → is_pending_trial_job trial sessions job ≡ false
unfolding is_pending_trial_job
cleanup-not_pending trial sessions job same =
    ground (arith, same_text_iff job.job_type trial_cleanup_job_type)

pub any-enqueue :
    (test : Job → Bool) (meanwhile : Table → Table) (id : Text) (now : ℕ) (trial : Trial)
    (actor_user_id : ℕ) (reason : Option Text) (jobs : Table) {job : Job} {jobs' : Table}
    → ((row : Job) → row.job_type ≡ trial_cleanup_job_type → test row ≡ false)
    → any test (meanwhile jobs) ≡ false
    → enqueue_trial_cleanup_job meanwhile id now trial actor_user_id reason jobs ≡ ok (job, jobs')
    → any test jobs' ≡ false
unfolding enqueue_trial_cleanup_job create_or_get_idempotent insert_nested_or_get_existing
any-enqueue test meanwhile id now trial actor_user_id reason jobs spares quiet h =
    let (normalized, e, inserted) =
      >>=-ok (normalize_spec (trial_cleanup_spec trial actor_user_id reason)) _ h in
    any-insert_or_get_existing test (job_from_spec id now trial.company_id normalized)
      (meanwhile jobs) inserted
      (spares (job_from_spec id now trial.company_id normalized) (
        unfold job_from_spec trial_cleanup_spec in
        normalize_spec-job_type (trial_cleanup_spec trial actor_user_id reason) e ∙ strip_cleanup))
      quiet

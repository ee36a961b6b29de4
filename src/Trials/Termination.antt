-- ===== src/Trials/Termination.antt =====
-- app/trials/services: the owner's actions on a trial (trials_services_trials_lifecycle_access_service.py,
-- trials_services_trials_lifecycle_actions_service.py) and its termination
-- (trials_services_trials_lifecycle_termination_service.py, trials_services_trials_cleanup_jobs_service.py).
-- The log lines are left out. An exception leaves the tables as they were, since the request's
-- transaction is rolled back. The row of the trial is locked by the request; other sessions change no row of
-- `trials` or `candidate_sessions` while it runs.
pub mod Stops
pub mod Stopped
pub mod Returns
use tenon_backend.Base.{
  ℕ, Bool, true, false, not, ◌&&◌, ◌||◌, Option, none, some, List, [], ◌∷◌, ◌++◌, map, any, find,
  is_none, or_else, ◌==◌, if◌then◌else◌,
}
use tenon_backend.Base.Text.{Text, codes, same_text, strip, starts_with, decimal}
use tenon_backend.Base.Result.{Result, ok, err, integrity_error, http_error, raise_if, ◌>>=◌, ◌>>◌}
use tenon_backend.Json.{Json, number, string, Fields, no_fields, field, get}
use tenon_backend.Jobs.Model.{Job, Table, is_queued, is_running, dead_letter}
use tenon_backend.Jobs.Rows.{update_where}
use tenon_backend.Jobs.Shared.{IdempotentJobSpec, is_empty}
use tenon_backend.Jobs.Create.{create_or_get_idempotent}
use tenon_backend.Trials.Model.{Trial, CandidateSession}
use tenon_backend.Trials.Status.{
  draft, generating, trial_statuses, terminated, status_text, apply_status_transition,
}

pub record Tables : Type 0 where
  pub trials : List Trial
  pub candidate_sessions : List CandidateSession
  pub jobs : Table

-- `_load_for_lifecycle`
unfoldable pub load_for_lifecycle : ℕ → List Trial → Result Trial
load_for_lifecycle trial_id trials = elim (find (λ trial. trial.id == trial_id) trials) [
  | none ↦ err (http_error 404)
  | some trial ↦ ok trial
]

unfoldable pub require_owner_for_lifecycle : ℕ → ℕ → List Trial → Result Trial
require_owner_for_lifecycle trial_id actor_user_id trials = do
  trial ← load_for_lifecycle trial_id trials
  raise_if (not (trial.created_by == actor_user_id)) (http_error 403)
  ok trial

-- The flush of a changed trial to its row.
unfoldable pub store_trial : Trial → List Trial → List Trial
store_trial trial = map (λ row. if row.id == trial.id then trial else row)

-- The CHECK constraints of the table: `_status_check_expr` and `_active_scenario_required_expr`.
unfoldable pub is_storable : Trial → Bool
is_storable trial =
    any (λ known. same_text trial.status (status_text known)) trial_statuses
    && (any (λ known. same_text trial.status (status_text known)) (draft ∷ generating ∷ [])
        || not (is_none trial.active_scenario_version_id))

unfoldable pub flush_trial : Trial → List Trial → Result (List Trial)
flush_trial trial trials = do
  raise_if (not (is_storable trial)) integrity_error
  ok (store_trial trial trials)

-- The rows that `_expire_pending_candidate_sessions` selects.
unfoldable pub is_pending_session : ℕ → CandidateSession → Bool
is_pending_session trial_id session =
    (session.trial_id == trial_id)
    && (same_text session.status (codes "not_started") && is_none session.started_at)

unfoldable pub expire : ℕ → CandidateSession → CandidateSession
expire changed_at session = record session {
  status = codes "expired";
  expires_at = some changed_at;
}

unfoldable pub expire_pending_candidate_sessions :
    ℕ → ℕ → List CandidateSession → List CandidateSession
expire_pending_candidate_sessions trial_id changed_at =
    map (λ session.
      if is_pending_session trial_id session then expire changed_at session else session)

abbrev pub trial_cleanup_job_type : Text
trial_cleanup_job_type = codes "trial_cleanup"

abbrev pub trial_cleanup_max_attempts : ℕ
trial_cleanup_max_attempts = 8

-- `f"trial:{trial.id}"`
abbrev pub trial_prefix : ℕ → Text
trial_prefix trial_id = codes "trial:" ++ decimal trial_id

-- `Job.candidate_session_id.in_(...)`
unfoldable pub is_of_session : ℕ → List CandidateSession → Option ℕ → Bool
is_of_session trial_id sessions none = false
is_of_session trial_id sessions (some session_id) =
    any (λ session. (session.trial_id == trial_id) && (session.id == session_id)) sessions

-- `Job.payload_json["trialId"].as_integer() == trial.id`, for payloads that hold an integer there or
-- nothing.
unfoldable pub names_trial : ℕ → Fields → Bool
names_trial trial_id payload_json = elim (get (codes "trialId") payload_json) [
  | some (number n) ↦ n == trial_id
  | _ ↦ false
]

-- `Job.correlation_id.like(f"trial:{trial.id}%")`
unfoldable pub is_correlated : ℕ → Option Text → Bool
is_correlated trial_id none = false
is_correlated trial_id (some correlation_id) = starts_with (trial_prefix trial_id) correlation_id

-- The rows that `_cancel_pending_trial_jobs` selects.
unfoldable pub is_pending_trial_job : Trial → List CandidateSession → Job → Bool
is_pending_trial_job trial sessions job =
    (job.company_id == trial.company_id)
    && (not (same_text job.job_type trial_cleanup_job_type)
        && ((is_queued job.status || is_running job.status)
            && (is_of_session trial.id sessions job.candidate_session_id
                || (names_trial trial.id job.payload_json
                    || is_correlated trial.id job.correlation_id))))

unfoldable pub cancel : ℕ → Job → Job
cancel changed_at job = record job {
  status = dead_letter;
  last_error = some (codes "trial_terminated");
  result_json = none;
  locked_at = none;
  locked_by = none;
  next_run_at = none;
  updated_at = changed_at;
}

unfoldable pub cancel_pending_trial_jobs : Trial → List CandidateSession → ℕ → Table → Table
cancel_pending_trial_jobs trial sessions changed_at =
    update_where (is_pending_trial_job trial sessions) (cancel changed_at)

unfoldable pub build_trial_cleanup_payload : Trial → ℕ → Option Text → Fields
build_trial_cleanup_payload trial terminated_by_user_id reason =
    field (codes "trialId") (number trial.id) (
      field (codes "companyId") (number trial.company_id) (
        field (codes "terminatedByUserId") (number terminated_by_user_id) (elim reason [
          | none ↦ no_fields
          | some text ↦ field (codes "reason") (string text) no_fields
        ])))

unfoldable pub trial_cleanup_spec : Trial → ℕ → Option Text → IdempotentJobSpec
trial_cleanup_spec trial terminated_by_user_id reason = record {
  job_type = trial_cleanup_job_type;
  idempotency_key = codes "trial_cleanup:" ++ decimal trial.id;
  payload_json = build_trial_cleanup_payload trial terminated_by_user_id reason;
  candidate_session_id = none;
  max_attempts = trial_cleanup_max_attempts;
  correlation_id = some (trial_prefix trial.id ++ codes ":terminate");
  next_run_at = none;
}

-- `enqueue_trial_cleanup_job`, called with `commit=False`.
unfoldable pub enqueue_trial_cleanup_job :
    (Table → Table) → Text → ℕ → Trial → ℕ → Option Text → Table → Result (Job × Table)
enqueue_trial_cleanup_job meanwhile id now trial terminated_by_user_id reason =
    create_or_get_idempotent meanwhile id now trial.company_id
      (trial_cleanup_spec trial terminated_by_user_id reason) false

-- `(reason or "").strip() or None`
unfoldable pub normalized_reason : Option Text → Option Text
normalized_reason none = none
normalized_reason (some reason) =
    let stripped = strip reason in if is_empty stripped then none else some stripped

-- `trial.terminated_by_talent_partner_id` and `trial.terminated_reason`, behind the transition.
unfoldable pub sign_termination : Bool → ℕ → Option Text → Trial → Trial
sign_termination changed actor_user_id reason trial = record trial {
  terminated_by_talent_partner_id =
      if changed then some actor_user_id else trial.terminated_by_talent_partner_id;
  terminated_reason = elim trial.terminated_reason [
    | none ↦ reason
    | some recorded ↦ some recorded
  ];
}

-- The part of the termination behind the transition. The first SELECT flushes the trial. `meanwhile` is what other sessions commit before
-- the insertion of the cleanup job, `id` and `now` are its id and the time.
unfoldable pub clean_up :
    (Table → Table)
    → Text
    → ℕ
    → ℕ
    → ℕ
    → Option Text
    → Trial
    → Tables
    → Result ((Trial × Job) × Tables)
clean_up meanwhile id now changed_at actor_user_id reason trial tables = do
  trials ← flush_trial trial tables.trials
  let sessions = expire_pending_candidate_sessions trial.id changed_at tables.candidate_sessions
  let jobs = cancel_pending_trial_jobs trial sessions changed_at tables.jobs
  (cleanup_job, jobs') ← enqueue_trial_cleanup_job meanwhile id now trial actor_user_id reason jobs
  ok ((trial, cleanup_job), record { trials = trials; candidate_sessions = sessions; jobs = jobs' })

unfoldable pub terminate_trial_with_cleanup :
    (Table → Table) → Text → ℕ → ℕ → ℕ → ℕ → Option Text → Tables → Result ((Trial × Job) × Tables)
terminate_trial_with_cleanup meanwhile id now changed_at trial_id actor_user_id reason tables = do
  trial ← require_owner_for_lifecycle trial_id actor_user_id tables.trials
  (changed, trial') ← apply_status_transition (status_text terminated) changed_at trial
  clean_up meanwhile id now changed_at actor_user_id (normalized_reason reason)
      (sign_termination changed actor_user_id (normalized_reason reason) trial') tables

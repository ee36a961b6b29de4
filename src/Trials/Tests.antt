-- ===== src/Trials/Tests.antt =====
-- A small trial, and the theorems of the lifecycle at it.
use tenon_backend.Base.{false, ◌*◌, find, ◌==◌, ◌≡◌, ◌↔◌, refl, true, none, some, [], ◌∷◌}
use tenon_backend.Base.Text.{codes, same_text, strip, lstrip, is_space, starts_with, decimal}
use tenon_backend.Base.Result.{Result, ok}
use tenon_backend.Json.{no_fields, field, number, string, get, encoded_size}
use tenon_backend.Jobs.Model.{second, Job, queued, running, dead_letter}
use tenon_backend.Jobs.Rows.{update_where, conflicts, has_key, insert_row}
use tenon_backend.Jobs.Shared.{
  normalize_spec, normalize_idempotent_create_inputs, validate_payload_size, job_from_spec,
}
use tenon_backend.Jobs.Create.{
  create_or_get_idempotent, insert_nested_or_get_existing, insert_or_get_existing,
}
use tenon_backend.Trials.Model.{Trial, CandidateSession}
use tenon_backend.Trials.Status.{
  require_trial_invitable, TrialStatus, status_text, generating, active_inviting,
  normalize_trial_status, is_allowed, apply_transition, apply_status_transition, enter,
  touch_timestamp,
}
use tenon_backend.Trials.Status.Diagram.{Reads, Moved, apply_status_transition_iff}
use tenon_backend.Trials.Status.History.{History, begin, change, Later, History-Later}
use tenon_backend.Trials.Termination.{
  Tables, load_for_lifecycle, require_owner_for_lifecycle, is_storable, flush_trial, store_trial,
  is_pending_session, expire, expire_pending_candidate_sessions, is_pending_trial_job,
  is_of_session, names_trial, is_correlated, cancel, cancel_pending_trial_jobs,
  build_trial_cleanup_payload, trial_cleanup_spec, enqueue_trial_cleanup_job, normalized_reason,
  sign_termination, clean_up, terminate_trial_with_cleanup,
}
use tenon_backend.Trials.Actions.{transition_owned_trial}
use tenon_backend.Trials.Actions.Invitable.{
  require_trial_invitable_iff, transition_owned_trial-invitable,
}
use tenon_backend.Trials.Termination.Returns.{IsQueueable, terminate_trial_with_cleanup-returns}
use tenon_backend.Trials.Termination.Stopped.{IsStopped, terminate_trial_with_cleanup-IsStopped}

abbrev hiring : Trial
hiring = record {
  id = 1;
  company_id = 7;
  created_by = 3;
  status = status_text active_inviting;
  day_window_start_local = 9 * 3600 * second;
  day_window_end_local = 17 * 3600 * second;
  day_window_overrides_enabled = false;
  day_window_overrides_json = none;
  active_scenario_version_id = some 5;
  pending_scenario_version_id = none;
  generating_at = some 10;
  ready_for_review_at = some 20;
  activated_at = some 30;
  terminated_at = none;
  terminated_reason = none;
  terminated_by_talent_partner_id = none;
}

abbrev drafted : Trial
drafted = record hiring {
  status = codes "draft";
  generating_at = none;
  ready_for_review_at = none;
  activated_at = none;
}

abbrev invited : CandidateSession
invited = record {
  id = 11;
  trial_id = 1;
  invite_email = codes "a@b";
  token = codes "t";
  status = codes "not_started";
  candidate_email = none;
  candidate_auth0_sub = none;
  candidate_auth0_email = none;
  claimed_at = none;
  started_at = none;
  completed_at = none;
  expires_at = some 900;
  scheduled_start_at = none;
  candidate_timezone = none;
  github_username = none;
  day_windows_json = none;
  schedule_locked_at = none;
}

abbrev scoring : Job
scoring = record {
  id = codes "j";
  job_type = codes "score";
  status = running;
  attempt = 1;
  max_attempts = 5;
  idempotency_key = codes "k";
  payload_json = field (codes "trialId") (number 1) no_fields;
  result_json = none;
  last_error = none;
  created_at = 10;
  updated_at = 10;
  next_run_at = none;
  locked_at = some 40;
  locked_by = some (codes "w");
  correlation_id = none;
  company_id = 7;
  candidate_session_id = none;
}

abbrev open_trial : Tables
open_trial = record {
  trials = hiring ∷ [];
  candidate_sessions = invited ∷ record invited { id = 12; trial_id = 2 } ∷ [];
  jobs =
      scoring ∷ record scoring { id = codes "o"; idempotency_key = codes "l"; company_id = 8 } ∷ [];
}

unfoldable stop : Tables → Result ((Trial × Job) × Tables)
stop = terminate_trial_with_cleanup (λ jobs. jobs) (codes "c") 60 60 1 3 (some (codes " done "))

apply_status_transition_iff_example :
    (apply_status_transition (codes "generating") 50 drafted
      ≡ ok (true, enter generating 50 drafted))
    ↔ ((from : TrialStatus) × (target : TrialStatus) × Reads drafted.status from
        × Reads (codes "generating") target
        × Moved true from target
        × (enter generating 50 drafted ≡ enter target 50 drafted))
apply_status_transition_iff_example =
    apply_status_transition_iff 50 drafted (codes "generating") true (enter generating 50 drafted)

abbrev reviewed : Trial
reviewed = record hiring { status = codes "ready_for_review" }

reopened-History : History hiring (record hiring { status = codes "active_inviting" })
unfolding apply_status_transition normalize_trial_status same_text apply_transition is_allowed enter
    touch_timestamp
reopened-History =
    change {trial = reviewed} (codes "active_inviting") 60 {changed = true}
      (change {trial = hiring} (codes "ready_for_review") 50 {changed = true} begin refl) refl

History-Later_example : Later hiring (record hiring { status = codes "active_inviting" })
History-Later_example = History-Later reopened-History

abbrev stopped_trial : Trial
stopped_trial = record hiring {
  status = codes "terminated";
  terminated_at = some 60;
  terminated_reason = some (codes "done");
  terminated_by_talent_partner_id = some 3;
}

abbrev cleanup : Job
cleanup = record {
  id = codes "c";
  job_type = codes "trial_cleanup";
  status = queued;
  attempt = 0;
  max_attempts = 8;
  idempotency_key = codes "trial_cleanup:1";
  payload_json = field (codes "trialId") (number 1) (
      field (codes "companyId") (number 7) (
        field (codes "terminatedByUserId") (number 3)
          (field (codes "reason") (string (codes "done")) no_fields)));
  result_json = none;
  last_error = none;
  created_at = 60;
  updated_at = 60;
  next_run_at = some 60;
  locked_at = none;
  locked_by = none;
  correlation_id = some (codes "trial:1:terminate");
  company_id = 7;
  candidate_session_id = none;
}

abbrev stopped_tables : Tables
stopped_tables = record {
  trials = stopped_trial ∷ [];
  candidate_sessions =
      record invited { status = codes "expired"; expires_at = some 60 }
      ∷ record invited { id = 12; trial_id = 2 }
      ∷ [];
  jobs =
      cleanup
      ∷ record scoring {
        status = dead_letter;
        last_error = some (codes "trial_terminated");
        locked_at = none;
        locked_by = none;
        updated_at = 60;
      }
      ∷ record scoring { id = codes "o"; idempotency_key = codes "l"; company_id = 8 }
      ∷ [];
}

stop_run : stop open_trial ≡ ok ((stopped_trial, cleanup), stopped_tables)
unfolding stop terminate_trial_with_cleanup require_owner_for_lifecycle load_for_lifecycle
    apply_status_transition normalize_trial_status same_text apply_transition is_allowed enter
    touch_timestamp clean_up sign_termination normalized_reason strip lstrip is_space
    expire_pending_candidate_sessions is_pending_session expire cancel_pending_trial_jobs
    update_where is_pending_trial_job is_of_session names_trial get is_correlated starts_with
    decimal cancel enqueue_trial_cleanup_job trial_cleanup_spec build_trial_cleanup_payload
    create_or_get_idempotent normalize_spec normalize_idempotent_create_inputs validate_payload_size
    encoded_size job_from_spec insert_nested_or_get_existing insert_or_get_existing insert_row
    conflicts has_key flush_trial is_storable store_trial
stop_run = refl

terminate_trial_with_cleanup-IsStopped_example :
    ((before : Trial) × (require_owner_for_lifecycle 1 3 open_trial.trials ≡ ok before))
    × IsStopped 1 open_trial stopped_tables stopped_trial cleanup
unfolding stop
terminate_trial_with_cleanup-IsStopped_example =
    terminate_trial_with_cleanup-IsStopped (λ jobs. jobs) (codes "c") 60 60 3 1
      (some (codes " done ")) open_trial (λ before owned jobs clear. clear) stop_run

cleanup_IsQueueable :
    IsQueueable (codes "c") 60 60 3 hiring (normalized_reason (some (codes " done ")))
unfolding normalized_reason strip lstrip is_space trial_cleanup_spec build_trial_cleanup_payload
    normalize_spec normalize_idempotent_create_inputs validate_payload_size encoded_size decimal
cleanup_IsQueueable = (_, refl)

terminate_trial_with_cleanup-returns_example :
    (r : (Trial × Job) × Tables) × (terminate_trial_with_cleanup
        (λ t. t)
        (codes "c")
        60
        60
        1
        3
        (some (codes " done "))
        open_trial
      ≡ ok r)
unfolding require_owner_for_lifecycle load_for_lifecycle normalize_trial_status same_text
terminate_trial_with_cleanup-returns_example =
    terminate_trial_with_cleanup-returns (codes "c") 60 60 3 1 (some (codes " done ")) open_trial
      hiring active_inviting refl refl refl cleanup_IsQueueable refl

require_trial_invitable_iff_example :
    (require_trial_invitable hiring ≡ ok tt)
    ↔ (Reads hiring.status active_inviting × (hiring.pending_scenario_version_id ≡ none))
require_trial_invitable_iff_example = require_trial_invitable_iff hiring

abbrev invitable_trial : Trial
invitable_trial = record hiring { status = codes "active_inviting" }

approve_run :
    transition_owned_trial 60 1 3 (codes "active_inviting") (reviewed ∷ [])
    ≡ ok (invitable_trial, invitable_trial ∷ [])
unfolding transition_owned_trial require_owner_for_lifecycle load_for_lifecycle
    apply_status_transition normalize_trial_status same_text apply_transition is_allowed enter
    touch_timestamp flush_trial is_storable store_trial
approve_run = refl

transition_owned_trial-invitable_example :
    (require_trial_invitable invitable_trial ≡ ok tt)
    × (find (λ row. row.id == 1) (invitable_trial ∷ []) ≡ some invitable_trial)
    × (invitable_trial.created_by ≡ 3)
transition_owned_trial-invitable_example =
    transition_owned_trial-invitable 60 1 3 (reviewed ∷ []) approve_run

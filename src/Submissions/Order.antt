-- ===== src/Submissions/Order.antt =====
-- In app/submissions/services, `validate_submission_flow` of
-- use_cases/submissions_services_use_cases_submissions_use_cases_submit_validation_service.py up to the check of the
-- content, with the day_flow_gate service beside it and
-- submissions_services_submissions_task_rules_service.py; and
-- submissions_services_submissions_submission_progress_service.py.
pub mod Current
pub mod Accepted
mod Tests
use tenon_backend.Base.{
  ℕ, Bool, true, false, not, ◌&&◌, ◌||◌, ◌==◌, Option, none, some, List, [], ◌∷◌, find, leb,
  if◌then◌else◌,
}
use tenon_backend.Base.Int.{ℤ, pos, eqb_ℤ}
use tenon_backend.Base.Text.{Text, codes, same_text}
use tenon_backend.Base.Result.{Result, ok, err, http_error, api_error, raise_if, ◌>>=◌, ◌>>◌}
use tenon_backend.Trials.Model.{Trial, CandidateSession}
use tenon_backend.Schedule.Times.{Zone}
use tenon_backend.Schedule.Gates.{Task, require_active_window}
use tenon_backend.Candidates.Progress.{Submission, is_in, progress_snapshot}

-- The columns of `candidate_day_audits` that the modelled code reads.
pub record CandidateDayAudit : Type 0 where
  pub candidate_session_id : ℕ
  pub day_index : ℤ
  pub cutoff_at : Option ℕ

unfoldable pub load_task_or_404 : ℕ → List Task → Result Task
load_task_or_404 task_id tasks = elim (find (λ task. task.id == task_id) tasks) [
  | none ↦ err (http_error 404)
  | some task ↦ ok task
]

unfoldable pub ensure_task_belongs : Task → CandidateSession → Result (Unit {0})
ensure_task_belongs task session =
    raise_if (not (task.trial_id == session.trial_id)) (http_error 404)

unfoldable pub get_day_audit : ℕ → ℤ → List CandidateDayAudit → Option CandidateDayAudit
get_day_audit session_id day_index =
    find (λ audit. (audit.candidate_session_id == session_id) && eqb_ℤ audit.day_index day_index)

abbrev pub is_day_flow_day : ℤ → Bool
is_day_flow_day day_index = eqb_ℤ day_index (pos 2) || eqb_ℤ day_index (pos 3)

-- A recorded cut-off has come.
abbrev pub is_cut_off : ℕ → Option CandidateDayAudit → Bool
is_cut_off now none = false
is_cut_off now (some audit) = elim audit.cutoff_at [
  | none ↦ true
  | some cutoff_at ↦ leb cutoff_at now
]

-- `ensure_day_flow_open` without a workspace.
unfoldable pub ensure_day_flow_open :
    ℕ → CandidateSession → Task → List CandidateDayAudit → Result (Unit {0})
ensure_day_flow_open now session task audits =
    raise_if
      (is_day_flow_day task.day_index
        && is_cut_off now (get_day_audit session.id task.day_index audits))
      (api_error 409 (codes "TASK_WINDOW_CLOSED"))

unfoldable pub ensure_in_order : Option Task → ℕ → Result (Unit {0})
ensure_in_order none target_task_id = err (api_error 409 (codes "TRIAL_COMPLETED"))
ensure_in_order (some current_task) target_task_id =
    raise_if (not (current_task.id == target_task_id)) (api_error 400 (codes "TASK_OUT_OF_ORDER"))

unfoldable pub mark_completed : ℕ → Bool → CandidateSession → CandidateSession
mark_completed now is_complete session =
    if is_complete && not (same_text session.status (codes "completed"))
    then record session {
      status = codes "completed";
      completed_at = elim session.completed_at [ none ↦ some now | some before ↦ some before ];
    }
    else session

module _ (lower : Text → Text) (zone_info : Text → Option Zone) (from_iso : Text → Option ℕ) where
  -- `validate_submission_flow`: the task, and the tasks of the trial.
  unfoldable pub check_submission_flow :
      ℕ
      → CandidateSession
      → Option Trial
      → ℕ
      → List Task
      → List Submission
      → List CandidateDayAudit
      → Result (Task × List Task)
  check_submission_flow now session trial task_id tasks submissions audits = do
    task ← load_task_or_404 task_id tasks
    ensure_task_belongs task session
    require_active_window zone_info from_iso session trial task now
    ensure_day_flow_open now session task audits
    ((task_list, completed_ids), (current_task, counts)) ←
        progress_snapshot lower zone_info from_iso [] session trial now tasks submissions
    raise_if (is_in task_id completed_ids) (api_error 409 (codes "SUBMISSION_CONFLICT"))
    ensure_in_order current_task task_id
    ok (task, task_list)

  -- The counts, whether all is done, and the session.
  unfoldable pub progress_after_submission :
      ℕ
      → List Task
      → CandidateSession
      → Option Trial
      → List Task
      → List Submission
      → Result ((ℕ × (ℕ × Bool)) × CandidateSession)
  progress_after_submission now task_list session trial tasks submissions = do
    (loaded, (current, (completed, (total, is_complete)))) ←
        progress_snapshot lower zone_info from_iso task_list session trial now tasks submissions
    ok ((completed, (total, is_complete)), mark_completed now is_complete session)

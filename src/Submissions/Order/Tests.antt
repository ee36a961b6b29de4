-- ===== src/Submissions/Order/Tests.antt =====
-- The second of two days: its task is accepted in its window, and not before the first day's.
use tenon_backend.Base.{
  ℕ, ◌+◌, ◌*◌, ◌≡◌, refl, true, Option, none, some, List, [], ◌∷◌, if◌then◌else◌,
}
use tenon_backend.Base.Int.{pos}
use tenon_backend.Base.Sort.{sort, insert}
use tenon_backend.Base.Text.{Text, codes, same_text}
use tenon_backend.Base.Result.{ok, err, api_error}
use tenon_backend.Json.{number, string, array, object, item, no_items, field, no_fields, get}
use tenon_backend.Trials.Model.{CandidateSession}
use tenon_backend.Schedule.Model.{minute, day}
use tenon_backend.Schedule.Times.{coerce_day_index}
use tenon_backend.Schedule.Serial.{z_to_offset, deserialize_window, deserialize_day_windows}
use tenon_backend.Schedule.Gates.{
  Task, window_for_day, task_window_at, require_open, load_or_derive_day_windows,
  compute_task_window, require_active_window,
}
use tenon_backend.Candidates.Progress.{
  Submission, compute_current_task, summarize_progress, outer_join, collect,
  load_tasks_with_completion_state, revisit, handoff_revisit_task, snapshot_of, progress_snapshot,
  completed_task_ids, set_of,
}
use tenon_backend.Submissions.Order.{
  CandidateDayAudit, load_task_or_404, ensure_task_belongs, get_day_audit, ensure_day_flow_open,
  ensure_in_order, mark_completed, check_submission_flow, progress_after_submission,
}
use tenon_backend.Submissions.Order.Accepted.{IsAccepted, check_submission_flow-IsAccepted}

abbrev hour : ℕ
hour = 60 * minute

unfoldable from_iso : Text → Option ℕ
from_iso text =
    if same_text text (codes "0001-01-02T14:00:00+00:00")
    then some (day + 14 * hour)
    else some (day + 22 * hour)

abbrev design : Task
design = record { id = 5; trial_id = 1; day_index = pos 1; type = codes "design" }

abbrev code : Task
code = record { id = 6; trial_id = 1; day_index = pos 2; type = codes "code" }

abbrev tasks : List Task
tasks = code ∷ design ∷ []

abbrev first_done : List Submission
first_done = record { id = 1; candidate_session_id = 11; task_id = 5 } ∷ []

abbrev session : CandidateSession
session = record {
  id = 11;
  trial_id = 1;
  invite_email = codes "a@b";
  token = codes "t";
  status = codes "in_progress";
  candidate_email = some (codes "a@b");
  candidate_auth0_sub = some (codes "ann");
  candidate_auth0_email = some (codes "a@b");
  claimed_at = some 50;
  started_at = some 50;
  completed_at = none;
  expires_at = none;
  scheduled_start_at = some (14 * hour);
  candidate_timezone = some (codes "EST");
  github_username = some (codes "ann");
  day_windows_json = some (
      array (
        item
          (object (
            field (codes "dayIndex") (number 2) (
              field (codes "windowStartAt") (string (codes "0001-01-02T14:00:00Z"))
                (field (codes "windowEndAt") (string (codes "0001-01-02T22:00:00Z")) no_fields))))
          no_items));
  schedule_locked_at = some 60;
}

abbrev cut_off : List CandidateDayAudit
cut_off =
    record { candidate_session_id = 11; day_index = pos 2; cutoff_at = some (day + 20 * hour) } ∷ []

accepted :
    (check_submission_flow
        (λ t. t)
        (λ name. none)
        from_iso
        (day + 15 * hour)
        session
        none
        6
        tasks
        first_done
        cut_off
      ≡ ok (code, design ∷ code ∷ []))
    × (check_submission_flow
          (λ t. t)
          (λ name. none)
          from_iso
          (day + 15 * hour)
          session
          none
          6
          tasks
          []
          cut_off
        ≡ err (api_error 400 (codes "TASK_OUT_OF_ORDER")))
    × (check_submission_flow
          (λ t. t)
          (λ name. none)
          from_iso
          (day + 21 * hour)
          session
          none
          6
          tasks
          first_done
          cut_off
        ≡ err (api_error 409 (codes "TASK_WINDOW_CLOSED")))
unfolding check_submission_flow load_task_or_404 ensure_task_belongs get_day_audit
    ensure_day_flow_open ensure_in_order progress_snapshot load_tasks_with_completion_state sort
    insert outer_join collect snapshot_of handoff_revisit_task revisit compute_current_task
    summarize_progress require_active_window compute_task_window load_or_derive_day_windows
    window_for_day task_window_at require_open deserialize_day_windows deserialize_window from_iso
    z_to_offset coerce_day_index get same_text
accepted = (refl, refl, refl)

completed :
    progress_after_submission
      (λ t. t)
      (λ name. none)
      from_iso
      (day + 15 * hour)
      tasks
      session
      none
      tasks
      (record { id = 2; candidate_session_id = 11; task_id = 6 } ∷ first_done)
    ≡ ok (
      (2, (2, true)),
      record session { status = codes "completed"; completed_at = some (day + 15 * hour) },
    )
unfolding progress_after_submission mark_completed progress_snapshot completed_task_ids set_of sort
    insert snapshot_of handoff_revisit_task revisit compute_current_task summarize_progress
    same_text
completed = refl

check_submission_flow-IsAccepted_example :
    IsAccepted
      (λ name. none)
      from_iso
      (day + 15 * hour)
      session
      none
      6
      tasks
      first_done
      cut_off
      code
check_submission_flow-IsAccepted_example =
    check_submission_flow-IsAccepted (λ t. t) (λ name. none) from_iso (day + 15 * hour) session none
      6 tasks first_done cut_off (refl, (refl, tt)) (accepted.0)

-- ===== src/Candidates/Progress/Tests.antt =====
-- Two days of tasks, and the progress of a candidate who has done the first one.
use tenon_backend.Base.{◌≡◌, ◌↔◌, refl, true, false, none, some, List, [], ◌∷◌, length, keep}
use tenon_backend.Base.Int.{pos}
use tenon_backend.Base.Sort.{sort, insert}
use tenon_backend.Base.Text.{codes, same_text}
use tenon_backend.Base.Result.{ok}
use tenon_backend.Trials.Model.{CandidateSession}
use tenon_backend.Schedule.Gates.{Task}
use tenon_backend.Candidates.Progress.{
  Submission, compute_current_task, summarize_progress, outer_join, collect, tasks_of_trial,
  load_tasks_with_completion_state, revisit, handoff_revisit_task, snapshot_of, set_of,
  completed_task_ids, progress_snapshot,
}
use tenon_backend.Candidates.Progress.Loaded.{submitted}
use tenon_backend.Candidates.Progress.Completion.{progress_snapshot_complete}

abbrev design : Task
design = record { id = 5; trial_id = 1; day_index = pos 1; type = codes "design" }

abbrev code : Task
code = record { id = 6; trial_id = 1; day_index = pos 2; type = codes "code" }

abbrev others : Task
others = record { id = 7; trial_id = 2; day_index = pos 1; type = codes "design" }

abbrev tasks : List Task
tasks = code ∷ others ∷ design ∷ []

abbrev submissions : List Submission
submissions = record { id = 1; candidate_session_id = 11; task_id = 5 } ∷ []

abbrev session : CandidateSession
session = record {
  id = 11;
  trial_id = 1;
  invite_email = codes "a@b";
  token = codes "t";
  status = codes "in_progress";
  candidate_email = some (codes "a@b");
  candidate_auth0_sub = some (codes "ann");
  candidate_auth0_email = some (codes "a@b");
  claimed_at = some 50;
  started_at = some 50;
  completed_at = none;
  expires_at = none;
  scheduled_start_at = none;
  candidate_timezone = none;
  github_username = none;
  day_windows_json = none;
  schedule_locked_at = none;
}

half_done :
    progress_snapshot (λ t. t) (λ name. none) (λ s. none) [] session none 90 tasks submissions
    ≡ ok ((design ∷ code ∷ [], 5 ∷ []), (some code, (1, (2, false))))
unfolding progress_snapshot load_tasks_with_completion_state sort insert outer_join collect
    snapshot_of handoff_revisit_task revisit compute_current_task summarize_progress same_text
half_done = refl

-- The submissions of other tasks count where the tasks are the caller's.
given_tasks :
    progress_snapshot
      (λ t. t)
      (λ name. none)
      (λ s. none)
      (code ∷ [])
      session
      none
      90
      tasks
      submissions
    ≡ ok ((code ∷ [], 5 ∷ []), (some code, (1, (1, true))))
unfolding progress_snapshot completed_task_ids set_of sort insert snapshot_of handoff_revisit_task
    revisit compute_current_task summarize_progress same_text
given_tasks = refl

progress_snapshot_complete_example :
    ((some code ≡ none) ↔ (false ≡ true))
    × (2 ≡ length (tasks_of_trial 1 tasks))
    × (1 ≡ length (keep (submitted 11 submissions) (tasks_of_trial 1 tasks)))
progress_snapshot_complete_example =
    progress_snapshot_complete (λ t. t) (λ name. none) (λ s. none) session none 90 tasks submissions
      (refl, (refl, (refl, tt))) half_done

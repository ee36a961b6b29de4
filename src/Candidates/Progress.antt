-- ===== src/Candidates/Progress.antt =====
-- The progress of a candidate: in app/candidates/candidate_sessions,
-- utils/candidates_candidate_sessions_utils_candidates_candidate_sessions_progress_utils.py and, under services, the
-- modules candidates_candidate_sessions_services_candidates_candidate_sessions_progress_{service,loaders,handoff}_service.py.
-- A set of ids is a list without repetitions. `lower` is `str.lower`.
pub mod Loaded
pub mod Completion
mod Tests
use tenon_backend.Base.{
  ℕ, zero, suc, ◌-◌, Bool, true, false, not, ◌&&◌, ◌||◌, ◌==◌, Option, none, some, List, [], ◌∷◌,
  ◌++◌, map, any, keep, find, length, leb, ltb, if◌then◌else◌,
}
use tenon_backend.Base.Int.{ℤ, pos, negsuc, eqb_ℤ, leb_ℤ}
use tenon_backend.Base.Sort.{sort}
use tenon_backend.Base.Text.{Text, codes, same_text}
use tenon_backend.Base.Result.{Result, ok, err, http_error, ◌>>=◌}
use tenon_backend.Trials.Model.{Trial, CandidateSession}
use tenon_backend.Schedule.Model.{TaskWindow}
use tenon_backend.Schedule.Times.{Zone}
use tenon_backend.Schedule.Gates.{Task, compute_task_window}

-- The columns of `submissions` that the modelled code reads.
pub record Submission : Type 0 where
  pub id : ℕ
  pub candidate_session_id : ℕ
  pub task_id : ℕ

abbrev pub is_in : ℕ → List ℕ → Bool
is_in n ids = any (λ m. m == n) ids

-- `ids.add(n)`
abbrev pub add_id : ℕ → List ℕ → List ℕ
add_id n ids = if is_in n ids then ids else ids ++ n ∷ []

unfoldable pub compute_current_task : List Task → List ℕ → Option Task
compute_current_task tasks completed =
    find (λ task. not (is_in task.id completed)) (sort (λ task. task.day_index) tasks)

-- The count, the total, and whether all is done.
unfoldable pub summarize_progress : ℕ → List ℕ → ℕ × (ℕ × Bool)
summarize_progress total completed =
    (length completed, (total, ltb 0 total && leb total (length completed)))

abbrev pub is_submission : ℕ → ℕ → Submission → Bool
is_submission session_id task_id submission =
    (submission.task_id == task_id) && (submission.candidate_session_id == session_id)

-- The rows that the outer join has for a task: the ids of its submissions, or one `NULL`.
abbrev pub rows_of_task : Task → List Submission → List (Task × Option ℕ)
rows_of_task task [] = (task, none) ∷ []
rows_of_task task (submission ∷ submissions) =
    (task, some submission.id) ∷ map (λ s. (task, some s.id)) submissions

unfoldable pub outer_join : ℕ → List Submission → List Task → List (Task × Option ℕ)
outer_join session_id submissions [] = []
outer_join session_id submissions (task ∷ tasks) =
    rows_of_task task (keep (is_submission session_id task.id) submissions)
    ++ outer_join session_id submissions tasks

-- `task_by_id.setdefault(task.id, task)`
abbrev pub set_default_task : Task → List Task → List Task
set_default_task task tasks = if any (λ t. t.id == task.id) tasks then tasks else tasks ++ task ∷ []

abbrev pub with_submission : ℕ → Option ℕ → List ℕ → List ℕ
with_submission task_id none ids = ids
with_submission task_id (some submission_id) ids = add_id task_id ids

-- The loop over the rows.
unfoldable pub collect : List (Task × Option ℕ) → List Task → List ℕ → List Task × List ℕ
collect [] tasks completed = (tasks, completed)
collect ((task, submission_id) ∷ rows) tasks completed =
    collect rows (set_default_task task tasks) (with_submission task.id submission_id completed)

abbrev pub tasks_of_trial : ℕ → List Task → List Task
tasks_of_trial trial_id tasks =
    sort (λ task. task.day_index)
      (sort (λ task. pos task.id) (keep (λ task. task.trial_id == trial_id) tasks))

abbrev pub loaded_or_raise : List (Task × Option ℕ) → Result (List Task × List ℕ)
loaded_or_raise [] = err (http_error 500)
loaded_or_raise (row ∷ rows) = ok (collect (row ∷ rows) [] [])

unfoldable pub load_tasks_with_completion_state :
    ℕ → ℕ → List Task → List Submission → Result (List Task × List ℕ)
load_tasks_with_completion_state trial_id session_id tasks submissions =
    loaded_or_raise (outer_join session_id submissions (tasks_of_trial trial_id tasks))

unfoldable pub set_of : List ℕ → List ℕ → List ℕ
set_of ids [] = ids
set_of ids (n ∷ ns) = set_of (add_id n ids) ns

-- The loop of `completed_task_ids_for_tasks` over them changes nothing.
unfoldable pub completed_task_ids : ℕ → List Submission → List ℕ
completed_task_ids session_id submissions =
    set_of [] (map (λ s. s.task_id) (keep (λ s. s.candidate_session_id == session_id) submissions))

-- `current_day <= 1`
abbrev pub is_first_day : Task → Bool
is_first_day task = leb_ℤ task.day_index (pos 1)

-- `int(task.day_index) == current_day - 1`, for a current day above 1.
abbrev pub is_day_before : Task → Task → Bool
is_day_before current task = elim current.day_index [
  | pos n ↦ eqb_ℤ task.day_index (pos (n - 1))
  | negsuc n ↦ false
]

abbrev pub before_start : ℕ → Option ℕ → Bool
before_start now none = true
before_start now (some start) = ltb now start

module _ (lower : Text → Text) (zone_info : Text → Option Zone) (from_iso : Text → Option ℕ) where
  abbrev pub is_prior_handoff : Task → List ℕ → Task → Bool
  is_prior_handoff current completed task =
      is_day_before current task
      && (is_in task.id completed && same_text (lower task.type) (codes "handoff"))

  unfoldable pub revisit : CandidateSession → Option Trial → ℕ → Task → Option Task → Task
  revisit session trial now current none = current
  revisit session trial now current (some prior_handoff) =
      let window = compute_task_window zone_info from_iso session trial current now in
      if before_start now window.window_start_at then prior_handoff else current

  unfoldable pub handoff_revisit_task :
      List Task → List ℕ → CandidateSession → Option Trial → ℕ → Option Task → Option Task
  handoff_revisit_task tasks completed session trial now none = none
  handoff_revisit_task tasks completed session trial now (some current) =
      if is_first_day current
      then some current
      else some
          (revisit session trial now current (find (is_prior_handoff current completed) tasks))

  -- `progress_snapshot` behind the loading: the current task, the count, the total, and whether all is done.
  unfoldable pub snapshot_of :
      CandidateSession → Option Trial → ℕ → List Task × List ℕ → Option Task × (ℕ × (ℕ × Bool))
  snapshot_of session trial now (tasks, completed) = (
    handoff_revisit_task tasks completed session trial now (compute_current_task tasks completed),
    summarize_progress (length tasks) completed,
  )

  -- The tasks that the caller has loaded, if any, with the ids of all submissions of the session; or
  -- both loaded. The tasks and the ids come first in what is returned.
  unfoldable pub progress_snapshot :
      List Task
      → CandidateSession
      → Option Trial
      → ℕ
      → List Task
      → List Submission
      → Result ((List Task × List ℕ) × (Option Task × (ℕ × (ℕ × Bool))))
  progress_snapshot [] session trial now tasks submissions =
      load_tasks_with_completion_state session.trial_id session.id tasks submissions >>= λ loaded.
      ok (loaded, snapshot_of session trial now loaded)
  progress_snapshot (task ∷ given) session trial now tasks submissions =
      let loaded : List Task × List ℕ = (task ∷ given, completed_task_ids session.id submissions) in
      ok (loaded, snapshot_of session trial now loaded)

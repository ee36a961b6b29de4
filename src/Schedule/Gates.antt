-- ===== src/Schedule/Gates.antt =====
-- The gates that the schedule sets: in app/candidates/candidate_sessions/services, the modules
-- candidates_candidate_sessions_services_candidates_candidate_sessions_schedule_gates_*_service.py.
-- A window never holds `None`, so the branch for it is left out. The trial of a session is an argument.
pub mod Agrees
pub mod Shown
pub mod Verdicts
use tenon_backend.Base.{
  ℕ, Bool, true, false, not, ◌&&◌, ◌||◌, Option, none, some, List, [], ◌∷◌, find, max, leb, ltb,
  is_none, if◌then◌else◌,
}
use tenon_backend.Base.Int.{ℤ, pos, negsuc, eqb_ℤ, ltb_ℤ}
use tenon_backend.Base.Text.{Text, codes, strip}
use tenon_backend.Base.Result.{Result, ok, err, api_error}
use tenon_backend.Json.{Fields}
use tenon_backend.Jobs.Shared.{is_empty}
use tenon_backend.Trials.Model.{Trial, CandidateSession}
use tenon_backend.Schedule.Model.{DayWindow, TaskWindow}
use tenon_backend.Schedule.Times.{Zone}
use tenon_backend.Schedule.Windows.{derive_day_windows}
use tenon_backend.Schedule.Current.{by_day}
use tenon_backend.Schedule.Serial.{to_second, deserialize_day_windows}

-- The columns of `tasks` that the modelled code reads.
pub record Task : Type 0 where
  pub id : ℕ
  pub trial_id : ℕ
  pub day_index : ℤ
  pub type : Text

-- `_normalize_optional_datetime`
abbrev pub normalize_optional_datetime : Option ℕ → Option ℕ
normalize_optional_datetime none = none
normalize_optional_datetime (some t) = some (to_second t)

unfoldable pub first_of_day : ℤ → DayWindow → List DayWindow → DayWindow
first_of_day day_index default windows =
    elim (find (λ window. eqb_ℤ window.day_index day_index) windows) [
      | none ↦ default
      | some window ↦ window
    ]

unfoldable pub pick_from : List DayWindow → Option DayWindow
pick_from [] = none
pick_from (window ∷ windows) = some (first_of_day (pos 1) window (window ∷ windows))

-- `_pick_day1_window`
unfoldable pub pick_day1_window : List DayWindow → Option DayWindow
pick_day1_window day_windows = pick_from (by_day day_windows)

-- `_window_for_day`
unfoldable pub window_for_day : List DayWindow → ℤ → Option DayWindow
window_for_day day_windows day_index = find (λ window. eqb_ℤ window.day_index day_index) day_windows

-- `_next_window_start_for_day`
unfoldable pub next_window_start_for_day : List DayWindow → ℤ → Option ℕ
next_window_start_for_day day_windows day_index =
    elim (find (λ window. ltb_ℤ day_index window.day_index) day_windows) [
      | none ↦ none
      | some window ↦ some (to_second window.window_start_at)
    ]

abbrev pub enabled_overrides : Trial → Option Fields
enabled_overrides trial =
    if trial.day_window_overrides_enabled then trial.day_window_overrides_json else none

abbrev pub timezone_of : CandidateSession → Text
timezone_of session = elim session.candidate_timezone [
  | none ↦ strip (codes "")
  | some name ↦ strip name
]

-- `except ValueError: return []`
abbrev pub windows_or_none : Result (List DayWindow) → List DayWindow
windows_or_none (ok windows) = windows
windows_or_none (err e) = []

-- `max(5, day_index)`
abbrev pub days_for_task : ℤ → ℕ
days_for_task (pos n) = max 5 n
days_for_task (negsuc n) = 5

abbrev pub closed_window : ℕ → TaskWindow
closed_window now = record {
  window_start_at = none;
  window_end_at = none;
  next_open_at = none;
  is_open = false;
  now = now;
}

unfoldable pub task_window_at : ℕ → List DayWindow → ℤ → Option DayWindow → TaskWindow
task_window_at now day_windows day_index none = closed_window now
task_window_at now day_windows day_index (some window) =
    let window_start_at = to_second window.window_start_at in
    let window_end_at = to_second window.window_end_at in
    record {
      window_start_at = some window_start_at;
      window_end_at = some window_end_at;
      next_open_at =
          if ltb now window_start_at
          then some window_start_at
          else if leb window_end_at now
          then next_window_start_for_day day_windows day_index
          else none;
      is_open = leb window_start_at now && ltb now window_end_at;
      now = now;
    }

unfoldable pub require_open : TaskWindow → Result (Unit {0})
require_open task_window =
    if task_window.is_open
    then ok tt
    else if is_none task_window.window_start_at || is_none task_window.window_end_at
    then err (api_error 409 (codes "SCHEDULE_INVALID_WINDOW"))
    else err (api_error 409 (codes "TASK_WINDOW_CLOSED"))

abbrev pub has_begun : ℕ → Option ℕ → Bool
has_begun now none = false
has_begun now (some start) = leb start now

module _ (zone_info : Text → Option Zone) (from_iso : Text → Option ℕ) where
  unfoldable pub derive_for : CandidateSession → Option ℕ → Option Trial → ℕ → List DayWindow
  derive_for session (some scheduled_start_at) (some trial) minimum_total_days =
      if is_empty (timezone_of session)
      then []
      else windows_or_none (
          derive_day_windows zone_info scheduled_start_at (timezone_of session)
            trial.day_window_start_local trial.day_window_end_local (enabled_overrides trial)
            (max 1 minimum_total_days))
  derive_for session _ _ minimum_total_days = []

  -- `_load_or_derive_day_windows_impl`
  unfoldable pub load_or_derive_day_windows : CandidateSession → Option Trial → ℕ → List DayWindow
  load_or_derive_day_windows session trial minimum_total_days =
      elim (deserialize_day_windows from_iso session.day_windows_json) [
        | [] ↦
            derive_for session (normalize_optional_datetime session.scheduled_start_at) trial
              minimum_total_days
        | window ∷ windows ↦ by_day (window ∷ windows)
      ]

  unfoldable pub compute_task_window : CandidateSession → Option Trial → Task → ℕ → TaskWindow
  compute_task_window session trial task now =
      let day_windows = load_or_derive_day_windows session trial (days_for_task task.day_index) in
      task_window_at now day_windows task.day_index (window_for_day day_windows task.day_index)

  unfoldable pub require_active_window :
      CandidateSession → Option Trial → Task → ℕ → Result (Unit {0})
  require_active_window session trial task now =
      require_open (compute_task_window session trial task now)

  -- The start and the end of the first day.
  unfoldable pub compute_day1_window : CandidateSession → Option Trial → Option ℕ × Option ℕ
  compute_day1_window session trial =
      elim (pick_day1_window (load_or_derive_day_windows session trial 1)) [
        | some window ↦
            (some (to_second window.window_start_at), some (to_second window.window_end_at))
        | none ↦ (normalize_optional_datetime session.scheduled_start_at, none)
      ]

  unfoldable pub is_schedule_started_for_content : CandidateSession → Option Trial → ℕ → Bool
  is_schedule_started_for_content session trial now =
      has_begun now (compute_day1_window session trial).0

  unfoldable pub ensure_schedule_started_for_content :
      CandidateSession → Option Trial → ℕ → Result (Unit {0})
  ensure_schedule_started_for_content session trial now =
      if is_schedule_started_for_content session trial now
      then ok tt
      else err (api_error 409 (codes "SCHEDULE_NOT_STARTED"))

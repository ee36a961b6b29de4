-- ===== src/Schedule/Gates/Verdicts.antt =====
-- What the gate of a task answers.
use tenon_backend.Base.{
  ℕ, ◌≡◌, ◌≤◌, ◌<◌, ◌⊎◌, refl, false, ◌&&◌, Option, none, some, List, leb, ltb, arith, Bool-cases,
  inl, inr,
}
use tenon_backend.Base.Int.{ℤ}
use tenon_backend.Base.Text.{Text, codes}
use tenon_backend.Base.Result.{Result, ok, err, api_error}
use tenon_backend.Trials.Model.{Trial, CandidateSession}
use tenon_backend.Schedule.Model.{DayWindow}
use tenon_backend.Schedule.Times.{Zone}
use tenon_backend.Schedule.Serial.{to_second}
use tenon_backend.Schedule.Gates.{
  Task, days_for_task, window_for_day, task_window_at, require_open, load_or_derive_day_windows,
  compute_task_window, require_active_window,
}

-- The answer by the window of the day, if there is one.
pub data Verdict (now : ℕ) (found : Option DayWindow) : Result (Unit {0}) → Type 0 where
  no_window :
      found ≡ none → Verdict now found (err (api_error 409 (codes "SCHEDULE_INVALID_WINDOW")))
  inside :
      (window : DayWindow)
      → found ≡ some window
      → to_second window.window_start_at ≤ now
      → now < to_second window.window_end_at
      → Verdict now found (ok tt)
  outside :
      (window : DayWindow)
      → found ≡ some window
      → (now < to_second window.window_start_at) ⊎ (to_second window.window_end_at ≤ now)
      → Verdict now found (err (api_error 409 (codes "TASK_WINDOW_CLOSED")))

is_outside :
    (now start end : ℕ) → (leb start now && ltb now end) ≡ false → (now < start) ⊎ (end ≤ now)
is_outside now start end h = ground arith

require_open-Verdict :
    (now : ℕ) (windows : List DayWindow) (day_index : ℤ) (found : Option DayWindow)
    → Verdict now found (require_open (task_window_at now windows day_index found))
unfolding require_open task_window_at
require_open-Verdict now windows day_index none = no_window refl
require_open-Verdict now windows day_index (some window) =
    let start = to_second window.window_start_at in
    let end = to_second window.window_end_at in
    elim (Bool-cases (leb start now && ltb now end)) [
      | inl within ↦ rw within (inside window refl (ground arith) (ground arith))
      | inr without ↦ rw without (outside window refl (is_outside now start end without))
    ]

-- The gate of a task has three answers: SCHEDULE_INVALID_WINDOW where the windows of the session, which the row holds
-- or which are derived, have none for the task's day; a pass from the second in which that window
-- opens until before the one in which it closes; and TASK_WINDOW_CLOSED at all other times.
pub require_active_window-Verdict :
    (zone_info : Text → Option Zone) (from_iso : Text → Option ℕ) (session : CandidateSession)
    (trial : Option Trial) (task : Task) (now : ℕ)
    → Verdict now
        (window_for_day
          (load_or_derive_day_windows zone_info from_iso session trial
            (days_for_task task.day_index))
          task.day_index)
        (require_active_window zone_info from_iso session trial task now)
unfolding require_active_window compute_task_window
require_active_window-Verdict zone_info from_iso session trial task now =
    let windows =
      load_or_derive_day_windows zone_info from_iso session trial (days_for_task task.day_index) in
    require_open-Verdict now windows task.day_index (window_for_day windows task.day_index)

-- ===== src/Schedule/Current.antt =====
-- `derive_current_day_window` of
-- candidates_candidate_sessions_services_scheduling_candidates_candidate_sessions_scheduling_day_windows_current_service.py.
pub mod Picks
use tenon_backend.Base.{
  ℕ, Bool, true, false, ◌&&◌, Option, none, some, List, [], ◌∷◌, leb, ltb, if◌then◌else◌,
}
use tenon_backend.Base.Int.{ℤ}
use tenon_backend.Base.Sort.{sort}
use tenon_backend.Schedule.Model.{DayWindow}

-- `ScheduleWindowState`
pub data WindowState : Type 0 where
  upcoming active closed : WindowState

pub record CurrentWindow : Type 0 where
  pub window : DayWindow
  pub state : WindowState

abbrev pub by_day : List DayWindow → List DayWindow
by_day = sort (λ window. window.day_index)

-- The loop over the ordered windows; `last` is the one before, for the return behind the loop.
unfoldable pub current_from : ℕ → DayWindow → List DayWindow → CurrentWindow
current_from now last [] = record { window = last; state = closed }
current_from now last (window ∷ windows) =
    let later = current_from now window windows in
    if leb window.window_start_at now && ltb now window.window_end_at
    then record { window = window; state = active }
    else if ltb now window.window_start_at
    then record { window = window; state = upcoming }
    else later

unfoldable pub current_of : ℕ → List DayWindow → Option CurrentWindow
current_of now [] = none
current_of now (window ∷ windows) = some (current_from now window (window ∷ windows))

unfoldable pub derive_current_day_window : ℕ → List DayWindow → Option CurrentWindow
derive_current_day_window now day_windows = current_of now (by_day day_windows)

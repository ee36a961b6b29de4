-- ===== src/Schedule/Windows.antt =====
-- `derive_day_windows_impl` of
-- candidates_candidate_sessions_services_scheduling_candidates_candidate_sessions_scheduling_day_windows_derivation_service.py.
-- `zone_info` is the look-up of a time zone. No date is beyond the last one that Python represents.
pub mod Derived
use tenon_backend.Base.{ℕ, zero, suc, ◌+◌, Option, none, some, List, [], ◌∷◌, leb, if◌then◌else◌}
use tenon_backend.Base.Int.{pos}
use tenon_backend.Base.Text.{Text, codes}
use tenon_backend.Base.Result.{Result, ok, err, value_error, raise_if, ◌>>=◌, ◌>>◌}
use tenon_backend.Json.{Fields}
use tenon_backend.Schedule.Model.{DayWindow}
use tenon_backend.Schedule.Times.{Zone, validate_timezone}
use tenon_backend.Schedule.Overrides.{DayTimes, times_of_day, normalize_overrides}

abbrev pub after_start : Text
after_start = codes "Window end must be after start"

-- The window of the day that is `offset` days after the first one.
unfoldable pub window_on : Zone → ℕ → ℕ × ℕ → DayTimes → ℕ → DayWindow
window_on zone day_one default overrides offset =
    let (start_local, end_local) = times_of_day (pos (offset + 1)) default overrides in
    record {
      day_index = pos (offset + 1);
      window_start_at = zone.to_utc (day_one + offset) start_local;
      window_end_at = zone.to_utc (day_one + offset) end_local;
    }

-- The loop from `offset` on, with `left` rounds to go.
unfoldable pub windows_from : Zone → ℕ → ℕ × ℕ → DayTimes → ℕ → ℕ → Result (List DayWindow)
windows_from zone day_one default overrides zero offset = ok []
windows_from zone day_one default overrides (suc left) offset = do
  let window = window_on zone day_one default overrides offset
  raise_if (leb window.window_end_at window.window_start_at) (value_error after_start)
  later ← windows_from zone day_one default overrides left (offset + 1)
  ok (window ∷ later)

unfoldable pub zone_or_raise : (Text → Option Zone) → Text → Result Zone
zone_or_raise zone_info name = elim (zone_info name) [
  | none ↦ err (value_error (codes "Invalid timezone"))
  | some zone ↦ ok zone
]

-- `overrides if overrides_enabled else None` is the caller's.
unfoldable pub derive_day_windows :
    (Text → Option Zone) → ℕ → Text → ℕ → ℕ → Option Fields → ℕ → Result (List DayWindow)
derive_day_windows zone_info scheduled_start_at candidate_tz start_local end_local overrides
      total_days =
    do
      raise_if (leb total_days 0) (value_error (codes "total_days must be greater than zero"))
      raise_if (leb end_local start_local) (value_error after_start)
      name ← validate_timezone zone_info candidate_tz
      zone ← zone_or_raise zone_info name
      normalized ← normalize_overrides overrides
      windows_from zone (zone.local_date scheduled_start_at) (start_local, end_local) normalized
          total_days 0

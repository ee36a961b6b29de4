-- ===== src/Schedule/Model.antt =====
-- The windows of the days, in which a candidate may work: the `dict`s with `dayIndex`,
-- `windowStartAt` and `windowEndAt`, and `TaskWindow` of
-- candidates_candidate_sessions_services_candidates_candidate_sessions_schedule_gates_model.py.
use tenon_backend.Base.{ℕ, ◌*◌, Bool, Option}
use tenon_backend.Base.Int.{ℤ}
use tenon_backend.Jobs.Model.{second}

-- The instants are in UTC, which is what `coerce_utc_datetime` makes of them.
pub record DayWindow : Type 0 where
  pub day_index : ℤ
  pub window_start_at : ℕ
  pub window_end_at : ℕ

pub record TaskWindow : Type 0 where
  pub window_start_at : Option ℕ
  pub window_end_at : Option ℕ
  pub next_open_at : Option ℕ
  pub is_open : Bool
  pub now : ℕ

abbrev pub minute : ℕ
minute = 60 * second

abbrev pub day : ℕ
day = 86400 * second

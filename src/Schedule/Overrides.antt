-- ===== src/Schedule/Overrides.antt =====
-- `_normalize_overrides` of
-- candidates_candidate_sessions_services_scheduling_candidates_candidate_sessions_scheduling_day_windows_utils.py:
-- the times of single days that the owner of a trial has set.
use tenon_backend.Base.{
  ℕ, ◌==◌, Bool, true, false, not, Option, none, some, List, [], ◌∷◌, leb, if◌then◌else◌,
}
use tenon_backend.Base.Int.{ℤ, eqb_ℤ}
use tenon_backend.Base.Text.{codes}
use tenon_backend.Base.Result.{Result, ok, value_error, raise_if, ◌>>=◌, ◌>>◌}
use tenon_backend.Json.{
  Json, null, boolean, number, negative, string, array, object, no_items, Fields, no_fields, field,
  get,
}
use tenon_backend.Jobs.Shared.{is_empty}
use tenon_backend.Schedule.Times.{coerce_day_key, parse_local_time}

-- A `dict` from days to the start and the end of the day's window.
abbrev pub DayTimes : Type 0
DayTimes = List (ℤ × (ℕ × ℕ))

unfoldable pub set_day : ℤ → ℕ × ℕ → DayTimes → DayTimes
set_day day times [] = (day, times) ∷ []
set_day day times ((other, old) ∷ rest) =
    let later = set_day day times rest in
    if eqb_ℤ other day then (other, times) ∷ rest else (other, old) ∷ later

-- `normalized_overrides.get(day, default)`
unfoldable pub times_of_day : ℤ → ℕ × ℕ → DayTimes → ℕ × ℕ
times_of_day day default [] = default
times_of_day day default ((other, times) ∷ rest) =
    if eqb_ℤ other day then times else times_of_day day default rest

-- The truth of a value in Python; `none` is `None`.
abbrev pub is_truthy : Option Json → Bool
is_truthy none = false
is_truthy (some null) = false
is_truthy (some (boolean b)) = b
is_truthy (some (number n)) = not (n == 0)
is_truthy (some (negative n)) = true
is_truthy (some (string s)) = not (is_empty s)
is_truthy (some (array no_items)) = false
is_truthy (some (array _)) = true
is_truthy (some (object no_fields)) = false
is_truthy (some (object _)) = true

-- `a or b or c`
abbrev pub first_truthy : Option Json → Option Json → Option Json → Option Json
first_truthy a b c = if is_truthy a then a else if is_truthy b then b else c

abbrev pub raw_start : Fields → Option Json
raw_start window =
    first_truthy (get (codes "startLocal") window) (get (codes "windowStartLocal") window)
      (get (codes "start") window)

abbrev pub raw_end : Fields → Option Json
raw_end window =
    first_truthy (get (codes "endLocal") window) (get (codes "windowEndLocal") window)
      (get (codes "end") window)

-- `null` is `None`.
abbrev pub given : Option Json → Option Json
given (some null) = none
given value = value

unfoldable pub parse_window : Option Json → Option Json → Result (Option (ℕ × ℕ))
parse_window (some start) (some end) = do
  start_local ← parse_local_time start
  end_local ← parse_local_time end
  raise_if (leb end_local start_local) (value_error (codes "Window end must be after start"))
  ok (some (start_local, end_local))
parse_window _ _ = ok none

-- What one item of the `dict` gives: `none` is the `continue`.
unfoldable pub parse_override : Option ℤ → Json → Result (Option (ℕ × ℕ))
parse_override none window = ok none
parse_override (some day) (object window) =
    parse_window (given (raw_start window)) (given (raw_end window))
parse_override (some day) _ = ok none

unfoldable pub add_override : Option ℤ → Option (ℕ × ℕ) → DayTimes → DayTimes
add_override (some day) (some times) normalized = set_day day times normalized
add_override _ _ normalized = normalized

unfoldable pub normalize_fields : DayTimes → Fields → Result DayTimes
normalize_fields normalized no_fields = ok normalized
normalize_fields normalized (field raw_day raw_window rest) =
    parse_override (coerce_day_key raw_day) raw_window >>= λ times.
    normalize_fields (add_override (coerce_day_key raw_day) times normalized) rest

unfoldable pub normalize_overrides : Option Fields → Result DayTimes
normalize_overrides none = ok []
normalize_overrides (some overrides) = normalize_fields [] overrides

-- ===== src/Schedule/Serial.antt =====
-- candidates_candidate_sessions_services_scheduling_candidates_candidate_sessions_scheduling_day_windows_serialization_service.py:
-- the windows as a session's row holds them.
pub mod RoundTrip
use tenon_backend.Base.{
  ℕ, zero, suc, ◌+◌, ◌-◌, ◌*◌, ◌/◌, ◌%◌, Bool, true, false, not, ◌&&◌, ◌||◌, Option, none, some,
  List, [], ◌∷◌, ◌++◌, leb, ltb, ◌==◌, if◌then◌else◌,
}
use tenon_backend.Base.Int.{ℤ, pos, negsuc}
use tenon_backend.Base.Sort.{sort}
use tenon_backend.Base.Text.{Text, codes, starts_with}
use tenon_backend.Json.{
  Json, number, negative, string, array, object, Items, no_items, item, Fields, no_fields, field,
  get,
}
use tenon_backend.Jobs.Model.{second}
use tenon_backend.Schedule.Model.{DayWindow, day}
use tenon_backend.Schedule.Times.{coerce_day_index}
use tenon_backend.Schedule.Current.{by_day}

is_leap : ℕ → Bool
is_leap year = (year % 4 == 0) && (not (year % 100 == 0) || (year % 400 == 0))

days_in_year : ℕ → ℕ
unfolding is_leap
days_in_year year = if is_leap year then 366 else 365

days_in_month : ℕ → ℕ → ℕ
unfolding is_leap
days_in_month year month =
    if month == 2
    then if is_leap year then 29 else 28
    else if month == 4 || (month == 6 || (month == 9 || month == 11))
    then 30
    else 31

-- The year of a day and the days before it in that year. `left` years are looked at.
year_from : ℕ → ℕ → ℕ → ℕ × ℕ
unfolding days_in_year
year_from zero year days = (year, days)
year_from (suc left) year days =
    let later = year_from left (year + 1) (days - days_in_year year) in
    if ltb days (days_in_year year) then (year, days) else later

month_from : ℕ → ℕ → ℕ → ℕ → ℕ × ℕ
unfolding days_in_month
month_from zero year month days = (month, days)
month_from (suc left) year month days =
    let later = month_from left year (month + 1) (days - days_in_month year month) in
    if ltb days (days_in_month year month) then (month, days) else later

abbrev digit : ℕ → ℕ
digit n = b'0' + n % 10

abbrev two : ℕ → Text
two n = digit (n / 10) ∷ digit n ∷ []

abbrev four : ℕ → Text
four n = digit (n / 1000) ∷ digit (n / 100) ∷ digit (n / 10) ∷ digit n ∷ []

iso_date_of : ℕ → ℕ × ℕ → Text
iso_date_of year (month, days) = four year ++ b'-' ∷ two month ++ b'-' ∷ two (days + 1)

iso_date_in : ℕ × ℕ → Text
unfolding iso_date_of month_from
iso_date_in (year, days) = iso_date_of year (month_from 12 year 1 days)

-- The date of the day that is `days` after 0001-01-01.
iso_date : ℕ → Text
unfolding iso_date_in year_from
iso_date days = iso_date_in (year_from 9999 1 days)

iso_time : ℕ → Text
iso_time seconds =
    two (seconds / 3600) ++ b':' ∷ two (seconds / 60 % 60) ++ b':' ∷ two (seconds % 60)

-- `value.isoformat(timespec="seconds")` of a `datetime` in UTC.
unfoldable pub isoformat : ℕ → Text
unfolding iso_date iso_time
isoformat t = iso_date (t / day) ++ b'T' ∷ iso_time (t / second % 86400) ++ codes "+00:00"

-- `text.replace("+00:00", "Z")`
unfoldable pub offset_to_z : Text → Text
offset_to_z [] = []
offset_to_z (a ∷ b ∷ c ∷ d ∷ e ∷ f ∷ s) =
    let shorter = b'Z' ∷ offset_to_z s in
    let kept = a ∷ offset_to_z (b ∷ c ∷ d ∷ e ∷ f ∷ s) in
    if starts_with (codes "+00:00") (a ∷ b ∷ c ∷ d ∷ e ∷ f ∷ []) then shorter else kept
offset_to_z s = s

-- `text.replace("Z", "+00:00")`
unfoldable pub z_to_offset : Text → Text
z_to_offset [] = []
z_to_offset (c ∷ s) = if c == b'Z' then codes "+00:00" ++ z_to_offset s else c ∷ z_to_offset s

-- `replace(microsecond=0)`
abbrev pub to_second : ℕ → ℕ
to_second t = t / second * second

unfoldable pub format_utc_iso : ℕ → Text
format_utc_iso value = offset_to_z (isoformat (to_second value))

unfoldable pub serialize_index : ℤ → Json
serialize_index (pos n) = number n
serialize_index (negsuc n) = negative n

serialize_window : DayWindow → Json
unfolding serialize_index
serialize_window window = object (
    field (codes "dayIndex") (serialize_index window.day_index) (
      field (codes "windowStartAt") (string (format_utc_iso window.window_start_at))
        (field (codes "windowEndAt") (string (format_utc_iso window.window_end_at)) no_fields)))

serialize_items : List DayWindow → Items
unfolding serialize_window
serialize_items [] = no_items
serialize_items (window ∷ windows) = item (serialize_window window) (serialize_items windows)

unfoldable pub serialize_day_windows : List DayWindow → Json
unfolding serialize_items
serialize_day_windows day_windows = array (serialize_items day_windows)

-- `from_iso` is `datetime.fromisoformat` followed by `coerce_utc_datetime`: the instant of a text, and
-- `none` for the `ValueError`.
module _ (from_iso : Text → Option ℕ) where
  window_at : ℤ → Option ℕ → Option ℕ → Option DayWindow
  window_at day_index (some start_at) (some end_at) =
      some (record { day_index = day_index; window_start_at = start_at; window_end_at = end_at })
  window_at day_index _ _ = none

  deserialize_values : Option ℤ → Option Json → Option Json → Option DayWindow
  unfolding window_at
  deserialize_values (some day_index) (some (string start_raw)) (some (string end_raw)) =
      window_at day_index (from_iso (z_to_offset start_raw)) (from_iso (z_to_offset end_raw))
  deserialize_values _ _ _ = none

  -- `none` is the `continue`.
  unfoldable pub deserialize_window : Json → Option DayWindow
  unfolding deserialize_values
  deserialize_window (object fields) =
      deserialize_values (coerce_day_index (get (codes "dayIndex") fields))
        (get (codes "windowStartAt") fields) (get (codes "windowEndAt") fields)
  deserialize_window _ = none

  prepend : Option DayWindow → List DayWindow → List DayWindow
  prepend none windows = windows
  prepend (some window) windows = window ∷ windows

  deserialize_items : Items → List DayWindow
  unfolding prepend
  deserialize_items no_items = []
  deserialize_items (item raw rest) = prepend (deserialize_window raw) (deserialize_items rest)

  -- `none` is `None`.
  unfoldable pub deserialize_day_windows : Option Json → List DayWindow
  unfolding deserialize_items
  deserialize_day_windows (some (array items)) = by_day (deserialize_items items)
  deserialize_day_windows _ = []

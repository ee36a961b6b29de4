-- ===== src/Schedule/Tests.antt =====
-- Two days of work, five hours behind UTC, and the theorems of the schedule at them.
use mathlib.Core.Path.{subst}
use mathlib.Core.Option.{some-injective}
use tenon_backend.Base.{
  leb, ℕ, ◌+◌, ◌*◌, ◌/◌, ◌≡◌, ◌↔◌, refl, Option, none, some, List, [], ◌∷◌, map, All, length, arith,
  if◌then◌else◌,
}
use tenon_backend.Base.Int.{pos}
use tenon_backend.Base.Sort.{sort, insert}
use tenon_backend.Base.Text.{Text, codes, same_text, strip, lstrip, is_space, starts_with}
use tenon_backend.Base.Result.{ok, err, api_error}
use tenon_backend.Json.{
  Json, null, number, string, array, object, item, no_items, Fields, no_fields, field, get,
}
use tenon_backend.Trials.Model.{CandidateSession}
use tenon_backend.Schedule.Model.{DayWindow, minute, day}
use tenon_backend.Schedule.Times.{
  Zone, to_number, coerce_day_index, parse_minutes, parse_hours_minutes, parse_local_time,
  validate_timezone,
}
use tenon_backend.Schedule.Overrides.{
  DayTimes, set_day, times_of_day, parse_window, parse_override, add_override, normalize_fields,
  normalize_overrides,
}
use tenon_backend.Schedule.Windows.{window_on, windows_from, zone_or_raise, derive_day_windows}
use tenon_backend.Schedule.Windows.Derived.{
  NumberedFrom, Opens, IsInOrder, ShiftsBy, AllWithin, derive_day_windows-Opens,
  derive_day_windows-IsInOrder,
}
use tenon_backend.Schedule.Current.{
  active, by_day, current_from, current_of, derive_current_day_window,
}
use tenon_backend.Schedule.Current.Picks.{Picks, derive_current_day_window-Picks}
use tenon_backend.Schedule.Serial.{
  isoformat, offset_to_z, z_to_offset, format_utc_iso, serialize_day_windows, deserialize_window,
  deserialize_day_windows,
}
use tenon_backend.Schedule.Serial.RoundTrip.{whole_seconds, deserialize-serialize_day_windows}
use tenon_backend.Schedule.Gates.{
  Task, window_for_day, task_window_at, require_open, load_or_derive_day_windows,
  compute_task_window, require_active_window,
}
use tenon_backend.Schedule.Gates.Verdicts.{Verdict, require_active_window-Verdict}
use tenon_backend.Schedule.Gates.Agrees.{active_in}
use tenon_backend.Schedule.Gates.Shown.{require_active_window_iff}

abbrev hour : ℕ
hour = 60 * minute

abbrev behind : Zone
behind = record { local_date = λ t. t / day; to_utc = λ date time. date * day + time + 5 * hour }

-- A zone that skips a day.
abbrev skipping : Zone
skipping = record {
  local_date = λ t. t / day;
  to_utc = λ date time. if leb date 3 then date * day + time else date * day + time + day;
}

unfoldable zone_info : Text → Option Zone
zone_info name =
    if same_text name (codes "EST")
    then some behind
    else if same_text name (codes "Pacific/Apia")
    then some skipping
    else none

-- The second day begins an hour later.
abbrev overrides : Fields
overrides =
    field (codes " 2 ")
      (object (
        field (codes "startLocal") (string (codes "10:00"))
          (field (codes "endLocal") (string (codes "17:00")) no_fields)))
      no_fields

abbrev first_day : DayWindow
first_day = record { day_index = pos 1; window_start_at = 14 * hour; window_end_at = 22 * hour }

abbrev second_day : DayWindow
second_day = record {
  day_index = pos 2;
  window_start_at = day + 15 * hour;
  window_end_at = day + 22 * hour;
}

abbrev two_days : List DayWindow
two_days = first_day ∷ second_day ∷ []

overridden : normalize_overrides (some overrides) ≡ ok ((pos 2, (10 * hour, 17 * hour)) ∷ [])
unfolding normalize_overrides normalize_fields parse_override parse_window parse_local_time
    parse_hours_minutes parse_minutes to_number coerce_day_index add_override set_day strip lstrip
    is_space get same_text
overridden = refl

derived :
    derive_day_windows zone_info 0 (codes "EST") (9 * hour) (17 * hour) (some overrides) 2
    ≡ ok two_days
unfolding derive_day_windows zone_info zone_or_raise validate_timezone windows_from window_on
    times_of_day normalize_overrides normalize_fields parse_override parse_window parse_local_time
    parse_hours_minutes parse_minutes to_number coerce_day_index add_override set_day strip lstrip
    is_space get same_text
derived = refl

abbrev stored : Json
stored = array (
    item
      (object (
        field (codes "dayIndex") (number 1) (
          field (codes "windowStartAt") (string (codes "0001-01-01T14:00:00Z"))
            (field (codes "windowEndAt") (string (codes "0001-01-01T22:00:00Z")) no_fields))))
      (item
        (object (
          field (codes "dayIndex") (number 2) (
            field (codes "windowStartAt") (string (codes "0001-01-02T15:00:00Z"))
              (field (codes "windowEndAt") (string (codes "0001-01-02T22:00:00Z")) no_fields))))
        no_items))

serialized : serialize_day_windows two_days ≡ stored
unfolding serialize_day_windows format_utc_iso isoformat offset_to_z starts_with
serialized = refl

unfoldable from_iso : Text → Option ℕ
from_iso text =
    if same_text text (codes "0001-01-01T14:00:00+00:00")
    then some (14 * hour)
    else if same_text text (codes "0001-01-01T22:00:00+00:00")
    then some (22 * hour)
    else if same_text text (codes "0001-01-02T15:00:00+00:00")
    then some (day + 15 * hour)
    else if same_text text (codes "0001-01-02T22:00:00+00:00")
    then some (day + 22 * hour)
    else none

read_back : deserialize_day_windows from_iso (some stored) ≡ two_days
unfolding deserialize_day_windows deserialize_window from_iso z_to_offset coerce_day_index get
    same_text sort insert
read_back = refl

no_row : deserialize_day_windows from_iso (some null) ≡ []
unfolding deserialize_day_windows
no_row = refl

deserialize-serialize_day_windows_example :
    deserialize_day_windows from_iso (some (serialize_day_windows two_days))
    ≡ map whole_seconds two_days
unfolding from_iso isoformat same_text
deserialize-serialize_day_windows_example =
    deserialize-serialize_day_windows from_iso two_days (refl, tt)
      ((refl, refl), ((refl, refl), tt))

derive_day_windows-Opens_example :
    (length two_days ≡ 2) × NumberedFrom 1 two_days × All Opens two_days
derive_day_windows-Opens_example =
    derive_day_windows-Opens zone_info 0 (codes "EST") (9 * hour) (17 * hour) (some overrides) 2
      derived

-- The zone keeps its offset; that of the other zone of the table skips a day.
behind-ShiftsBy : ShiftsBy 0 (9 * hour) (17 * hour) behind (behind.local_date 0) 2
behind-ShiftsBy offset start end more late early = omega arith

zone_info-ShiftsBy :
    (zone : Zone)
    → zone_info (strip (codes "EST")) ≡ some zone
    → ShiftsBy 0 (9 * hour) (17 * hour) zone (zone.local_date 0) 2
unfolding zone_info same_text strip lstrip is_space
zone_info-ShiftsBy zone h =
    subst (λ (z : Zone). ShiftsBy 0 (9 * hour) (17 * hour) z (z.local_date 0) 2)
      (some-injective _ _ h) behind-ShiftsBy

overrides-AllWithin :
    (normalized : DayTimes)
    → normalize_overrides (some overrides) ≡ ok normalized
    → AllWithin (9 * hour) (17 * hour) normalized
overrides-AllWithin normalized h =
    let same : (pos 2, (10 * hour, 17 * hour)) ∷ [] ≡ normalized = (let made = overridden in cc) in
    subst (AllWithin (9 * hour) (17 * hour)) same (((ground arith), (ground arith)), tt)

derive_day_windows-IsInOrder_example : IsInOrder two_days
derive_day_windows-IsInOrder_example =
    derive_day_windows-IsInOrder zone_info 0 (codes "EST") (9 * hour) (17 * hour) (some overrides) 2
      (9 * hour) (17 * hour) 0 zone_info-ShiftsBy (ground arith) ((ground arith), (ground arith))
      overrides-AllWithin derived

current :
    derive_current_day_window (15 * hour) two_days
    ≡ some (record { window = first_day; state = active })
unfolding derive_current_day_window current_of current_from sort insert
current = refl

derive_current_day_window-Picks_example : Picks (15 * hour) (by_day two_days) first_day active
derive_current_day_window-Picks_example =
    derive_current_day_window-Picks (15 * hour) two_days current

abbrev design : Task
design = record { id = 5; trial_id = 1; day_index = pos 2; type = codes "design" }

abbrev scheduled : CandidateSession
scheduled = record {
  id = 11;
  trial_id = 1;
  invite_email = codes "a@b";
  token = codes "t";
  status = codes "in_progress";
  candidate_email = some (codes "a@b");
  candidate_auth0_sub = some (codes "ann");
  candidate_auth0_email = some (codes "a@b");
  claimed_at = some 50;
  started_at = some 50;
  completed_at = none;
  expires_at = none;
  scheduled_start_at = some (14 * hour);
  candidate_timezone = some (codes "EST");
  github_username = some (codes "ann");
  day_windows_json = some stored;
  schedule_locked_at = some 60;
}

-- At the end of the second day's window the gate is closed.
require_active_window_iff_example :
    (require_active_window zone_info from_iso scheduled none design (day + 22 * hour) ≡ ok tt) ↔ (
      (window : DayWindow) × (derive_current_day_window (day + 22 * hour) two_days
        ≡ some (active_in window))
      × (window.day_index ≡ pos 2))
require_active_window_iff_example =
    require_active_window_iff zone_info from_iso scheduled none design (day + 22 * hour) first_day
      (second_day ∷ []) 1 read_back (refl, (refl, tt)) ((ground arith), ((ground arith), tt))
      ((ground arith), tt) ((refl, refl), ((refl, refl), tt))

require_active_window-Verdict_example :
    Verdict
      (15 * hour)
      (window_for_day (load_or_derive_day_windows zone_info from_iso scheduled none 5) (pos 2))
      (require_active_window zone_info from_iso scheduled none design (15 * hour))
require_active_window-Verdict_example =
    require_active_window-Verdict zone_info from_iso scheduled none design (15 * hour)

-- On the first day the second one is closed.
too_early :
    require_active_window zone_info from_iso scheduled none design (15 * hour)
    ≡ err (api_error 409 (codes "TASK_WINDOW_CLOSED"))
unfolding require_active_window compute_task_window load_or_derive_day_windows window_for_day
    task_window_at require_open deserialize_day_windows deserialize_window from_iso z_to_offset
    coerce_day_index get same_text sort insert
too_early = refl

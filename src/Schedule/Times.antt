-- ===== src/Schedule/Times.antt =====
-- `parse_local_time`, `validate_timezone` and `_coerce_day_index` of
-- candidates_candidate_sessions_services_scheduling_candidates_candidate_sessions_scheduling_day_windows_utils.py,
-- and the zones. A `time` is the microseconds since midnight.
use tenon_backend.Base.{
  ℕ, ◌+◌, ◌-◌, ◌*◌, Bool, true, false, ◌&&◌, Option, none, some, [], ◌∷◌, leb, ltb, ◌==◌,
  if◌then◌else◌,
}
use tenon_backend.Base.Int.{ℤ, pos, negsuc}
use tenon_backend.Base.Text.{Text, codes, strip}
use tenon_backend.Base.Result.{Result, ok, err, value_error, raise_if, ◌>>◌}
use tenon_backend.Json.{Json, number, negative, boolean, string}
use tenon_backend.Jobs.Shared.{is_empty}
use tenon_backend.Schedule.Model.{minute}

-- A zone of the IANA database, as `ZoneInfo` reads it: the local date of an instant, counted in days,
-- and the instant of a local date and time.
pub record Zone : Type 0 where
  pub local_date : ℕ → ℕ
  pub to_utc : ℕ → ℕ → ℕ

-- The ASCII digits. `str.isdigit` and `\d` also take the digits of other scripts, which no value here has.
abbrev pub is_digit : ℕ → Bool
is_digit c = leb b'0' c && leb c b'9'

abbrev pub all_digits : Text → Bool
all_digits [] = true
all_digits (c ∷ s) = is_digit c && all_digits s

-- `str.isdigit`
abbrev pub is_number : Text → Bool
is_number [] = false
is_number (c ∷ s) = is_digit c && all_digits s

number_from : ℕ → Text → ℕ
number_from n [] = n
number_from n (c ∷ s) = number_from (n * 10 + (c - b'0')) s

-- `int` of a text of digits.
unfoldable pub to_number : Text → ℕ
unfolding number_from
to_number s = number_from 0 s

-- `True` and `False` are instances of `int`. `none` is a value that is no day, or a missing key.
unfoldable pub coerce_day_index : Option Json → Option ℤ
coerce_day_index (some (number n)) = some (pos n)
coerce_day_index (some (negative n)) = some (negsuc n)
coerce_day_index (some (boolean true)) = some (pos 1)
coerce_day_index (some (boolean false)) = some (pos 0)
coerce_day_index (some (string s)) =
    let digits = strip s in if is_number digits then some (pos (to_number digits)) else none
coerce_day_index _ = none

-- The key of a JSON object is a text.
abbrev pub coerce_day_key : Text → Option ℤ
coerce_day_key key = coerce_day_index (some (string key))

-- `%M` after `%H:`: one or two digits below 60.
unfoldable pub parse_minutes : Text → Option ℕ
parse_minutes (a ∷ []) = if is_digit a then some (a - b'0') else none
parse_minutes (a ∷ b ∷ []) =
    if is_digit a && (is_digit b && ltb (to_number (a ∷ b ∷ [])) 60)
    then some (to_number (a ∷ b ∷ []))
    else none
parse_minutes _ = none

at_minute : ℕ → Option ℕ → Option ℕ
at_minute hour none = none
at_minute hour (some minutes) = some ((hour * 60 + minutes) * minute)

-- `datetime.strptime(text, "%H:%M").time()`: one or two digits below 24, a colon, and `%M`.
unfoldable pub parse_hours_minutes : Text → Option ℕ
unfolding at_minute
parse_hours_minutes (a ∷ b ∷ []) = none
parse_hours_minutes (a ∷ b ∷ c ∷ rest) =
    if is_digit a && b == b':'
    then at_minute (a - b'0') (parse_minutes (c ∷ rest))
    else if is_digit a && (is_digit b && (ltb (to_number (a ∷ b ∷ [])) 24 && c == b':'))
    then at_minute (to_number (a ∷ b ∷ [])) (parse_minutes rest)
    else none
parse_hours_minutes _ = none

time_or_raise : Option ℕ → Result ℕ
time_or_raise none = err (value_error (codes "Time value must be HH:MM"))
time_or_raise (some t) = ok t

unfoldable pub parse_local_time : Json → Result ℕ
unfolding time_or_raise
parse_local_time (string s) = time_or_raise (parse_hours_minutes (strip s))
parse_local_time _ = err (value_error (codes "Time value must be HH:MM"))

-- `zone_info` is the look-up of a key in the database; the zone's own `key` is that key.
unfoldable pub validate_timezone : (Text → Option Zone) → Text → Result Text
validate_timezone zone_info tz_str = do
  let timezone_name = strip tz_str
  raise_if (is_empty timezone_name) (value_error (codes "Timezone is required"))
  elim (zone_info timezone_name) [
    | none ↦ err (value_error (codes "Invalid timezone"))
    | some zone ↦ ok timezone_name
  ]

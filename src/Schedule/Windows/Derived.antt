-- ===== src/Schedule/Windows/Derived.antt =====
-- What the derived windows are like.
use tenon_backend.Base.{
  ℕ, zero, suc, ◌+◌, ◌≤◌, ◌<◌, ◌≡◌, refl, sym, ap, Option, some, List, [], ◌∷◌, leb, length, All,
  arith, Bool-cases, inl, inr,
}
use mathlib.Core.Path.{subst}
use tenon_backend.Base.Int.{ℤ, pos, eqb_ℤ}
use tenon_backend.Base.Text.{Text, codes, strip}
use tenon_backend.Base.Result.{ok, value_error, raise_if, >>=-ok}
use tenon_backend.Json.{Fields}
use tenon_backend.Schedule.Model.{DayWindow, day}
use tenon_backend.Schedule.Times.{Zone, validate_timezone}
use tenon_backend.Schedule.Overrides.{DayTimes, times_of_day, normalize_overrides}
use tenon_backend.Schedule.Windows.{
  after_start, window_on, windows_from, zone_or_raise, derive_day_windows,
}

-- Numbered one after the other, the first one as given.
abbrev pub NumberedFrom : ℕ → List DayWindow → Type 0
NumberedFrom n [] = Unit
NumberedFrom n (window ∷ windows) = (window.day_index ≡ pos n) × NumberedFrom (suc n) windows

abbrev pub Opens : DayWindow → Type 0
Opens window = window.window_start_at < window.window_end_at

-- Each window closes before the next one opens, or as it opens.
abbrev pub IsInOrder : List DayWindow → Type 0
IsInOrder [] = Unit
IsInOrder (window ∷ []) = Unit
IsInOrder (window ∷ next ∷ windows) =
    (window.window_end_at ≤ next.window_start_at) × IsInOrder (next ∷ windows)

-- From each of the given days, counted from a date, to the next one the zone's offset from UTC grows by at most `shift`,
-- at local times between two times.
abbrev pub ShiftsBy : ℕ → ℕ → ℕ → Zone → ℕ → ℕ → Type 0
ShiftsBy shift earliest latest zone day_one days =
    (offset start end : ℕ)
    → offset + 1 < days
    → earliest ≤ start
    → end ≤ latest
    → zone.to_utc (day_one + offset) end + day + start
      ≤ zone.to_utc (day_one + (offset + 1)) start + end + shift

-- All times of a day lie between two times.
abbrev pub Within : ℕ → ℕ → ℕ × ℕ → Type 0
Within earliest latest times = (earliest ≤ times.0) × (times.1 ≤ latest)

abbrev pub AllWithin : ℕ → ℕ → DayTimes → Type 0
AllWithin earliest latest overrides = All (λ entry. Within earliest latest entry.1) overrides

times_of_day-Within :
    (earliest latest : ℕ) (d : ℤ) (default : ℕ × ℕ) (overrides : DayTimes)
    → Within earliest latest default
    → AllWithin earliest latest overrides
    → Within earliest latest (times_of_day d default overrides)
unfolding times_of_day
times_of_day-Within earliest latest d default [] usual all = usual
times_of_day-Within earliest latest d default ((other, times) ∷ rest) usual all =
    elim (Bool-cases (eqb_ℤ other d)) [
      | inl same ↦ rw same all.0
      | inr differs ↦ rw differs (times_of_day-Within earliest latest d default rest usual all.1)
    ]

the_next : (offset : ℕ) → offset + 1 + 1 ≡ suc (offset + 1)
the_next offset = omega arith

validate_timezone-ok :
    (zone_info : Text → Option Zone) (candidate_tz : Text) {name : Text}
    → validate_timezone zone_info candidate_tz ≡ ok name
    → name ≡ strip candidate_tz
unfolding validate_timezone
validate_timezone-ok zone_info candidate_tz h = ground arith

zone_or_raise-ok :
    (zone_info : Text → Option Zone) (name : Text) {zone : Zone}
    → zone_or_raise zone_info name ≡ ok zone
    → zone_info name ≡ some zone
unfolding zone_or_raise
zone_or_raise-ok zone_info name h = ground arith

module _ (zone : Zone) (day_one : ℕ) (default : ℕ × ℕ) (overrides : DayTimes) where
  -- A round that succeeds: its window opens, and the later rounds succeed.
  windows_from-suc :
      (left offset : ℕ) {windows : List DayWindow}
      → windows_from zone day_one default overrides (suc left) offset ≡ ok windows
      → Opens (window_on zone day_one default overrides offset)
        × ((later : List DayWindow) × (windows_from zone day_one default overrides left (offset + 1)
              ≡ ok later)
            × (window_on zone day_one default overrides offset ∷ later ≡ windows))
  unfolding windows_from
  windows_from-suc left offset h =
      let window = window_on zone day_one default overrides offset in
      let (_, opens, rest) =
        >>=-ok
          (raise_if (leb window.window_end_at window.window_start_at) (value_error after_start)) _
          h in
      let (later, made, done) =
        >>=-ok (windows_from zone day_one default overrides left (offset + 1)) _ rest in
      (ground arith, (later, made, cc))

  window_on-day :
      (offset : ℕ) → (window_on zone day_one default overrides offset).day_index ≡ pos (offset + 1)
  unfolding window_on
  window_on-day offset = refl

  windows_from-length :
      (left offset : ℕ) {windows : List DayWindow}
      → windows_from zone day_one default overrides left offset ≡ ok windows
      → (length windows ≡ left) × NumberedFrom (offset + 1) windows × All Opens windows
  unfolding windows_from
  windows_from-length zero offset {windows} h =
      let none_left : [] ≡ windows = cc in
      subst (λ ws. (length ws ≡ zero) × NumberedFrom (offset + 1) ws × All Opens ws) none_left
        (refl, tt, tt)
  windows_from-length (suc left) offset h =
      let (opens, (later, made, done)) = windows_from-suc left offset h in
      let (many, numbered, all) = windows_from-length left (offset + 1) made in
      subst (λ ws. (length ws ≡ suc left) × NumberedFrom (offset + 1) ws × All Opens ws) done
        (
          ap suc many,
          (window_on-day offset, subst (λ n. NumberedFrom n later) (the_next offset) numbered),
          (opens, all),
        )

  module _ (earliest latest shift days : ℕ)
      (shifts : ShiftsBy shift earliest latest zone day_one days)
      (fits : latest + shift ≤ earliest + day) (usual : Within earliest latest default)
      (all : AllWithin earliest latest overrides) where
    -- The window of a day closes before that of the next day opens.
    window_on-before :
        (offset : ℕ)
        → offset + 1 < days
        → (window_on zone day_one default overrides offset).window_end_at
          ≤ (window_on zone day_one default overrides (offset + 1)).window_start_at
    unfolding window_on
    window_on-before offset more =
        let today = times_of_day (pos (offset + 1)) default overrides in
        let tomorrow = times_of_day (pos (offset + 1 + 1)) default overrides in
        let a =
          times_of_day-Within earliest latest (pos (offset + 1)) default overrides usual all in
        let b =
          times_of_day-Within earliest latest (pos (offset + 1 + 1)) default overrides usual all in
        let moved = shifts offset tomorrow.0 today.1 more b.0 a.1 in
        omega (arith, moved, a.1, b.0, fits)

    windows_from-IsInOrder :
        (left offset : ℕ) {windows : List DayWindow}
        → offset + left ≤ days
        → windows_from zone day_one default overrides left offset ≡ ok windows
        → IsInOrder windows
    unfolding windows_from
    windows_from-IsInOrder zero offset {windows} few h =
        let none_left : [] ≡ windows = cc in subst IsInOrder none_left tt
    windows_from-IsInOrder (suc zero) offset {windows} few h =
        let (_, (later, made, done)) = windows_from-suc zero offset h in
        let none_left : [] ≡ later = cc in
        subst IsInOrder done (
          subst (λ ws. IsInOrder (window_on zone day_one default overrides offset ∷ ws)) none_left
            tt)
    windows_from-IsInOrder (suc (suc left)) offset few h =
        let (_, (later, made, done)) = windows_from-suc (suc left) offset h in
        let (_, (rest, _, next)) = windows_from-suc left (offset + 1) made in
        let ordered = windows_from-IsInOrder (suc left) (offset + 1) (omega (arith, few)) made in
        subst IsInOrder done (
          subst (λ ws. IsInOrder (window_on zone day_one default overrides offset ∷ ws)) next
            (window_on-before offset (omega (arith, few)), subst IsInOrder (sym next) ordered))

-- A derivation that succeeds has found the zone and the times of the single days.
derive_day_windows-ok :
    (zone_info : Text → Option Zone) (scheduled_start_at : ℕ) (candidate_tz : Text)
    (start_local end_local : ℕ) (overrides : Option Fields) (total_days : ℕ)
    {windows : List DayWindow}
    → derive_day_windows zone_info scheduled_start_at candidate_tz start_local end_local overrides
        total_days
      ≡ ok windows
    → (name : Text) × (zone : Zone) × (normalized : DayTimes) × (zone_info (strip candidate_tz)
        ≡ some zone)
      × (normalize_overrides overrides ≡ ok normalized)
      × (windows_from zone
            (zone.local_date scheduled_start_at)
            (start_local, end_local)
            normalized
            total_days
            0
          ≡ ok windows)
unfolding derive_day_windows
derive_day_windows-ok zone_info scheduled_start_at candidate_tz start_local end_local overrides
      total_days h =
    let (_, _, a) =
      >>=-ok
        (raise_if (leb total_days 0) (value_error (codes "total_days must be greater than zero"))) _
        h in
    let (_, _, b) = >>=-ok (raise_if (leb end_local start_local) (value_error after_start)) _ a in
    let (name, named, c) = >>=-ok (validate_timezone zone_info candidate_tz) _ b in
    let (zone, found, d) = >>=-ok (zone_or_raise zone_info name) _ c in
    let (normalized, times, e) = >>=-ok (normalize_overrides overrides) _ d in
    (
      name,
      zone,
      normalized,
      subst (λ (n : Text). zone_info n ≡ some zone)
          (validate_timezone-ok zone_info candidate_tz named)
          (zone_or_raise-ok zone_info name found),
      times,
      e,
    )

-- A derivation that returns gives as many windows as days, numbered from 1, each of them with a start
-- before its end.
pub derive_day_windows-Opens :
    (zone_info : Text → Option Zone) (scheduled_start_at : ℕ) (candidate_tz : Text)
    (start_local end_local : ℕ) (overrides : Option Fields) (total_days : ℕ)
    {windows : List DayWindow}
    → derive_day_windows zone_info scheduled_start_at candidate_tz start_local end_local overrides
        total_days
      ≡ ok windows
    → (length windows ≡ total_days) × NumberedFrom 1 windows × All Opens windows
derive_day_windows-Opens zone_info scheduled_start_at candidate_tz start_local end_local overrides
      total_days h =
    let (_, zone, normalized, _, _, made) =
      derive_day_windows-ok zone_info scheduled_start_at candidate_tz start_local end_local
        overrides total_days h in
    windows_from-length zone (zone.local_date scheduled_start_at) (start_local, end_local)
      normalized total_days 0 made

-- The windows that a derivation returns come one after the other and do not overlap, when all local
-- times lie between two times, and the offset of the candidate's zone grows by at most the rest of the
-- day from one of the days to the next, at such times.
pub derive_day_windows-IsInOrder :
    (zone_info : Text → Option Zone) (scheduled_start_at : ℕ) (candidate_tz : Text)
    (start_local end_local : ℕ) (overrides : Option Fields) (total_days earliest latest shift : ℕ)
    {windows : List DayWindow}
    → ((zone : Zone)
        → zone_info (strip candidate_tz) ≡ some zone
        → ShiftsBy shift earliest latest zone (zone.local_date scheduled_start_at) total_days)
    → latest + shift ≤ earliest + day
    → Within earliest latest (start_local, end_local)
    → ((normalized : DayTimes)
        → normalize_overrides overrides ≡ ok normalized
        → AllWithin earliest latest normalized)
    → derive_day_windows zone_info scheduled_start_at candidate_tz start_local end_local overrides
        total_days
      ≡ ok windows
    → IsInOrder windows
derive_day_windows-IsInOrder zone_info scheduled_start_at candidate_tz start_local end_local
      overrides total_days earliest latest shift shifts fits usual within h =
    let (name, zone, normalized, found, times, made) =
      derive_day_windows-ok zone_info scheduled_start_at candidate_tz start_local end_local
        overrides total_days h in
    windows_from-IsInOrder zone (zone.local_date scheduled_start_at) (start_local, end_local)
      normalized earliest latest shift total_days (shifts zone found) fits usual
      (within normalized times) total_days 0 (omega arith) made

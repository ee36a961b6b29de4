-- ===== src/Schedule/Serial/RoundTrip.antt =====
-- What a row holds is what was put into it.
use tenon_backend.Base.{
  ℕ, ◌+◌, ◌/◌, ◌%◌, ◌≡◌, refl, ap, ◌∙◌, Bool, true, false, not, ◌&&◌, Option, some, List, [], ◌∷◌,
  ◌++◌, map, All, arith, ◌==◌,
}
use tenon_backend.Base.Int.{ℤ, pos, negsuc}
use tenon_backend.Base.Sort.{IsSorted, sort-IsSorted_eq}
use tenon_backend.Base.Text.{Text, codes, starts_with, same_text}
use tenon_backend.Json.{get}
use tenon_backend.Jobs.Model.{second}
use tenon_backend.Schedule.Model.{DayWindow, day}
use tenon_backend.Schedule.Times.{coerce_day_index}
use tenon_backend.Schedule.Current.{by_day}
use tenon_backend.Schedule.Serial.{
  digit, two, four, iso_date_of, iso_date, iso_time, isoformat, offset_to_z, z_to_offset, to_second,
  format_utc_iso, serialize_index, serialize_window, serialize_items, serialize_day_windows,
  deserialize_window, deserialize_items, deserialize_day_windows, month_from, year_from,
}

abbrev has_no_z : Text → Bool
has_no_z [] = true
has_no_z (c ∷ s) = not (c == b'Z') && has_no_z s

-- A text with no `Z` comes back from the two replacements.
z_to_offset-offset_to_z : (s : Text) → has_no_z s ≡ true → z_to_offset (offset_to_z s) ≡ s
unfolding z_to_offset offset_to_z starts_with
z_to_offset-offset_to_z [] h = refl
z_to_offset-offset_to_z (a ∷ []) h = ground arith
z_to_offset-offset_to_z (a ∷ b ∷ []) h = ground arith
z_to_offset-offset_to_z (a ∷ b ∷ c ∷ []) h = ground arith
z_to_offset-offset_to_z (a ∷ b ∷ c ∷ d ∷ []) h = ground arith
z_to_offset-offset_to_z (a ∷ b ∷ c ∷ d ∷ e ∷ []) h = ground arith
z_to_offset-offset_to_z (a ∷ b ∷ c ∷ d ∷ e ∷ f ∷ s) h =
    ground (arith, z_to_offset-offset_to_z s, z_to_offset-offset_to_z (b ∷ c ∷ d ∷ e ∷ f ∷ s))

has_no_z-append : (s t : Text) → has_no_z s ≡ true → has_no_z t ≡ true → has_no_z (s ++ t) ≡ true
has_no_z-append [] t p q = q
has_no_z-append (c ∷ s) t p q = ground (arith, has_no_z-append s t)

digit_no_z : (n : ℕ) → (digit n == b'Z') ≡ false
digit_no_z n = ground arith

two_no_z : (n : ℕ) → has_no_z (two n) ≡ true
two_no_z n = ground arith

four_no_z : (n : ℕ) → has_no_z (four n) ≡ true
four_no_z n = ground arith

iso_date_of-no_z : (year : ℕ) (md : ℕ × ℕ) → has_no_z (iso_date_of year md) ≡ true
unfolding iso_date_of
iso_date_of-no_z year (month, days) =
    has_no_z-append (four year ++ b'-' ∷ two month) (b'-' ∷ two (days + 1))
      (has_no_z-append (four year) (b'-' ∷ two month) (four_no_z year) (two_no_z month))
      (two_no_z (days + 1))

iso_date-no_z : (days : ℕ) → has_no_z (iso_date days) ≡ true
unfolding iso_date
iso_date-no_z days =
    let date = year_from 9999 1 days in iso_date_of-no_z date.0 (month_from 12 date.0 1 date.1)

iso_time-no_z : (seconds : ℕ) → has_no_z (iso_time seconds) ≡ true
unfolding iso_time
iso_time-no_z seconds =
    has_no_z-append (two (seconds / 3600) ++ b':' ∷ two (seconds / 60 % 60))
      (b':' ∷ two (seconds % 60))
      (has_no_z-append (two (seconds / 3600)) (b':' ∷ two (seconds / 60 % 60))
        (two_no_z (seconds / 3600)) (two_no_z (seconds / 60 % 60)))
      (two_no_z (seconds % 60))

isoformat-no_z : (t : ℕ) → has_no_z (isoformat t) ≡ true
unfolding isoformat
isoformat-no_z t =
    has_no_z-append (iso_date (t / day) ++ b'T' ∷ iso_time (t / second % 86400)) (codes "+00:00")
      (has_no_z-append (iso_date (t / day)) (b'T' ∷ iso_time (t / second % 86400))
        (iso_date-no_z (t / day)) (iso_time-no_z (t / second % 86400)))
      refl

-- The window with whole seconds.
abbrev pub whole_seconds : DayWindow → DayWindow
whole_seconds window = record window {
  window_start_at = to_second window.window_start_at;
  window_end_at = to_second window.window_end_at;
}

module _ (from_iso : Text → Option ℕ) where
  -- The library reads the text of an instant back, as it is documented to.
  abbrev pub Reads : ℕ → Type 0
  Reads t = from_iso (isoformat (to_second t)) ≡ some (to_second t)

  abbrev pub ReadsWindow : DayWindow → Type 0
  ReadsWindow window = Reads window.window_start_at × Reads window.window_end_at

  Reads-formatted :
      (t : ℕ) → Reads t → from_iso (z_to_offset (format_utc_iso t)) ≡ some (to_second t)
  unfolding format_utc_iso
  Reads-formatted t reads =
      ap from_iso (z_to_offset-offset_to_z (isoformat (to_second t)) (isoformat-no_z (to_second t)))
      ∙ reads

  coerce-serialize_index : (i : ℤ) → coerce_day_index (some (serialize_index i)) ≡ some i
  unfolding coerce_day_index serialize_index
  coerce-serialize_index (pos n) = refl
  coerce-serialize_index (negsuc n) = refl

  window_round_trip :
      (window : DayWindow)
      → ReadsWindow window
      → deserialize_window from_iso (serialize_window window) ≡ some (whole_seconds window)
  unfolding deserialize_window serialize_window get same_text
  window_round_trip window reads = rw (coerce-serialize_index window.day_index) (
      rw
        (
          Reads-formatted window.window_start_at reads.0,
          Reads-formatted window.window_end_at reads.1,
        )
        refl)

  items_round_trip :
      (windows : List DayWindow)
      → All ReadsWindow windows
      → deserialize_items from_iso (serialize_items windows) ≡ map whole_seconds windows
  unfolding deserialize_items serialize_items
  items_round_trip [] reads = refl
  items_round_trip (window ∷ windows) reads =
      rw (window_round_trip window reads.0)
        (ap (λ rest. whole_seconds window ∷ rest) (items_round_trip windows reads.1))

  map-IsSorted :
      (windows : List DayWindow)
      → IsSorted (λ w. w.day_index) windows
      → IsSorted (λ w. w.day_index) (map whole_seconds windows)
  map-IsSorted [] s = tt
  map-IsSorted (a ∷ []) s = tt
  map-IsSorted (a ∷ b ∷ windows) s = (s.0, map-IsSorted (b ∷ windows) s.1)

  -- Windows in the order of their days come back from the row as they were, with whole seconds, when
  -- the library reads the text of each instant back.
  pub deserialize-serialize_day_windows :
      (windows : List DayWindow)
      → IsSorted (λ w. w.day_index) windows
      → All ReadsWindow windows
      → deserialize_day_windows from_iso (some (serialize_day_windows windows))
        ≡ map whole_seconds windows
  unfolding deserialize_day_windows serialize_day_windows
  deserialize-serialize_day_windows windows sorted reads =
      ap by_day (items_round_trip windows reads)
      ∙ sort-IsSorted_eq (λ w. w.day_index) (map whole_seconds windows)
          (map-IsSorted windows sorted)

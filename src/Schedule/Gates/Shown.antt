-- ===== src/Schedule/Gates/Shown.antt =====
-- The gate of a task is open exactly while the candidate is shown the task's day as the active one.
use tenon_backend.Base.{
  ℕ, ◌≡◌, ◌↔◌, refl, sym, ap, ◌∙◌, Option, none, some, List, ◌∷◌, All, find, arith,
}
use mathlib.Core.Path.{subst}
use mathlib.Core.Option.{some-injective}
use tenon_backend.Base.Int.{ℤ}
use tenon_backend.Base.Sort.{sort-IsSorted_eq}
use tenon_backend.Base.Text.{Text}
use tenon_backend.Base.Result.{ok}
use tenon_backend.Trials.Model.{Trial, CandidateSession}
use tenon_backend.Schedule.Model.{DayWindow}
use tenon_backend.Schedule.Times.{Zone}
use tenon_backend.Schedule.Windows.Derived.{NumberedFrom, Opens, IsInOrder}
use tenon_backend.Schedule.Current.{current_from, current_of, derive_current_day_window}
use tenon_backend.Schedule.Serial.{deserialize_day_windows}
use tenon_backend.Schedule.Gates.{
  Task, window_for_day, task_window_at, load_or_derive_day_windows, compute_task_window,
  require_open, require_active_window,
}
use tenon_backend.Schedule.Gates.Agrees.{
  Contains, IsWhole, active_in, of_day, find-of_day, find-All, NumberedFrom-IsSorted,
  current_from-active, active-current_from,
}

require_open_iff :
    (now : ℕ) (windows : List DayWindow) (d : ℤ) (found : Option DayWindow)
    → ((window : DayWindow) → found ≡ some window → IsWhole window)
    → (require_open (task_window_at now windows d found) ≡ ok tt)
      ↔ ((window : DayWindow) × (found ≡ some window) × Contains now window)
unfolding require_open task_window_at
require_open_iff now windows d none whole = (λ h. cc, λ (window, h, contains). cc)
require_open_iff now windows d (some window) whole =
    let w = whole window refl in
    (
      λ h. (window, refl, ground arith),
      λ (other, same, contains).
          let here = subst (Contains now) (sym (some-injective _ _ same)) contains in ground arith,
    )

module _ (zone_info : Text → Option Zone) (from_iso : Text → Option ℕ) (session : CandidateSession)
    (trial : Option Trial) (task : Task) (now : ℕ) where
  -- Stored windows that are in order are taken as they are.
  stored_windows :
      (first : DayWindow) (rest : List DayWindow) (minimum n : ℕ)
      → deserialize_day_windows from_iso session.day_windows_json ≡ first ∷ rest
      → NumberedFrom n (first ∷ rest)
      → load_or_derive_day_windows zone_info from_iso session trial minimum ≡ first ∷ rest
  unfolding load_or_derive_day_windows
  stored_windows first rest minimum n stored numbered =
      rw (stored, load_or_derive_day_windows)
        (sort-IsSorted_eq (λ w. w.day_index) (first ∷ rest)
          (NumberedFrom-IsSorted n (first ∷ rest) numbered))

  gate_iff :
      (windows : List DayWindow)
      → ((minimum : ℕ)
          → load_or_derive_day_windows zone_info from_iso session trial minimum ≡ windows)
      → All IsWhole windows
      → (require_active_window zone_info from_iso session trial task now ≡ ok tt) ↔ (
          (window : DayWindow) × (find (of_day task.day_index) windows ≡ some window)
          × Contains now window)
  unfolding require_active_window compute_task_window window_for_day
  gate_iff windows loaded whole = rw loaded (
      require_open_iff now windows task.day_index (find (of_day task.day_index) windows)
        (λ window found. find-All IsWhole task.day_index windows whole found))

  -- The current window of windows that are in order.
  current_in_order :
      (first : DayWindow) (rest : List DayWindow) (n : ℕ)
      → NumberedFrom n (first ∷ rest)
      → derive_current_day_window now (first ∷ rest) ≡ some (current_from now first (first ∷ rest))
  unfolding derive_current_day_window current_of
  current_in_order first rest n numbered = ap (current_of now) (
      sort-IsSorted_eq (λ w. w.day_index) (first ∷ rest)
        (NumberedFrom-IsSorted n (first ∷ rest) numbered))

  -- Where a session's row holds windows that are numbered one after the other, open before they close,
  -- do not overlap and have whole seconds, the gate of a task is open exactly while the current
  -- window is active and is that of the task's day.
  pub require_active_window_iff :
      (first : DayWindow) (rest : List DayWindow) (n : ℕ)
      → deserialize_day_windows from_iso session.day_windows_json ≡ first ∷ rest
      → NumberedFrom n (first ∷ rest)
      → All Opens (first ∷ rest)
      → IsInOrder (first ∷ rest)
      → All IsWhole (first ∷ rest)
      → (require_active_window zone_info from_iso session trial task now ≡ ok tt) ↔ (
          (window : DayWindow) × (derive_current_day_window now (first ∷ rest)
            ≡ some (active_in window))
          × (window.day_index ≡ task.day_index))
  require_active_window_iff first rest n stored numbered opens ordered whole =
      let gate =
        gate_iff (first ∷ rest) (λ minimum. stored_windows first rest minimum n stored numbered)
          whole in
      let current = current_in_order first rest n numbered in
      (
        λ open_now.
            let (window, found, contains) = gate.0 open_now in
            (
              window,
              current
                  ∙ ap (λ c. some c)
                      (current_from-active now task.day_index first (first ∷ rest) ordered opens
                        found contains),
              find-of_day task.day_index (first ∷ rest) found,
            ),
        λ (window, shown, same).
            let (found, contains) =
              active-current_from now n first (first ∷ rest) numbered
                (some-injective _ _ (sym current ∙ shown)) in
            gate.1 (
              window,
              subst (λ d. find (of_day d) (first ∷ rest) ≡ some window) same found,
              contains,
            ),
      )

-- ===== src/Schedule/Current/Picks.antt =====
-- Which window is the current one.
use tenon_backend.Base.{
  ℕ, ◌≤◌, ◌<◌, ◌≡◌, ◌≢◌, refl, sym, ap, true, false, ◌&&◌, some, List, [], ◌∷◌, ◌++◌, All, arith,
  leb, ltb, Bool-cases, inl, inr,
}
use mathlib.Core.Path.{subst}
use mathlib.Core.Option.{some-injective}
use tenon_backend.Schedule.Model.{DayWindow}
use tenon_backend.Schedule.Current.{
  WindowState, upcoming, active, closed, CurrentWindow, by_day, current_from, current_of,
  derive_current_day_window,
}

-- A window is over: it has opened, and the instant is not before its end.
abbrev pub IsOver : ℕ → DayWindow → Type 0
IsOver now window = (window.window_start_at ≤ now) × (window.window_end_at ≤ now)

-- The state of the first window that is not over.
abbrev pub IsState : ℕ → DayWindow → WindowState → Type 0
IsState now window upcoming = now < window.window_start_at
IsState now window active = (window.window_start_at ≤ now) × (now < window.window_end_at)
IsState now window closed = IsOver now window

-- The current window among windows in the order of their days: the first one that is not over, or
-- the last one where all are.
pub data Picks (now : ℕ) : List DayWindow → DayWindow → WindowState → Type 0 where
  first :
      (before after : List DayWindow) (window : DayWindow) (state : WindowState)
      {windows : List DayWindow}
      → windows ≡ before ++ window ∷ after
      → All (IsOver now) before
      → IsState now window state
      → state ≢ closed
      → Picks now windows window state
  last :
      (before : List DayWindow) (window : DayWindow) {windows : List DayWindow}
      → windows ≡ before ++ window ∷ []
      → All (IsOver now) windows
      → Picks now windows window closed

Picks-cons :
    (now : ℕ) (over : DayWindow) {windows : List DayWindow} {window : DayWindow}
    {state : WindowState}
    → IsOver now over
    → Picks now windows window state
    → Picks now (over ∷ windows) window state
Picks-cons now over done (first before after window state split all now_is pending) =
    first (over ∷ before) after window state (ap (λ ws. over ∷ ws) split) (done, all) now_is pending
Picks-cons now over done (last before window split all) =
    last (over ∷ before) window (ap (λ ws. over ∷ ws) split) (done, all)

active-ne-closed : active ≢ closed
active-ne-closed h = cc

upcoming-ne-closed : upcoming ≢ closed
upcoming-ne-closed h = cc

-- The three ways through a round of the loop.
pub round_active :
    (now : ℕ) (previous window : DayWindow) (windows : List DayWindow)
    → (leb window.window_start_at now && ltb now window.window_end_at) ≡ true
    → current_from now previous (window ∷ windows) ≡ record { window = window; state = active }
unfolding current_from
round_active now previous window windows inside = rw inside

pub round_upcoming :
    (now : ℕ) (previous window : DayWindow) (windows : List DayWindow)
    → (leb window.window_start_at now && ltb now window.window_end_at) ≡ false
    → ltb now window.window_start_at ≡ true
    → current_from now previous (window ∷ windows) ≡ record { window = window; state = upcoming }
unfolding current_from
round_upcoming now previous window windows outside early = rw (outside, early)

pub round_over :
    (now : ℕ) (previous window : DayWindow) (windows : List DayWindow)
    → (leb window.window_start_at now && ltb now window.window_end_at) ≡ false
    → ltb now window.window_start_at ≡ false
    → current_from now previous (window ∷ windows) ≡ current_from now window windows
unfolding current_from
round_over now previous window windows outside late = rw (outside, late)

abbrev PicksOf : ℕ → List DayWindow → CurrentWindow → Type 0
PicksOf now windows current = Picks now windows current.window current.state

all_over :
    (now : ℕ) (window : DayWindow)
    → IsOver now window
    → PicksOf now (window ∷ []) (current_from now window [])
unfolding current_from
all_over now window over = last [] window refl (over, tt)

-- A round, given what the rounds after a window that is over do.
round-Picks :
    (now : ℕ) (previous window : DayWindow) (windows : List DayWindow)
    → (IsOver now window → PicksOf now (window ∷ windows) (current_from now window windows))
    → PicksOf now (window ∷ windows) (current_from now previous (window ∷ windows))
round-Picks now previous window windows rest =
    let inside = leb window.window_start_at now && ltb now window.window_end_at in
    elim (Bool-cases inside) [
      | inl within ↦
          subst (PicksOf now (window ∷ windows))
            (sym (round_active now previous window windows within))
            (first [] windows window active refl tt (ground arith) active-ne-closed)
      | inr outside ↦ elim (Bool-cases (ltb now window.window_start_at)) [
        | inl early ↦
            subst (PicksOf now (window ∷ windows))
              (sym (round_upcoming now previous window windows outside early))
              (first [] windows window upcoming refl tt (ground arith) upcoming-ne-closed)
        | inr late ↦
            subst (PicksOf now (window ∷ windows))
              (sym (round_over now previous window windows outside late)) (rest (ground arith))
      ]
    ]

current_from-Picks :
    (now : ℕ) (previous window : DayWindow) (windows : List DayWindow)
    → PicksOf now (window ∷ windows) (current_from now previous (window ∷ windows))
current_from-Picks now previous window [] =
    round-Picks now previous window [] (λ over. all_over now window over)
current_from-Picks now previous window (next ∷ windows) =
    round-Picks now previous window (next ∷ windows)
      (λ over. Picks-cons now window over (current_from-Picks now window next windows))

current_of-Picks :
    (now : ℕ) (windows : List DayWindow) {current : CurrentWindow}
    → current_of now windows ≡ some current
    → PicksOf now windows current
unfolding current_of
current_of-Picks now [] h = cc
current_of-Picks now (window ∷ windows) h =
    subst (PicksOf now (window ∷ windows)) (some-injective _ _ h)
      (current_from-Picks now window window windows)

-- The current window is the first one, in the order of the days, that is not over, with its state; or
-- the last one where all are over.
pub derive_current_day_window-Picks :
    (now : ℕ) (windows : List DayWindow) {current : CurrentWindow}
    → derive_current_day_window now windows ≡ some current
    → Picks now (by_day windows) current.window current.state
unfolding derive_current_day_window
derive_current_day_window-Picks now windows h = current_of-Picks now (by_day windows) h

-- ===== src/Schedule/Gates/Agrees.antt =====
-- The gate of a task and the current window that the candidate is shown agree.
use tenon_backend.Base.{
  ℕ, suc, ◌≤◌, ◌<◌, ◌≡◌, ◌↔◌, refl, sym, ap, ◌∙◌, Bool, true, ◌&&◌, some, List, [], ◌∷◌, All, find,
  leb, ltb, Bool-cases, inl, inr, arith,
}
use mathlib.Core.Path.{subst}
use tenon_backend.Base.Int.{ℤ, pos, negsuc, eqb_ℤ}
use tenon_backend.Base.Sort.{IsSorted}
use tenon_backend.Schedule.Model.{DayWindow}
use tenon_backend.Schedule.Windows.Derived.{NumberedFrom, Opens, IsInOrder}
use tenon_backend.Schedule.Current.{active, CurrentWindow, current_from}
use tenon_backend.Schedule.Current.Picks.{round_active, round_upcoming, round_over}
use tenon_backend.Schedule.Serial.{to_second}

abbrev pub Contains : ℕ → DayWindow → Type 0
Contains now window = (window.window_start_at ≤ now) × (now < window.window_end_at)

-- Times with whole seconds.
abbrev pub IsWhole : DayWindow → Type 0
IsWhole window =
    (to_second window.window_start_at ≡ window.window_start_at)
    × (to_second window.window_end_at ≡ window.window_end_at)

abbrev pub active_in : DayWindow → CurrentWindow
active_in window = record { window = window; state = active }

abbrev pub of_day : ℤ → DayWindow → Bool
of_day day_index window = eqb_ℤ window.day_index day_index

pub eqb_ℤ_iff : (a b : ℤ) → (eqb_ℤ a b ≡ true) ↔ (a ≡ b)
eqb_ℤ_iff (pos a) (pos b) = ground arith
eqb_ℤ_iff (pos a) (negsuc b) = ground arith
eqb_ℤ_iff (negsuc a) (pos b) = ground arith
eqb_ℤ_iff (negsuc a) (negsuc b) = ground arith

pub find-of_day :
    (d : ℤ) (windows : List DayWindow) {window : DayWindow}
    → find (of_day d) windows ≡ some window
    → window.day_index ≡ d
find-of_day d [] h = cc
find-of_day d (head ∷ rest) {window} h =
    ground (arith, find-of_day d rest {window = window}, eqb_ℤ_iff head.day_index d)

pub find-All :
    (P : DayWindow → Type 0) (d : ℤ) (windows : List DayWindow) {window : DayWindow}
    → All P windows
    → find (of_day d) windows ≡ some window
    → P window
find-All P d [] all h = cc
find-All P d (head ∷ rest) {window} all h = elim (Bool-cases (of_day d head)) [
  | inl met ↦ let same : head ≡ window = ground arith in subst P same all.0
  | inr other ↦ find-All P d rest all.1 (ground arith)
]

-- The windows behind the first one begin when it has closed.
ends_before :
    (d : ℤ) (head : DayWindow) (rest : List DayWindow) {window : DayWindow}
    → IsInOrder (head ∷ rest)
    → All Opens rest
    → find (of_day d) rest ≡ some window
    → head.window_end_at ≤ window.window_start_at
ends_before d head [] ordered opens h = cc
ends_before d head (next ∷ rest) {window} ordered opens h = elim (Bool-cases (of_day d next)) [
  | inl met ↦
      let same : next ≡ window = ground arith in
      subst (λ w. head.window_end_at ≤ w.window_start_at) same ordered.0
  | inr other ↦
      let later = ends_before d next rest {window = window} ordered.1 opens.1 (ground arith) in
      omega (arith, ordered.0, opens.0, later)
]

pos_injective : {a b : ℕ} → pos a ≡ pos b → a ≡ b
pos_injective h = cc

-- Days are numbered on from the first one.
find-above :
    (n : ℕ) (d : ℤ) (windows : List DayWindow) {window : DayWindow}
    → NumberedFrom n windows
    → find (of_day d) windows ≡ some window
    → (m : ℕ) × (n ≤ m) × (d ≡ pos m)
find-above n d [] numbered h = cc
find-above n d (head ∷ rest) {window} numbered h = elim (Bool-cases (of_day d head)) [
  | inl met ↦ (n, omega arith, sym ((eqb_ℤ_iff head.day_index d).0 met) ∙ numbered.0)
  | inr other ↦
      let (m, above, is_m) =
        find-above (suc n) d rest {window = window} numbered.1 (ground arith) in
      (m, omega (arith, above), is_m)
]

pub NumberedFrom-IsSorted :
    (n : ℕ) (windows : List DayWindow)
    → NumberedFrom n windows
    → IsSorted (λ w. w.day_index) windows
NumberedFrom-IsSorted n [] numbered = tt
NumberedFrom-IsSorted n (a ∷ []) numbered = tt
NumberedFrom-IsSorted n (a ∷ b ∷ windows) (first, (second, rest)) =
    (rw (first, second) (ground arith), NumberedFrom-IsSorted (suc n) (b ∷ windows) (second, rest))

IsInOrder-tail :
    (head : DayWindow) (rest : List DayWindow) → IsInOrder (head ∷ rest) → IsInOrder rest
IsInOrder-tail head [] ordered = tt
IsInOrder-tail head (next ∷ rest) ordered = ordered.1

pub find-head :
    (head : DayWindow) (rest : List DayWindow)
    → find (of_day head.day_index) (head ∷ rest) ≡ some head
find-head head rest = rw ((eqb_ℤ_iff head.day_index head.day_index).1 refl)

-- A later day is not the first one.
find-tail :
    (n : ℕ) (head : DayWindow) (rest : List DayWindow) {window : DayWindow}
    → NumberedFrom n (head ∷ rest)
    → find (of_day window.day_index) rest ≡ some window
    → find (of_day window.day_index) (head ∷ rest) ≡ some window
find-tail n head rest {window} numbered found = elim (Bool-cases (of_day window.day_index head)) [
  | inl met ↦
      let (m, above, is_m) =
        find-above (suc n) window.day_index rest {window = window} numbered.1 found in
      let clash : pos n ≡ pos m =
        sym numbered.0 ∙ (eqb_ℤ_iff head.day_index window.day_index).0 met ∙ is_m in
      absurd (omega (arith, pos_injective clash, above))
  | inr other ↦ rw other found
]

module _ (now : ℕ) where
  closed-ne-active :
      (previous : DayWindow) {window : DayWindow}
      → current_from now previous [] ≡ active_in window
      → ⊥
  unfolding current_from
  closed-ne-active previous h = let states = ap (λ c. c.state) h in cc

  inside :
      (window : DayWindow)
      → Contains now window
      → (leb window.window_start_at now && ltb now window.window_end_at) ≡ true
  inside window contains = ground arith

  -- The loop stops at the window of the day when the instant is in it.
  pub current_from-active :
      (d : ℤ) (previous : DayWindow) (windows : List DayWindow) {window : DayWindow}
      → IsInOrder windows
      → All Opens windows
      → find (of_day d) windows ≡ some window
      → Contains now window
      → current_from now previous windows ≡ active_in window
  current_from-active d previous [] ordered opens h contains = cc
  current_from-active d previous (head ∷ rest) {window} ordered opens h contains =
      elim (Bool-cases (of_day d head)) [
        | inl met ↦
            let same : head ≡ window = ground arith in
            subst (λ w. current_from now previous (head ∷ rest) ≡ active_in w) same
              (round_active now previous head rest
                (inside head (subst (Contains now) (sym same) contains)))
        | inr other ↦
            let further : find (of_day d) rest ≡ some window = ground arith in
            let before = ends_before d head rest {window = window} ordered opens.1 further in
            round_over now previous head rest (ground arith) (ground arith)
            ∙ current_from-active d head rest (IsInOrder-tail head rest ordered) opens.1 further
                contains
      ]

  -- The window that the loop calls active is the window of its day.
  pub active-current_from :
      (n : ℕ) (previous : DayWindow) (windows : List DayWindow) {window : DayWindow}
      → NumberedFrom n windows
      → current_from now previous windows ≡ active_in window
      → (find (of_day window.day_index) windows ≡ some window) × Contains now window
  active-current_from n previous [] numbered h =
      let stuck = closed-ne-active previous h in absurd stuck
  active-current_from n previous (head ∷ rest) {window} numbered h =
      elim (Bool-cases (leb head.window_start_at now && ltb now head.window_end_at)) [
        | inl within ↦
            let same : head ≡ window =
              ap (λ c. c.window) (sym (round_active now previous head rest within) ∙ h) in
            subst (λ w. (find (of_day w.day_index) (head ∷ rest) ≡ some w) × Contains now w) same
              (find-head head rest, ground arith)
        | inr outside ↦ elim (Bool-cases (ltb now head.window_start_at)) [
          | inl early ↦
              let states =
                ap (λ c. c.state) (sym (round_upcoming now previous head rest outside early) ∙ h) in
              cc
          | inr late ↦
              let (found, contains) =
                active-current_from (suc n) head rest {window = window} numbered.1
                  (sym (round_over now previous head rest outside late) ∙ h) in
              (find-tail n head rest {window = window} numbered found, contains)
        ]
      ]

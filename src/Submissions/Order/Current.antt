-- ===== src/Submissions/Order/Current.antt =====
-- The first open task of a sorted list, and what is shown in place of it.
use tenon_backend.Base.{
  ℕ, ◌≡◌, refl, Bool, true, false, not, Option, none, some, List, [], ◌∷◌, find, All, arith,
  Bool-cases, inl, inr,
}
use mathlib.Core.Path.{subst}
use tenon_backend.Base.Int.{ℤ, pos, negsuc, leb_ℤ}
use tenon_backend.Base.Sort.{IsSorted}
use tenon_backend.Base.Text.{Text}
use tenon_backend.Trials.Model.{Trial, CandidateSession}
use tenon_backend.Schedule.Times.{Zone}
use tenon_backend.Schedule.Gates.{Task, compute_task_window}
use tenon_backend.Candidates.Progress.{
  is_in, before_start, is_first_day, is_prior_handoff, revisit, handoff_revisit_task,
}
use tenon_backend.Candidates.Progress.Completion.{All-map}

-- Tasks of earlier days.
abbrev pub EarlierAre : (Task → Bool) → ℤ → List Task → Type 0
EarlierAre p day tasks = All (λ t. leb_ℤ day t.day_index ≡ false → p t ≡ true) tasks

leb_ℤ_refl : (a : ℤ) → leb_ℤ a a ≡ true
leb_ℤ_refl (pos n) = ground arith
leb_ℤ_refl (negsuc n) = ground arith

leb_ℤ_trans : (a b c : ℤ) → leb_ℤ a b ≡ true → leb_ℤ b c ≡ true → leb_ℤ a c ≡ true
leb_ℤ_trans (pos a) (pos b) (pos c) h k = ground arith
leb_ℤ_trans (pos a) (pos b) (negsuc c) h k = ground arith
leb_ℤ_trans (pos a) (negsuc b) c h k = ground arith
leb_ℤ_trans (negsuc a) (pos b) (pos c) h k = ground arith
leb_ℤ_trans (negsuc a) (pos b) (negsuc c) h k = ground arith
leb_ℤ_trans (negsuc a) (negsuc b) (pos c) h k = ground arith
leb_ℤ_trans (negsuc a) (negsuc b) (negsuc c) h k = ground arith

-- The first one of a sorted list has the least day.
IsSorted-head :
    (x : Task) (xs : List Task)
    → IsSorted (λ u. u.day_index) (x ∷ xs)
    → All (λ t. leb_ℤ x.day_index t.day_index ≡ true) xs
IsSorted-head x [] s = tt
IsSorted-head x (y ∷ ys) s = (
  s.0,
  All-map (λ t h. leb_ℤ_trans x.day_index y.day_index t.day_index s.0 h) ys
      (IsSorted-head y ys s.1),
)

IsSorted-rest :
    (x : Task) (xs : List Task)
    → IsSorted (λ u. u.day_index) (x ∷ xs)
    → IsSorted (λ u. u.day_index) xs
IsSorted-rest x [] s = tt
IsSorted-rest x (y ∷ ys) s = s.1

-- The first task of a sorted list that meets a test: those of earlier days do not.
pub find-EarlierAre :
    (q : Task → Bool) (xs : List Task) {t : Task}
    → IsSorted (λ u. u.day_index) xs
    → find q xs ≡ some t
    → EarlierAre (λ u. not (q u)) t.day_index xs
find-EarlierAre q [] s h = tt
find-EarlierAre q (x ∷ xs) {t} s h = elim (Bool-cases (q x)) [
  | inl met ↦
      let e : x ≡ t = (let shown = rw met at h in cc) in
      subst (λ u. EarlierAre (λ v. not (q v)) u.day_index (x ∷ xs)) e
        (
          λ early. let same = leb_ℤ_refl x.day_index in cc,
          All-map (λ u later early. cc) xs (IsSorted-head x xs s),
        )
  | inr unmet ↦ (λ early. ground arith, find-EarlierAre q xs (IsSorted-rest x xs s) (rw unmet at h))
]

pub find-holds : (q : Task → Bool) (xs : List Task) {t : Task} → find q xs ≡ some t → q t ≡ true
find-holds q [] h = cc
find-holds q (x ∷ xs) {t} h = ground (arith, find-holds q xs {t = t})

module _ (lower : Text → Text) (zone_info : Text → Option Zone) (from_iso : Text → Option ℕ)
    (tasks : List Task) (completed : List ℕ) (session : CandidateSession) (trial : Option Trial)
    (now : ℕ) where
  -- What is shown in place of the current task is done.
  revisit-open :
      (current : Task) (prior : Option Task) {shown : Task}
      → ((p : Task)
          → prior ≡ some p
          → is_prior_handoff lower zone_info from_iso current completed p ≡ true)
      → some (revisit lower zone_info from_iso session trial now current prior) ≡ some shown
      → is_in shown.id completed ≡ false
      → some current ≡ some shown
  unfolding revisit
  revisit-open current none done e open_task = e
  revisit-open current (some p) {shown} done e open_task =
      let handed = done p refl in
      let window = compute_task_window zone_info from_iso session trial current now in
      elim (Bool-cases (before_start now window.window_start_at)) [
        | inl early ↦
            let same : p ≡ shown = (let seen = rw early at e in cc) in
            let here : is_in shown.id completed ≡ true =
              subst (λ u. is_in u.id completed ≡ true) same (ground arith) in
            cc
        | inr begun ↦ rw begun at e
      ]

  -- The task that is current before a hand-off is looked at again, where what is shown is not done.
  pub handoff_revisit_task-open :
      (current : Option Task) {shown : Task}
      → handoff_revisit_task lower zone_info from_iso tasks completed session trial now current
        ≡ some shown
      → is_in shown.id completed ≡ false
      → current ≡ some shown
  unfolding handoff_revisit_task
  handoff_revisit_task-open none h open_task = h
  handoff_revisit_task-open (some current) {shown} h open_task =
      let prior = find (is_prior_handoff lower zone_info from_iso current completed) tasks in
      elim (Bool-cases (is_first_day current)) [
        | inl begun ↦ rw begun at h
        | inr later ↦
            revisit-open current prior
              (λ p found.
                find-holds (is_prior_handoff lower zone_info from_iso current completed) tasks
                  found)
              (rw later at h) open_task
      ]

-- ===== src/Candidates/Progress/Completion.antt =====
-- When a candidate is done.
use tenon_backend.Base.{
  ℕ, suc, ◌≡◌, ◌≤◌, ◌↔◌, refl, sym, ap, ◌∙◌, Bool, true, false, not, ◌&&◌, ◌==◌, Option, none, some,
  List, [], ◌∷◌, any, keep, find, All, length, leb, ltb, arith, Bool-cases, inl, inr,
}
use mathlib.Core.Path.{subst}
use tenon_backend.Base.Int.{pos}
use tenon_backend.Base.Sort.{sort}
use tenon_backend.Base.Text.{Text}
use tenon_backend.Base.Result.{ok, >>=-ok}
use tenon_backend.Trials.Model.{Trial, CandidateSession}
use tenon_backend.Schedule.Times.{Zone}
use tenon_backend.Schedule.Gates.{Task}
use tenon_backend.Candidates.Progress.{
  Submission, is_in, outer_join, collect, tasks_of_trial, loaded_or_raise, compute_current_task,
  summarize_progress, load_tasks_with_completion_state, handoff_revisit_task, snapshot_of,
  progress_snapshot,
}
use tenon_backend.Candidates.Progress.Loaded.{
  HaveOwnIds, ids_of, is_submitted, submitted, any-sort, sort-HaveOwnIds, keep-HaveOwnIds,
  collect-outer_join,
}

pub find-any : (q : Task → Bool) (xs : List Task) → (find q xs ≡ none) ↔ (any q xs ≡ false)
find-any q [] = (λ h. refl, λ h. refl)
find-any q (x ∷ xs) = ground (arith, find-any q xs)

pub any-agree : (p q : Task → Bool) (xs : List Task) → All (λ t. p t ≡ q t) xs → any p xs ≡ any q xs
any-agree p q [] all = refl
any-agree p q (x ∷ xs) all = ground (arith, all.0, any-agree p q xs all.1)

pub length-keep-le : (p : Task → Bool) (xs : List Task) → length (keep p xs) ≤ length xs
length-keep-le p [] = ground arith
length-keep-le p (x ∷ xs) = ground (arith, length-keep-le p xs)

-- All are kept exactly when none is left.
leb-length-keep :
    (p : Task → Bool) (xs : List Task)
    → leb (length xs) (length (keep p xs)) ≡ not (any (λ t. not (p t)) xs)
leb-length-keep p [] = refl
leb-length-keep p (x ∷ xs) = ground (arith, length-keep-le p xs, leb-length-keep p xs)

length-ids_of : (xs : List Task) → length (ids_of xs) ≡ length xs
length-ids_of [] = refl
length-ids_of (x ∷ xs) = ap suc (length-ids_of xs)

pub is_in-kept :
    (h : ℕ → Bool) (n : ℕ) (xs : List Task)
    → is_in n (ids_of (keep (λ t. h t.id) xs)) ≡ (h n && is_in n (ids_of xs))
is_in-kept h n [] = ground arith
is_in-kept h n (x ∷ xs) = elim (Bool-cases (x.id == n)) [
  | inl same ↦
      let e : x.id ≡ n = ground arith in
      let held : h x.id ≡ h n = ap h e in ground (arith, held, is_in-kept h n xs)
  | inr differs ↦ ground (arith, is_in-kept h n xs)
]

pub is_in-own :
    (xs ys : List Task)
    → ((n : ℕ) → is_in n (ids_of xs) ≡ true → is_in n (ids_of ys) ≡ true)
    → All (λ t. is_in t.id (ids_of ys) ≡ true) xs
is_in-own [] ys inside = tt
is_in-own (x ∷ xs) ys inside =
    (inside x.id (ground arith), is_in-own xs ys (λ n h. inside n (ground (arith, h))))

pub All-map {ℓ κ} :
    {P : Task → Type ℓ} {Q : Task → Type κ}
    → ((t : Task) → P t → Q t)
    → (xs : List Task) → All P xs
    → All Q xs
All-map f [] all = tt
All-map f (x ∷ xs) all = (f x all.0, All-map f xs all.1)

module _ (session_id : ℕ) (submissions : List Submission) where
  abbrev pub left_over : Task → Bool
  left_over task = not (submitted session_id submissions task)

  abbrev pub done_ids : List Task → List ℕ
  done_ids tasks = ids_of (keep (submitted session_id submissions) tasks)

  not_done :
      (tasks : List Task) → any (λ t. not (is_in t.id (done_ids tasks))) tasks ≡ any left_over tasks
  not_done tasks =
      any-agree (λ t. not (is_in t.id (done_ids tasks))) left_over tasks
        (All-map
          (λ t own.
            ground (arith, is_in-kept (is_submitted session_id submissions) t.id tasks, own))
          tasks (is_in-own tasks tasks (λ n h. h)))

  -- Nothing is current exactly when no task is left over.
  compute_current_task-none :
      (tasks : List Task)
      → (compute_current_task tasks (done_ids tasks) ≡ none) ↔ (any left_over tasks ≡ false)
  unfolding compute_current_task
  compute_current_task-none tasks =
      let key = (λ (t : Task). t.day_index) in
      let sorted = any-sort key (λ t. not (is_in t.id (done_ids tasks))) tasks ∙ not_done tasks in
      let both = find-any (λ t. not (is_in t.id (done_ids tasks))) (sort key tasks) in
      (λ h. sym sorted ∙ both.0 h, λ h. both.1 (sorted ∙ h))

  count_done :
      (tasks : List Task) → leb (length tasks) (length (done_ids tasks)) ≡ not (any left_over tasks)
  count_done tasks =
      ap (λ n. leb (length tasks) n) (length-ids_of (keep (submitted session_id submissions) tasks))
      ∙ leb-length-keep (submitted session_id submissions) tasks

loaded_or_raise-ok :
    (rows : List (Task × Option ℕ)) {loaded : List Task × List ℕ}
    → loaded_or_raise rows ≡ ok loaded
    → (collect rows [] [] ≡ loaded) × (ltb 0 (length rows) ≡ true)
loaded_or_raise-ok [] h = cc
loaded_or_raise-ok (row ∷ rows) h = (let same = h in cc, ground arith)

new_to_nothing : (tasks : List Task) → All (λ t. is_in t.id [] ≡ false) tasks
new_to_nothing [] = tt
new_to_nothing (t ∷ tasks) = (refl, new_to_nothing tasks)

apart_from_none :
    (tasks : List Task) → All (λ t. any {A = Task} (λ u. u.id == t.id) [] ≡ false) tasks
apart_from_none [] = tt
apart_from_none (t ∷ tasks) = (refl, apart_from_none tasks)

module _ (session_id : ℕ) (submissions : List Submission) where
  some_row :
      (tasks : List Task)
      → ltb 0 (length (outer_join session_id submissions tasks)) ≡ true
      → ltb 0 (length tasks) ≡ true
  unfolding outer_join
  some_row [] h = h
  some_row (task ∷ tasks) h = ground arith

  -- What is loaded: the tasks of the trial in their order, of which there is one, and the ids of those done.
  pub load_tasks_with_completion_state-ok :
      (trial_id : ℕ) (tasks : List Task) {loaded : List Task × List ℕ}
      → HaveOwnIds tasks
      → load_tasks_with_completion_state trial_id session_id tasks submissions ≡ ok loaded
      → ((
        tasks_of_trial trial_id tasks,
        done_ids session_id submissions (tasks_of_trial trial_id tasks),
      )
          ≡ loaded)
        × (ltb 0 (length (tasks_of_trial trial_id tasks)) ≡ true)
  unfolding load_tasks_with_completion_state
  load_tasks_with_completion_state-ok trial_id tasks own h =
      let chosen = tasks_of_trial trial_id tasks in
      let (made, rows) = loaded_or_raise-ok (outer_join session_id submissions chosen) h in
      let own_ids =
        sort-HaveOwnIds (λ t. t.day_index) _
          (sort-HaveOwnIds (λ t. pos t.id) _
            (keep-HaveOwnIds (λ t. t.trial_id == trial_id) tasks own)) in
      (
        sym (
              collect-outer_join session_id submissions chosen [] [] own_ids
                (apart_from_none chosen) (new_to_nothing chosen))
            ∙ made,
        some_row chosen rows,
      )

module _ (lower : Text → Text) (zone_info : Text → Option Zone) (from_iso : Text → Option ℕ) where
  handoff_revisit_task-none :
      (tasks : List Task) (completed : List ℕ) (session : CandidateSession) (trial : Option Trial)
      (now : ℕ) (current : Option Task)
      → (handoff_revisit_task lower zone_info from_iso tasks completed session trial now current
          ≡ none)
        ↔ (current ≡ none)
  unfolding handoff_revisit_task
  handoff_revisit_task-none tasks completed session trial now none = (λ h. h, λ h. h)
  handoff_revisit_task-none tasks completed session trial now (some current) = ground arith

  snapshot_of-none :
      (session : CandidateSession) (trial : Option Trial) (now : ℕ) (submissions : List Submission)
      (tasks : List Task)
      → ltb 0 (length tasks) ≡ true
      → ((snapshot_of lower zone_info from_iso session trial now
            (tasks, done_ids session.id submissions tasks)).0
          ≡ none)
        ↔ ((snapshot_of lower zone_info from_iso session trial now
              (tasks, done_ids session.id submissions tasks)).1.1.1
            ≡ true)
  unfolding snapshot_of summarize_progress
  snapshot_of-none session trial now submissions tasks some_task =
      let done = done_ids session.id submissions tasks in
      let current = compute_current_task tasks done in
      let a = handoff_revisit_task-none tasks done session trial now current in
      let b = compute_current_task-none session.id submissions tasks in
      let c = count_done session.id submissions tasks in
      (
        λ h. let none_left = b.0 (a.0 h) in ground (arith, none_left, c, some_task),
        λ h.
            let none_left : any (left_over session.id submissions) tasks ≡ false =
              ground (arith, c, h) in
            a.1 (b.1 none_left),
      )

  summary_total :
      (session : CandidateSession) (trial : Option Trial) (now : ℕ) (submissions : List Submission)
      (tasks : List Task)
      → (snapshot_of lower zone_info from_iso session trial now
          (tasks, done_ids session.id submissions tasks)).1.1.0
        ≡ length tasks
  unfolding snapshot_of summarize_progress
  summary_total session trial now submissions tasks = refl

  summary_count :
      (session : CandidateSession) (trial : Option Trial) (now : ℕ) (submissions : List Submission)
      (tasks : List Task)
      → (snapshot_of lower zone_info from_iso session trial now
          (tasks, done_ids session.id submissions tasks)).1.0
        ≡ length (done_ids session.id submissions tasks)
  unfolding snapshot_of summarize_progress
  summary_count session trial now submissions tasks = refl

  -- Where the tasks have different ids, a snapshot of a candidate's progress that loads the tasks itself, for a caller who
  -- gives none, counts the tasks of the trial and those with a submission of the candidate, and says that all is done exactly when it gives no current task.
  pub progress_snapshot_complete :
      (session : CandidateSession) (trial : Option Trial) (now : ℕ) (tasks : List Task)
      (submissions : List Submission) {loaded : List Task × List ℕ} {current : Option Task}
      {completed total : ℕ} {is_complete : Bool}
      → HaveOwnIds tasks
      → progress_snapshot lower zone_info from_iso [] session trial now tasks submissions
        ≡ ok (loaded, (current, (completed, (total, is_complete))))
      → ((current ≡ none) ↔ (is_complete ≡ true))
        × (total ≡ length (tasks_of_trial session.trial_id tasks))
        × (completed
            ≡ length
                (keep (submitted session.id submissions) (tasks_of_trial session.trial_id tasks)))
  unfolding progress_snapshot
  progress_snapshot_complete session trial now tasks submissions {current} {completed} {total}
        {is_complete} own h =
      let chosen = tasks_of_trial session.trial_id tasks in
      let (held, found, done) =
        >>=-ok (load_tasks_with_completion_state session.trial_id session.id tasks submissions) _
          h in
      let (made, some_task) =
        load_tasks_with_completion_state-ok session.id submissions session.trial_id tasks own
          found in
      let shown : List Task × List ℕ = (chosen, done_ids session.id submissions chosen) in
      let result : snapshot_of lower zone_info from_iso session trial now shown
          ≡ (current, (completed, (total, is_complete))) =
        cc in
      let many = length-ids_of (keep (submitted session.id submissions) chosen) in
      subst
        (λ (r : Option Task × (ℕ × (ℕ × Bool))).
          ((r.0 ≡ none) ↔ (r.1.1.1 ≡ true))
          × (r.1.1.0 ≡ length chosen)
          × (r.1.0 ≡ length (keep (submitted session.id submissions) chosen)))
        result
        (
          snapshot_of-none session trial now submissions chosen some_task,
          summary_total session trial now submissions chosen,
          summary_count session trial now submissions chosen ∙ many,
        )

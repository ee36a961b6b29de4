-- ===== src/Submissions/Order/Accepted.antt =====
-- Which submissions are accepted.
use tenon_backend.Base.{
  ℕ, ◌≡◌, refl, sym, ap, ◌∙◌, false, not, ◌||◌, ◌==◌, Option, none, some, List, [], ◌∷◌, find, any,
  arith, Bool, true, ◌&&◌, Bool-cases, inl, inr,
}
use mathlib.Core.Path.{subst}
use tenon_backend.Base.Sort.{sort, sort-IsSorted, sort-IsSorted_eq}
use tenon_backend.Base.Text.{Text, codes}
use tenon_backend.Base.Result.{ok, api_error, raise_if, >>=-ok}
use tenon_backend.Trials.Model.{Trial, CandidateSession}
use tenon_backend.Schedule.Times.{Zone}
use tenon_backend.Schedule.Gates.{Task, require_active_window}
use tenon_backend.Candidates.Progress.{
  Submission, is_in, compute_current_task, tasks_of_trial, load_tasks_with_completion_state,
  snapshot_of, progress_snapshot,
}
use tenon_backend.Candidates.Progress.Loaded.{HaveOwnIds, ids_of, is_submitted, submitted}
use tenon_backend.Candidates.Progress.Completion.{
  All-map, is_in-kept, done_ids, load_tasks_with_completion_state-ok,
}
use tenon_backend.Submissions.Order.{
  CandidateDayAudit, load_task_or_404, ensure_task_belongs, ensure_day_flow_open, ensure_in_order,
  check_submission_flow,
}
use tenon_backend.Submissions.Order.Current.{
  EarlierAre, find-EarlierAre, find-holds, handoff_revisit_task-open,
}

find-found :
    (q : Task → Bool) (xs : List Task) {t : Task}
    → find q xs ≡ some t
    → any (λ u. (u.id == t.id) && q u) xs ≡ true
find-found q [] h = cc
find-found q (x ∷ xs) {t} h = elim (Bool-cases (q x)) [
  | inl met ↦
      let e : x ≡ t = (let shown = rw met at h in cc) in
      let same : x.id ≡ t.id = ap (λ u. u.id) e in ground (arith, same)
  | inr unmet ↦ ground (arith, find-found q xs {t = t} (rw unmet at h))
]

any-imp :
    (p q : Task → Bool) (xs : List Task)
    → ((t : Task) → p t ≡ true → q t ≡ true)
    → any p xs ≡ true
    → any q xs ≡ true
any-imp p q [] f h = h
any-imp p q (x ∷ xs) f h = ground (arith, f x, any-imp p q xs f)

-- What an accepted submission has found: the task, of the candidate's trial, in its window, before the recorded cut-off,
-- not submitted yet, and current, with all tasks of earlier days submitted.
pub record IsAccepted (zone_info : Text → Option Zone) (from_iso : Text → Option ℕ) (now : ℕ)
    (session : CandidateSession) (trial : Option Trial) (task_id : ℕ) (tasks : List Task)
    (submissions : List Submission) (audits : List CandidateDayAudit) (task : Task) : Type 0 where
  pub found : find (λ t. t.id == task_id) tasks ≡ some task
  pub belongs : task.trial_id ≡ session.trial_id
  pub within : require_active_window zone_info from_iso session trial task now ≡ ok tt
  pub not_cut_off : ensure_day_flow_open now session task audits ≡ ok tt
  pub is_new : is_submitted session.id submissions task_id ≡ false
  pub current : Task
  pub is_current : current.id ≡ task_id
  pub earlier :
      EarlierAre
        (submitted session.id submissions)
        current.day_index
        (tasks_of_trial session.trial_id tasks)

load_task_or_404-ok :
    (task_id : ℕ) (tasks : List Task) {task : Task}
    → load_task_or_404 task_id tasks ≡ ok task
    → find (λ t. t.id == task_id) tasks ≡ some task
unfolding load_task_or_404
load_task_or_404-ok task_id tasks h = ground arith

ensure_task_belongs-ok :
    (task : Task) (session : CandidateSession) {done : Unit {0}}
    → ensure_task_belongs task session ≡ ok done
    → task.trial_id ≡ session.trial_id
unfolding ensure_task_belongs
ensure_task_belongs-ok task session h = ground arith

ensure_in_order-ok :
    (current : Option Task) (task_id : ℕ) {done : Unit {0}}
    → ensure_in_order current task_id ≡ ok done
    → (task : Task) × (current ≡ some task) × (task.id ≡ task_id)
unfolding ensure_in_order
ensure_in_order-ok none task_id h = cc
ensure_in_order-ok (some task) task_id h = (task, refl, ground arith)

is_in-ids_of : (n : ℕ) (xs : List Task) → is_in n (ids_of xs) ≡ any (λ u. u.id == n) xs
is_in-ids_of n [] = refl
is_in-ids_of n (x ∷ xs) = ap (λ b. (x.id == n) || b) (is_in-ids_of n xs)

module _ (session : CandidateSession) (submissions : List Submission) (tasks : List Task) where
  abbrev chosen : List Task
  chosen = tasks_of_trial session.trial_id tasks

  abbrev done : List ℕ
  done = done_ids session.id submissions chosen

  chosen_sorted : sort (λ (t : Task). t.day_index) chosen ≡ chosen
  chosen_sorted = sort-IsSorted_eq (λ t. t.day_index) chosen (sort-IsSorted (λ t. t.day_index) _)

  current_first :
      {current : Task}
      → compute_current_task chosen done ≡ some current
      → find (λ u. not (is_in u.id done)) chosen ≡ some current
  unfolding compute_current_task
  current_first h = ap (find (λ u. not (is_in u.id done))) (sym chosen_sorted) ∙ h

  current_earlier :
      {current : Task}
      → compute_current_task chosen done ≡ some current
      → EarlierAre (submitted session.id submissions) current.day_index chosen
  current_earlier {current} h =
      All-map
        (λ u before early.
          let held = before early in
          ground (arith, is_in-kept (is_submitted session.id submissions) u.id chosen, held))
        chosen
        (find-EarlierAre (λ u. not (is_in u.id done)) chosen (sort-IsSorted (λ t. t.day_index) _)
          (current_first h))

  current_new :
      {current : Task}
      → compute_current_task chosen done ≡ some current
      → is_submitted session.id submissions current.id ≡ false
  current_new {current} h =
      let first = current_first h in
      let open_task = find-holds (λ u. not (is_in u.id done)) chosen first in
      let here =
        any-imp _ (λ u. u.id == current.id) chosen (λ u both. ground arith)
          (find-found (λ u. not (is_in u.id done)) chosen first) in
      ground (
        arith,
        is_in-kept (is_submitted session.id submissions) current.id chosen,
        is_in-ids_of current.id chosen,
        here,
        open_task,
      )

-- What a snapshot of the candidate's own loading holds.
module _ (lower : Text → Text) (zone_info : Text → Option Zone) (from_iso : Text → Option ℕ)
    (now : ℕ) (session : CandidateSession) (trial : Option Trial) (tasks : List Task)
    (submissions : List Submission) where
  shown_task :
      {snapshot : (List Task × List ℕ) × (Option Task × (ℕ × (ℕ × Bool)))} {current : Task}
      (task_id : ℕ)
      → HaveOwnIds tasks
      → progress_snapshot lower zone_info from_iso [] session trial now tasks submissions
        ≡ ok snapshot
      → is_in task_id snapshot.0.1 ≡ false
      → snapshot.1.0 ≡ some current
      → current.id ≡ task_id
      → compute_current_task (chosen session submissions tasks) (done session submissions tasks)
        ≡ some current
  unfolding progress_snapshot snapshot_of
  shown_task {snapshot} {current} task_id own taken is_open shown same_id =
      let (loaded, load, made) =
        >>=-ok (load_tasks_with_completion_state session.trial_id session.id tasks submissions) _
          taken in
      let (held, _) =
        load_tasks_with_completion_state-ok session.id submissions session.trial_id tasks own
          load in
      let mine : List Task × List ℕ =
        (chosen session submissions tasks, done session submissions tasks) in
      let same : (mine, snapshot_of lower zone_info from_iso session trial now mine) ≡ snapshot =
        cc in
      handoff_revisit_task-open lower zone_info from_iso mine.0 mine.1 session trial now
        (compute_current_task mine.0 mine.1)
        (subst
          (λ (r : (List Task × List ℕ) × (Option Task × (ℕ × (ℕ × Bool)))). r.1.0 ≡ some current)
          (sym same) shown)
        (subst (λ n. is_in n mine.1 ≡ false) (sym same_id)
          (subst
            (λ (r : (List Task × List ℕ) × (Option Task × (ℕ × (ℕ × Bool)))).
              is_in task_id r.0.1 ≡ false)
            (sym same) is_open))

-- A submission that passes the checks is of a task of the candidate's trial, in its window, before a recorded cut-off,
-- which the candidate has not submitted yet; and all tasks of the trial of earlier days than the
-- current one, which has its id, are submitted. The tasks have different ids.
pub check_submission_flow-IsAccepted :
    (lower : Text → Text) (zone_info : Text → Option Zone) (from_iso : Text → Option ℕ) (now : ℕ)
    (session : CandidateSession) (trial : Option Trial) (task_id : ℕ) (tasks : List Task)
    (submissions : List Submission) (audits : List CandidateDayAudit) {task : Task}
    {task_list : List Task}
    → HaveOwnIds tasks
    → check_submission_flow lower zone_info from_iso now session trial task_id tasks submissions
        audits
      ≡ ok (task, task_list)
    → IsAccepted zone_info from_iso now session trial task_id tasks submissions audits task
unfolding check_submission_flow
check_submission_flow-IsAccepted lower zone_info from_iso now session trial task_id tasks
      submissions audits {task} own h =
    let (found, looked_up, a) = >>=-ok (load_task_or_404 task_id tasks) _ h in
    let (_, belongs, b) = >>=-ok (ensure_task_belongs found session) _ a in
    let (_, within, c) =
      >>=-ok (require_active_window zone_info from_iso session trial found now) _ b in
    let (_, flows, d) = >>=-ok (ensure_day_flow_open now session found audits) _ c in
    let (snapshot, taken, e) =
      >>=-ok (progress_snapshot lower zone_info from_iso [] session trial now tasks submissions) _
        d in
    let (_, new, f) =
      >>=-ok (raise_if (is_in task_id snapshot.0.1) (api_error 409 (codes "SUBMISSION_CONFLICT"))) _
        e in
    let (_, ordered, g) = >>=-ok (ensure_in_order snapshot.1.0 task_id) _ f in
    let (current, shown, same_id) = ensure_in_order-ok snapshot.1.0 task_id ordered in
    let first =
      shown_task lower zone_info from_iso now session trial tasks submissions task_id own taken
        (ground arith) shown same_id in
    let same : found ≡ task = cc in
    record {
      found = load_task_or_404-ok task_id tasks looked_up ∙ ap (λ t. some t) same;
      belongs = ap (λ t. t.trial_id) (sym same) ∙ ensure_task_belongs-ok found session belongs;
      within =
          subst (λ t. require_active_window zone_info from_iso session trial t now ≡ ok tt) same
            within;
      not_cut_off = subst (λ t. ensure_day_flow_open now session t audits ≡ ok tt) same flows;
      is_new =
          subst (λ n. is_submitted session.id submissions n ≡ false) same_id
            (current_new session submissions tasks first);
      current = current;
      is_current = same_id;
      earlier = current_earlier session submissions tasks first;
    }

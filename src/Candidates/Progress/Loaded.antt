-- ===== src/Candidates/Progress/Loaded.antt =====
-- What the loader makes of the rows: the tasks in their order, and the ids of those with a submission.
use tenon_backend.Base.{
  ℕ, ◌≡◌, refl, sym, ap, ◌∙◌, Bool, true, false, ◌||◌, ◌==◌, Option, none, some, List, [], ◌∷◌,
  ◌++◌, map, any, keep, All, arith, if◌then◌else◌, Bool-cases, inl, inr,
}
use tenon_backend.Base.Int.{ℤ}
use tenon_backend.Base.Sort.{sort, insert}
use tenon_backend.Schedule.Gates.{Task}
use tenon_backend.Candidates.Progress.{
  Submission, is_in, is_submission, rows_of_task, outer_join, set_default_task, with_submission,
  collect,
}

-- Tasks with different ids: the primary key.
abbrev pub HaveOwnIds : List Task → Type 0
HaveOwnIds [] = Unit
HaveOwnIds (task ∷ tasks) = (any (λ t. t.id == task.id) tasks ≡ false) × HaveOwnIds tasks

abbrev pub ids_of : List Task → List ℕ
ids_of tasks = map (λ t. t.id) tasks

-- The task has a submission of the session.
abbrev pub is_submitted : ℕ → List Submission → ℕ → Bool
is_submitted session_id submissions task_id = any (is_submission session_id task_id) submissions

any-insert :
    (key : Task → ℤ) (p : Task → Bool) (x : Task) (xs : List Task)
    → any p (insert key x xs) ≡ (p x || any p xs)
unfolding insert
any-insert key p x [] = refl
any-insert key p x (y ∷ ys) = ground (arith, any-insert key p x ys)

pub any-sort : (key : Task → ℤ) (p : Task → Bool) (xs : List Task) → any p (sort key xs) ≡ any p xs
unfolding sort
any-sort key p [] = refl
any-sort key p (x ∷ xs) = any-insert key p x (sort key xs) ∙ ap (λ b. p x || b) (any-sort key p xs)

insert-HaveOwnIds :
    (key : Task → ℤ) (x : Task) (xs : List Task)
    → any (λ t. t.id == x.id) xs ≡ false
    → HaveOwnIds xs
    → HaveOwnIds (insert key x xs)
unfolding insert
insert-HaveOwnIds key x [] fresh own = (refl, tt)
insert-HaveOwnIds key x (y ∷ ys) fresh own =
    ground (arith, any-insert key (λ t. t.id == y.id) x ys, insert-HaveOwnIds key x ys)

pub sort-HaveOwnIds : (key : Task → ℤ) (xs : List Task) → HaveOwnIds xs → HaveOwnIds (sort key xs)
unfolding sort
sort-HaveOwnIds key [] own = tt
sort-HaveOwnIds key (x ∷ xs) (fresh, own) =
    insert-HaveOwnIds key x (sort key xs) (any-sort key (λ t. t.id == x.id) xs ∙ fresh)
      (sort-HaveOwnIds key xs own)

any-keep : (p q : Task → Bool) (xs : List Task) → any q xs ≡ false → any q (keep p xs) ≡ false
any-keep p q [] h = refl
any-keep p q (x ∷ xs) h = ground (arith, any-keep p q xs)

pub keep-HaveOwnIds : (p : Task → Bool) (xs : List Task) → HaveOwnIds xs → HaveOwnIds (keep p xs)
keep-HaveOwnIds p [] own = tt
keep-HaveOwnIds p (x ∷ xs) (fresh, own) =
    ground (arith, any-keep p (λ t. t.id == x.id) xs fresh, keep-HaveOwnIds p xs own)

any-append {ℓ} :
    {A : Type ℓ} (p : A → Bool) (xs ys : List A) → any p (xs ++ ys) ≡ (any p xs || any p ys)
any-append p [] ys = refl
any-append p (x ∷ xs) ys = ground (arith, any-append p xs ys)

append_assoc {ℓ} : {A : Type ℓ} (xs ys zs : List A) → (xs ++ ys) ++ zs ≡ xs ++ (ys ++ zs)
append_assoc [] ys zs = refl
append_assoc (x ∷ xs) ys zs = ap (λ l. x ∷ l) (append_assoc xs ys zs)

append_nil {ℓ} : {A : Type ℓ} (xs : List A) → xs ++ [] ≡ xs
append_nil [] = refl
append_nil (x ∷ xs) = ap (λ l. x ∷ l) (append_nil xs)

has_some : List Submission → Bool
has_some [] = false
has_some (s ∷ submissions) = true

keep-has_some :
    (p : Submission → Bool) (submissions : List Submission)
    → has_some (keep p submissions) ≡ any p submissions
unfolding has_some
keep-has_some p [] = refl
keep-has_some p (s ∷ submissions) = ground (arith, keep-has_some p submissions)

-- A row, by what it makes of the tasks and of the ids.
collect-row :
    (task : Task) (submission_id : Option ℕ) (rows : List (Task × Option ℕ)) (tasks : List Task)
    (ids : List ℕ) {tasks' : List Task} {ids' : List ℕ}
    → set_default_task task tasks ≡ tasks'
    → with_submission task.id submission_id ids ≡ ids'
    → collect ((task, submission_id) ∷ rows) tasks ids ≡ collect rows tasks' ids'
unfolding collect
collect-row task submission_id rows tasks ids {tasks'} a b =
    ap (λ t. collect rows t (with_submission task.id submission_id ids)) a
    ∙ ap (λ i. collect rows tasks' i) b

-- Further rows of a task that is there change nothing.
collect-repeated :
    (task : Task) (submissions : List Submission) (rows : List (Task × Option ℕ))
    (tasks : List Task) (ids : List ℕ)
    → any (λ t. t.id == task.id) tasks ≡ true
    → is_in task.id ids ≡ true
    → collect (map (λ s. (task, some s.id)) submissions ++ rows) tasks ids ≡ collect rows tasks ids
unfolding collect
collect-repeated task [] rows tasks ids there done = refl
collect-repeated task (s ∷ submissions) rows tasks ids there done =
    collect-row task (some s.id) (map (λ s'. (task, some s'.id)) submissions ++ rows) tasks ids
      (rw there refl) (rw done refl)
    ∙ collect-repeated task submissions rows tasks ids there done

-- The rows of a new task add it, and its id where it has a submission.
collect-rows_of_task :
    (task : Task) (submissions : List Submission) (rows : List (Task × Option ℕ))
    (tasks : List Task) (ids : List ℕ)
    → any (λ t. t.id == task.id) tasks ≡ false
    → is_in task.id ids ≡ false
    → collect (rows_of_task task submissions ++ rows) tasks ids
      ≡ collect rows
          (tasks ++ task ∷ [])
          (if has_some submissions then ids ++ task.id ∷ [] else ids)
unfolding collect has_some
collect-rows_of_task task [] rows tasks ids fresh new =
    collect-row task none rows tasks ids (rw fresh refl) refl
collect-rows_of_task task (s ∷ submissions) rows tasks ids fresh new =
    collect-row task (some s.id) (map (λ s'. (task, some s'.id)) submissions ++ rows) tasks ids
      (rw fresh refl) (rw new refl)
    ∙ collect-repeated task submissions rows (tasks ++ task ∷ []) (ids ++ task.id ∷ [])
        (ground (arith, any-append (λ t. t.id == task.id) tasks (task ∷ [])))
        (ground (arith, any-append (λ m. m == task.id) ids (task.id ∷ [])))

-- The ids of the tasks are none of those.
abbrev AreNew : List Task → List ℕ → Type 0
AreNew tasks ids = All (λ t. is_in t.id ids ≡ false) tasks

abbrev AreOthers : List Task → List Task → Type 0
AreOthers tasks others = All (λ t. any (λ u. u.id == t.id) others ≡ false) tasks

AreOthers-append :
    (tasks others : List Task) (task : Task)
    → any (λ t. t.id == task.id) tasks ≡ false
    → AreOthers tasks others
    → AreOthers tasks (others ++ task ∷ [])
AreOthers-append [] others task fresh all = tt
AreOthers-append (t ∷ tasks) others task fresh all = (
  ground (arith, any-append (λ u. u.id == t.id) others (task ∷ []), all.0),
  AreOthers-append tasks others task (ground arith) all.1,
)

AreNew-append :
    (tasks : List Task) (ids : List ℕ) (task : Task)
    → any (λ t. t.id == task.id) tasks ≡ false
    → AreNew tasks ids
    → AreNew tasks (ids ++ task.id ∷ [])
AreNew-append [] ids task fresh all = tt
AreNew-append (t ∷ tasks) ids task fresh all = (
  ground (arith, any-append (λ m. m == t.id) ids (task.id ∷ []), all.0),
  AreNew-append tasks ids task (ground arith) all.1,
)

module _ (session_id : ℕ) (submissions : List Submission) where
  abbrev pub submitted : Task → Bool
  submitted task = is_submitted session_id submissions task.id

  pub collect-outer_join :
      (tasks others : List Task) (ids : List ℕ)
      → HaveOwnIds tasks
      → AreOthers tasks others
      → AreNew tasks ids
      → collect (outer_join session_id submissions tasks) others ids
        ≡ (others ++ tasks, ids ++ ids_of (keep submitted tasks))
  unfolding collect outer_join
  collect-outer_join [] others ids own apart new =
      ap (λ t. (t, ids)) (sym (append_nil others))
      ∙ ap (λ i. (others ++ [], i)) (sym (append_nil ids))
  collect-outer_join (task ∷ tasks) others ids own apart new =
      let mine = keep (is_submission session_id task.id) submissions in
      let rows = outer_join session_id submissions tasks in
      let step = collect-rows_of_task task mine rows others ids apart.0 new.0 in
      let apart' = AreOthers-append tasks others task own.0 apart.1 in
      let joined_tasks = append_assoc others (task ∷ []) tasks in
      let any_mine = keep-has_some (is_submission session_id task.id) submissions in
      elim (Bool-cases (submitted task)) [
        | inl done ↦
            let rest =
              collect-outer_join tasks (others ++ task ∷ []) (ids ++ task.id ∷ []) own.1 apart'
                (AreNew-append tasks ids task own.0 new.1) in
            let joined_ids = append_assoc ids (task.id ∷ []) (ids_of (keep submitted tasks)) in
            step
            ∙ ap (λ b. collect rows (others ++ task ∷ []) (if b then ids ++ task.id ∷ [] else ids))
                (any_mine ∙ done)
            ∙ rest
            ∙ ap (λ t. (t, (ids ++ task.id ∷ []) ++ ids_of (keep submitted tasks))) joined_tasks
            ∙ ap (λ i. (others ++ task ∷ tasks, i))
                (joined_ids
                  ∙ ap
                      (λ b.
                        ids
                        ++ ids_of (if b then task ∷ keep submitted tasks else keep submitted tasks))
                      (sym done))
        | inr open_task ↦
            let rest = collect-outer_join tasks (others ++ task ∷ []) ids own.1 apart' new.1 in
            step
            ∙ ap (λ b. collect rows (others ++ task ∷ []) (if b then ids ++ task.id ∷ [] else ids))
                (any_mine ∙ open_task)
            ∙ rest
            ∙ ap (λ t. (t, ids ++ ids_of (keep submitted tasks))) joined_tasks
            ∙ ap (λ i. (others ++ task ∷ tasks, i))
                (ap
                  (λ b.
                    ids ++ ids_of (if b then task ∷ keep submitted tasks else keep submitted tasks))
                  (sym open_task))
      ]

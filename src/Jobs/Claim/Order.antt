-- ===== src/Jobs/Claim/Order.antt =====
-- The candidate of a claim is a runnable row, and the first of them in the source's order.
use tenon_backend.Base.{
  ℕ, ◌≡◌, refl, Bool, true, false, none, some, List, [], ◌∷◌, arith, All, keep, if◌then◌else◌,
  Bool-cases, inl, inr,
}
use mathlib.Core.List.{Memᴰ}
use mathlib.Core.Path.{subst}
use tenon_backend.Jobs.Model.{Job, Table}
use tenon_backend.Jobs.Claim.{runnable_filter, in_order, first_in_order, select_candidate}

pub in_order_total : (a b : Job) → in_order a b ≡ false → in_order b a ≡ true
unfolding in_order
in_order_total a b h = ground arith

in_order_refl : (a : Job) → in_order a a ≡ true
unfolding in_order
in_order_refl a = ground arith

in_order_trans : (a b c : Job) → in_order a b ≡ true → in_order b c ≡ true → in_order a c ≡ true
unfolding in_order
in_order_trans a b c h k = ground arith

-- `best` is before every row of the list.
abbrev pub IsFirst : Job → List Job → Type 0
IsFirst best jobs = All (λ job. in_order best job ≡ true) jobs

IsFirst-trans :
    (a b : Job) (jobs : List Job) → in_order a b ≡ true → IsFirst b jobs → IsFirst a jobs
IsFirst-trans a b [] h first = tt
IsFirst-trans a b (job ∷ jobs) h first =
    (in_order_trans a b job h first.0, IsFirst-trans a b jobs h first.1)

first_in_order-ne-none :
    (job : Job) (jobs : List Job) → (best : Job) × (first_in_order (job ∷ jobs) ≡ some best)
unfolding first_in_order
first_in_order-ne-none job [] = (job, refl)
first_in_order-ne-none job (next ∷ jobs) =
    let (rest, e) = first_in_order-ne-none next jobs in
    (if in_order job rest then job else rest, rw e refl)

first_in_order-IsFirst :
    (jobs : List Job) {best : Job} → first_in_order jobs ≡ some best → IsFirst best jobs
unfolding first_in_order
first_in_order-IsFirst [] h = tt
first_in_order-IsFirst (job ∷ []) {best} h =
    let e : job ≡ best = ground arith in (rw e (in_order_refl best), tt)
first_in_order-IsFirst (job ∷ next ∷ jobs) {best} h =
    let (rest, e) = first_in_order-ne-none next jobs in
    let later = first_in_order-IsFirst (next ∷ jobs) e in
    let h' : some (if in_order job rest then job else rest) ≡ some best =
      rw (e, first_in_order) at h in
    elim (Bool-cases (in_order job rest)) [
      | inl before ↦
          let same : job ≡ best = ground arith in
          subst (λ b. IsFirst b (job ∷ next ∷ jobs)) same
            (in_order_refl job, IsFirst-trans job rest (next ∷ jobs) before later)
      | inr after ↦
          let same : rest ≡ best = ground arith in
          subst (λ b. IsFirst b (job ∷ next ∷ jobs)) same (in_order_total job rest after, later)
    ]

first_in_order-mem :
    (jobs : List Job) {best : Job} → first_in_order jobs ≡ some best → Memᴰ best jobs
unfolding first_in_order
first_in_order-mem [] h = cc
first_in_order-mem (job ∷ []) {best} h = Memᴰ.head (ground arith)
first_in_order-mem (job ∷ next ∷ jobs) {best} h =
    let (rest, e) = first_in_order-ne-none next jobs in
    let h' : some (if in_order job rest then job else rest) ≡ some best =
      rw (e, first_in_order) at h in
    elim (Bool-cases (in_order job rest)) [
      | inl before ↦ Memᴰ.head (ground arith)
      | inr after ↦
          let same : rest ≡ best = ground arith in
          Memᴰ.tail (first_in_order-mem (next ∷ jobs) (rw same at e))
    ]

module _ (p : Job → Bool) where
  mem-cons_kept :
      (row : Job) (rows : List Job) {job : Job}
      → p row ≡ true
      → (Memᴰ job (keep p rows) → Memᴰ job rows × (p job ≡ true))
      → Memᴰ job (row ∷ keep p rows)
      → Memᴰ job (row ∷ rows) × (p job ≡ true)
  mem-cons_kept row rows kept deeper (Memᴰ.head e) = (Memᴰ.head e, rw e kept)
  mem-cons_kept row rows kept deeper (Memᴰ.tail m) =
      let (deep, holds) = deeper m in (Memᴰ.tail deep, holds)

  mem-keep : (jobs : List Job) {job : Job} → Memᴰ job (keep p jobs) → Memᴰ job jobs × (p job ≡ true)
  mem-keep [] m = elim m [ ]
  mem-keep (row ∷ rows) {job} m = elim (Bool-cases (p row)) [
    | inl kept ↦ mem-cons_kept row rows kept (mem-keep rows) (rw kept at m)
    | inr left ↦ let (deep, holds) = mem-keep rows (rw left at m) in (Memᴰ.tail deep, holds)
  ]

  keep-eq-nil : (jobs : List Job) → keep p jobs ≡ [] → All (λ job. p job ≡ false) jobs
  keep-eq-nil [] e = tt
  keep-eq-nil (row ∷ rows) e = elim (Bool-cases (p row)) [
    | inl kept ↦ ground arith
    | inr left ↦ (left, keep-eq-nil rows (rw left at e))
  ]

  All-keep {ℓ} :
      (P : Job → Type ℓ) (jobs : List Job)
      → All P (keep p jobs)
      → All (λ job. p job ≡ true → P job) jobs
  All-keep P [] all = tt
  All-keep P (row ∷ rows) all = elim (Bool-cases (p row)) [
    | inl kept ↦
        let all' : All P (row ∷ keep p rows) = rw kept at all in
        (λ _. all'.0, All-keep P rows all'.1)
    | inr left ↦ (λ kept. cc, All-keep P rows (rw left at all))
  ]

-- The candidate may run, and comes first, by its due time and then its creation, of the rows that
-- may; and there is none exactly when no row may run.
pub select_candidate-first :
    (now stale_before : ℕ) (jobs : Table) (candidate : Job)
    → select_candidate now stale_before jobs ≡ some candidate
    → Memᴰ candidate jobs
      × (runnable_filter now stale_before candidate ≡ true)
      × All
          (λ job. runnable_filter now stale_before job ≡ true → in_order candidate job ≡ true)
          jobs
unfolding select_candidate
select_candidate-first now stale_before jobs candidate h =
    let p = runnable_filter now stale_before in
    let (m, holds) = mem-keep p jobs (first_in_order-mem (keep p jobs) h) in
    (m, holds, All-keep p _ jobs (first_in_order-IsFirst (keep p jobs) h))

first_in_order-eq-none : (jobs : List Job) → first_in_order jobs ≡ none → jobs ≡ []
first_in_order-eq-none [] e = refl
first_in_order-eq-none (job ∷ jobs) e = cc (e, (first_in_order-ne-none job jobs).1)

pub select_candidate-none :
    (now stale_before : ℕ) (jobs : Table)
    → select_candidate now stale_before jobs ≡ none
    → All (λ job. runnable_filter now stale_before job ≡ false) jobs
unfolding select_candidate
select_candidate-none now stale_before jobs h =
    keep-eq-nil (runnable_filter now stale_before) jobs (first_in_order-eq-none _ h)

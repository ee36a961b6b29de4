-- ===== src/Jobs/Bulk/Rounds.antt =====
-- What the updates, the insertion by one statement and the recovery key by key add to the map.
use tenon_backend.Base.{
  ℕ, suc, ◌≡◌, refl, sym, Bool, true, false, ◌||◌, some, List, [], ◌∷◌, map, any, All, arith,
  Option-cases, inl, inr,
}
use mathlib.Core.Path.{subst}
use tenon_backend.Base.Text.{Text}
use tenon_backend.Base.Result.{ok, >>=-ok}
use tenon_backend.Jobs.Model.{Job, Table}
use tenon_backend.Jobs.Rows.{has_key, insert_row}
use tenon_backend.Jobs.Shared.{IdempotentJobSpec, job_from_spec, apply_idempotent_job_updates}
use tenon_backend.Jobs.Create.Laws.{has_key_self, insert_commit_or_get_existing-loads}
use tenon_backend.Jobs.Create.{
  insert_commit_or_get_existing, update_existing_if_mutable, load_idempotent_job,
}
use tenon_backend.Jobs.Bulk.{
  Key, key_of, same_key, JobMap, job_of, set_job, apply_updates_to_existing, insert_rows,
  recover_per_key,
}
use tenon_backend.Jobs.Bulk.Map.{
  Fits, AllFit, has, same_key_self, has-set_job, set_job-AllFit, job_of-Fits, All-imp,
}

pub inserted-any :
    (id : Text) (now company_id : ℕ) (spec : IdempotentJobSpec) (jobs : Table) {jobs' : Table}
    → insert_row (job_from_spec id now company_id spec) jobs ≡ some jobs'
    → any (has_key company_id spec.job_type spec.idempotency_key) jobs' ≡ true
unfolding insert_row job_from_spec
inserted-any id now company_id spec jobs h =
    ground (arith, has_key_self (job_from_spec id now company_id spec))

-- The rows that the bulk insertion has made.
pub insert_rows-keeps :
    (ids : ℕ → Text) (now company_id : ℕ) (specs : List IdempotentJobSpec) (n : ℕ) (jobs : Table)
    (p : Job → Bool)
    → any p jobs ≡ true
    → any p (insert_rows ids now company_id specs n jobs).1 ≡ true
unfolding insert_rows insert_row
insert_rows-keeps ids now company_id [] n jobs p h = h
insert_rows-keeps ids now company_id (spec ∷ specs) n jobs p h =
    let job = job_from_spec (ids n) now company_id spec in
    ground (arith, insert_rows-keeps ids now company_id specs (suc n) (job ∷ jobs) p)

pub insert_rows-All :
    (ids : ℕ → Text) (now company_id : ℕ) (specs : List IdempotentJobSpec) (n : ℕ) (jobs : Table)
    → (insert_rows ids now company_id specs n jobs).0 ≡ true
    → All
        (λ spec.
          any
            (has_key company_id spec.job_type spec.idempotency_key)
            (insert_rows ids now company_id specs n jobs).1
          ≡ true)
        specs
unfolding insert_rows
insert_rows-All ids now company_id [] n jobs done = tt
insert_rows-All ids now company_id (spec ∷ specs) n jobs done =
    let job = job_from_spec (ids n) now company_id spec in
    elim (Option-cases (insert_row job jobs)) [
      | inl refused ↦ let stopped : false ≡ true = rw (refused, insert_rows) at done in cc
      | inr (jobs', made) ↦
          let later = insert_rows ids now company_id specs (suc n) jobs' in
          let same : insert_rows ids now company_id (spec ∷ specs) n jobs ≡ later =
            rw (made, insert_rows) refl in
          subst
            (λ done.
              All (λ s. any (has_key company_id s.job_type s.idempotency_key) done.1 ≡ true)
                (spec ∷ specs))
            (sym same)
            (
              insert_rows-keeps ids now company_id specs (suc n) jobs'
                  (has_key company_id spec.job_type spec.idempotency_key)
                  (inserted-any (ids n) now company_id spec jobs made),
              insert_rows-All ids now company_id specs (suc n) jobs'
                  (rw (made, insert_rows) at done),
            )
    ]

-- A recovery that returns has an entry for each specification, and loses none.
pub recover_per_key-has :
    (world : ℕ → Table → Table) (ids : ℕ → Text) (now company_id : ℕ)
    (specs : List IdempotentJobSpec) (n : ℕ) (m : JobMap) (jobs : Table) {m' : JobMap}
    {jobs' : Table} (key : Key)
    → recover_per_key world ids now company_id specs n m jobs ≡ ok (m', jobs')
    → has key m ≡ true
    → has key m' ≡ true
unfolding recover_per_key
recover_per_key-has world ids now company_id [] n m jobs key h held = ground arith
recover_per_key-has world ids now company_id (spec ∷ specs) n m jobs key h held =
    let ((job, made), _, rest) =
      >>=-ok
        (insert_commit_or_get_existing (world n) (job_from_spec (ids n) now company_id spec) jobs) _
        h in
    recover_per_key-has world ids now company_id specs (suc n) (set_job (key_of spec) job m) made
      key rest (ground (arith, has-set_job key (key_of spec) job m))

pub recover_per_key-All :
    (world : ℕ → Table → Table) (ids : ℕ → Text) (now company_id : ℕ)
    (specs : List IdempotentJobSpec) (n : ℕ) (m : JobMap) (jobs : Table) {m' : JobMap}
    {jobs' : Table}
    → recover_per_key world ids now company_id specs n m jobs ≡ ok (m', jobs')
    → All (λ spec. has (key_of spec) m' ≡ true) specs
unfolding recover_per_key
recover_per_key-All world ids now company_id [] n m jobs h = tt
recover_per_key-All world ids now company_id (spec ∷ specs) n m jobs h =
    let ((job, made), _, rest) =
      >>=-ok
        (insert_commit_or_get_existing (world n) (job_from_spec (ids n) now company_id spec) jobs) _
        h in
    (
      recover_per_key-has world ids now company_id specs (suc n) (set_job (key_of spec) job m) made
          (key_of spec) rest
          (ground
            (arith, has-set_job (key_of spec) (key_of spec) job m, same_key_self (key_of spec))),
      recover_per_key-All world ids now company_id specs (suc n) (set_job (key_of spec) job m) made
          rest,
    )

pub found-Fits :
    (company_id : ℕ) (job_type key : Text) (jobs : Table) {found : Job}
    → load_idempotent_job company_id job_type key jobs ≡ some found
    → Fits company_id (job_type, key) found
unfolding load_idempotent_job
found-Fits company_id job_type key [] h = cc
found-Fits company_id job_type key (row ∷ rows) {found} h =
    ground (arith, found-Fits company_id job_type key rows {found = found})

pub recover_per_key-AllFit :
    (world : ℕ → Table → Table) (ids : ℕ → Text) (now company_id : ℕ)
    (specs : List IdempotentJobSpec) (n : ℕ) (m : JobMap) (jobs : Table) {m' : JobMap}
    {jobs' : Table}
    → recover_per_key world ids now company_id specs n m jobs ≡ ok (m', jobs')
    → AllFit company_id m
    → AllFit company_id m'
unfolding recover_per_key job_from_spec
recover_per_key-AllFit world ids now company_id [] n m jobs h all =
    let same : m ≡ _ = cc in subst (AllFit company_id) same all
recover_per_key-AllFit world ids now company_id (spec ∷ specs) n m jobs h all =
    let row = job_from_spec (ids n) now company_id spec in
    let ((job, made), done, rest) = >>=-ok (insert_commit_or_get_existing (world n) row jobs) _ h in
    recover_per_key-AllFit world ids now company_id specs (suc n) (set_job (key_of spec) job m) made
      rest
      (set_job-AllFit company_id (key_of spec) job m
        (found-Fits company_id spec.job_type spec.idempotency_key made
          (insert_commit_or_get_existing-loads (world n) row jobs done))
        all)

pub updated-Fits :
    (now company_id : ℕ) (spec : IdempotentJobSpec) (key : Key) (job : Job) (jobs : Table)
    → Fits company_id key job
    → Fits company_id key (update_existing_if_mutable now spec job jobs).0
unfolding update_existing_if_mutable apply_idempotent_job_updates has_key
updated-Fits now company_id spec key job jobs fits = ground (arith, fits)

module _ (now company_id : ℕ) where
  -- What the round over the specifications leaves: their keys are in the map or among the new ones.
  abbrev pub Covered : List IdempotentJobSpec → JobMap → IdempotentJobSpec → Type 0
  Covered new_specs m spec =
      (has (key_of spec) m || any (λ k. same_key (key_of spec) k) (map key_of new_specs)) ≡ true

  pub apply_updates_to_existing-has :
      (specs : List IdempotentJobSpec) (m : JobMap) (jobs : Table) (key : Key)
      → has key m ≡ true
      → has key (apply_updates_to_existing now specs m jobs).1.0 ≡ true
  unfolding apply_updates_to_existing
  apply_updates_to_existing-has [] m jobs key held = held
  apply_updates_to_existing-has (spec ∷ specs) m jobs key held =
      elim (Option-cases (job_of (key_of spec) m)) [
        | inl missing ↦
            rw (missing, apply_updates_to_existing)
              (apply_updates_to_existing-has specs m jobs key held)
        | inr (existing, e) ↦
            let (job, jobs') = update_existing_if_mutable now spec existing jobs in
            rw (e, apply_updates_to_existing)
              (apply_updates_to_existing-has specs (set_job (key_of spec) job m) jobs' key
                (ground (arith, held, has-set_job key (key_of spec) job m)))
      ]

  pub apply_updates_to_existing-AllFit :
      (specs : List IdempotentJobSpec) (m : JobMap) (jobs : Table)
      → AllFit company_id m
      → AllFit company_id (apply_updates_to_existing now specs m jobs).1.0
  unfolding apply_updates_to_existing
  apply_updates_to_existing-AllFit [] m jobs all = all
  apply_updates_to_existing-AllFit (spec ∷ specs) m jobs all =
      elim (Option-cases (job_of (key_of spec) m)) [
        | inl missing ↦
            rw (missing, apply_updates_to_existing)
              (apply_updates_to_existing-AllFit specs m jobs all)
        | inr (existing, e) ↦
            let (job, jobs') = update_existing_if_mutable now spec existing jobs in
            rw (e, apply_updates_to_existing)
              (apply_updates_to_existing-AllFit specs (set_job (key_of spec) job m) jobs' (
                set_job-AllFit company_id (key_of spec) job m
                  (updated-Fits now company_id spec (key_of spec) existing jobs
                    (job_of-Fits company_id (key_of spec) m all e))
                  all))
      ]

  pub apply_updates_to_existing-covers :
      (specs : List IdempotentJobSpec) (m : JobMap) (jobs : Table)
      → All
          (Covered
            (apply_updates_to_existing now specs m jobs).0
            (apply_updates_to_existing now specs m jobs).1.0)
          specs
  unfolding apply_updates_to_existing
  apply_updates_to_existing-covers [] m jobs = tt
  apply_updates_to_existing-covers (spec ∷ specs) m jobs =
      elim (Option-cases (job_of (key_of spec) m)) [
        | inl missing ↦
            rw (missing, apply_updates_to_existing)
              (
                ground (arith, same_key_self (key_of spec)),
                All-imp (λ s h. ground (arith, h)) specs
                    (apply_updates_to_existing-covers specs m jobs),
              )
        | inr (existing, e) ↦
            let (job, jobs') = update_existing_if_mutable now spec existing jobs in
            let held =
              apply_updates_to_existing-has specs (set_job (key_of spec) job m) jobs' (key_of spec)
                (ground (
                  arith,
                  has-set_job (key_of spec) (key_of spec) job m,
                  same_key_self (key_of spec),
                )) in
            let same : apply_updates_to_existing now (spec ∷ specs) m jobs
                ≡ apply_updates_to_existing now specs (set_job (key_of spec) job m) jobs' =
              rw (e, apply_updates_to_existing) refl in
            subst (λ after. All (Covered after.0 after.1.0) (spec ∷ specs)) (sym same)
              (
                ground (arith, held),
                apply_updates_to_existing-covers specs (set_job (key_of spec) job m) jobs',
              )
      ]

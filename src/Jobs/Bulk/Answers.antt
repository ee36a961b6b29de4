-- ===== src/Jobs/Bulk/Answers.antt =====
-- Every specification of a call for many jobs is answered by a job with its key.
use tenon_backend.Base.{
  ℕ, zero, suc, ◌≡◌, refl, sym, Bool, true, false, List, [], ◌∷◌, map, any, All, length, arith,
  if◌then◌else◌, Bool-cases, inl, inr,
}
use mathlib.Core.Path.{subst}
use tenon_backend.Base.Text.{Text}
use tenon_backend.Base.Result.{ok, >>=-ok}
use tenon_backend.Jobs.Model.{Job, Table}
use tenon_backend.Jobs.Rows.{has_key}
use tenon_backend.Jobs.Shared.{IdempotentJobSpec, normalize_many_specs}
use tenon_backend.Jobs.Bulk.{
  Key, key_of, same_key, JobMap, load_idempotent_jobs_for_keys, update_map,
  apply_updates_to_existing, insert_rows, recover_after, recover_bulk_insert_conflicts, insert_new,
  resolve_jobs_in_order, create_or_update_many_normalized, create_or_update_many_idempotent,
}
use tenon_backend.Jobs.Bulk.Map.{
  AllFit, has, same_key_eq, job_of-Fits, has-job_of, load-AllFit, load-has, update_map-has,
  update_map-AllFit, Among, All-imp, Among-map,
}
use tenon_backend.Jobs.Bulk.Rounds.{
  insert_rows-All, recover_per_key-has, recover_per_key-All, recover_per_key-AllFit, Covered,
  apply_updates_to_existing-AllFit, apply_updates_to_existing-covers,
}

-- One job for each specification, in the same order, with its company, type and key.
abbrev pub Answers : ℕ → List IdempotentJobSpec → List Job → Type 0
Answers company_id [] [] = Unit
Answers company_id (spec ∷ specs) (job ∷ jobs) =
    (has_key company_id spec.job_type spec.idempotency_key job ≡ true)
    × Answers company_id specs jobs
Answers company_id _ _ = ⊥

-- A map in which every specification has its job.
abbrev IsFull : ℕ → List IdempotentJobSpec → JobMap → Type 0
IsFull company_id specs m = AllFit company_id m × All (λ spec. has (key_of spec) m ≡ true) specs

resolve_jobs_in_order-Answers :
    (company_id : ℕ) (specs : List IdempotentJobSpec) (m : JobMap)
    → IsFull company_id specs m
    → Answers company_id specs (resolve_jobs_in_order specs m)
unfolding resolve_jobs_in_order
resolve_jobs_in_order-Answers company_id [] m full = tt
resolve_jobs_in_order-Answers company_id (spec ∷ specs) m (fits, held) =
    let (job, found) = has-job_of (key_of spec) m held.0 in
    rw (found, resolve_jobs_in_order)
      (
        job_of-Fits company_id (key_of spec) m fits found,
        resolve_jobs_in_order-Answers company_id specs m (fits, held.1),
      )

among-has :
    (key : Key) (specs : List IdempotentJobSpec) (m : JobMap)
    → All (λ spec. has (key_of spec) m ≡ true) specs
    → any (λ k. same_key key k) (map key_of specs) ≡ true
    → has key m ≡ true
among-has key [] m held among = cc
among-has key (spec ∷ specs) m held among = elim (Bool-cases (same_key key (key_of spec))) [
  | inl same ↦ subst (λ k. has k m ≡ true) (sym (same_key_eq key (key_of spec) same)) held.0
  | inr differs ↦ among-has key specs m held.1 (ground arith)
]

module _ (atomic : Bool) (world : ℕ → Table → Table) (ids : ℕ → Text) (now company_id : ℕ) where
  -- What the insertion of the new specifications adds to the map.
  Adds : List IdempotentJobSpec → JobMap → JobMap → Type 0
  Adds new_specs m m' =
      AllFit company_id m'
      × ((key : Key) → has key m ≡ true → has key m' ≡ true)
      × All (λ spec. has (key_of spec) m' ≡ true) new_specs

  Adds-AllFit :
      (new_specs : List IdempotentJobSpec) (m m' : JobMap)
      → Adds new_specs m m'
      → AllFit company_id m'
  unfolding Adds
  Adds-AllFit new_specs m m' adds = adds.0

  loaded-has :
      (specs : List IdempotentJobSpec) (keys : List Key) (jobs : Table)
      → Among specs keys
      → All (λ spec. any (has_key company_id spec.job_type spec.idempotency_key) jobs ≡ true) specs
      → All
          (λ spec. has (key_of spec) (load_idempotent_jobs_for_keys company_id keys jobs) ≡ true)
          specs
  loaded-has [] keys jobs among inserted = tt
  loaded-has (spec ∷ specs) keys jobs among inserted = (
    load-has company_id (key_of spec) keys jobs among.0 inserted.0,
    loaded-has specs keys jobs among.1 inserted.1,
  )

  recover_after-Adds :
      (new_specs : List IdempotentJobSpec) (m : JobMap) (before : Table) (inserted : Bool × Table)
      {m' : JobMap} {jobs' : Table}
      → AllFit company_id m
      → (inserted.0 ≡ true
          → All
              (λ spec.
                any (has_key company_id spec.job_type spec.idempotency_key) inserted.1 ≡ true)
              new_specs)
      → recover_after atomic world ids now company_id new_specs m before inserted ≡ ok (m', jobs')
      → Adds new_specs m m'
  unfolding Adds recover_after
  recover_after-Adds new_specs m before (true, jobs) {m'} fits made h =
      let keys = map key_of new_specs in
      let created = load_idempotent_jobs_for_keys company_id keys jobs in
      let same : update_map m created ≡ m' = cc in
      subst (Adds new_specs m) same (
        update_map-AllFit company_id m created (load-AllFit company_id keys jobs) fits,
        λ key held. ground (arith, held, update_map-has key m created),
        All-imp (λ spec held. ground (arith, held, update_map-has (key_of spec) m created))
            new_specs (loaded-has new_specs keys jobs (Among-map new_specs) (made refl)),
      )
  recover_after-Adds new_specs m before (false, jobs) fits made h =
      let start = if atomic then before else jobs in
      let n = suc (length new_specs) in
      (
        recover_per_key-AllFit world ids now company_id new_specs n m start h fits,
        λ key held. recover_per_key-has world ids now company_id new_specs n m start key h held,
        recover_per_key-All world ids now company_id new_specs n m start h,
      )

  insert_new-Adds :
      (new_specs : List IdempotentJobSpec) (m : JobMap) (jobs : Table) {m' : JobMap} {jobs' : Table}
      → AllFit company_id m
      → insert_new atomic world ids now company_id (new_specs, (m, jobs)) ≡ ok (m', jobs')
      → Adds new_specs m m'
  unfolding insert_new recover_bulk_insert_conflicts
  insert_new-Adds [] m jobs {m'} fits h =
      let same : m ≡ m' = cc in subst (Adds [] m) same (unfold Adds in (fits, λ key held. held, tt))
  insert_new-Adds (spec ∷ specs) m jobs fits h =
      let new_specs = spec ∷ specs in
      let before = world zero jobs in
      recover_after-Adds new_specs m before
        (insert_rows ids now company_id new_specs (suc zero) before) fits
        (insert_rows-All ids now company_id new_specs (suc zero) before) h

  Covered-has :
      (specs new_specs : List IdempotentJobSpec) (m m' : JobMap)
      → Adds new_specs m m'
      → All (Covered now company_id new_specs m) specs
      → All (λ spec. has (key_of spec) m' ≡ true) specs
  unfolding Adds
  Covered-has specs new_specs m m' (fits, keeps, added) covered =
      All-imp
        (λ spec here. elim (Bool-cases (has (key_of spec) m)) [
          | inl held ↦ keeps (key_of spec) held
          | inr missing ↦ among-has (key_of spec) new_specs m' added (ground arith)
        ])
        specs covered

  create_or_update_many_normalized-Answers :
      (normalized : List IdempotentJobSpec) (jobs : Table) {resolved : List Job} {jobs' : Table}
      → create_or_update_many_normalized atomic world ids now company_id normalized jobs
        ≡ ok (resolved, jobs')
      → Answers company_id normalized resolved
  unfolding create_or_update_many_normalized
  create_or_update_many_normalized-Answers [] jobs {resolved} h =
      let none_left : [] ≡ resolved = cc in subst (Answers company_id []) none_left tt
  create_or_update_many_normalized-Answers (spec ∷ specs) jobs {resolved} h =
      let normalized = spec ∷ specs in
      let keys = map key_of normalized in
      let loaded = load_idempotent_jobs_for_keys company_id keys jobs in
      let (new_specs, (m, updated)) = apply_updates_to_existing now normalized loaded jobs in
      let fits =
        apply_updates_to_existing-AllFit now company_id normalized loaded jobs
          (load-AllFit company_id keys jobs) in
      let ((m', after), inserted, done) =
        >>=-ok (insert_new atomic world ids now company_id (new_specs, (m, updated))) _ h in
      let adds = insert_new-Adds new_specs m updated fits inserted in
      let covered = apply_updates_to_existing-covers now company_id normalized loaded jobs in
      let same : resolve_jobs_in_order normalized m' ≡ resolved = cc in
      subst (Answers company_id normalized) same (
        resolve_jobs_in_order-Answers company_id normalized m'
          (Adds-AllFit new_specs m m' adds, Covered-has normalized new_specs m m' adds covered))

-- A call for many jobs that returns gives one job for each specification, in the order of the
-- specifications, with its company, type and key; whatever other sessions commit meanwhile, and
-- whether the rows come by one statement, key by key, or were there.
pub create_or_update_many_idempotent-Answers :
    (atomic : Bool) (world : ℕ → Table → Table) (ids : ℕ → Text) (now company_id : ℕ)
    (specs : List IdempotentJobSpec) (jobs : Table) {resolved : List Job} {jobs' : Table}
    → create_or_update_many_idempotent atomic world ids now company_id specs jobs
      ≡ ok (resolved, jobs')
    → (normalized : List IdempotentJobSpec) × (normalize_many_specs specs ≡ ok normalized)
      × Answers company_id normalized resolved
unfolding create_or_update_many_idempotent
create_or_update_many_idempotent-Answers atomic world ids now company_id specs jobs h =
    let (normalized, checked, rest) = >>=-ok (normalize_many_specs specs) _ h in
    (
      normalized,
      checked,
      create_or_update_many_normalized-Answers atomic world ids now company_id normalized jobs rest,
    )

-- ===== src/Jobs/Bulk/Map.antt =====
-- What the map of a call for many jobs holds after each of its writes.
use tenon_backend.Base.{
  ℕ, ◌≡◌, refl, sym, Bool, true, false, ◌||◌, some, List, [], ◌∷◌, map, any, keep, All, arith,
  Bool-cases, inl, inr,
}
use mathlib.Core.Path.{subst}
use tenon_backend.Base.Text.{same_text_iff}
use tenon_backend.Jobs.Model.{Job, Table}
use tenon_backend.Jobs.Rows.{has_key}
use tenon_backend.Jobs.Shared.{IdempotentJobSpec}
use tenon_backend.Jobs.Create.Laws.{has_key_self}
use tenon_backend.Jobs.Bulk.{
  Key, key_of, same_key, JobMap, job_of, set_job, is_wanted, map_rows,
  load_idempotent_jobs_for_keys, update_map,
}

-- A job of the company under the key.
abbrev pub Fits : ℕ → Key → Job → Type 0
Fits company_id key job = has_key company_id key.0 key.1 job ≡ true

abbrev pub AllFit : ℕ → JobMap → Type 0
AllFit company_id existing_map = All (λ entry. Fits company_id entry.0 entry.1) existing_map

unfoldable pub has : Key → JobMap → Bool
has key [] = false
has key ((other, job) ∷ rest) = same_key other key || has key rest

pub same_key_eq : (key other : Key) → same_key key other ≡ true → key ≡ other
same_key_eq (a, b) (c, d) h =
    let e : a ≡ c = ground (arith, same_text_iff a c) in
    let f : b ≡ d = ground (arith, same_text_iff b d) in cc

pub same_key_self : (key : Key) → same_key key key ≡ true
same_key_self (a, b) = ground (arith, same_text_iff a a, same_text_iff b b)

pub same_key_trans : (a b c : Key) → same_key a b ≡ true → same_key b c ≡ same_key a c
same_key_trans a b c h = rw (same_key_eq a b h) refl

-- What the dictionary holds after a write.
pub has-set_job :
    (key other : Key) (job : Job) (m : JobMap)
    → has key (set_job other job m) ≡ (same_key other key || has key m)
unfolding has set_job
has-set_job key other job [] = refl
has-set_job key other job ((k, old) ∷ rest) =
    ground (arith, has-set_job key other job rest, same_key_trans k other key)

pub set_job-AllFit :
    (company_id : ℕ) (key : Key) (job : Job) (m : JobMap)
    → Fits company_id key job
    → AllFit company_id m
    → AllFit company_id (set_job key job m)
unfolding set_job
set_job-AllFit company_id key job [] fits all = (fits, tt)
set_job-AllFit company_id key job ((k, old) ∷ rest) fits all = elim (Bool-cases (same_key k key)) [
  | inl same ↦
      rw same (subst (λ x. Fits company_id x job) (sym (same_key_eq k key same)) fits, all.1)
  | inr differs ↦ rw differs (all.0, set_job-AllFit company_id key job rest fits all.1)
]

pub job_of-Fits :
    (company_id : ℕ) (key : Key) (m : JobMap) {job : Job}
    → AllFit company_id m
    → job_of key m ≡ some job
    → Fits company_id key job
unfolding job_of
job_of-Fits company_id key [] all h = cc
job_of-Fits company_id key ((k, old) ∷ rest) {job} all h = elim (Bool-cases (same_key k key)) [
  | inl same ↦
      let e : old ≡ job = (let shown = rw (same, job_of) at h in cc) in
      subst (λ x. Fits company_id x job) (same_key_eq k key same)
        (subst (λ j. Fits company_id k j) e all.0)
  | inr differs ↦ job_of-Fits company_id key rest all.1 (rw (differs, job_of) at h)
]

pub has-job_of :
    (key : Key) (m : JobMap) → has key m ≡ true → (job : Job) × (job_of key m ≡ some job)
unfolding has job_of
has-job_of key [] h = cc
has-job_of key ((k, old) ∷ rest) h = elim (Bool-cases (same_key k key)) [
  | inl same ↦ rw same (old, refl)
  | inr differs ↦ rw differs (has-job_of key rest (rw differs at h))
]

pub has-missing : (key : Key) (m : JobMap) {job : Job} → job_of key m ≡ some job → has key m ≡ true
unfolding has job_of
has-missing key [] h = cc
has-missing key ((k, old) ∷ rest) {job} h = ground (arith, has-missing key rest {job = job})

pub map_rows-has :
    (key : Key) (m : JobMap) (rows : Table)
    → has key (map_rows m rows)
      ≡ (any (λ row. same_key (row.job_type, row.idempotency_key) key) rows || has key m)
unfolding map_rows
map_rows-has key m [] = refl
map_rows-has key m (row ∷ rows) =
    let k : Key = (row.job_type, row.idempotency_key) in
    ground (arith, map_rows-has key (set_job k row m) rows, has-set_job key k row m)

pub map_rows-AllFit :
    (company_id : ℕ) (m : JobMap) (rows : Table)
    → All (λ row. row.company_id ≡ company_id) rows
    → AllFit company_id m
    → AllFit company_id (map_rows m rows)
unfolding map_rows
map_rows-AllFit company_id m [] own all = all
map_rows-AllFit company_id m (row ∷ rows) own all =
    map_rows-AllFit company_id (set_job (row.job_type, row.idempotency_key) row m) rows own.1 (
      set_job-AllFit company_id (row.job_type, row.idempotency_key) row m
        (subst (λ c. Fits c (row.job_type, row.idempotency_key) row) own.0 (has_key_self row)) all)

pub kept-own :
    (company_id : ℕ) (keys : List Key) (jobs : Table)
    → All (λ row. row.company_id ≡ company_id) (keep (is_wanted company_id keys) jobs)
unfolding is_wanted
kept-own company_id keys [] = tt
kept-own company_id keys (job ∷ jobs) = ground (arith, kept-own company_id keys jobs)

pub kept-any :
    (company_id : ℕ) (key : Key) (keys : List Key) (jobs : Table)
    → any (λ k. same_key key k) keys ≡ true
    → any (has_key company_id key.0 key.1) jobs ≡ true
    → any
        (λ row. same_key (row.job_type, row.idempotency_key) key)
        (keep (is_wanted company_id keys) jobs)
      ≡ true
unfolding is_wanted has_key
kept-any company_id key keys [] wanted held = cc
kept-any company_id key keys (job ∷ jobs) wanted held =
    elim (Bool-cases (has_key company_id key.0 key.1 job)) [
      | inl met ↦
          let k : Key = (job.job_type, job.idempotency_key) in
          let same : same_key k key ≡ true = ground arith in
          let w : is_wanted company_id keys job ≡ true = ground (
            arith,
            subst (λ x. any (same_key x) keys ≡ true) (sym (same_key_eq k key same)) wanted,
          ) in
          rw w (ground arith)
      | inr unmet ↦
          let later = kept-any company_id key keys jobs wanted (ground arith) in
          elim (Bool-cases (is_wanted company_id keys job)) [
            | inl w ↦ rw w (ground arith)
            | inr w ↦ rw w later
          ]
    ]

pub load-AllFit :
    (company_id : ℕ) (keys : List Key) (jobs : Table)
    → AllFit company_id (load_idempotent_jobs_for_keys company_id keys jobs)
unfolding load_idempotent_jobs_for_keys
load-AllFit company_id keys jobs =
    map_rows-AllFit company_id [] (keep (is_wanted company_id keys) jobs)
      (kept-own company_id keys jobs) tt

pub load-has :
    (company_id : ℕ) (key : Key) (keys : List Key) (jobs : Table)
    → any (λ k. same_key key k) keys ≡ true
    → any (has_key company_id key.0 key.1) jobs ≡ true
    → has key (load_idempotent_jobs_for_keys company_id keys jobs) ≡ true
unfolding load_idempotent_jobs_for_keys
load-has company_id key keys jobs wanted held = ground (
  arith,
  map_rows-has key [] (keep (is_wanted company_id keys) jobs),
  kept-any company_id key keys jobs wanted held,
)

pub update_map-has :
    (key : Key) (m created : JobMap)
    → has key (update_map m created) ≡ (has key created || has key m)
unfolding update_map has
update_map-has key m [] = refl
update_map-has key m ((k, job) ∷ created) =
    ground (arith, update_map-has key (set_job k job m) created, has-set_job key k job m)

pub update_map-AllFit :
    (company_id : ℕ) (m created : JobMap)
    → AllFit company_id created
    → AllFit company_id m
    → AllFit company_id (update_map m created)
unfolding update_map
update_map-AllFit company_id m [] new all = all
update_map-AllFit company_id m ((k, job) ∷ created) new all =
    update_map-AllFit company_id (set_job k job m) created new.1
      (set_job-AllFit company_id k job m new.0 all)

-- Each key of a list is among the keys.
abbrev pub Among : List IdempotentJobSpec → List Key → Type 0
Among specs keys = All (λ spec. any (λ k. same_key (key_of spec) k) keys ≡ true) specs

pub All-imp {ℓ κ} :
    {A : Type ℓ} {P Q : A → Type κ} → ((x : A) → P x → Q x) → (xs : List A) → All P xs → All Q xs
All-imp f [] all = tt
All-imp f (x ∷ xs) all = (f x all.0, All-imp f xs all.1)

pub Among-map : (specs : List IdempotentJobSpec) → Among specs (map key_of specs)
Among-map [] = tt
Among-map (spec ∷ specs) = (
  ground (arith, same_key_self (key_of spec)),
  All-imp (λ s h. ground (arith, h)) specs (Among-map specs),
)

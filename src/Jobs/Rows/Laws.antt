-- ===== src/Jobs/Rows/Laws.antt =====
-- What an update by a condition keeps: a property of every row, and the two unique indexes.
use tenon_backend.Base.{
  ◌≡◌, refl, sym, ◌∙◌, Bool, true, false, some, [], ◌∷◌, any, All, arith, if◌then◌else◌, Bool-cases,
  inl, inr, ◌≢◌,
}
use tenon_backend.Base.Text.{Text, same_text, same_text_iff}
use tenon_backend.Jobs.Model.{Job, Table}
use tenon_backend.Jobs.Rows.{get_by_id, update_where, rowcount, conflicts, insert_row, IsUnique}

-- The columns that the primary key and the unique index read.
pub record SameIdentity (job other : Job) : Type 0 where
  pub id : other.id ≡ job.id
  pub company_id : other.company_id ≡ job.company_id
  pub job_type : other.job_type ≡ job.job_type
  pub idempotency_key : other.idempotency_key ≡ job.idempotency_key

module _ (condition : Job → Bool) (values : Job → Job) where
  pub All-update_where {ℓ} :
      (P : Job → Type ℓ) (jobs : Table)
      → ((job : Job) → condition job ≡ true → P job → P (values job))
      → All P jobs
      → All P (update_where condition values jobs)
  unfolding update_where
  All-update_where P [] keeps all = tt
  All-update_where P (job ∷ jobs) keeps all = elim (Bool-cases (condition job)) [
    | inl met ↦ (rw met (keeps job met all.0), All-update_where P jobs keeps all.1)
    | inr not_met ↦ (rw not_met all.0, All-update_where P jobs keeps all.1)
  ]

  abbrev written : Job → Job
  written job = if condition job then values job else job

  written-SameIdentity :
      ((job : Job) → SameIdentity job (values job)) → (job : Job) → SameIdentity job (written job)
  written-SameIdentity keeps job = elim (Bool-cases (condition job)) [
    | inl met ↦ rw met (keeps job)
    | inr not_met ↦
        rw not_met
          (record { id = refl; company_id = refl; job_type = refl; idempotency_key = refl })
  ]

conflicts-SameIdentity :
    (job job' other other' : Job)
    → SameIdentity job job'
    → SameIdentity other other'
    → conflicts job' other' ≡ conflicts job other
unfolding conflicts
conflicts-SameIdentity job job' other other' s t = rw (
  s.id, s.company_id, s.job_type, s.idempotency_key, t.id, t.company_id, t.job_type,
  t.idempotency_key,
)

module _ (condition : Job → Bool) (values : Job → Job)
    (keeps : (job : Job) → SameIdentity job (values job)) where
  any-conflicts-update_where :
      (job job' : Job) (jobs : Table)
      → SameIdentity job job'
      → any (conflicts job') (update_where condition values jobs) ≡ any (conflicts job) jobs
  unfolding update_where
  any-conflicts-update_where job job' [] s = refl
  any-conflicts-update_where job job' (other ∷ jobs) s = rw (
    conflicts-SameIdentity job job' other (written condition values other) s
        (written-SameIdentity condition values keeps other),
    any-conflicts-update_where job job' jobs s,
  )

  pub update_where-IsUnique :
      (jobs : Table) → IsUnique jobs → IsUnique (update_where condition values jobs)
  unfolding update_where
  update_where-IsUnique [] unique = tt
  update_where-IsUnique (job ∷ jobs) unique = (
    any-conflicts-update_where job (written condition values job) jobs
          (written-SameIdentity condition values keeps job)
        ∙ unique.0,
    update_where-IsUnique jobs unique.1,
  )

pub insert_row-IsUnique :
    (job : Job) (jobs : Table) {jobs' : Table}
    → insert_row job jobs ≡ some jobs'
    → IsUnique jobs
    → IsUnique jobs'
unfolding insert_row
insert_row-IsUnique job jobs inserted unique = ground arith

pub insert_row-eq-some :
    (job : Job) (jobs : Table) {jobs' : Table}
    → insert_row job jobs ≡ some jobs'
    → (any (conflicts job) jobs ≡ false) × (jobs' ≡ job ∷ jobs)
unfolding insert_row
insert_row-eq-some job jobs inserted = ground arith

pub insert_row-All {ℓ} :
    (P : Job → Type ℓ) (job : Job) (jobs : Table) {jobs' : Table}
    → insert_row job jobs ≡ some jobs'
    → P job
    → All P jobs
    → All P jobs'
insert_row-All P job jobs inserted new old =
    rw ((insert_row-eq-some job jobs inserted).1) (new, old)

-- A row is found under its id again after an update that keeps the ids.
pub get_by_id-update_where :
    (condition : Job → Bool) (values : Job → Job) (job_id : Text) (jobs : Table) {job : Job}
    → ((row : Job) → SameIdentity row (values row))
    → get_by_id job_id jobs ≡ some job
    → get_by_id job_id (update_where condition values jobs)
      ≡ some (if condition job then values job else job)
unfolding get_by_id update_where
get_by_id-update_where condition values job_id [] keeps found = cc
get_by_id-update_where condition values job_id (row ∷ rows) {job} keeps found =
    elim (Bool-cases (same_text row.id job_id)) [
      | inl same ↦
          let e : row ≡ job = ground arith in
          rw (written-SameIdentity condition values keeps row).id (rw same (rw e refl))
      | inr other ↦
          rw (written-SameIdentity condition values keeps row).id
            (rw other (get_by_id-update_where condition values job_id rows keeps (ground arith)))
    ]

-- A row that may be inserted has an id that no row is found under.
pub fresh_id :
    (job : Job) (jobs : Table) (job_id : Text) {row : Job}
    → any (conflicts job) jobs ≡ false
    → get_by_id job_id jobs ≡ some row
    → same_text job.id job_id ≡ false
unfolding get_by_id conflicts
fresh_id job [] job_id fresh found = cc
fresh_id job (other ∷ jobs) job_id {row} fresh found =
    elim (Bool-cases (same_text other.id job_id)) [
      | inl same ↦ ground (
        arith,
        same_text_iff other.id job_id,
        same_text_iff job.id job_id,
        same_text_iff other.id job.id,
      )
      | inr differs ↦ fresh_id job jobs job_id {row = row} (ground arith) (ground arith)
    ]

pub get_by_id-insert_row :
    (job : Job) (jobs : Table) (job_id : Text) {jobs' : Table} {row : Job}
    → insert_row job jobs ≡ some jobs'
    → get_by_id job_id jobs ≡ some row
    → get_by_id job_id jobs' ≡ some row
unfolding get_by_id
get_by_id-insert_row job jobs job_id inserted found =
    let (fresh, e) = insert_row-eq-some job jobs inserted in
    rw e (rw (fresh_id job jobs job_id fresh found) found)

-- The id of a row that is found.
pub get_by_id-id :
    (job_id : Text) (jobs : Table) {row : Job} → get_by_id job_id jobs ≡ some row → row.id ≡ job_id
unfolding get_by_id
get_by_id-id job_id [] found = cc
get_by_id-id job_id (other ∷ rows) {row} found =
    ground (arith, same_text_iff other.id job_id, get_by_id-id job_id rows {row = row})

-- Under the unique index no second row has the id of the first one.
pub rowcount_of_conflict :
    (condition : Job → Bool) (job : Job) (jobs : Table)
    → any (conflicts job) jobs ≡ false
    → ((row : Job) → condition row ≡ true → same_text row.id job.id ≡ true)
    → rowcount condition jobs ≡ 0
unfolding rowcount conflicts
rowcount_of_conflict condition job [] fresh names = refl
rowcount_of_conflict condition job (row ∷ rows) fresh names =
    ground (arith, names row, rowcount_of_conflict condition job rows (ground arith) names)

-- An update whose condition names one id leaves the rows of the others.
pub get_by_id-update_where_ne :
    (condition : Job → Bool) (values : Job → Job) (named job_id : Text) (jobs : Table)
    → ((row : Job) → SameIdentity row (values row))
    → ((row : Job) → condition row ≡ true → row.id ≡ named)
    → job_id ≢ named
    → get_by_id job_id (update_where condition values jobs) ≡ get_by_id job_id jobs
unfolding get_by_id update_where
get_by_id-update_where_ne condition values named job_id [] keeps names ne = refl
get_by_id-update_where_ne condition values named job_id (row ∷ rows) keeps names ne =
    let deep = get_by_id-update_where_ne condition values named job_id rows keeps names ne in
    elim (Bool-cases (condition row)) [
      | inl met ↦
          let apart : same_text row.id job_id ≡ false =
            elim (Bool-cases (same_text row.id job_id)) [
              | inl same ↦ absurd (ne (sym ((same_text_iff row.id job_id).0 same) ∙ names row met))
              | inr other ↦ other
            ] in
          rw met (rw (keeps row).id (rw apart deep))
      | inr not_met ↦ rw not_met (rw deep refl)
    ]

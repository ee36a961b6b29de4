-- ===== src/Jobs/Steps/Leases.antt =====
-- Leases are exclusive: no attempt of a job is leased twice, whatever the interleaving.
use tenon_backend.Base.{
  ℕ, ◌+◌, ◌≤◌, ◌≡◌, refl, true, some, List, [], ◌∷◌, arith, All, Bool-cases, inl, inr,
}
use tenon_backend.Base.Text.{Text, same_text, same_text_iff}
use tenon_backend.Jobs.Model.{Job, Table}
use tenon_backend.Jobs.Rows.{get_by_id, update_where, rowcount, IsUnique}
use tenon_backend.Jobs.Rows.Laws.{get_by_id-update_where, rowcount_of_conflict}
use tenon_backend.Jobs.Claim.{claim_filter, claim_values}
use tenon_backend.Jobs.Invariant.{IsValid}
use tenon_backend.Jobs.Steps.{lease, Step, write, Run, begin, other, grant}
use tenon_backend.Jobs.Steps.Laws.{Write-SameIdentity, Step-IsValid, HasAttempts, Step-HasAttempts}

module _ (now stale_before : ℕ) (candidate : Job) where
  claim_filter_facts :
      (row : Job)
      → claim_filter now stale_before candidate row ≡ true
      → (row.id ≡ candidate.id) × (row.attempt ≡ candidate.attempt)
  unfolding claim_filter
  claim_filter_facts row met = ground (arith, same_text_iff row.id candidate.id)

  -- The row that the update of a claim matches is the one found under the candidate's id.
  pub claimed_row :
      (jobs : Table)
      → IsUnique jobs
      → rowcount (claim_filter now stale_before candidate) jobs ≡ 1
      → (row : Job) × (get_by_id candidate.id jobs ≡ some row)
        × (claim_filter now stale_before candidate row ≡ true)
  unfolding rowcount get_by_id
  claimed_row [] unique one = absurd (omega arith)
  claimed_row (row ∷ rows) unique one =
      elim (Bool-cases (claim_filter now stale_before candidate row)) [
        | inl met ↦ (
          row,
          rw ((same_text_iff row.id candidate.id).1 (claim_filter_facts row met).0) refl,
          met,
        )
        | inr not_met ↦
            let (found, e, met) = claimed_row rows unique.1 (rw not_met at one) in
            (
              found,
              elim (Bool-cases (same_text row.id candidate.id)) [
                | inl same ↦
                    let none_left : rowcount (claim_filter now stale_before candidate) rows ≡ 0 =
                      rowcount_of_conflict _ row rows unique.0
                        (λ (r : Job) (m : claim_filter now stale_before candidate r ≡ true).
                          (same_text_iff r.id row.id).1 (
                            cc (
                              (claim_filter_facts r m).0,
                              (same_text_iff row.id candidate.id).0 same,
                            ))) in
                    absurd (ground (arith, none_left))
                | inr differs ↦ rw differs e
              ],
              met,
            )
      ]

-- Each lease of the log is for an attempt that its job has reached.
abbrev Reached : Table → List (Text × ℕ) → Type 0
Reached jobs log = All (λ (granted : Text × ℕ). HasAttempts jobs granted.0 granted.1) log

-- No lease of the log is for this job and attempt.
abbrev pub IsNew : Text × ℕ → List (Text × ℕ) → Type 0
IsNew granted log = All (λ (old : Text × ℕ). ¬ ((old.0 ≡ granted.0) × (old.1 ≡ granted.1))) log

abbrev pub AreDistinct : List (Text × ℕ) → Type 0
AreDistinct [] = Unit
AreDistinct (granted ∷ log) = IsNew granted log × AreDistinct log

Step-Reached :
    {jobs jobs' : Table} (log : List (Text × ℕ))
    → Step jobs jobs'
    → Reached jobs log
    → Reached jobs' log
Step-Reached [] s h = tt
Step-Reached (granted ∷ log) s h = (Step-HasAttempts s h.0, Step-Reached log s h.1)

HasAttempts-same :
    {jobs : Table} {job_id : Text} {attempts : ℕ} {row : Job}
    → get_by_id job_id jobs ≡ some row
    → HasAttempts jobs job_id attempts
    → attempts ≤ row.attempt
HasAttempts-same {row} found h = let e : h.row ≡ row = cc (h.found, found) in rw (← e) h.counted

IsNew-grant :
    (jobs : Table) (candidate row : Job) (log : List (Text × ℕ))
    → get_by_id candidate.id jobs ≡ some row
    → row.attempt ≡ candidate.attempt
    → Reached jobs log
    → IsNew (candidate.id, candidate.attempt + 1) log
IsNew-grant jobs candidate row [] found same h = tt
IsNew-grant jobs candidate row (old ∷ log) found same h = (
  λ (named, counted).
      let reached : old.1 ≤ row.attempt = HasAttempts-same found (rw named at h.0) in omega arith,
  IsNew-grant jobs candidate row log found same h.1,
)

record LogIsSound (jobs : Table) (log : List (Text × ℕ)) : Type 0 where
  valid : IsValid jobs
  reached : Reached jobs log
  distinct : AreDistinct log

grant-LogIsSound :
    (now stale_before : ℕ) (worker_id : Text) (candidate : Job) (jobs : Table)
    (log : List (Text × ℕ))
    → rowcount (claim_filter now stale_before candidate) jobs ≡ 1
    → LogIsSound jobs log
    → LogIsSound
        (update_where
          (claim_filter now stale_before candidate)
          (claim_values now worker_id candidate)
          jobs)
        ((candidate.id, candidate.attempt + 1) ∷ log)
unfolding claim_values
grant-LogIsSound now stale_before worker_id candidate jobs log one h =
    let (row, found, met) = claimed_row now stale_before candidate jobs h.valid.unique one in
    let w = lease now stale_before worker_id candidate in
    record {
      valid = Step-IsValid (write w refl) h.valid;
      reached = (
        record {
          row = claim_values now worker_id candidate row;
          found = rw met at (
              get_by_id-update_where (claim_filter now stale_before candidate)
                (claim_values now worker_id candidate) candidate.id jobs (Write-SameIdentity w)
                found);
          counted = omega arith;
        },
        Step-Reached log (write w refl) h.reached,
      );
      distinct = (
        IsNew-grant jobs candidate row log found
            (claim_filter_facts now stale_before candidate row met).1 h.reached,
        h.distinct,
      );
    }

Run-LogIsSound :
    {start jobs : Table} {log : List (Text × ℕ)}
    → IsValid start
    → Run start log jobs
    → LogIsSound jobs log
Run-LogIsSound v begin = record { valid = v; reached = tt; distinct = tt }
Run-LogIsSound v (other {log} r s) =
    let h = Run-LogIsSound v r in
    record {
      valid = Step-IsValid s h.valid;
      reached = Step-Reached log s h.reached;
      distinct = h.distinct;
    }
Run-LogIsSound v (grant {log} {jobs} now stale_before worker_id candidate r one) =
    grant-LogIsSound now stale_before worker_id candidate jobs log one (Run-LogIsSound v r)

-- From a valid table, whatever steps of the job repositories the sessions take and however they
-- interleave, no two granted leases are for the same attempt of the same job.
pub Run-AreDistinct :
    {start jobs : Table} {log : List (Text × ℕ)}
    → IsValid start
    → Run start log jobs
    → AreDistinct log
Run-AreDistinct v r = (Run-LogIsSound v r).distinct

-- ===== src/Jobs/Claim/Quiet.antt =====
-- A claim that no other session disturbs: it takes the first runnable row, or finds none.
use tenon_backend.Base.{
  ℕ, suc, ◌+◌, ◌-◌, ◌*◌, ◌≡◌, refl, sym, ap, ◌∙◌, ◌≢◌, Bool, true, false, Option, none, some, [],
  ◌∷◌, arith, All, Bool-cases, Option-cases, inl, inr,
}
use mathlib.Core.List.{Memᴰ}
use tenon_backend.Base.Text.{Text, same_text, same_text_iff}
use tenon_backend.Jobs.Model.{Job, Table, second, running}
use tenon_backend.Jobs.Rows.{get_by_id, update_where, rowcount, IsUnique}
use tenon_backend.Jobs.Rows.Laws.{
  rowcount_of_conflict, SameIdentity, get_by_id-update_where, get_by_id-update_where_ne,
}
use tenon_backend.Jobs.Rows.Unique.{mem-same_id}
use tenon_backend.Jobs.Claim.{
  runnable_filter, in_order, select_candidate, claim_filter, claim_values, claim_rounds,
  claim_next_runnable,
}
use tenon_backend.Jobs.Claim.Order.{select_candidate-first, select_candidate-none}

-- No other session commits anything.
abbrev pub quiet : ℕ → Table → Table
quiet n jobs = jobs

differ : (a b : Text) → same_text b a ≡ false → a ≢ b
differ a b h e = cc ((same_text_iff b a).1 (sym e))

-- Of a table with unique ids, a row that meets a condition on its own id is the only one to meet it.
pub rowcount-one :
    (condition : Job → Bool) (row : Job) (jobs : Table)
    → IsUnique jobs
    → Memᴰ row jobs
    → condition row ≡ true
    → ((other : Job) → condition other ≡ true → other.id ≡ row.id)
    → (rowcount condition jobs ≡ 1) × (get_by_id row.id jobs ≡ some row)
unfolding rowcount get_by_id
rowcount-one condition row [] unique m met names = elim m [ ]
rowcount-one condition row (job ∷ jobs) unique (Memᴰ.head e) met names =
    let met' : condition job ≡ true = rw e at met in
    let alone : rowcount condition jobs ≡ 0 =
      rowcount_of_conflict condition job jobs unique.0
        (λ r m. (same_text_iff r.id job.id).1 (names r m ∙ ap (λ (j : Job). j.id) e)) in
    (rw met' (ap suc alone), rw e (rw ((same_text_iff job.id job.id).1 refl) refl))
rowcount-one condition row (job ∷ jobs) unique (Memᴰ.tail m) met names =
    let (counted, found) = rowcount-one condition row jobs unique.1 m met names in
    let apart : same_text row.id job.id ≡ false = mem-same_id job row jobs unique.0 m in
    let not_met : condition job ≡ false = elim (Bool-cases (condition job)) [
      | inl also ↦ absurd (differ job.id row.id apart (names job also))
      | inr no_match ↦ no_match
    ] in
    let not_found : same_text job.id row.id ≡ false = elim (Bool-cases (same_text job.id row.id)) [
      | inl same ↦ absurd (differ job.id row.id apart ((same_text_iff job.id row.id).0 same))
      | inr no_match ↦ no_match
    ] in
    (rw not_met counted, rw not_found found)

module _ (now stale_before : ℕ) (worker_id : Text) (candidate : Job) (jobs : Table)
    (unique : IsUnique jobs)
    (selected : select_candidate now stale_before jobs ≡ some candidate) where
  claimed_once :
      (rowcount (claim_filter now stale_before candidate) jobs ≡ 1)
      × (get_by_id candidate.id jobs ≡ some candidate)
  unfolding claim_filter
  claimed_once =
      let (m, runnable, first) = select_candidate-first now stale_before jobs candidate selected in
      rowcount-one (claim_filter now stale_before candidate) candidate jobs unique m
        (ground (arith, same_text_iff candidate.id candidate.id))
        (λ other met. ground (arith, same_text_iff other.id candidate.id))

pub claim_values-SameIdentity :
    (now : ℕ) (worker_id : Text) (candidate row : Job)
    → SameIdentity row (claim_values now worker_id candidate row)
unfolding claim_values
claim_values-SameIdentity now worker_id candidate row = ground arith

-- What a claim returns: the candidate, the first row that may run, now leased to the worker for one
-- attempt more; the other rows are as they were.
pub record TookFirst (now stale_before : ℕ) (worker_id : Text) (jobs : Table) (job : Job)
    (jobs' : Table) : Type 0 where
  pub candidate : Job
  pub present : Memᴰ candidate jobs
  pub runnable : runnable_filter now stale_before candidate ≡ true
  pub first :
      All (λ row. runnable_filter now stale_before row ≡ true → in_order candidate row ≡ true) jobs
  pub leased : job ≡ record candidate {
    status = running;
    attempt = candidate.attempt + 1;
    locked_at = some now;
    locked_by = some worker_id;
    updated_at = now;
  }
  pub stored : get_by_id candidate.id jobs' ≡ some job
  pub others :
      (job_id : Text) → job_id ≢ candidate.id → get_by_id job_id jobs' ≡ get_by_id job_id jobs

abbrev pub Claimed : ℕ → ℕ → Text → Table → Option Job × Table → Type 0
Claimed now stale_before worker_id jobs (none, jobs') =
    (jobs' ≡ jobs) × All (λ job. runnable_filter now stale_before job ≡ false) jobs
Claimed now stale_before worker_id jobs (some job, jobs') =
    TookFirst now stale_before worker_id jobs job jobs'

module _ (now stale_before : ℕ) (worker_id : Text) (jobs : Table) (unique : IsUnique jobs) where
  update_of_claim : Job → Table
  update_of_claim candidate =
      update_where (claim_filter now stale_before candidate) (claim_values now worker_id candidate)
        jobs

  claim-stored :
      (candidate : Job)
      → select_candidate now stale_before jobs ≡ some candidate
      → get_by_id candidate.id (update_of_claim candidate)
        ≡ some (claim_values now worker_id candidate candidate)
  unfolding claim_filter update_of_claim
  claim-stored candidate selected =
      let (m, runnable, first) = select_candidate-first now stale_before jobs candidate selected in
      let met : claim_filter now stale_before candidate candidate ≡ true =
        ground (arith, same_text_iff candidate.id candidate.id) in
      rw met at (
        get_by_id-update_where (claim_filter now stale_before candidate)
          (claim_values now worker_id candidate) candidate.id jobs
          (claim_values-SameIdentity now worker_id candidate)
          (claimed_once now stale_before worker_id candidate jobs unique selected).1)

  claim-TookFirst :
      (candidate : Job)
      → select_candidate now stale_before jobs ≡ some candidate
      → TookFirst now stale_before worker_id jobs
          (claim_values now worker_id candidate candidate)
          (update_of_claim candidate)
  unfolding claim_values claim_filter update_of_claim
  claim-TookFirst candidate selected =
      let (m, runnable, first) = select_candidate-first now stale_before jobs candidate selected in
      record {
        candidate = candidate;
        present = m;
        runnable = runnable;
        first = first;
        leased = refl;
        stored = claim-stored candidate selected;
        others = λ job_id ne.
            get_by_id-update_where_ne (claim_filter now stale_before candidate)
              (claim_values now worker_id candidate) candidate.id job_id jobs
              (claim_values-SameIdentity now worker_id candidate)
              (λ row m. ground (arith, same_text_iff row.id candidate.id)) ne;
      }

  claim_rounds-none :
      (rounds n : ℕ)
      → select_candidate now stale_before jobs ≡ none
      → claim_rounds quiet worker_id now stale_before (suc rounds) n jobs ≡ (none, jobs)
  unfolding claim_rounds
  claim_rounds-none rounds n e = rw (e, claim_rounds)

  claim_rounds-some :
      (rounds n : ℕ) (candidate : Job)
      → select_candidate now stale_before jobs ≡ some candidate
      → claim_rounds quiet worker_id now stale_before (suc rounds) n jobs
        ≡ (some (claim_values now worker_id candidate candidate), update_of_claim candidate)
  unfolding claim_rounds update_of_claim
  claim_rounds-some rounds n candidate e =
      let (one, found) = claimed_once now stale_before worker_id candidate jobs unique e in
      rw (e, claim_rounds)
        (rw (one, claim_rounds)
          (ap (λ (o : Option Job). (o, update_of_claim candidate)) (claim-stored candidate e)))

  claim_rounds-quiet :
      (rounds n : ℕ)
      → Claimed now stale_before worker_id jobs
          (claim_rounds quiet worker_id now stale_before (suc rounds) n jobs)
  claim_rounds-quiet rounds n = elim (Option-cases (select_candidate now stale_before jobs)) [
    | inl e ↦
        rw (claim_rounds-none rounds n e, Claimed)
          (refl, select_candidate-none now stale_before jobs e)
    | inr (candidate, e) ↦
        rw (claim_rounds-some rounds n candidate e, Claimed) (claim-TookFirst candidate e)
  ]

-- In a table with unique keys, with no other session at work, a claim takes the lease of the runnable
-- job that comes first, counts one attempt more and leaves the other rows alone; it returns none and
-- changes nothing exactly when no job is queued and due or running under a stale lease.
pub claim_next_runnable-Claimed :
    (worker_id : Text) (now lease_seconds : ℕ) (jobs : Table)
    → IsUnique jobs
    → Claimed now
        (now - lease_seconds * second)
        worker_id
        jobs
        (claim_next_runnable quiet worker_id now lease_seconds jobs)
unfolding claim_next_runnable
claim_next_runnable-Claimed worker_id now lease_seconds jobs unique =
    claim_rounds-quiet now (now - lease_seconds * second) worker_id jobs unique 7 0

-- What such a claim computes to where there is a candidate.
pub claim_next_runnable-some :
    (worker_id : Text) (now lease_seconds : ℕ) (jobs : Table) (candidate : Job)
    → IsUnique jobs
    → select_candidate now (now - lease_seconds * second) jobs ≡ some candidate
    → claim_next_runnable quiet worker_id now lease_seconds jobs ≡ (
      some (claim_values now worker_id candidate candidate),
      update_where
          (claim_filter now (now - lease_seconds * second) candidate)
          (claim_values now worker_id candidate)
          jobs,
    )
unfolding claim_next_runnable update_of_claim
claim_next_runnable-some worker_id now lease_seconds jobs candidate unique selected =
    claim_rounds-some now (now - lease_seconds * second) worker_id jobs unique 7 0 candidate
      selected

-- ===== src/Jobs/Claim.antt =====
-- app/shared/jobs/repositories/shared_jobs_repositories_repository_claim_repository.py: a worker takes
-- the lease of the next job that may run.
pub mod Order
pub mod Quiet
use tenon_backend.Base.{
  ℕ, zero, suc, ◌+◌, ◌-◌, ◌*◌, Bool, true, false, ◌&&◌, ◌||◌, Option, none, some, List, [], ◌∷◌,
  ltb, leb, ◌==◌, if◌then◌else◌, keep, or_else,
}
use tenon_backend.Base.Text.{Text, same_text}
use tenon_backend.Jobs.Model.{Job, Table, running, is_queued, is_running, second}
use tenon_backend.Jobs.Rows.{get_by_id, update_where, rowcount}

-- `column IS NULL OR column <= bound`
abbrev pub null_or_le : Option ℕ → ℕ → Bool
null_or_le none bound = true
null_or_le (some t) bound = leb t bound

unfoldable pub runnable_filter : ℕ → ℕ → Job → Bool
runnable_filter now stale_before job =
    (is_queued job.status && null_or_le job.next_run_at now)
    || (is_running job.status && null_or_le job.locked_at stale_before)

-- `func.coalesce(Job.next_run_at, Job.created_at)`
abbrev pub due_at : Job → ℕ
due_at job = or_else job.next_run_at job.created_at

-- `ORDER BY coalesce(next_run_at, created_at) ASC, created_at ASC`; rows that tie stand as they come.
unfoldable pub in_order : Job → Job → Bool
in_order job other =
    ltb (due_at job) (due_at other)
    || ((due_at job == due_at other) && leb job.created_at other.created_at)

-- `LIMIT 1`
unfoldable pub first_in_order : List Job → Option Job
first_in_order [] = none
first_in_order (job ∷ jobs) = elim (first_in_order jobs) [
  | none ↦ some job
  | some best ↦ some (if in_order job best then job else best)
]

unfoldable pub select_candidate : ℕ → ℕ → Table → Option Job
select_candidate now stale_before jobs =
    first_in_order (keep (runnable_filter now stale_before) jobs)

-- The condition of the `UPDATE` that takes the lease: the row is the candidate, no other worker has
-- taken it since, and it may still run.
unfoldable pub claim_filter : ℕ → ℕ → Job → Job → Bool
claim_filter now stale_before candidate job =
    same_text job.id candidate.id
    && ((job.attempt == candidate.attempt) && runnable_filter now stale_before job)

unfoldable pub claim_values : ℕ → Text → Job → Job → Job
claim_values now worker_id candidate job = record job {
  status = running;
  attempt = candidate.attempt + 1;
  locked_at = some now;
  locked_by = some worker_id;
  updated_at = now;
}

-- `world n` is what other sessions commit before the n-th statement. The rounds left are the fuel,
-- as the source's `range(8)` has it; a failed update is rolled back, which changes nothing.
module _ (world : ℕ → Table → Table) (worker_id : Text) (now stale_before : ℕ) where
  unfoldable pub claim_rounds : ℕ → ℕ → Table → Option Job × Table
  claim_rounds zero n jobs = (none, jobs)
  claim_rounds (suc rounds) n jobs =
      let seen = world n jobs in
      elim (select_candidate now stale_before seen) [
        | none ↦ (none, seen)
        | some candidate ↦
            let met = world (n + 1) seen in
            elim (rowcount (claim_filter now stale_before candidate) met == 1) [
              | true ↦
                  let claimed = world (n + 2) (
                    update_where (claim_filter now stale_before candidate)
                      (claim_values now worker_id candidate) met) in
                  (get_by_id candidate.id claimed, claimed)
              | false ↦ claim_rounds rounds (n + 2) met
            ]
      ]

-- `now - timedelta(seconds=lease_seconds)`, which Python refuses where it is before the first instant.
unfoldable pub claim_next_runnable : (ℕ → Table → Table) → Text → ℕ → ℕ → Table → Option Job × Table
claim_next_runnable world worker_id now lease_seconds jobs =
    claim_rounds world worker_id now (now - lease_seconds * second) 8 0 jobs

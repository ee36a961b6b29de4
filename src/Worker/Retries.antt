-- ===== src/Worker/Retries.antt =====
-- The life of a job whose handler keeps failing: the rounds of a worker that runs alone.
use tenon_backend.Base.{ℕ, ◌+◌, ◌*◌, ◌≤◌, max, ◌≡◌, List, [], ◌∷◌, if◌then◌else◌, ltb, or_else}
use tenon_backend.Base.Text.{Text}
use tenon_backend.Json.{Fields}
use tenon_backend.Jobs.Model.{Job, Table, queued, dead_letter, second}
use tenon_backend.Jobs.Claim.{claim_values}
use tenon_backend.Jobs.Claim.Quiet.{quiet}
use tenon_backend.Jobs.Status.{reschedule, bury}
use tenon_backend.Worker.Backoff.{delay_seconds}
use tenon_backend.Worker.RunOnce.{raised, Handler, Registry, run_once}

-- The handler raises an ordinary exception at every call and writes nothing.
abbrev pub KeepsFailing : Handler → Text → Type 0
KeepsFailing handler error =
    (payload : Fields) (jobs : Table) → handler payload jobs ≡ (raised error, jobs)

-- The rounds of one worker at the given times.
unfoldable pub run_rounds : (Text → Text) → ℕ → ℕ → Registry → Text → ℕ → List ℕ → Table → Table
run_rounds lower base cap registry worker_id lease_seconds [] jobs = jobs
run_rounds lower base cap registry worker_id lease_seconds (now ∷ times) jobs =
    run_rounds lower base cap registry worker_id lease_seconds times
      (run_once lower base cap quiet registry worker_id now lease_seconds jobs).1

-- Each time is at least `gap` after the one before, the first one at or after `start`.
abbrev pub AreSpaced : ℕ → ℕ → List ℕ → Type 0
AreSpaced gap start [] = Unit
AreSpaced gap start (now ∷ times) = (start ≤ now) × AreSpaced gap (now + gap) times

-- The job is the only row, a dead letter, and has used all of its attempts.
pub record IsBuried (max_attempts : ℕ) (jobs : Table) : Type 0 where
  pub row : Job
  pub only : jobs ≡ row ∷ []
  pub dead : row.status ≡ dead_letter
  pub used : row.attempt ≡ max_attempts

module _ (lower : Text → Text) (base cap : ℕ) (bounded : base ≤ cap) (registry : Registry)
    (worker_id error : Text) (lease_seconds : ℕ) (handler : Handler)
    (fails : KeepsFailing handler error) where
  -- What a failed round makes of a job that it has claimed.
  failed : ℕ → Job → Job
  failed now job =
      let delay = delay_seconds lower job.attempt error base cap in
      if ltb job.attempt job.max_attempts
      then reschedule error (now + delay * second) now job
      else bury error now job

  claimed : ℕ → Job → Job
  claimed now job = claim_values now worker_id job job

  abbrev gap : ℕ
  gap = max cap 180 * second

  -- A round before the last one puts the job back, due before the next round.
  record IsBack (before after : Job) (next : ℕ) : Type 0 where
    waiting : after.status ≡ queued
    due : or_else after.next_run_at 0 ≤ next
    counted : after.attempt ≡ before.attempt + 1
    allowed : after.max_attempts ≡ before.max_attempts
    typed : after.job_type ≡ before.job_type

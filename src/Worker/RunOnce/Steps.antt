-- ===== src/Worker/RunOnce/Steps.antt =====
-- A worker's round among other sessions is a run of the step relation.
use tenon_backend.Base.{
  ℕ, ◌≡◌, refl, true, false, Option, none, some, ltb, Bool-cases, Option-cases, inl, inr,
}
use tenon_backend.Base.Text.{Text}
use tenon_backend.Json.{Fields}
use tenon_backend.Jobs.Model.{Job, Table}
use tenon_backend.Jobs.Rows.{get_by_id}
use tenon_backend.Jobs.Claim.{claim_next_runnable}
use tenon_backend.Jobs.Status.{mark_succeeded, mark_failed_and_reschedule, mark_dead_letter}
use tenon_backend.Jobs.Invariant.{IsValid}
use tenon_backend.Jobs.Steps.{success, retry, burial, write, Reach, here, next}
use tenon_backend.Jobs.Steps.Laws.{Reach-IsValid}
use tenon_backend.Jobs.Steps.Claims.{Reach-trans, Obeys, claim_next_runnable-Reach}
use tenon_backend.Worker.RunOnce.{
  Outcome, returned, returned_unencodable, returned_other, escaped, verify_reschedule,
  handler_payload, raised_permanent, raised, Handler, Registry, get_handler, invoke_handler,
  dead_letter_missing_handler, asks_reschedule, is_rescheduled, retry_or_dead_letter,
  finish_returned, finish, run_claimed, after_claim, run_once,
}

-- What a handler and the sessions beside it commit is a run.
abbrev pub HandlerObeys : Handler → Type 0
HandlerObeys handler = (payload : Fields) (jobs : Table) → Reach jobs (handler payload jobs).1

abbrev pub RegistryObeys : Registry → Type 0
RegistryObeys registry =
    (job_type : Text) (handler : Handler)
    → get_handler job_type registry ≡ some handler
    → HandlerObeys handler

pub invoke_handler-Reach :
    (handler : Handler) (payload : Fields) (jobs : Table)
    → HandlerObeys handler
    → Reach jobs (invoke_handler handler payload jobs).1
unfolding invoke_handler
invoke_handler-Reach handler payload jobs obeys = obeys payload jobs

module _ (lower : Text → Text) (base_backoff_seconds max_backoff_seconds : ℕ) where
  retry_or_dead_letter-Reach :
      (job : Job) (error_str : Text) (claim_time : ℕ) (jobs : Table)
      → Reach jobs (
          retry_or_dead_letter lower base_backoff_seconds max_backoff_seconds job error_str
            claim_time jobs)
  unfolding retry_or_dead_letter mark_failed_and_reschedule mark_dead_letter
  retry_or_dead_letter-Reach job error_str claim_time jobs =
      elim (Bool-cases (ltb job.attempt job.max_attempts)) [
        | inl again ↦ rw again (next here (write (retry job.id error_str _ claim_time) refl))
        | inr last ↦ rw last (next here (write (burial job.id error_str claim_time) refl))
      ]

  verify_reschedule-Reach :
      (job : Job) (claim_time : ℕ) (jobs : Table)
      → Reach jobs
          (verify_reschedule lower base_backoff_seconds max_backoff_seconds job claim_time jobs)
  unfolding verify_reschedule
  verify_reschedule-Reach job claim_time jobs =
      elim (Bool-cases (is_rescheduled (get_by_id job.id jobs))) [
        | inl moved ↦ rw moved here
        | inr stuck ↦ rw stuck (retry_or_dead_letter-Reach job _ claim_time jobs)
      ]

  finish_returned-Reach :
      (job : Job) (result : Option Fields) (claim_time : ℕ) (jobs : Table)
      → Reach jobs (
          finish_returned lower base_backoff_seconds max_backoff_seconds job result claim_time jobs)
  unfolding finish_returned mark_succeeded
  finish_returned-Reach job result claim_time jobs = elim (Bool-cases (asks_reschedule result)) [
    | inl asks ↦ rw asks (verify_reschedule-Reach job claim_time jobs)
    | inr done ↦ rw done (next here (write (success job.id result claim_time) refl))
  ]

  finish-Reach :
      (job : Job) (claim_time : ℕ) (outcome : Outcome) (jobs : Table)
      → Reach jobs
          (finish lower base_backoff_seconds max_backoff_seconds job claim_time outcome jobs).1
  unfolding finish mark_dead_letter
  finish-Reach job claim_time (returned result) jobs =
      finish_returned-Reach job result claim_time jobs
  finish-Reach job claim_time (returned_unencodable true) jobs =
      verify_reschedule-Reach job claim_time jobs
  finish-Reach job claim_time (returned_unencodable false) jobs = here
  finish-Reach job claim_time returned_other jobs = here
  finish-Reach job claim_time escaped jobs = here
  finish-Reach job claim_time (raised_permanent error) jobs =
      next here (write (burial job.id error claim_time) refl)
  finish-Reach job claim_time (raised error) jobs =
      retry_or_dead_letter-Reach job error claim_time jobs

  pub run_claimed-Reach :
      (registry : Registry) (job : Job) (claim_time : ℕ) (jobs : Table)
      → RegistryObeys registry
      → Reach jobs
          (run_claimed lower base_backoff_seconds max_backoff_seconds registry job claim_time
            jobs).1
  unfolding run_claimed dead_letter_missing_handler mark_dead_letter
  run_claimed-Reach registry job claim_time jobs obeys =
      elim (Option-cases (get_handler job.job_type registry)) [
        | inl missing ↦
            rw (missing, run_claimed) (next here (write (burial job.id _ claim_time) refl))
        | inr (handler, known) ↦
            let payload = handler_payload job in
            rw (known, run_claimed)
              (Reach-trans
                (invoke_handler-Reach handler payload jobs (obeys job.job_type handler known))
                (finish-Reach job claim_time (invoke_handler handler payload jobs).0
                  (invoke_handler handler payload jobs).1))
      ]

  after_claim-Reach :
      (registry : Registry) (claim_time : ℕ) (claimed : Option Job) (jobs : Table)
      → RegistryObeys registry
      → Reach jobs
          (after_claim lower base_backoff_seconds max_backoff_seconds registry claim_time claimed
            jobs).1
  unfolding after_claim
  after_claim-Reach registry claim_time none jobs obeys = here
  after_claim-Reach registry claim_time (some job) jobs obeys =
      run_claimed-Reach registry job claim_time jobs obeys

-- Where the handlers and the other sessions move the table by steps, so does a worker's round, and a
-- valid table stays valid.
pub run_once-Reach :
    (lower : Text → Text) (base_backoff_seconds max_backoff_seconds : ℕ) (world : ℕ → Table → Table)
    (registry : Registry) (worker_id : Text) (now lease_seconds : ℕ) (jobs : Table)
    → Obeys world
    → RegistryObeys registry
    → IsValid jobs
    → let jobs' =
        (run_once lower base_backoff_seconds max_backoff_seconds world registry worker_id now
          lease_seconds jobs).1 in
      Reach jobs jobs' × IsValid jobs'
unfolding run_once
run_once-Reach lower base cap world registry worker_id now lease_seconds jobs obeys handlers v =
    let claimed = claim_next_runnable world worker_id now lease_seconds jobs in
    let r =
      Reach-trans (claim_next_runnable-Reach world worker_id now lease_seconds jobs obeys)
        (after_claim-Reach lower base cap registry now claimed.0 claimed.1 handlers) in
    (r, Reach-IsValid v r)

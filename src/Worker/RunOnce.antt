-- ===== src/Worker/RunOnce.antt =====
-- `run_once` of app/shared/jobs/worker_runtime/shared_jobs_worker_runtime_run_once_service.py with the
-- paths that it takes: the missing handler, the handler's exception, the handler's own reschedule,
-- and success. Logging is left out.
pub mod Settles
pub mod Steps
use tenon_backend.Base.{
  ℕ, ◌+◌, ◌*◌, Bool, true, false, ◌&&◌, Option, none, some, List, [], ◌∷◌, ◌++◌, ltb, not, is_none,
  find, if◌then◌else◌,
}
use tenon_backend.Base.Text.{Text, codes, same_text}
use tenon_backend.Json.{Json, string, Fields, no_fields, field, get}
use tenon_backend.Jobs.Model.{Job, Table, is_queued, second}
use tenon_backend.Jobs.Rows.{get_by_id}
use tenon_backend.Jobs.Shared.{is_empty}
use tenon_backend.Jobs.Claim.{claim_next_runnable}
use tenon_backend.Jobs.Status.{mark_succeeded, mark_failed_and_reschedule, mark_dead_letter}
use tenon_backend.Worker.Backoff.{delay_seconds}

-- What calling a handler ends in; an exception carries the text that `format_error` makes of it. A `dict`
-- that has no JSON encoding is `returned_unencodable`, with whether it asks for a reschedule. A
-- `BaseException` that is no `Exception`, as `CancelledError` is none, is `escaped`: nothing catches it.
pub data Outcome : Type 0 where
  returned : Option Fields → Outcome
  returned_unencodable : Bool → Outcome
  returned_other : Outcome
  escaped : Outcome
  raised_permanent raised : Text → Outcome

-- A handler reads its payload and may write the table, as other sessions may while it runs.
abbrev pub Handler : Type 0
Handler = Fields → Table → Outcome × Table

-- `_HANDLERS`
abbrev pub Registry : Type 0
Registry = List (Text × Handler)

unfoldable pub get_handler : Text → Registry → Option Handler
get_handler job_type [] = none
get_handler job_type ((name, handler) ∷ rest) =
    if same_text name job_type then some handler else get_handler job_type rest

-- A result that is neither a `dict` nor `None` is a permanent error.
unfoldable pub checked_result : Outcome → Outcome
checked_result returned_other =
    raised_permanent (codes "PermanentJobError: job handler result must be a JSON object or null")
checked_result outcome = outcome

unfoldable pub invoke_handler : Handler → Fields → Table → Outcome × Table
invoke_handler handler payload_json jobs =
    let (outcome, jobs') = handler payload_json jobs in (checked_result outcome, jobs')

-- `payload.setdefault("jobId", job.id)`
unfoldable pub set_default : Text → Json → Fields → Fields
set_default key value no_fields = field key value no_fields
set_default key value (field k v rest) =
    if same_text k key then field k v rest else field k v (set_default key value rest)

-- `handler_payload`
abbrev pub handler_payload : Job → Fields
handler_payload job = set_default (codes "jobId") (string job.id) job.payload_json

unfoldable pub dead_letter_missing_handler : Job → ℕ → Table → Table
dead_letter_missing_handler job =
    mark_dead_letter job.id
      (codes "PermanentJobError: no handler registered for job_type=" ++ job.job_type)

-- `not refreshed.locked_by`, which an empty name satisfies too.
abbrev pub is_blank_name : Option Text → Bool
is_blank_name none = true
is_blank_name (some name) = is_empty name

-- `_verify_handler_rescheduled`
abbrev pub is_rescheduled : Option Job → Bool
is_rescheduled none = false
is_rescheduled (some job) =
    is_queued job.status && (is_none job.locked_at && is_blank_name job.locked_by)

-- `result.get("_jobDisposition") != "rescheduled"` is false.
unfoldable pub asks_reschedule : Option Fields → Bool
asks_reschedule none = false
asks_reschedule (some result) = elim (get (codes "_jobDisposition") result) [
  | some (string disposition) ↦ same_text disposition (codes "rescheduled")
  | _ ↦ false
]

module _ (lower : Text → Text) (base_backoff_seconds max_backoff_seconds : ℕ) where
  unfoldable pub retry_or_dead_letter : Job → Text → ℕ → Table → Table
  retry_or_dead_letter job error_str claim_time jobs =
      if ltb job.attempt job.max_attempts
      then mark_failed_and_reschedule job.id error_str
          (claim_time
            + delay_seconds lower job.attempt error_str base_backoff_seconds max_backoff_seconds
              * second)
          claim_time jobs
      else mark_dead_letter job.id error_str claim_time jobs

  abbrev pub reschedule_failed_error : Text
  reschedule_failed_error =
      codes
        "handler_reschedule_failed: job still running/locked after handler disposition=rescheduled"

  -- `handle_handler_reschedule` of a result that asks for a reschedule.
  unfoldable pub verify_reschedule : Job → ℕ → Table → Table
  verify_reschedule job claim_time jobs =
      if is_rescheduled (get_by_id job.id jobs)
      then jobs
      else retry_or_dead_letter job reschedule_failed_error claim_time jobs

  -- `handle_handler_reschedule` and, where it returns `False`, `mark_succeeded`.
  unfoldable pub finish_returned : Job → Option Fields → ℕ → Table → Table
  finish_returned job result claim_time jobs =
      if asks_reschedule result
      then verify_reschedule job claim_time jobs
      else mark_succeeded job.id result claim_time jobs

  -- What follows the handler: whether the round goes on to its end, and the table. An exception that the
  -- handler lets out, and the one of the UPDATE in `mark_succeeded` for a result without an encoding,
  -- leave the round, and the row as it is.
  unfoldable pub finish : Job → ℕ → Outcome → Table → Bool × Table
  finish job claim_time (returned result) jobs = (true, finish_returned job result claim_time jobs)
  finish job claim_time (returned_unencodable asks) jobs =
      if asks then (true, verify_reschedule job claim_time jobs) else (false, jobs)
  -- `checked_result` leaves no such outcome.
  finish job claim_time returned_other jobs = (true, jobs)
  finish job claim_time escaped jobs = (false, jobs)
  finish job claim_time (raised_permanent error) jobs =
      (true, mark_dead_letter job.id error claim_time jobs)
  finish job claim_time (raised error) jobs = (true, retry_or_dead_letter job error claim_time jobs)

  -- The part of `run_once` behind a claim.
  unfoldable pub run_claimed : Registry → Job → ℕ → Table → Bool × Table
  run_claimed registry job claim_time jobs = elim (get_handler job.job_type registry) [
    | none ↦ (true, dead_letter_missing_handler job claim_time jobs)
    | some handler ↦
        let (outcome, jobs') = invoke_handler handler (handler_payload job) jobs in
        finish job claim_time outcome jobs'
  ]

  -- `run_once` behind the call of `claim_next_runnable`; `none` is an exception that leaves it.
  unfoldable pub after_claim : Registry → ℕ → Option Job → Table → Option Bool × Table
  after_claim registry claim_time none jobs = (some false, jobs)
  after_claim registry claim_time (some job) jobs =
      let (ended, jobs') = run_claimed registry job claim_time jobs in
      (if ended then some true else none, jobs')

  -- `world` is what other sessions commit between the statements of the claim.
  unfoldable pub run_once :
      (ℕ → Table → Table) → Registry → Text → ℕ → ℕ → Table → Option Bool × Table
  run_once world registry worker_id now lease_seconds jobs =
      let (claimed, jobs') = claim_next_runnable world worker_id now lease_seconds jobs in
      after_claim registry now claimed jobs'

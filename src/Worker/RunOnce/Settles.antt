-- ===== src/Worker/RunOnce/Settles.antt =====
-- A round leaves the job that it claimed settled: no longer running, and its lease free.
use tenon_backend.Base.{
  ℕ, ◌≡◌, refl, true, false, Bool, Option, none, some, ltb, arith, Bool-cases, Option-cases, inl,
  inr,
}
use tenon_backend.Base.Text.{Text, same_text, same_text_iff}
use tenon_backend.Json.{Fields}
use tenon_backend.Jobs.Model.{Job, Table, is_running}
use tenon_backend.Jobs.Rows.{get_by_id, update_where}
use tenon_backend.Jobs.Rows.Laws.{get_by_id-update_where, get_by_id-id}
use tenon_backend.Jobs.Status.{
  succeed, reschedule, bury, mark_succeeded, mark_failed_and_reschedule, mark_dead_letter,
}
use tenon_backend.Jobs.Steps.{has_id, Write, success, retry, burial, Reach}
use tenon_backend.Jobs.Steps.Laws.{Write-SameIdentity, HasAttempts, Reach-HasAttempts}
use tenon_backend.Worker.RunOnce.{
  Outcome, returned, returned_unencodable, returned_other, escaped, verify_reschedule,
  handler_payload, Handler, raised_permanent, raised, Registry, get_handler, invoke_handler,
  checked_result, dead_letter_missing_handler, asks_reschedule, is_rescheduled,
  retry_or_dead_letter, finish_returned, finish, run_claimed,
}
use tenon_backend.Worker.RunOnce.Steps.{RegistryObeys}

-- The row under an id is there, is not running and holds no lease.
pub record IsSettled (job_id : Text) (jobs : Table) : Type 0 where
  pub row : Job
  pub found : get_by_id job_id jobs ≡ some row
  pub idle : is_running row.status ≡ false
  pub free : row.locked_at ≡ none

-- The outcomes that a round handles: no exception leaves it.
abbrev pub is_handled : Outcome → Bool
is_handled (returned_unencodable asks) = asks
is_handled escaped = false
is_handled _ = true

rescheduled_row :
    (row : Job)
    → is_rescheduled (some row) ≡ true
    → (is_running row.status ≡ false) × (row.locked_at ≡ none)
rescheduled_row row moved = ground arith

-- An update of the row under an id.
Write-found :
    {values : Job → Job} (job_id : Text) (jobs : Table) (row : Job)
    → Write (has_id job_id) values
    → get_by_id job_id jobs ≡ some row
    → get_by_id job_id (update_where (has_id job_id) values jobs) ≡ some (values row)
Write-found {values} job_id jobs row w found =
    let named : same_text row.id job_id ≡ true =
      (same_text_iff row.id job_id).1 (get_by_id-id job_id jobs found) in
    rw named at
      (get_by_id-update_where (has_id job_id) values job_id jobs (Write-SameIdentity w) found)

module _ (job : Job) (claim_time : ℕ) (jobs : Table) (row : Job)
    (found : get_by_id job.id jobs ≡ some row) where
  succeeded-IsSettled :
      (result : Option Fields) → IsSettled job.id (mark_succeeded job.id result claim_time jobs)
  unfolding mark_succeeded succeed
  succeeded-IsSettled result = record {
    row = succeed result claim_time row;
    found = Write-found job.id jobs row (success job.id result claim_time) found;
    idle = refl;
    free = refl;
  }

  buried-IsSettled :
      (error : Text) → IsSettled job.id (mark_dead_letter job.id error claim_time jobs)
  unfolding mark_dead_letter bury
  buried-IsSettled error = record {
    row = bury error claim_time row;
    found = Write-found job.id jobs row (burial job.id error claim_time) found;
    idle = refl;
    free = refl;
  }

  rescheduled-IsSettled :
      (error : Text) (next_run_at : ℕ)
      → IsSettled job.id (mark_failed_and_reschedule job.id error next_run_at claim_time jobs)
  unfolding mark_failed_and_reschedule reschedule
  rescheduled-IsSettled error next_run_at = record {
    row = reschedule error next_run_at claim_time row;
    found = Write-found job.id jobs row (retry job.id error next_run_at claim_time) found;
    idle = refl;
    free = refl;
  }

  module _ (lower : Text → Text) (base cap : ℕ) where
    retried-IsSettled :
        (error : Text)
        → IsSettled job.id (retry_or_dead_letter lower base cap job error claim_time jobs)
    unfolding retry_or_dead_letter
    retried-IsSettled error = elim (Bool-cases (ltb job.attempt job.max_attempts)) [
      | inl again ↦ rw again (rescheduled-IsSettled error _)
      | inr last ↦ rw last (buried-IsSettled error)
    ]

    verified-IsSettled : IsSettled job.id (verify_reschedule lower base cap job claim_time jobs)
    unfolding verify_reschedule
    verified-IsSettled = elim (Bool-cases (is_rescheduled (get_by_id job.id jobs))) [
      | inl moved ↦ rw moved (record {
        row = row;
        found = found;
        idle = (rescheduled_row row (rw found at moved)).0;
        free = (rescheduled_row row (rw found at moved)).1;
      })
      | inr stuck ↦ rw stuck (retried-IsSettled _)
    ]

    returned-IsSettled :
        (result : Option Fields)
        → IsSettled job.id (finish_returned lower base cap job result claim_time jobs)
    unfolding finish_returned
    returned-IsSettled result = elim (Bool-cases (asks_reschedule result)) [
      | inl asks ↦ rw asks verified-IsSettled
      | inr done ↦ rw done (succeeded-IsSettled result)
    ]

    checked-IsSettled :
        (outcome : Outcome)
        → is_handled outcome ≡ true
        → let ended = finish lower base cap job claim_time (checked_result outcome) jobs in
          (ended.0 ≡ true) × IsSettled job.id ended.1
    unfolding finish checked_result
    checked-IsSettled (returned result) handled = (refl, returned-IsSettled result)
    checked-IsSettled (returned_unencodable true) handled = (refl, verified-IsSettled)
    checked-IsSettled (returned_unencodable false) handled = cc
    checked-IsSettled returned_other handled = (refl, buried-IsSettled _)
    checked-IsSettled escaped handled = cc
    checked-IsSettled (raised_permanent error) handled = (refl, buried-IsSettled error)
    checked-IsSettled (raised error) handled = (refl, retried-IsSettled error)

-- The row of the claimed job after the handler: it is still there.
row_after_handler :
    (job_id : Text) (jobs jobs' : Table) (row : Job)
    → get_by_id job_id jobs ≡ some row
    → Reach jobs jobs'
    → HasAttempts jobs' job_id 0
row_after_handler job_id jobs jobs' row found r =
    Reach-HasAttempts r (record { row = row; found = found; counted = omega arith })

-- When the handler of a claimed job raises an Exception, or returns what a database can store as JSON, a
-- request for a reschedule, or what is no dict, and likewise when there is no handler, the round goes on
-- to its end and leaves the job settled: its row is there, it is not running, and its lease is free.
-- The handler and other sessions may write meanwhile by steps of the job repositories. An exception that
-- is no Exception, and another result without a JSON encoding, are excluded.
pub run_claimed-IsSettled :
    (lower : Text → Text) (base cap : ℕ) (registry : Registry) (job row : Job) (claim_time : ℕ)
    (jobs : Table)
    → RegistryObeys registry
    → ((handler : Handler)
        → get_handler job.job_type registry ≡ some handler
        → is_handled (handler (handler_payload job) jobs).0 ≡ true)
    → get_by_id job.id jobs ≡ some row
    → let (ended, jobs') = run_claimed lower base cap registry job claim_time jobs in
      (ended ≡ true) × IsSettled job.id jobs'
unfolding run_claimed dead_letter_missing_handler
run_claimed-IsSettled lower base cap registry job row claim_time jobs obeys handles found =
    elim (Option-cases (get_handler job.job_type registry)) [
      | inl missing ↦
          rw (missing, run_claimed) (refl, buried-IsSettled job claim_time jobs row found _)
      | inr (handler, known) ↦
          let payload = handler_payload job in
          let after =
            row_after_handler job.id jobs (handler payload jobs).1 row found
              (obeys job.job_type handler known payload jobs) in
          rw (known, run_claimed)
            (unfold invoke_handler in
              checked-IsSettled job claim_time (handler payload jobs).1 after.row after.found lower
                base cap (handler payload jobs).0 (handles handler known))
    ]

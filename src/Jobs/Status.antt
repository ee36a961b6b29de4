-- ===== src/Jobs/Status.antt =====
-- app/shared/jobs/repositories/shared_jobs_repositories_repository_status_repository.py,
-- shared_jobs_repositories_repository_requeue_repository.py and
-- shared_jobs_repositories_repository_dead_letter_repository.py: what becomes of a claimed job, the
-- requeue of a live job, and the recovery of dead letters.
use tenon_backend.Base.{
  ℕ, Bool, ◌&&◌, ◌||◌, Option, none, some, List, [], ◌∷◌, not, ◌==◌, if◌then◌else◌, keep, any, map,
  find, length,
}
use tenon_backend.Base.Text.{Text, codes, same_text, strip}
use tenon_backend.Base.Result.{Result, ok, value_error, raise_if, ◌>>◌}
use tenon_backend.Json.{Fields}
use tenon_backend.Jobs.Model.{
  Job, Table, queued, succeeded, dead_letter, is_queued, is_running, is_dead_letter,
}
use tenon_backend.Jobs.Flush.{flush}
use tenon_backend.Jobs.Rows.{has_key, update_where, rowcount}
use tenon_backend.Jobs.Shared.{sanitize_error, validate_payload_size, is_empty}
use tenon_backend.Jobs.Create.{load_idempotent_job}

unfoldable pub succeed : Option Fields → ℕ → Job → Job
succeed result_json now job = record job {
  status = succeeded;
  result_json = result_json;
  last_error = none;
  next_run_at = none;
  locked_at = none;
  locked_by = none;
  updated_at = now;
}

unfoldable pub mark_succeeded : Text → Option Fields → ℕ → Table → Table
mark_succeeded job_id result_json now =
    update_where (λ job. same_text job.id job_id) (succeed result_json now)

unfoldable pub reschedule : Text → ℕ → ℕ → Job → Job
reschedule error_str next_run_at now job = record job {
  status = queued;
  last_error = some (sanitize_error error_str);
  next_run_at = some next_run_at;
  locked_at = none;
  locked_by = none;
  updated_at = now;
}

unfoldable pub mark_failed_and_reschedule : Text → Text → ℕ → ℕ → Table → Table
mark_failed_and_reschedule job_id error_str next_run_at now =
    update_where (λ job. same_text job.id job_id) (reschedule error_str next_run_at now)

unfoldable pub bury : Text → ℕ → Job → Job
bury error_str now job = record job {
  status = dead_letter;
  last_error = some (sanitize_error error_str);
  next_run_at = none;
  locked_at = none;
  locked_by = none;
  updated_at = now;
}

unfoldable pub mark_dead_letter : Text → Text → ℕ → Table → Table
mark_dead_letter job_id error_str now =
    update_where (λ job. same_text job.id job_id) (bury error_str now)

abbrev pub with_payload : Option Fields → Job → Job
with_payload none job = job
with_payload (some payload_json) job = record job { payload_json = payload_json }

unfoldable pub requeue_live : Option Fields → ℕ → ℕ → Job → Job
requeue_live payload_json next_run_at now job = with_payload payload_json (record job {
  status = queued;
  last_error = none;
  next_run_at = some next_run_at;
  locked_at = none;
  locked_by = none;
  updated_at = now;
})

unfoldable pub is_live_key : ℕ → Text → Text → Job → Bool
is_live_key company_id job_type key job =
    has_key company_id job_type key job && (is_queued job.status || is_running job.status)

abbrev pub validate_payload_if_given : Option Fields → Result (Unit {0})
validate_payload_if_given none = ok tt
validate_payload_if_given (some payload_json) = validate_payload_size payload_json

unfoldable pub requeue_nonterminal_idempotent_job :
    ℕ → Text → Text → ℕ → ℕ → Option Fields → Table → Result (Option Job × Table)
requeue_nonterminal_idempotent_job company_id job_type key next_run_at now payload_json jobs = do
  let normalized_type = strip job_type
  let normalized_key = strip key
  raise_if (is_empty normalized_type) (value_error (codes "job_type is required"))
  raise_if (is_empty normalized_key) (value_error (codes "idempotency_key is required"))
  validate_payload_if_given payload_json
  let matches = is_live_key company_id normalized_type normalized_key
  let jobs' = update_where matches (requeue_live payload_json next_run_at now) jobs
  ok (
      if rowcount matches jobs == 0
      then (none, jobs)
      else (load_idempotent_job company_id normalized_type normalized_key jobs', jobs'))

-- `_apply_dead_letter_requeue`
unfoldable pub apply_dead_letter_requeue : ℕ → Job → Job
apply_dead_letter_requeue now job = record job {
  status = queued;
  result_json = none;
  last_error = none;
  next_run_at = some now;
  locked_at = none;
  locked_by = none;
  updated_at = now;
}

-- A dead letter of the given id.
unfoldable pub is_dead_letter_id : Text → Job → Bool
is_dead_letter_id job_id job = same_text job.id job_id && is_dead_letter job.status

-- The row is loaded, and flushed under its id; `meanwhile` is what other sessions commit between the two.
unfoldable pub requeue_dead_letter_job : (Table → Table) → Text → ℕ → Table → Option Job × Table
requeue_dead_letter_job meanwhile job_id now jobs =
    let normalized_id = strip job_id in
    if is_empty normalized_id
    then (none, jobs)
    else elim (find (is_dead_letter_id normalized_id) jobs) [
      | none ↦ (none, jobs)
      | some job ↦ (
        some (apply_dead_letter_requeue now job),
        flush (apply_dead_letter_requeue now) job (meanwhile jobs),
      )
    ]

-- The rows that `requeue_dead_letter_jobs` selects.
unfoldable pub is_chosen_dead_letter : List Text → Job → Bool
is_chosen_dead_letter [] job = is_dead_letter job.status
is_chosen_dead_letter (id ∷ ids) job =
    is_dead_letter job.status && any (λ chosen. same_text chosen job.id) (id ∷ ids)

abbrev pub is_nonempty : Text → Bool
is_nonempty text = not (is_empty text)

-- The flush of all loaded jobs.
unfoldable pub requeue_each : ℕ → List Job → Table → Table
requeue_each now [] jobs = jobs
requeue_each now (job ∷ chosen) jobs =
    requeue_each now chosen (flush (apply_dead_letter_requeue now) job jobs)

-- The chosen jobs are loaded, in an order that the result does not depend on.
unfoldable pub requeue_chosen : (Table → Table) → ℕ → List Text → Table → ℕ × Table
requeue_chosen meanwhile now ids jobs =
    let chosen = keep (is_chosen_dead_letter ids) jobs in
    if length chosen == 0
    then (0, jobs)
    else (length chosen, requeue_each now chosen (meanwhile jobs))

-- `job_ids=None` and an empty list choose every dead letter; ids that are all blank choose none.
unfoldable pub requeue_dead_letter_jobs : (Table → Table) → ℕ → List Text → Table → ℕ × Table
requeue_dead_letter_jobs meanwhile now [] jobs = requeue_chosen meanwhile now [] jobs
requeue_dead_letter_jobs meanwhile now (id ∷ ids) jobs =
    elim (keep is_nonempty (map strip (id ∷ ids))) [
      | [] ↦ (0, jobs)
      | chosen ∷ others ↦ requeue_chosen meanwhile now (chosen ∷ others) jobs
    ]

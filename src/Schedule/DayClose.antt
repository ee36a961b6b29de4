-- ===== src/Schedule/DayClose.antt =====
-- The jobs that close the days: in app/candidates/candidate_sessions/services, the modules
-- candidates_candidate_sessions_services_candidates_candidate_sessions_day_close_jobs_*.
-- A bulk call's surroundings (`Surroundings`) are the arguments of `Jobs/Bulk`.
use tenon_backend.Base.{
  ℕ, suc, Bool, ◌&&◌, ◌||◌, ◌==◌, Option, none, some, List, [], ◌∷◌, ◌++◌, any, keep, if◌then◌else◌,
}
use tenon_backend.Base.Int.{ℤ, pos, negsuc, eqb_ℤ}
use tenon_backend.Base.Sort.{sort}
use tenon_backend.Base.Text.{Text, codes, strip, same_text, decimal}
use tenon_backend.Base.Result.{Result, ok, ◌>>=◌}
use tenon_backend.Json.{number, string, Fields, no_fields, field}
use tenon_backend.Jobs.Model.{Job, Table}
use tenon_backend.Jobs.Shared.{IdempotentJobSpec}
use tenon_backend.Jobs.Bulk.{key_of, same_key, create_or_update_many_idempotent}
use tenon_backend.Trials.Model.{Trial, CandidateSession}
use tenon_backend.Schedule.Times.{Zone}
use tenon_backend.Schedule.Serial.{serialize_index, format_utc_iso}
use tenon_backend.Schedule.Gates.{Task, compute_task_window}

pub record Surroundings : Type 0 where
  pub atomic : Bool
  pub world : ℕ → Table → Table
  pub ids : ℕ → Text

abbrev pub day_close_finalize_text_job_type : Text
day_close_finalize_text_job_type = codes "day_close_finalize_text"

abbrev pub day_close_finalize_text_max_attempts : ℕ
day_close_finalize_text_max_attempts = 8

abbrev pub day_close_enforcement_job_type : Text
day_close_enforcement_job_type = codes "day_close_enforcement"

abbrev pub day_close_enforcement_max_attempts : ℕ
day_close_enforcement_max_attempts = 8

abbrev pub is_finalize_text_day : ℤ → Bool
is_finalize_text_day day_index = eqb_ℤ day_index (pos 1) || eqb_ℤ day_index (pos 5)

abbrev pub is_enforcement_day : ℤ → Bool
is_enforcement_day day_index = eqb_ℤ day_index (pos 2) || eqb_ℤ day_index (pos 3)

abbrev pub text_task_types : List Text
text_task_types = codes "design" ∷ codes "documentation" ∷ codes "handoff" ∷ codes "reflection" ∷ []

abbrev pub code_task_types : List Text
code_task_types = codes "code" ∷ codes "debug" ∷ []

abbrev pub day_close_finalize_text_idempotency_key : ℕ → ℕ → Text
day_close_finalize_text_idempotency_key candidate_session_id task_id =
    codes "day_close_finalize_text:" ++ decimal candidate_session_id ++ b':' ∷ decimal task_id

-- `f"{day_index}"`
abbrev pub shown_day : ℤ → Text
shown_day (pos n) = decimal n
shown_day (negsuc n) = b'-' ∷ decimal (suc n)

abbrev pub day_close_enforcement_idempotency_key : ℕ → ℤ → Text
day_close_enforcement_idempotency_key candidate_session_id day_index =
    codes "day_close_enforcement:" ++ decimal candidate_session_id ++ b':' ∷ shown_day day_index

-- `build_day_close_finalize_text_payload` and `build_day_close_enforcement_payload`, which are alike.
unfoldable pub build_day_close_payload : ℕ → ℕ → ℤ → ℕ → Fields
build_day_close_payload candidate_session_id task_id day_index window_end_at =
    field (codes "candidateSessionId") (number candidate_session_id) (
      field (codes "taskId") (number task_id) (
        field (codes "dayIndex") (serialize_index day_index)
          (field (codes "windowEndAt") (string (format_utc_iso window_end_at)) no_fields)))

abbrev pub schedule_correlation_id : ℕ → Text
schedule_correlation_id candidate_session_id =
    codes "candidate_session:" ++ decimal candidate_session_id ++ codes ":schedule"

unfoldable pub finalize_text_job_spec : ℕ → Task → ℕ → IdempotentJobSpec
finalize_text_job_spec candidate_session_id task window_end_at = record {
  job_type = day_close_finalize_text_job_type;
  idempotency_key = day_close_finalize_text_idempotency_key candidate_session_id task.id;
  payload_json = build_day_close_payload candidate_session_id task.id task.day_index window_end_at;
  candidate_session_id = some candidate_session_id;
  max_attempts = day_close_finalize_text_max_attempts;
  correlation_id = some (schedule_correlation_id candidate_session_id);
  next_run_at = some window_end_at;
}

unfoldable pub enforcement_job_spec : ℕ → Task → ℕ → IdempotentJobSpec
enforcement_job_spec candidate_session_id task window_end_at = record {
  job_type = day_close_enforcement_job_type;
  idempotency_key = day_close_enforcement_idempotency_key candidate_session_id task.day_index;
  payload_json = build_day_close_payload candidate_session_id task.id task.day_index window_end_at;
  candidate_session_id = some candidate_session_id;
  max_attempts = day_close_enforcement_max_attempts;
  correlation_id = some (schedule_correlation_id candidate_session_id);
  next_run_at = some window_end_at;
}

-- `_load_tasks_for_day_indexes`
unfoldable pub load_tasks_for_day_indexes : (ℤ → Bool) → ℕ → List Task → List Task
load_tasks_for_day_indexes is_chosen trial_id tasks =
    sort (λ task. task.day_index)
      (sort (λ task. pos task.id)
        (keep (λ task. (task.trial_id == trial_id) && is_chosen task.day_index) tasks))

-- `_dedupe_job_specs`: the last one of a key, in the place of the first one.
unfoldable pub set_spec : IdempotentJobSpec → List IdempotentJobSpec → List IdempotentJobSpec
set_spec spec [] = spec ∷ []
set_spec spec (other ∷ rest) =
    let later = set_spec spec rest in
    if same_key (key_of other) (key_of spec) then spec ∷ rest else other ∷ later

unfoldable pub dedupe_from :
    List IdempotentJobSpec → List IdempotentJobSpec → List IdempotentJobSpec
dedupe_from deduped [] = deduped
dedupe_from deduped (spec ∷ specs) = dedupe_from (set_spec spec deduped) specs

abbrev pub dedupe_job_specs : List IdempotentJobSpec → List IdempotentJobSpec
dedupe_job_specs specs = dedupe_from [] specs

-- `_upsert_day_close_jobs`
unfoldable pub upsert_day_close_jobs :
    Surroundings → ℕ → ℕ → List IdempotentJobSpec → Table → Result (List Job × Table)
upsert_day_close_jobs around now company_id [] jobs = ok ([], jobs)
upsert_day_close_jobs around now company_id (spec ∷ specs) jobs =
    create_or_update_many_idempotent around.atomic around.world around.ids now company_id
      (dedupe_job_specs (spec ∷ specs)) jobs

-- The specification of a task, if it has one: its day and its type are those of the jobs, and its
-- window has an end.
unfoldable pub spec_of_task :
    (ℕ → Task → ℕ → IdempotentJobSpec) → Bool → ℕ → Task → Option ℕ → Option IdempotentJobSpec
spec_of_task job_spec is_meant session_id task none = none
spec_of_task job_spec is_meant session_id task (some window_end_at) =
    if is_meant then some (job_spec session_id task window_end_at) else none

abbrev pub with_spec : Option IdempotentJobSpec → List IdempotentJobSpec → List IdempotentJobSpec
with_spec none specs = specs
with_spec (some spec) specs = spec ∷ specs

-- `lower` is `str.lower`.
module _ (lower : Text → Text) (zone_info : Text → Option Zone) (from_iso : Text → Option ℕ) where
  abbrev pub is_of_types : List Text → Task → Bool
  is_of_types types task = any (same_text (lower (strip task.type))) types

  abbrev pub is_finalize_text_task : Task → Bool
  is_finalize_text_task task =
      is_finalize_text_day task.day_index && is_of_types text_task_types task

  abbrev pub is_enforcement_task : Task → Bool
  is_enforcement_task task = is_enforcement_day task.day_index && is_of_types code_task_types task

  -- The loop over the tasks for the jobs of one kind.
  unfoldable pub specs_of_tasks :
      (ℕ → Task → ℕ → IdempotentJobSpec)
      → (Task → Bool)
      → CandidateSession
      → Option Trial
      → ℕ
      → List Task
      → List IdempotentJobSpec
  specs_of_tasks job_spec is_meant session trial now [] = []
  specs_of_tasks job_spec is_meant session trial now (task ∷ tasks) =
      let window = compute_task_window zone_info from_iso session trial task now in
      with_spec (spec_of_task job_spec (is_meant task) session.id task window.window_end_at)
        (specs_of_tasks job_spec is_meant session trial now tasks)

  unfoldable pub enqueue_day_close_jobs :
      Surroundings × Surroundings
      → ℕ
      → CandidateSession
      → Option Trial
      → List Task
      → Table
      → Result ((List Job × List Job) × Table)
  enqueue_day_close_jobs around now session none tasks jobs = ok (([], []), jobs)
  enqueue_day_close_jobs around now session (some trial) tasks jobs =
      let chosen =
        load_tasks_for_day_indexes (λ d. is_finalize_text_day d || is_enforcement_day d)
          session.trial_id tasks in
      let finalize_specs =
        specs_of_tasks finalize_text_job_spec is_finalize_text_task session (some trial) now
          chosen in
      let enforcement_specs =
        specs_of_tasks enforcement_job_spec is_enforcement_task session (some trial) now chosen in
      upsert_day_close_jobs around.0 now trial.company_id finalize_specs jobs
      >>= λ (finalize_jobs, jobs').
          upsert_day_close_jobs around.1 now trial.company_id enforcement_specs jobs'
          >>= λ (enforcement_jobs, jobs''). ok ((finalize_jobs, enforcement_jobs), jobs'')

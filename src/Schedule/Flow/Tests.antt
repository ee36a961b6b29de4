-- ===== src/Schedule/Flow/Tests.antt =====
-- A candidate's calls to set the schedule of five days, five hours behind UTC.
use tenon_backend.Base.{
  ℕ, zero, suc, ◌+◌, ◌-◌, ◌*◌, ◌/◌, ◌≡◌, refl, Bool, true, false, Option, none, some, List, [], ◌∷◌,
  All, map, take, if◌then◌else◌,
}
use tenon_backend.Base.Int.{pos}
use tenon_backend.Base.Sort.{sort, insert}
use tenon_backend.Base.Text.{Text, codes, same_text, strip, lstrip, is_space, starts_with, decimal}
use tenon_backend.Base.Result.{Result, ok, err, api_error}
use tenon_backend.Json.{get, encoded_size}
use tenon_backend.Jobs.Model.{Table}
use tenon_backend.Jobs.Rows.{conflicts, has_key, insert_row}
use tenon_backend.Jobs.Shared.{
  normalize_spec, normalize_many_specs, normalize_idempotent_create_inputs, validate_payload_size,
  job_from_spec,
}
use tenon_backend.Jobs.Bulk.{
  job_of, set_job, is_wanted, map_rows, load_idempotent_jobs_for_keys, update_map,
  apply_updates_to_existing, insert_rows, recover_bulk_insert_conflicts, resolve_jobs_in_order,
  create_or_update_many_normalized, create_or_update_many_idempotent,
}
use tenon_backend.Trials.Model.{Trial, CandidateSession}
use tenon_backend.Candidates.Claims.{
  Principal, get_by_token, ensure_trial_not_terminated, require_not_expired, fetch_by_token,
  normalize_email, store_session,
}
use tenon_backend.Schedule.Model.{minute, day}
use tenon_backend.Schedule.Times.{Zone, to_number, coerce_day_index, validate_timezone}
use tenon_backend.Schedule.Overrides.{times_of_day, normalize_overrides}
use tenon_backend.Schedule.Windows.{window_on, windows_from, zone_or_raise, derive_day_windows}
use tenon_backend.Schedule.Serial.{
  serialize_index, isoformat, offset_to_z, z_to_offset, format_utc_iso, serialize_day_windows,
  deserialize_window, deserialize_day_windows,
}
use tenon_backend.Schedule.Gates.{
  Task, window_for_day, task_window_at, load_or_derive_day_windows, compute_task_window,
}
use tenon_backend.Schedule.DayClose.{
  Surroundings, build_day_close_payload, finalize_text_job_spec, enforcement_job_spec,
  load_tasks_for_day_indexes, set_spec, dedupe_from, upsert_day_close_jobs, spec_of_task,
  specs_of_tasks, enqueue_day_close_jobs,
}
use tenon_backend.Schedule.Flow.{
  validate_and_normalize_github_username, on_date, normalize_proposed_start, schedule_matches,
  Scheduled, set_username, require_claimed_ownership, derive_serialized_day_windows,
  backfill_locked_schedule, set_new_schedule,
}
use tenon_backend.Schedule.Flow.Calls.{lock_schedule, schedule_found, schedule_candidate_session}
use tenon_backend.Schedule.Flow.Owners.{IsScheduled, schedule_candidate_session-IsScheduled}
use tenon_backend.Schedule.Flow.Once.{HasSchedule, begin, call, Calls-HasSchedule}

abbrev hour : ℕ
hour = 60 * minute

abbrev behind : Zone
behind = record { local_date = λ t. t / day; to_utc = λ date time. date * day + time + 5 * hour }

unfoldable zone_info : Text → Option Zone
zone_info name = if same_text name (codes "EST") then some behind else none

drop : ℕ → Text → Text
drop zero s = s
drop (suc n) [] = []
drop (suc n) (c ∷ s) = drop n s

-- Full hours of the first month.
unfoldable from_iso : Text → Option ℕ
unfolding drop
from_iso s =
    some ((to_number (take 2 (drop 8 s)) - 1) * day + to_number (take 2 (drop 11 s)) * hour)

abbrev hiring : Trial
hiring = record {
  id = 1;
  company_id = 7;
  created_by = 3;
  status = codes "active_inviting";
  day_window_start_local = 9 * hour;
  day_window_end_local = 17 * hour;
  day_window_overrides_enabled = false;
  day_window_overrides_json = none;
  active_scenario_version_id = some 5;
  pending_scenario_version_id = none;
  generating_at = some 10;
  ready_for_review_at = some 20;
  activated_at = some 30;
  terminated_at = none;
  terminated_reason = none;
  terminated_by_talent_partner_id = none;
}

abbrev claimed : CandidateSession
claimed = record {
  id = 11;
  trial_id = 1;
  invite_email = codes "a@b";
  token = codes "t";
  status = codes "in_progress";
  candidate_email = some (codes "a@b");
  candidate_auth0_sub = some (codes "ann");
  candidate_auth0_email = some (codes "a@b");
  claimed_at = some 50;
  started_at = some 50;
  completed_at = none;
  expires_at = none;
  scheduled_start_at = none;
  candidate_timezone = none;
  github_username = none;
  day_windows_json = none;
  schedule_locked_at = none;
}

abbrev ann : Principal
ann = record { sub = codes "ann"; email = some (codes "a@b"); permissions = [] }

abbrev tasks : List Task
tasks =
    record { id = 6; trial_id = 1; day_index = pos 2; type = codes "code" }
    ∷ record { id = 5; trial_id = 1; day_index = pos 1; type = codes "design" }
    ∷ []

abbrev quiet : Text → Surroundings
quiet id = record { atomic = true; world = λ n jobs. jobs; ids = λ n. id }

unfoldable call_at : ℕ → ℕ → List CandidateSession → Table → Result Scheduled
call_at now date sessions jobs =
    schedule_candidate_session (λ t. t) zone_info from_iso tasks
      (quiet (codes "x"), quiet (codes "y")) now (codes "t") ann (on_date date) (codes "EST")
      (some (codes "ann-b")) (hiring ∷ []) sessions jobs

returned : Result Scheduled → Scheduled
returned (ok result) = result
returned (err e) = record { candidate_session = claimed; created = false; sessions = []; jobs = [] }

unfoldable first_result : Scheduled
unfolding returned
first_result = returned (call_at (10 * hour) 0 (claimed ∷ []) [])

shown : Scheduled → Bool × (Option ℕ × (Option ℕ × List Text))
shown result = (
  result.created,
  (
    result.candidate_session.scheduled_start_at,
    (result.candidate_session.schedule_locked_at, map (λ job. job.idempotency_key) result.jobs),
  ),
)

-- An hour later for the same date, and for another one.
unfoldable second_result : Scheduled
unfolding returned
second_result = returned (call_at (11 * hour) 0 first_result.sessions first_result.jobs)

calls :
    (shown first_result ≡ (
      true,
      (
        some (14 * hour),
        (
          some (10 * hour),
          codes "day_close_enforcement:11:2" ∷ codes "day_close_finalize_text:11:5" ∷ [],
        ),
      ),
    ))
    × (call_at (10 * hour) 0 (claimed ∷ []) [] ≡ ok first_result)
    × (call_at (11 * hour) 0 first_result.sessions first_result.jobs ≡ ok second_result)
    × (second_result.created ≡ false)
    × (call_at (11 * hour) 1 first_result.sessions first_result.jobs
        ≡ err (api_error 409 (codes "SCHEDULE_ALREADY_SET")))
    × All (HasSchedule 11 (codes "ann") (14 * hour) (codes "EST") (10 * hour)) first_result.sessions
unfolding shown first_result second_result backfill_locked_schedule schedule_matches call_at
    schedule_candidate_session schedule_found lock_schedule zone_info from_iso
    validate_and_normalize_github_username normalize_proposed_start set_username
    require_claimed_ownership derive_serialized_day_windows set_new_schedule validate_timezone
    zone_or_raise fetch_by_token get_by_token ensure_trial_not_terminated require_not_expired
    normalize_email store_session same_text strip lstrip is_space derive_day_windows windows_from
    window_on times_of_day normalize_overrides serialize_day_windows serialize_index format_utc_iso
    isoformat offset_to_z starts_with enqueue_day_close_jobs load_tasks_for_day_indexes sort insert
    specs_of_tasks spec_of_task finalize_text_job_spec enforcement_job_spec build_day_close_payload
    compute_task_window load_or_derive_day_windows deserialize_day_windows deserialize_window
    z_to_offset coerce_day_index get to_number window_for_day task_window_at upsert_day_close_jobs
    dedupe_from set_spec create_or_update_many_idempotent create_or_update_many_normalized
    normalize_many_specs normalize_spec normalize_idempotent_create_inputs validate_payload_size
    encoded_size load_idempotent_jobs_for_keys map_rows set_job is_wanted apply_updates_to_existing
    job_of recover_bulk_insert_conflicts insert_rows insert_row conflicts has_key job_from_spec
    update_map resolve_jobs_in_order decimal
calls = (refl, refl, refl, refl, refl, (λ same. (refl, refl, refl, refl), tt))

schedule_candidate_session-IsScheduled_example :
    IsScheduled (λ t. t) (codes "t") ann (10 * hour) (hiring ∷ []) (claimed ∷ []) first_result
unfolding call_at
schedule_candidate_session-IsScheduled_example =
    schedule_candidate_session-IsScheduled (λ t. t) zone_info from_iso tasks
      (quiet (codes "x"), quiet (codes "y")) (10 * hour) (codes "t") ann (hiring ∷ [])
      (claimed ∷ []) (on_date 0) (codes "EST") (some (codes "ann-b")) [] (calls.1)

Calls-HasSchedule_example :
    All (HasSchedule 11 (codes "ann") (14 * hour) (codes "EST") (10 * hour)) second_result.sessions
unfolding call_at
Calls-HasSchedule_example =
    Calls-HasSchedule (λ t. t) zone_info from_iso 11 (codes "ann") (14 * hour) (codes "EST")
      (10 * hour)
      (call tasks (quiet (codes "x"), quiet (codes "y")) (11 * hour) (codes "t") ann (on_date 0)
        (codes "EST") (some (codes "ann-b")) (hiring ∷ []) first_result.jobs begin (calls.2))
      (calls.5)

-- ===== src/Schedule/Flow/Calls.antt =====
-- `schedule_candidate_session_impl` and `schedule_candidate_session`: a candidate's call to set the schedule.
use tenon_backend.Base.{
  ℕ, Bool, true, false, not, ◌&&◌, ◌||◌, Option, none, some, List, is_none, ltb, if◌then◌else◌,
}
use tenon_backend.Base.Text.{Text, codes, strip, same_text}
use tenon_backend.Base.Result.{Result, ok, err, http_error, api_error, raise_if, ◌>>=◌, ◌>>◌}
use tenon_backend.Jobs.Model.{Table}
use tenon_backend.Jobs.Shared.{is_empty}
use tenon_backend.Trials.Model.{Trial, CandidateSession}
use tenon_backend.Candidates.Claims.{Principal, trial_of, fetch_by_token, store_session}
use tenon_backend.Schedule.Times.{Zone, validate_timezone}
use tenon_backend.Schedule.Windows.{zone_or_raise}
use tenon_backend.Schedule.Gates.{Task}
use tenon_backend.Schedule.DayClose.{Surroundings}
use tenon_backend.Schedule.Flow.{
  validate_and_normalize_github_username, ProposedStart, normalize_proposed_start, on_gone,
  on_value_error, rescue, invalid_timezone, invalid_window, Scheduled, stored_username,
  set_username, require_claimed_ownership, backfill_locked_schedule, set_new_schedule,
}

-- The trial is there, since the look-up by token has checked its status.
abbrev pub trial_or_raise : Option Trial → Result Trial
trial_or_raise none = err (http_error 404)
trial_or_raise (some trial) = ok trial

module _ (lower : Text → Text) (zone_info : Text → Option Zone) (from_iso : Text → Option ℕ)
    (tasks : List Task) where
  -- The new schedule or the one that is locked: whether it is new, whether it writes, and the rows.
  unfoldable pub lock_schedule :
      Surroundings × Surroundings
      → ℕ
      → Trial
      → ℕ
      → Text
      → CandidateSession
      → Table
      → Result (Bool × (Bool × (CandidateSession × Table)))
  lock_schedule around now trial start timezone session jobs =
      if is_none session.schedule_locked_at
      then (rescue (on_value_error invalid_window) (
            set_new_schedule lower zone_info from_iso tasks around now trial start timezone session
              jobs)
          >>= λ after. ok (true, (true, after)))
      else (backfill_locked_schedule lower zone_info from_iso tasks around now trial start timezone
            session jobs
          >>= λ after. ok (false, after))

  -- The part behind the look-ups.
  unfoldable pub schedule_found :
      Surroundings × Surroundings
      → ℕ
      → Principal
      → Trial
      → ℕ
      → Text
      → Text
      → CandidateSession
      → List CandidateSession
      → Table
      → Result Scheduled
  schedule_found around now principal trial start timezone github_username session sessions jobs =
      do
        raise_if (ltb start now) (api_error 422 (codes "SCHEDULE_START_IN_PAST"))
        (changed, owned) ← require_claimed_ownership lower principal session
        let existing = stored_username owned
        raise_if (not (is_empty existing) && not (same_text existing github_username))
            (api_error 409 (codes "GITHUB_USERNAME_MISMATCH"))
        let named = set_username github_username owned
        (created, (written, (scheduled, jobs'))) ←
            lock_schedule around now trial start timezone named jobs
        let commits = changed || (not (same_text existing github_username) || written)
        ok (record {
          candidate_session = scheduled;
          created = created;
          sessions = if commits then store_session scheduled sessions else sessions;
          jobs = jobs';
        })

  unfoldable pub schedule_candidate_session :
      Surroundings × Surroundings
      → ℕ
      → Text
      → Principal
      → ProposedStart
      → Text
      → Option Text
      → List Trial
      → List CandidateSession
      → Table
      → Result Scheduled
  schedule_candidate_session around now token principal proposed candidate_timezone github_username
        trials sessions jobs =
      do
        username ← validate_and_normalize_github_username github_username
        timezone ←
            rescue (on_value_error invalid_timezone)
              (validate_timezone zone_info (strip candidate_timezone))
        session ← rescue on_gone (fetch_by_token now token trials sessions)
        trial ← trial_or_raise (trial_of trials session)
        zone ← zone_or_raise zone_info timezone
        schedule_found around now principal trial (normalize_proposed_start zone proposed trial)
            timezone username session sessions jobs

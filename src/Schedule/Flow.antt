-- ===== src/Schedule/Flow.antt =====
-- How a candidate sets the schedule: in app/candidates/candidate_sessions/services, the modules
-- candidates_candidate_sessions_services_candidates_candidate_sessions_schedule_{flow,helpers,paths,windows}_service.py
-- and candidates_candidate_sessions_services_candidates_candidate_sessions_schedule_service.py, with the check of
-- app/submissions/services/submissions_services_submissions_github_user_service.py.
-- The confirmation by e-mail, which is sent after the commit and whose failures are only logged, is left out.
-- An exception before the commit leaves the rows as they were.
pub mod Calls
pub mod Outcome
pub mod Owners
pub mod Once
mod Tests
use tenon_backend.Base.{
  ℕ, Bool, true, false, not, ◌&&◌, ◌||◌, ◌==◌, Option, none, some, List, [], ◌∷◌, is_none, length,
  leb, ltb, if◌then◌else◌,
}
use tenon_backend.Base.Text.{Text, codes, strip, same_text}
use tenon_backend.Base.Result.{
  Result, ok, err, Error, value_error, integrity_error, http_error, api_error, raise_if, ◌>>=◌,
  ◌>>◌,
}
use tenon_backend.Json.{Json}
use tenon_backend.Jobs.Model.{Job, Table}
use tenon_backend.Jobs.Shared.{is_empty}
use tenon_backend.Trials.Model.{Trial, CandidateSession}
use tenon_backend.Candidates.Claims.{
  Principal, trial_of, fetch_by_token, is_blank, is_text, normalize_email, store_session,
}
use tenon_backend.Schedule.Times.{Zone, is_digit, validate_timezone}
use tenon_backend.Schedule.Overrides.{is_truthy}
use tenon_backend.Schedule.Windows.{zone_or_raise, derive_day_windows}
use tenon_backend.Schedule.Serial.{to_second, serialize_day_windows}
use tenon_backend.Schedule.Gates.{Task, enabled_overrides, timezone_of}
use tenon_backend.Schedule.DayClose.{Surroundings, enqueue_day_close_jobs}

abbrev pub is_alphanumeric : ℕ → Bool
is_alphanumeric c = is_digit c || ((leb b'A' c && leb c b'Z') || (leb b'a' c && leb c b'z'))

-- The rest of a username: letters, digits and hyphens, and no hyphen at the end.
abbrev pub ends_username : Text → Bool
ends_username [] = true
ends_username (c ∷ []) = is_alphanumeric c
ends_username (c ∷ d ∷ s) = (is_alphanumeric c || c == b'-') && ends_username (d ∷ s)

-- A match of `_GITHUB_USERNAME_RE`, for a text without a line break at its end.
abbrev pub is_username : Text → Bool
is_username [] = false
is_username (c ∷ s) = is_alphanumeric c && (ends_username s && leb (length s) 38)

-- `(value or "").strip()`
abbrev pub stripped : Option Text → Text
stripped none = strip (codes "")
stripped (some value) = strip value

unfoldable pub validate_and_normalize_github_username : Option Text → Result Text
validate_and_normalize_github_username username = do
  let normalized = stripped username
  raise_if (is_empty normalized || (ltb 39 (length normalized) || not (is_username normalized)))
      (api_error 400 (codes "INVALID_GITHUB_USERNAME"))
  ok normalized

-- `scheduled_start_at`: a `datetime` with a zone; or a `date`, or the date of a `datetime` without one.
pub data ProposedStart : Type 0 where
  at_instant on_date : ℕ → ProposedStart

abbrev pub proposed_date : Zone → ProposedStart → ℕ
proposed_date zone (at_instant t) = zone.local_date t
proposed_date zone (on_date date) = date

-- `_normalize_candidate_proposed_start_at`. A trial always has a `day_window_start_local`.
unfoldable pub normalize_proposed_start : Zone → ProposedStart → Trial → ℕ
normalize_proposed_start zone proposed trial =
    to_second (zone.to_utc (proposed_date zone proposed) trial.day_window_start_local)

-- `except HTTPException`, and `except ValueError` around the time zone and around the new schedule.
abbrev pub on_gone : Error → Error
on_gone (http_error n) =
    if n == 410 then api_error 410 (codes "INVITE_TOKEN_EXPIRED") else http_error n
on_gone (api_error n code) =
    if n == 410 then api_error 410 (codes "INVITE_TOKEN_EXPIRED") else api_error n code
on_gone e = e

abbrev pub on_value_error : Error → Error → Error
on_value_error replacement (value_error message) = replacement
on_value_error replacement e = e

abbrev pub rescue {ℓ} : {X : Type ℓ} (handle : Error → Error) (call : Result X) → Result X
rescue handle (ok x) = ok x
rescue handle (err e) = err (handle e)

abbrev pub invalid_timezone : Error
invalid_timezone = api_error 422 (codes "SCHEDULE_INVALID_TIMEZONE")

abbrev pub invalid_window : Error
invalid_window = api_error 422 (codes "SCHEDULE_INVALID_WINDOW")

-- `_schedule_matches`
unfoldable pub schedule_matches : CandidateSession → ℕ → Text → Bool
schedule_matches session scheduled_start_at candidate_timezone = elim session.scheduled_start_at [
  | none ↦ false
  | some existing_start ↦
      not (is_empty (timezone_of session))
      && (to_second existing_start == to_second scheduled_start_at
          && same_text (timezone_of session) candidate_timezone)
]

-- The sessions with their jobs, and what a call answers.
pub record Scheduled : Type 0 where
  pub candidate_session : CandidateSession
  pub created : Bool
  pub sessions : List CandidateSession
  pub jobs : Table

-- `(session.github_username or "").strip()`
abbrev pub stored_username : CandidateSession → Text
stored_username session = stripped session.github_username

unfoldable pub set_username : Text → CandidateSession → CandidateSession
set_username github_username session =
    if same_text (stored_username session) github_username
    then session
    else record session { github_username = some github_username }

-- `_require_claimed_ownership`: whether it writes, and the session.
unfoldable pub require_claimed_ownership :
    (Text → Text) → Principal → CandidateSession → Result (Bool × CandidateSession)
require_claimed_ownership lower principal session = do
  let email = normalize_email lower principal.email
  raise_if (is_empty email) (api_error 403 (codes "CANDIDATE_AUTH_EMAIL_MISSING"))
  raise_if (not (same_text (normalize_email lower (some session.invite_email)) email))
      (api_error 403 (codes "CANDIDATE_INVITE_EMAIL_MISMATCH"))
  raise_if (is_blank session.candidate_auth0_sub || is_none session.claimed_at)
      (api_error 403 (codes "SCHEDULE_NOT_CLAIMED"))
  raise_if (not (is_text principal.sub session.candidate_auth0_sub))
      (api_error 403 (codes "CANDIDATE_SESSION_ALREADY_CLAIMED"))
  ok (
    not (is_text email session.candidate_auth0_email)
        || not (is_text email session.candidate_email),
    record session { candidate_auth0_email = some email; candidate_email = some email },
  )

-- `_derive_serialized_day_windows`
unfoldable pub derive_serialized_day_windows : (Text → Option Zone) → Trial → ℕ → Text → Result Json
derive_serialized_day_windows zone_info trial scheduled_start_at normalized_timezone = do
  windows ←
      derive_day_windows zone_info scheduled_start_at normalized_timezone
        trial.day_window_start_local trial.day_window_end_local (enabled_overrides trial) 5
  ok (serialize_day_windows windows)

module _ (lower : Text → Text) (zone_info : Text → Option Zone) (from_iso : Text → Option ℕ)
    (tasks : List Task) where
  -- `_backfill_locked_schedule`: whether it writes, the session and the jobs.
  unfoldable pub backfill_locked_schedule :
      Surroundings × Surroundings
      → ℕ
      → Trial
      → ℕ
      → Text
      → CandidateSession
      → Table
      → Result (Bool × (CandidateSession × Table))
  backfill_locked_schedule around now trial scheduled_start_at normalized_timezone session jobs = do
    raise_if (not (schedule_matches session scheduled_start_at normalized_timezone))
        (api_error 409 (codes "SCHEDULE_ALREADY_SET"))
    if is_truthy session.day_windows_json then ok (false, (session, jobs)) else do
      windows ← derive_serialized_day_windows zone_info trial scheduled_start_at normalized_timezone
      let filled = record session { day_windows_json = some windows }
      (_, jobs') ←
          enqueue_day_close_jobs lower zone_info from_iso around now filled (some trial) tasks jobs
      ok (true, (filled, jobs'))

  -- `_set_new_schedule`: the session and the jobs.
  unfoldable pub set_new_schedule :
      Surroundings × Surroundings
      → ℕ
      → Trial
      → ℕ
      → Text
      → CandidateSession
      → Table
      → Result (CandidateSession × Table)
  set_new_schedule around now trial scheduled_start_at normalized_timezone session jobs = do
    windows ← derive_serialized_day_windows zone_info trial scheduled_start_at normalized_timezone
    let scheduled = record session {
      scheduled_start_at = some scheduled_start_at;
      candidate_timezone = some normalized_timezone;
      day_windows_json = some windows;
      schedule_locked_at = some now;
    }
    (_, jobs') ←
        enqueue_day_close_jobs lower zone_info from_iso around now scheduled (some trial) tasks jobs
    ok (scheduled, jobs')

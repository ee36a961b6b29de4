-- ===== src/Candidates/Claims.antt =====
-- The claim of an invitation: in app/candidates/candidate_sessions/services,
-- candidates_candidate_sessions_services_candidates_candidate_sessions_claims_service.py with the
-- fetch_token, ownership and status services beside it, and the look-up by token in
-- ../repositories. `lower` is `str.lower`. Tokens and ids are unique among the sessions.
pub mod Owners
pub mod Kept
use tenon_backend.Base.{
  ℕ, Bool, true, false, not, ◌&&◌, ◌||◌, Option, none, some, List, [], ◌∷◌, map, find, or_else, ltb,
  ◌==◌, if◌then◌else◌,
}
use tenon_backend.Base.Text.{Text, codes, same_text, strip}
use tenon_backend.Base.Result.{Result, ok, err, http_error, api_error, raise_if, ◌>>=◌, ◌>>◌}
use tenon_backend.Jobs.Shared.{is_empty}
use tenon_backend.Trials.Model.{Trial, CandidateSession}

-- The fields that the modelled code reads. `normalize_email` allows for an `email` that is `None`.
pub record Principal : Type 0 where
  pub sub : Text
  pub email : Option Text
  pub permissions : List Text

abbrev pub is_terminated_trial : Trial → Bool
is_terminated_trial trial = same_text trial.status (codes "terminated")

abbrev pub trial_of : List Trial → CandidateSession → Option Trial
trial_of trials session = find (λ trial. trial.id == session.trial_id) trials

abbrev pub is_open : Option Trial → Bool
is_open none = false
is_open (some trial) = not (is_terminated_trial trial)

unfoldable pub get_by_token : Text → List Trial → List CandidateSession → Option CandidateSession
get_by_token token trials =
    find (λ session. same_text session.token token && is_open (trial_of trials session))

-- `_loaded_trial_status` of a session whose trial the query has loaded.
unfoldable pub ensure_trial_not_terminated : List Trial → CandidateSession → Result (Unit {0})
ensure_trial_not_terminated trials session =
    raise_if (not (is_open (trial_of trials session))) (http_error 404)

abbrev pub is_expired : ℕ → Option ℕ → Bool
is_expired now none = false
is_expired now (some expires_at) = ltb expires_at now

unfoldable pub require_not_expired : ℕ → CandidateSession → Result (Unit {0})
require_not_expired now session = raise_if (is_expired now session.expires_at) (http_error 410)

unfoldable pub fetch_by_token :
    ℕ → Text → List Trial → List CandidateSession → Result CandidateSession
fetch_by_token now token trials sessions = elim (get_by_token token trials sessions) [
  | none ↦ err (http_error 404)
  | some session ↦ do
    ensure_trial_not_terminated trials session
    require_not_expired now session
    ok session
]

-- `stored_sub` is falsy.
abbrev pub is_blank : Option Text → Bool
is_blank none = true
is_blank (some text) = is_empty text

-- `value == text` where `value` may be `None`.
abbrev pub is_text : Text → Option Text → Bool
is_text text none = false
is_text text (some value) = same_text value text

-- `stored_sub and stored_sub != principal.sub`
unfoldable pub is_claimed_by_other : Text → Option Text → Bool
is_claimed_by_other sub stored_sub = not (is_blank stored_sub) && not (is_text sub stored_sub)

-- What `ensure_candidate_ownership` writes once it has raised nothing.
unfoldable pub take_ownership : Text → Text → ℕ → CandidateSession → CandidateSession
take_ownership sub email now session = record session {
  candidate_auth0_sub =
      if is_blank session.candidate_auth0_sub then some sub else session.candidate_auth0_sub;
  claimed_at =
      if is_blank session.candidate_auth0_sub
      then some (or_else session.claimed_at now)
      else session.claimed_at;
  candidate_auth0_email = some email;
  candidate_email = some email;
}

abbrev pub ownership_changes : Text → CandidateSession → Bool
ownership_changes email session =
    is_blank session.candidate_auth0_sub
    || (not (is_text email session.candidate_auth0_email)
        || not (is_text email session.candidate_email))

unfoldable pub mark_in_progress : ℕ → CandidateSession → CandidateSession
mark_in_progress now session =
    if same_text session.status (codes "not_started")
    then record session {
      status = codes "in_progress";
      started_at = some (or_else session.started_at now);
    }
    else session

abbrev pub same_time : Option ℕ → Option ℕ → Bool
same_time none none = true
same_time (some a) (some b) = a == b
same_time _ _ = false

-- `cs.status != previous_status or cs.started_at != previous_started_at`
abbrev pub progress_changes : CandidateSession → CandidateSession → Bool
progress_changes before after =
    not (same_text after.status before.status) || not (same_time after.started_at before.started_at)

-- The flush of a changed session to its row.
unfoldable pub store_session : CandidateSession → List CandidateSession → List CandidateSession
store_session session = map (λ row. if row.id == session.id then session else row)

module _ (lower : Text → Text) where
  unfoldable pub normalize_email : Option Text → Text
  normalize_email none = []
  normalize_email (some value) = lower (strip value)

  unfoldable pub ensure_candidate_ownership :
      Principal → ℕ → CandidateSession → Result (Bool × CandidateSession)
  ensure_candidate_ownership principal now session = do
    let email = normalize_email principal.email
    raise_if (is_empty email) (api_error 403 (codes "CANDIDATE_AUTH_EMAIL_MISSING"))
    raise_if (not (same_text (normalize_email (some session.invite_email)) email))
        (api_error 403 (codes "CANDIDATE_INVITE_EMAIL_MISMATCH"))
    raise_if (is_claimed_by_other principal.sub session.candidate_auth0_sub)
        (api_error 403 (codes "CANDIDATE_SESSION_ALREADY_CLAIMED"))
    ok (ownership_changes email session, take_ownership principal.sub email now session)

  -- An unchanged session is not committed. An exception undoes the savepoint.
  unfoldable pub claim_invite_with_principal :
      Text
      → Principal
      → ℕ
      → List Trial
      → List CandidateSession
      → Result (CandidateSession × List CandidateSession)
  claim_invite_with_principal token principal now trials sessions = do
    session ← fetch_by_token now token trials sessions
    (changed, owned) ← ensure_candidate_ownership principal now session
    let claimed = mark_in_progress now owned
    ok (
      claimed,
      if changed || progress_changes owned claimed
          then store_session claimed sessions
          else sessions,
    )

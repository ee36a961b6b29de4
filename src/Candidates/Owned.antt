-- ===== src/Candidates/Owned.antt =====
-- How a candidate's request finds its session: in app/candidates/candidate_sessions/services,
-- candidates_candidate_sessions_services_candidates_candidate_sessions_fetch_owned_service.py with its helpers, and the
-- look-up by id in ../repositories. `lower` is `str.lower`; `meanwhile` is what other requests commit before a session
-- without an owner is read again under its lock. The second look-up finds the row of now, but gives the object of the
-- first one as it was loaded: the session keeps one object for a row, and the look-up does not populate it again.
pub mod Access
use tenon_backend.Base.{
  ℕ, Bool, true, false, not, ◌&&◌, ◌||◌, ◌==◌, Option, none, some, List, find, map, is_none,
  if◌then◌else◌,
}
use tenon_backend.Base.Text.{Text, codes, same_text}
use tenon_backend.Base.Result.{Result, ok, err, http_error, ◌>>=◌, ◌>>◌}
use tenon_backend.Jobs.Shared.{is_empty}
use tenon_backend.Trials.Model.{Trial, CandidateSession}
use tenon_backend.Candidates.Claims.{
  Principal, trial_of, is_open, ensure_trial_not_terminated, require_not_expired, is_blank, is_text,
  mark_in_progress, same_time, normalize_email, ensure_candidate_ownership,
}

abbrev pub same_value : Option Text → Option Text → Bool
same_value none none = true
same_value (some a) (some b) = same_text a b
same_value _ _ = false

abbrev written : {A : Type 0} → Bool → A → A → A
written same changed current = if same then current else changed

-- The flush of a changed session to its row, which writes the columns that differ from the loaded ones.
unfoldable pub flush_session :
    CandidateSession → CandidateSession → List CandidateSession → List CandidateSession
flush_session loaded changed = map (λ row.
    if row.id == changed.id
    then record row {
      status = written (same_text loaded.status changed.status) changed.status row.status;
      candidate_email =
          written (same_value loaded.candidate_email changed.candidate_email)
            changed.candidate_email row.candidate_email;
      candidate_auth0_sub =
          written (same_value loaded.candidate_auth0_sub changed.candidate_auth0_sub)
            changed.candidate_auth0_sub row.candidate_auth0_sub;
      candidate_auth0_email =
          written (same_value loaded.candidate_auth0_email changed.candidate_auth0_email)
            changed.candidate_auth0_email row.candidate_auth0_email;
      claimed_at =
          written (same_time loaded.claimed_at changed.claimed_at) changed.claimed_at
            row.claimed_at;
      started_at =
          written (same_time loaded.started_at changed.started_at) changed.started_at
            row.started_at;
    }
    else row)

-- The object that a second look-up gives where it finds a row.
abbrev pub loaded_again : CandidateSession → Option CandidateSession → Option CandidateSession
loaded_again session none = none
loaded_again session (some row) = some session

-- The session of an id whose trial is not terminated.
unfoldable pub get_session_by_id : ℕ → List Trial → List CandidateSession → Option CandidateSession
get_session_by_id session_id trials =
    find (λ session. (session.id == session_id) && is_open (trial_of trials session))

unfoldable pub ensure_can_access :
    ℕ → List Trial → Option CandidateSession → Result CandidateSession
ensure_can_access now trials none = err (http_error 404)
ensure_can_access now trials (some session) = do
  ensure_trial_not_terminated trials session
  require_not_expired now session
  ok session

abbrev pub is_not_started : CandidateSession → Bool
is_not_started session = same_text session.status (codes "not_started")

-- The two addresses, each by its own test.
unfoldable pub with_emails : Text → CandidateSession → CandidateSession
with_emails email session = if is_empty email then session else record session {
  candidate_auth0_email =
      if is_none session.candidate_auth0_email then some email else session.candidate_auth0_email;
  candidate_email = some email;
}

abbrev pub emails_change : Text → CandidateSession → Bool
emails_change email session =
    not (is_empty email)
    && (is_none session.candidate_auth0_email || not (is_text email session.candidate_email))

module _ (lower : Text → Text) where
  -- Whether it writes, and the session.
  unfoldable pub apply_auth_updates : Principal → ℕ → CandidateSession → Bool × CandidateSession
  apply_auth_updates principal now session =
      let email = normalize_email lower principal.email in
      (
        emails_change email session || is_not_started session,
        mark_in_progress now (with_emails email session),
      )

  -- What both paths do with the session that may be accessed.
  unfoldable pub own_session :
      Principal
      → ℕ
      → List CandidateSession
      → CandidateSession
      → Result (CandidateSession × List CandidateSession)
  own_session principal now sessions session = do
    (changed, owned) ← ensure_candidate_ownership lower principal now session
    let (updated, session') = apply_auth_updates principal now owned
    ok (session', if updated || changed then flush_session session session' sessions else sessions)

  unfoldable pub fetch_owned_session :
      (List CandidateSession → List CandidateSession)
      → ℕ
      → Principal
      → ℕ
      → List Trial
      → List CandidateSession
      → Result (CandidateSession × List CandidateSession)
  fetch_owned_session meanwhile session_id principal now trials sessions =
      ensure_can_access now trials (get_session_by_id session_id trials sessions) >>= λ session.
      if is_blank session.candidate_auth0_sub
      then (let sessions' = meanwhile sessions in
          ensure_can_access now trials
            (loaded_again session (get_session_by_id session_id trials sessions'))
          >>= λ locked. own_session principal now sessions' locked)
      else own_session principal now sessions session

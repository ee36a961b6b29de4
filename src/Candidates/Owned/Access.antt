-- ===== src/Candidates/Owned/Access.antt =====
-- Whose session a request gets.
use tenon_backend.Base.{
  ℕ, ◌≡◌, refl, ap, ◌∙◌, true, false, ◌&&◌, ◌==◌, Option, none, some, List, arith, Bool-cases, inl,
  inr,
}
use mathlib.Core.Path.{subst}
use mathlib.Core.Option.{some-injective}
use tenon_backend.Base.Text.{Text, codes, same_text}
use tenon_backend.Base.Result.{ok, >>=-ok}
use tenon_backend.Trials.Model.{Trial, CandidateSession}
use tenon_backend.Candidates.Claims.{
  Principal, trial_of, is_open, ensure_trial_not_terminated, require_not_expired, is_expired,
  is_blank, is_claimed_by_other, mark_in_progress, normalize_email, ensure_candidate_ownership,
}
use tenon_backend.Candidates.Claims.Owners.{
  find-test, ensure_candidate_ownership-ok, take_ownership-owner, mark_in_progress-owner,
  take_ownership-id, mark_in_progress-id,
}
use tenon_backend.Candidates.Owned.{
  get_session_by_id, ensure_can_access, is_not_started, with_emails, apply_auth_updates,
  own_session, loaded_again, fetch_owned_session,
}

-- What a request that gets a session has found at its first read, and what it gets.
pub record IsOwn (lower : Text → Text) (session_id : ℕ) (principal : Principal) (now : ℕ)
    (trials : List Trial) (sessions : List CandidateSession) (session : CandidateSession)
    : Type 0 where
  pub found : CandidateSession
  pub read : get_session_by_id session_id trials sessions ≡ some found
  pub by_id : found.id ≡ session_id
  pub same_id : session.id ≡ session_id
  pub live : is_open (trial_of trials found) ≡ true
  pub in_time : is_expired now found.expires_at ≡ false
  pub same_email :
      same_text
        (normalize_email lower (some found.invite_email))
        (normalize_email lower principal.email)
      ≡ true
  pub free : is_claimed_by_other principal.sub found.candidate_auth0_sub ≡ false
  pub owner : session.candidate_auth0_sub ≡ some principal.sub
  pub started : is_not_started session ≡ false

ensure_can_access-some :
    (now : ℕ) (trials : List Trial) (found : Option CandidateSession) {session : CandidateSession}
    → ensure_can_access now trials found ≡ ok session
    → (found ≡ some session)
      × (is_open (trial_of trials session) ≡ true)
      × (is_expired now session.expires_at ≡ false)
unfolding ensure_can_access ensure_trial_not_terminated require_not_expired
ensure_can_access-some now trials none h = cc
ensure_can_access-some now trials (some found) h = ground arith

ensure_can_access-ok :
    (now session_id : ℕ) (trials : List Trial) (sessions : List CandidateSession)
    {session : CandidateSession}
    → ensure_can_access now trials (get_session_by_id session_id trials sessions) ≡ ok session
    → (get_session_by_id session_id trials sessions ≡ some session)
      × (session.id ≡ session_id)
      × (is_open (trial_of trials session) ≡ true)
      × (is_expired now session.expires_at ≡ false)
unfolding get_session_by_id
ensure_can_access-ok now session_id trials sessions {session} h =
    let (found, live, in_time) =
      ensure_can_access-some now trials (get_session_by_id session_id trials sessions) h in
    let met = find-test (λ s. (s.id == session_id) && is_open (trial_of trials s)) sessions found in
    (found, ground arith, live, in_time)

loaded_again-same :
    (first : CandidateSession) (row : Option CandidateSession) {locked : CandidateSession}
    → loaded_again first row ≡ some locked
    → first ≡ locked
loaded_again-same first none h = cc
loaded_again-same first (some row) h = some-injective _ _ h

with_emails-keeps :
    (email : Text) (session : CandidateSession)
    → ((with_emails email session).id ≡ session.id)
      × ((with_emails email session).candidate_auth0_sub ≡ session.candidate_auth0_sub)
unfolding with_emails
with_emails-keeps email session = ground arith

mark_in_progress-started :
    (now : ℕ) (session : CandidateSession) → is_not_started (mark_in_progress now session) ≡ false
unfolding mark_in_progress same_text
mark_in_progress-started now session =
    elim (Bool-cases (same_text session.status (codes "not_started"))) [
      | inl new ↦ rw new refl
      | inr begun ↦ rw begun begun
    ]

module _ (lower : Text → Text) (session_id : ℕ) (principal : Principal) (now : ℕ)
    (trials : List Trial) where
  own_session-IsOwn :
      (before sessions : List CandidateSession) (found : CandidateSession)
      {session : CandidateSession} {sessions' : List CandidateSession}
      → get_session_by_id session_id trials before ≡ some found
      → found.id ≡ session_id
      → is_open (trial_of trials found) ≡ true
      → is_expired now found.expires_at ≡ false
      → own_session lower principal now sessions found ≡ ok (session, sessions')
      → IsOwn lower session_id principal now trials before session
  unfolding own_session apply_auth_updates
  own_session-IsOwn before sessions found {session} read by_id live in_time h =
      let ((changed, owned), ensured, done) =
        >>=-ok (ensure_candidate_ownership lower principal now found) _ h in
      let (same_email, free, taken) =
        ensure_candidate_ownership-ok lower principal now found ensured in
      let email = normalize_email lower principal.email in
      let named = with_emails email owned in
      let (kept_id, kept_owner) = with_emails-keeps email owned in
      let made : mark_in_progress now named ≡ session = cc in
      subst (IsOwn lower session_id principal now trials before) made (record {
        found = found;
        read = read;
        by_id = by_id;
        same_id =
            mark_in_progress-id now named
            ∙ kept_id
            ∙ ap (λ s. s.id) taken
            ∙ take_ownership-id principal.sub email now found
            ∙ by_id;
        live = live;
        in_time = in_time;
        same_email = same_email;
        free = free;
        owner =
            mark_in_progress-owner now named
            ∙ kept_owner
            ∙ ap (λ s. s.candidate_auth0_sub) taken
            ∙ take_ownership-owner principal.sub email now found free;
        started = mark_in_progress-started now named;
      })

  -- A session that a candidate's request gets has the given id, and was, when the request first read it, of a trial that
  -- is not terminated, not expired, with the candidate's address, and claimed by no other user; the session that it gets
  -- is the candidate's and has started. Other requests may commit anything between the two reads, also a claim, which
  -- the second one does not see.
  pub fetch_owned_session-IsOwn :
      (meanwhile : List CandidateSession → List CandidateSession) (sessions : List CandidateSession)
      {session : CandidateSession} {sessions' : List CandidateSession}
      → fetch_owned_session lower meanwhile session_id principal now trials sessions
        ≡ ok (session, sessions')
      → IsOwn lower session_id principal now trials sessions session
  unfolding fetch_owned_session
  fetch_owned_session-IsOwn meanwhile sessions h =
      let (first, access, rest) =
        >>=-ok (ensure_can_access now trials (get_session_by_id session_id trials sessions)) _ h in
      let (read, by_id, live, in_time) =
        ensure_can_access-ok now session_id trials sessions access in
      elim (Bool-cases (is_blank first.candidate_auth0_sub)) [
        | inl unowned ↦
            let again = get_session_by_id session_id trials (meanwhile sessions) in
            let (locked, there, taken) =
              >>=-ok (ensure_can_access now trials (loaded_again first again)) _
                (rw unowned at rest) in
            let same : first ≡ locked =
              loaded_again-same first again
                (ensure_can_access-some now trials (loaded_again first again) there).0 in
            own_session-IsOwn sessions (meanwhile sessions) first read by_id live in_time
              (rw (← same) at taken)
        | inr owned ↦
            own_session-IsOwn sessions sessions first read by_id live in_time (rw owned at rest)
      ]

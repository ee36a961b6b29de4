-- ===== src/Candidates/Claims/Owners.antt =====
-- What a claim that succeeds has found and left.
use tenon_backend.Base.{
  ℕ, ◌==◌, ◌≡◌, ◌⊎◌, ◌||◌, refl, sym, ap, ◌∙◌, Bool, true, false, Option, none, some, List, [], ◌∷◌,
  find, All, arith, if◌then◌else◌, Bool-cases, inl, inr,
}
use mathlib.Core.Path.{subst}
use tenon_backend.Base.Text.{Text, same_text, same_text_iff}
use tenon_backend.Base.Result.{ok, >>=-ok}
use tenon_backend.Trials.Model.{Trial, CandidateSession}
use tenon_backend.Candidates.Claims.{
  Principal, get_by_token, ensure_trial_not_terminated, require_not_expired, fetch_by_token,
  is_open, trial_of, is_expired, is_blank, is_claimed_by_other, take_ownership, mark_in_progress,
  progress_changes, store_session, normalize_email, ensure_candidate_ownership,
  claim_invite_with_principal,
}

module _ (lower : Text → Text) (principal : Principal) (now : ℕ) where
  -- The three checks have passed, and what follows is written.
  pub ensure_candidate_ownership-ok :
      (session : CandidateSession) {changed : Bool} {owned : CandidateSession}
      → ensure_candidate_ownership lower principal now session ≡ ok (changed, owned)
      → (same_text
            (normalize_email lower (some session.invite_email))
            (normalize_email lower principal.email)
          ≡ true)
        × (is_claimed_by_other principal.sub session.candidate_auth0_sub ≡ false)
        × (owned ≡ take_ownership principal.sub (normalize_email lower principal.email) now session)
  unfolding ensure_candidate_ownership
  ensure_candidate_ownership-ok session h = ground arith

pub fetch_by_token-ok :
    (now : ℕ) (token : Text) (trials : List Trial) (sessions : List CandidateSession)
    {session : CandidateSession}
    → fetch_by_token now token trials sessions ≡ ok session
    → (get_by_token token trials sessions ≡ some session)
      × (is_open (trial_of trials session) ≡ true)
      × (is_expired now session.expires_at ≡ false)
unfolding fetch_by_token ensure_trial_not_terminated require_not_expired
fetch_by_token-ok now token trials sessions h = ground arith

owner_after :
    (sub : Text) (stored_sub : Option Text)
    → is_claimed_by_other sub stored_sub ≡ false
    → (if is_blank stored_sub then some sub else stored_sub) ≡ some sub
unfolding is_claimed_by_other
owner_after sub none free = refl
owner_after sub (some []) free = refl
owner_after sub (some (c ∷ s)) free = ground (arith, same_text_iff (c ∷ s) sub)

-- The owner after a claim is the claimant, or the owner there was when the claimant is the owner.
pub take_ownership-owner :
    (sub email : Text) (now : ℕ) (session : CandidateSession)
    → is_claimed_by_other sub session.candidate_auth0_sub ≡ false
    → (take_ownership sub email now session).candidate_auth0_sub ≡ some sub
unfolding take_ownership is_claimed_by_other
take_ownership-owner sub email now session free = owner_after sub session.candidate_auth0_sub free

pub mark_in_progress-owner :
    (now : ℕ) (session : CandidateSession)
    → (mark_in_progress now session).candidate_auth0_sub ≡ session.candidate_auth0_sub
unfolding mark_in_progress
mark_in_progress-owner now session = ground arith

pub take_ownership-id :
    (sub email : Text) (now : ℕ) (session : CandidateSession)
    → (take_ownership sub email now session).id ≡ session.id
unfolding take_ownership
take_ownership-id sub email now session = refl

pub mark_in_progress-id :
    (now : ℕ) (session : CandidateSession) → (mark_in_progress now session).id ≡ session.id
unfolding mark_in_progress
mark_in_progress-id now session = ground arith

pub find-test :
    (test : CandidateSession → Bool) (sessions : List CandidateSession) {session : CandidateSession}
    → find test sessions ≡ some session
    → test session ≡ true
find-test test [] h = cc
find-test test (row ∷ rows) {session} h = ground (arith, find-test test rows {session = session})

pub All-find {ℓ} :
    (P : CandidateSession → Type ℓ) (test : CandidateSession → Bool)
    (sessions : List CandidateSession) {session : CandidateSession}
    → All P sessions
    → find test sessions ≡ some session
    → P session
All-find P test [] all h = cc
All-find P test (row ∷ rows) {session} all h = elim (Bool-cases (test row)) [
  | inl met ↦ let same : row ≡ session = ground arith in subst P same all.0
  | inr unmet ↦ All-find P test rows all.1 (ground arith)
]

pub All-store_session {ℓ} :
    (P : CandidateSession → Type ℓ) (session : CandidateSession) (sessions : List CandidateSession)
    → P session
    → All P sessions
    → All P (store_session session sessions)
unfolding store_session
All-store_session P session [] holds all = tt
All-store_session P session (row ∷ rows) holds all = elim (Bool-cases (row.id == session.id)) [
  | inl same ↦ (rw same holds, All-store_session P session rows holds all.1)
  | inr other ↦ (rw other all.0, All-store_session P session rows holds all.1)
]

-- What a claim that succeeds has found and left: an invitation under the token, of a trial that is not
-- terminated, not expired, whose address is the claimant's; it is the claimant's now.
pub record IsClaimed (lower : Text → Text) (token : Text) (principal : Principal) (now : ℕ)
    (trials : List Trial) (sessions : List CandidateSession) (claimed : CandidateSession)
    : Type 0 where
  pub found : CandidateSession
  pub by_token : get_by_token token trials sessions ≡ some found
  pub same_id : claimed.id ≡ found.id
  pub live : is_open (trial_of trials found) ≡ true
  pub in_time : is_expired now found.expires_at ≡ false
  pub same_email :
      same_text
        (normalize_email lower (some found.invite_email))
        (normalize_email lower principal.email)
      ≡ true
  pub owner : claimed.candidate_auth0_sub ≡ some principal.sub
  pub free : is_claimed_by_other principal.sub found.candidate_auth0_sub ≡ false

module _ (lower : Text → Text) (token : Text) (principal : Principal) (now : ℕ)
    (trials : List Trial) (sessions : List CandidateSession) where
  -- Both outcomes of the commit.
  stored_or_kept :
      (b : Bool) (claimed : CandidateSession) {sessions' : List CandidateSession}
      → (if b then store_session claimed sessions else sessions) ≡ sessions'
      → (sessions' ≡ sessions) ⊎ (sessions' ≡ store_session claimed sessions)
  stored_or_kept true claimed h = inr (sym h)
  stored_or_kept false claimed h = inl (sym h)

  -- A claim that succeeds has found an invitation under the token, of a trial that is not terminated,
  -- not expired, whose address is the claimant's, and which no other user had claimed; it is the
  -- claimant's now, and at most its row is written.
  pub claim_invite_with_principal-IsClaimed :
      {claimed : CandidateSession} {sessions' : List CandidateSession}
      → claim_invite_with_principal lower token principal now trials sessions
        ≡ ok (claimed, sessions')
      → IsClaimed lower token principal now trials sessions claimed
        × ((sessions' ≡ sessions) ⊎ (sessions' ≡ store_session claimed sessions))
  unfolding claim_invite_with_principal
  claim_invite_with_principal-IsClaimed {claimed} {sessions'} h =
      let (found, fetched, rest) = >>=-ok (fetch_by_token now token trials sessions) _ h in
      let ((changed, owned), ensured, done) =
        >>=-ok (ensure_candidate_ownership lower principal now found) _ rest in
      let (by_token, live, in_time) = fetch_by_token-ok now token trials sessions fetched in
      let (same_email, free, taken) =
        ensure_candidate_ownership-ok lower principal now found ensured in
      let marked : mark_in_progress now owned ≡ claimed = cc in
      let owner =
        take_ownership-owner principal.sub (normalize_email lower principal.email) now found free in
      (
        record {
          found = found;
          by_token = by_token;
          same_id =
              ap (λ s. s.id) (sym marked)
              ∙ mark_in_progress-id now owned
              ∙ ap (λ s. s.id) taken
              ∙ take_ownership-id principal.sub (normalize_email lower principal.email) now found;
          live = live;
          in_time = in_time;
          same_email = same_email;
          owner =
              ap (λ s. s.candidate_auth0_sub) (sym marked)
              ∙ mark_in_progress-owner now owned
              ∙ ap (λ s. s.candidate_auth0_sub) taken
              ∙ owner;
          free = free;
        },
        stored_or_kept (changed || progress_changes owned (mark_in_progress now owned)) claimed cc,
      )

-- ===== src/Candidates/Tests.antt =====
-- An invitation, and the theorems of its claim at it.
use tenon_backend.Base.{false, ◌*◌, ℕ, ◌≡◌, ◌⊎◌, refl, none, some, List, [], ◌∷◌}
use tenon_backend.Base.Text.{codes, same_text, strip, lstrip, is_space}
use tenon_backend.Base.Result.{Result, ok, err, api_error}
use tenon_backend.Jobs.Model.{second}
use tenon_backend.Trials.Model.{Trial, CandidateSession}
use tenon_backend.Candidates.Claims.{
  Principal, get_by_token, ensure_trial_not_terminated, require_not_expired, fetch_by_token,
  is_claimed_by_other, take_ownership, mark_in_progress, store_session, normalize_email,
  ensure_candidate_ownership, claim_invite_with_principal,
}
use tenon_backend.Candidates.Owned.{
  get_session_by_id, ensure_can_access, with_emails, apply_auth_updates, own_session, flush_session,
  fetch_owned_session,
}
use tenon_backend.Candidates.Owned.Access.{IsOwn, fetch_owned_session-IsOwn}
use tenon_backend.Candidates.Claims.Owners.{IsClaimed, claim_invite_with_principal-IsClaimed}
use tenon_backend.Candidates.Claims.Kept.{Claims, Claims-owner}

abbrev hiring : Trial
hiring = record {
  id = 1;
  company_id = 7;
  created_by = 3;
  status = codes "active_inviting";
  day_window_start_local = 9 * 3600 * second;
  day_window_end_local = 17 * 3600 * second;
  day_window_overrides_enabled = false;
  day_window_overrides_json = none;
  active_scenario_version_id = some 5;
  pending_scenario_version_id = none;
  generating_at = some 10;
  ready_for_review_at = some 20;
  activated_at = some 30;
  terminated_at = none;
  terminated_reason = none;
  terminated_by_talent_partner_id = none;
}

abbrev invited : CandidateSession
invited = record {
  id = 11;
  trial_id = 1;
  invite_email = codes " a@b";
  token = codes "t";
  status = codes "not_started";
  candidate_email = none;
  candidate_auth0_sub = none;
  candidate_auth0_email = none;
  claimed_at = none;
  started_at = none;
  completed_at = none;
  expires_at = some 900;
  scheduled_start_at = none;
  candidate_timezone = none;
  github_username = none;
  day_windows_json = none;
  schedule_locked_at = none;
}

abbrev ann : Principal
ann = record {
  sub = codes "ann";
  email = some (codes "a@b");
  permissions = codes "candidate:access" ∷ [];
}

abbrev claimed : CandidateSession
claimed = record invited {
  status = codes "in_progress";
  candidate_email = some (codes "a@b");
  candidate_auth0_sub = some (codes "ann");
  candidate_auth0_email = some (codes "a@b");
  claimed_at = some 50;
  started_at = some 50;
}

unfoldable claim_at :
    ℕ → Principal → List CandidateSession → Result (CandidateSession × List CandidateSession)
claim_at now principal =
    claim_invite_with_principal (λ t. t) (codes "t") principal now (hiring ∷ [])

first_claim : claim_at 50 ann (invited ∷ []) ≡ ok (claimed, claimed ∷ [])
unfolding claim_at claim_invite_with_principal fetch_by_token get_by_token same_text
    ensure_trial_not_terminated require_not_expired ensure_candidate_ownership normalize_email strip
    lstrip is_space is_claimed_by_other take_ownership mark_in_progress store_session
first_claim = refl

second_claim : claim_at 60 ann (claimed ∷ []) ≡ ok (claimed, claimed ∷ [])
unfolding claim_at claim_invite_with_principal fetch_by_token get_by_token same_text
    ensure_trial_not_terminated require_not_expired ensure_candidate_ownership normalize_email strip
    lstrip is_space is_claimed_by_other take_ownership mark_in_progress store_session
second_claim = refl

others_claim :
    claim_at 60 (record ann { sub = codes "bob" }) (claimed ∷ [])
    ≡ err (api_error 403 (codes "CANDIDATE_SESSION_ALREADY_CLAIMED"))
unfolding claim_at claim_invite_with_principal fetch_by_token get_by_token same_text
    ensure_trial_not_terminated require_not_expired ensure_candidate_ownership normalize_email strip
    lstrip is_space is_claimed_by_other
others_claim = refl

claim_invite_with_principal-IsClaimed_example :
    IsClaimed (λ t. t) (codes "t") ann 50 (hiring ∷ []) (invited ∷ []) claimed
    × ((claimed ∷ [] ≡ invited ∷ []) ⊎ (claimed ∷ [] ≡ store_session claimed (invited ∷ [])))
unfolding claim_at
claim_invite_with_principal-IsClaimed_example =
    claim_invite_with_principal-IsClaimed (λ t. t) (codes "t") ann 50 (hiring ∷ []) (invited ∷ [])
      first_claim

Claims-owner_example : codes "ann" ≡ codes "ann"
unfolding claim_at
Claims-owner_example =
    Claims-owner (λ t. t) 11 (codes "ann") refl (codes "t") ann 60 (hiring ∷ [])
      ((λ same. refl), tt) Claims.begin second_claim refl

-- The first request of a candidate claims the session, and another candidate's fails.
-- The second request claims a session that another user has claimed since the first read of it.
abbrev bob : Principal
bob = record ann { sub = codes "bob" }

abbrev overwritten : CandidateSession
overwritten = record claimed { candidate_auth0_sub = some (codes "bob"); claimed_at = some 60 }

fetched :
    (fetch_owned_session (λ t. t) (λ sessions. sessions) 11 ann 50 (hiring ∷ []) (invited ∷ [])
      ≡ ok (claimed, claimed ∷ []))
    × (fetch_owned_session
          (λ t. t)
          (λ sessions. claimed ∷ [])
          11
          bob
          60
          (hiring ∷ [])
          (invited ∷ [])
        ≡ ok (
          record overwritten { started_at = some 60 },
          record overwritten { started_at = some 60 } ∷ [],
        ))
unfolding fetch_owned_session ensure_can_access get_session_by_id own_session apply_auth_updates
    with_emails same_text ensure_trial_not_terminated require_not_expired ensure_candidate_ownership
    normalize_email strip lstrip is_space is_claimed_by_other take_ownership mark_in_progress
    flush_session
fetched = (refl, refl)

fetch_owned_session-IsOwn_example : IsOwn (λ t. t) 11 ann 50 (hiring ∷ []) (invited ∷ []) claimed
fetch_owned_session-IsOwn_example =
    fetch_owned_session-IsOwn (λ t. t) 11 ann 50 (hiring ∷ []) (λ sessions. sessions) (invited ∷ [])
      (fetched.0)

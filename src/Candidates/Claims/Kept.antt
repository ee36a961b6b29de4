-- ===== src/Candidates/Claims/Kept.antt =====
-- An invitation that one user has claimed stays with that user.
use tenon_backend.Base.{ℕ, ◌≡◌, sym, ap, ◌∙◌, false, Option, some, List, All, arith, inl, inr}
use mathlib.Core.Path.{subst}
use tenon_backend.Base.Text.{Text, same_text_iff}
use tenon_backend.Base.Result.{ok}
use tenon_backend.Jobs.Shared.{is_empty}
use tenon_backend.Trials.Model.{Trial, CandidateSession}
use tenon_backend.Candidates.Claims.{
  Principal, get_by_token, is_claimed_by_other, claim_invite_with_principal,
}
use tenon_backend.Candidates.Claims.Owners.{
  IsClaimed, claim_invite_with_principal-IsClaimed, All-find, All-store_session,
}

-- Claims that succeed, one after the other, by anyone and at any times.
pub data Claims (lower : Text → Text) (start : List CandidateSession)
    : List CandidateSession → Type 0 where
  begin : Claims lower start start
  claim :
      {sessions sessions' : List CandidateSession} {session : CandidateSession} (token : Text)
      (principal : Principal) (now : ℕ) (trials : List Trial)
      → Claims lower start sessions
      → claim_invite_with_principal lower token principal now trials sessions
        ≡ ok (session, sessions')
      → Claims lower start sessions'

-- The invitation of the id, if there is one, is the user's.
abbrev pub IsOwned : ℕ → Text → CandidateSession → Type 0
IsOwned id owner session = session.id ≡ id → session.candidate_auth0_sub ≡ some owner

-- A user who may claim an owned invitation is its owner.
owner_is_claimant :
    (sub owner : Text) (stored_sub : Option Text)
    → is_empty owner ≡ false
    → stored_sub ≡ some owner
    → is_claimed_by_other sub stored_sub ≡ false
    → sub ≡ owner
unfolding is_claimed_by_other
owner_is_claimant sub owner stored_sub named stored free = ground (arith, same_text_iff owner sub)

module _ (lower : Text → Text) (id : ℕ) (owner : Text) (named : is_empty owner ≡ false) where
  claimant :
      {token : Text} {principal : Principal} {now : ℕ} {trials : List Trial}
      {sessions : List CandidateSession} {session : CandidateSession}
      → All (IsOwned id owner) sessions
      → IsClaimed lower token principal now trials sessions session
      → session.id ≡ id
      → principal.sub ≡ owner
  unfolding get_by_token
  claimant {token} {principal} {now} {trials} {sessions} {session} all claimed same =
      owner_is_claimant principal.sub owner claimed.found.candidate_auth0_sub named
        (All-find (IsOwned id owner) _ sessions all claimed.by_token (sym claimed.same_id ∙ same))
        claimed.free

  Claims-IsOwned :
      {start sessions : List CandidateSession}
      → Claims lower start sessions
      → All (IsOwned id owner) start
      → All (IsOwned id owner) sessions
  Claims-IsOwned begin all = all
  Claims-IsOwned (claim {sessions} {sessions'} {session} token principal now trials before h) all =
      let earlier = Claims-IsOwned before all in
      let (claimed, written) =
        claim_invite_with_principal-IsClaimed lower token principal now trials sessions h in
      let holds : IsOwned id owner session =
        (λ same. claimed.owner ∙ ap (λ s. some s) (claimant earlier claimed same)) in
      elim written [
        | inl kept ↦ subst (All (IsOwned id owner)) (sym kept) earlier
        | inr stored ↦
            subst (All (IsOwned id owner)) (sym stored)
              (All-store_session (IsOwned id owner) session sessions holds earlier)
      ]

  -- An invitation that a user has claimed stays that user's: after any sequence of claims by anyone, at
  -- any times, whoever then claims it successfully is that user.
  pub Claims-owner :
      {start sessions sessions' : List CandidateSession} {session : CandidateSession} (token : Text)
      (principal : Principal) (now : ℕ) (trials : List Trial)
      → All (IsOwned id owner) start
      → Claims lower start sessions
      → claim_invite_with_principal lower token principal now trials sessions
        ≡ ok (session, sessions')
      → session.id ≡ id
      → principal.sub ≡ owner
  Claims-owner {start} {sessions} token principal now trials all claims h same =
      claimant (Claims-IsOwned claims all)
        (claim_invite_with_principal-IsClaimed lower token principal now trials sessions h).0 same

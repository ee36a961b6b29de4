-- ===== src/Jobs/Lookup.antt =====
-- `get_by_id_for_principal` of
-- app/shared/jobs/repositories/shared_jobs_repositories_repository_lookup_repository.py: which job a
-- user may see. `lower` is `str.lower`. An e-mail address names one user.
pub mod Access
mod Tests
use tenon_backend.Base.{
  ℕ, Bool, true, false, not, ◌&&◌, Option, none, some, List, find, any, ◌==◌, if◌then◌else◌,
}
use tenon_backend.Base.Text.{Text, codes, same_text, strip}
use tenon_backend.Jobs.Model.{Job, Table}
use tenon_backend.Jobs.Rows.{get_by_id}
use tenon_backend.Jobs.Shared.{is_empty}
use tenon_backend.Trials.Model.{CandidateSession}
use tenon_backend.Candidates.Claims.{Principal, normalize_email}

-- The columns of `users` that the look-up reads.
pub record User : Type 0 where
  pub email : Text
  pub company_id : Option ℕ

-- `permission in principal.permissions`
unfoldable pub has_permission : Text → Principal → Bool
has_permission permission principal = any (λ held. same_text held permission) principal.permissions

-- `User.email == principal.email`, which is false for `None`.
abbrev pub has_email : Option Text → User → Bool
has_email none user = false
has_email (some email) user = same_text user.email email

abbrev pub company_of : Option User → Option ℕ
company_of none = none
company_of (some user) = user.company_id

unfoldable pub company_job : Text → Option ℕ → Table → Option Job
company_job job_id none jobs = none
company_job job_id (some company_id) jobs =
    find (λ job. same_text job.id job_id && job.company_id == company_id) jobs

unfoldable pub talent_partner_job : Text → Principal → List User → Table → Option Job
talent_partner_job job_id principal users jobs =
    if not (has_permission (codes "talent_partner:access") principal)
    then none
    else company_job job_id (company_of (find (has_email principal.email) users)) jobs

-- `(candidate_session.candidate_auth0_sub or "").strip()`
abbrev pub claimed_sub : Option Text → Text
claimed_sub none = strip (codes "")
claimed_sub (some sub) = strip sub

-- `CandidateSession.id == Job.candidate_session_id`
abbrev pub joined : List CandidateSession → Option ℕ → Option CandidateSession
joined sessions none = none
joined sessions (some session_id) = find (λ session. session.id == session_id) sessions

module _ (lower : Text → Text) (principal : Principal) where
  unfoldable pub visible_job : CandidateSession → Job → Option Job
  visible_job session job =
      if same_text (normalize_email lower (some session.invite_email))
        (normalize_email lower principal.email)
      then if not (is_empty (claimed_sub session.candidate_auth0_sub))
          && not (same_text (claimed_sub session.candidate_auth0_sub) principal.sub)
        then none
        else some job
      else none

  unfoldable pub joined_job : List CandidateSession → Option Job → Option Job
  joined_job sessions none = none
  joined_job sessions (some job) = elim (joined sessions job.candidate_session_id) [
    | none ↦ none
    | some session ↦ visible_job session job
  ]

  unfoldable pub candidate_job : Text → List CandidateSession → Table → Option Job
  candidate_job job_id sessions jobs =
      if not (has_permission (codes "candidate:access") principal)
      then none
      else if is_empty (normalize_email lower principal.email)
      then none
      else joined_job sessions (get_by_id job_id jobs)

  unfoldable pub get_by_id_for_principal :
      Text → List User → List CandidateSession → Table → Option Job
  get_by_id_for_principal job_id users sessions jobs =
      elim (talent_partner_job job_id principal users jobs) [
        | some job ↦ some job
        | none ↦ candidate_job job_id sessions jobs
      ]

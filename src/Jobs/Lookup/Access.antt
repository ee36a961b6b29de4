-- ===== src/Jobs/Lookup/Access.antt =====
-- Who sees which job through `get_by_id_for_principal`.
use mathlib.Core.Path.{subst}
use mathlib.Core.Option.{some-injective}
use tenon_backend.Base.{
  ap, ℕ, ◌≡◌, ◌⊎◌, inl, inr, Bool, true, false, ◌&&◌, Option, none, some, List, [], ◌∷◌, find,
  arith, ◌==◌, Option-cases, Bool-cases,
}
use tenon_backend.Base.Text.{Text, codes, same_text, same_text_iff}
use tenon_backend.Jobs.Model.{Job, Table}
use tenon_backend.Jobs.Rows.{get_by_id}
use tenon_backend.Jobs.Shared.{is_empty}
use tenon_backend.Trials.Model.{CandidateSession}
use tenon_backend.Candidates.Claims.{Principal, normalize_email}
use tenon_backend.Jobs.Lookup.{
  User, has_permission, has_email, company_of, company_job, talent_partner_job, claimed_sub, joined,
  visible_job, joined_job, candidate_job, get_by_id_for_principal,
}

-- A talent partner sees the jobs of the own company; a candidate sees those of an invitation to the
-- own address that no other user has claimed.
pub data MaySee (lower : Text → Text) (principal : Principal) (users : List User)
    (sessions : List CandidateSession) (job : Job) : Type 0 where
  as_partner :
      has_permission (codes "talent_partner:access") principal ≡ true
      → company_of (find (has_email principal.email) users) ≡ some job.company_id
      → MaySee lower principal users sessions job
  as_candidate :
      (session : CandidateSession)
      → has_permission (codes "candidate:access") principal ≡ true
      → joined sessions job.candidate_session_id ≡ some session
      → is_empty (normalize_email lower principal.email) ≡ false
      → same_text
          (normalize_email lower (some session.invite_email))
          (normalize_email lower principal.email)
        ≡ true
      → (is_empty (claimed_sub session.candidate_auth0_sub) ≡ true)
        ⊎ (claimed_sub session.candidate_auth0_sub ≡ principal.sub)
      → MaySee lower principal users sessions job

find-test :
    (test : Job → Bool) (jobs : Table) {job : Job} → find test jobs ≡ some job → test job ≡ true
find-test test [] h = cc
find-test test (row ∷ rows) {job} h = ground (arith, find-test test rows {job = job})

company_job-ok :
    (job_id : Text) (company : Option ℕ) (jobs : Table) {job : Job}
    → company_job job_id company jobs ≡ some job
    → (job.id ≡ job_id) × (company ≡ some job.company_id)
unfolding company_job
company_job-ok job_id none jobs h = cc
company_job-ok job_id (some company_id) jobs {job} h =
    let met = find-test (λ row. same_text row.id job_id && row.company_id == company_id) jobs h in
    (ground (arith, same_text_iff job.id job_id), ground (arith))

module _ (lower : Text → Text) (principal : Principal) (users : List User)
    (sessions : List CandidateSession) where
  talent_partner_job-MaySee :
      (job_id : Text) (jobs : Table) {job : Job}
      → talent_partner_job job_id principal users jobs ≡ some job
      → (job.id ≡ job_id) × MaySee lower principal users sessions job
  unfolding talent_partner_job
  talent_partner_job-MaySee job_id jobs {job} h =
      elim (Bool-cases (has_permission (codes "talent_partner:access") principal)) [
        | inl allowed ↦
            let (same, company) =
              company_job-ok job_id (company_of (find (has_email principal.email) users)) jobs
                {job = job} (ground (arith)) in
            (same, as_partner allowed company)
        | inr refused ↦ ground arith
      ]

  visible_job-ok :
      (session : CandidateSession) (row : Job) {job : Job}
      → visible_job lower principal session row ≡ some job
      → (row ≡ job)
        × (same_text
              (normalize_email lower (some session.invite_email))
              (normalize_email lower principal.email)
            ≡ true)
        × ((is_empty (claimed_sub session.candidate_auth0_sub) ≡ true)
            ⊎ (claimed_sub session.candidate_auth0_sub ≡ principal.sub))
  unfolding visible_job
  visible_job-ok session row h =
      ground (arith, same_text_iff (claimed_sub session.candidate_auth0_sub) principal.sub)

  joined_job-ok :
      (found : Option Job) {job : Job}
      → joined_job lower principal sessions found ≡ some job
      → (found ≡ some job)
        × ((session : CandidateSession) × (joined sessions job.candidate_session_id ≡ some session)
            × (visible_job lower principal session job ≡ some job))
  unfolding joined_job
  joined_job-ok none h = cc
  joined_job-ok (some row) {job} h =
      elim (Option-cases (joined sessions row.candidate_session_id)) [
        | inl missing ↦ let stuck = rw (missing, joined_job) at h in cc
        | inr (session, there) ↦
            let seen : visible_job lower principal session row ≡ some job =
              rw (there, joined_job) at h in
            let (same, _, _) = visible_job-ok session row seen in
            (
              ap (λ j. some j) same,
              (
                session,
                subst (λ j. joined sessions j.candidate_session_id ≡ some session) same there,
                subst (λ j. visible_job lower principal session j ≡ some job) same seen,
              ),
            )
      ]

  candidate_job-MaySee :
      (job_id : Text) (jobs : Table) {job : Job}
      → candidate_job lower principal job_id sessions jobs ≡ some job
      → (job.id ≡ job_id) × MaySee lower principal users sessions job
  unfolding candidate_job get_by_id
  candidate_job-MaySee job_id jobs {job} h =
      elim (Bool-cases (has_permission (codes "candidate:access") principal)) [
        | inl allowed ↦ elim (Bool-cases (is_empty (normalize_email lower principal.email))) [
          | inl blank ↦ ground arith
          | inr named ↦
              let (found, (session, there, seen)) =
                joined_job-ok (get_by_id job_id jobs) {job = job} (ground (arith)) in
              let (_, same_email, own) = visible_job-ok session job {job = job} seen in
              (
                (same_text_iff job.id job_id).0
                    (find-test (λ row. same_text row.id job_id) jobs found),
                as_candidate session allowed there named same_email own,
              )
        ]
        | inr refused ↦ ground arith
      ]

  -- A job that the look-up returns has the given id, and the user may see it: as a talent partner of
  -- its company, or as the candidate it is about.
  pub get_by_id_for_principal-MaySee :
      (job_id : Text) (jobs : Table) {job : Job}
      → get_by_id_for_principal lower principal job_id users sessions jobs ≡ some job
      → (job.id ≡ job_id) × MaySee lower principal users sessions job
  unfolding get_by_id_for_principal
  get_by_id_for_principal-MaySee job_id jobs {job} h =
      elim (Option-cases (talent_partner_job job_id principal users jobs)) [
        | inl none_there ↦
            candidate_job-MaySee job_id jobs (rw (none_there, get_by_id_for_principal) at h)
        | inr (seen, there) ↦
            let same : seen ≡ job = some-injective _ _ (rw (there, get_by_id_for_principal) at h) in
            subst (λ j. (j.id ≡ job_id) × MaySee lower principal users sessions j) same
              (talent_partner_job-MaySee job_id jobs there)
      ]

-- ===== src/Jobs/Lookup/Tests.antt =====
-- A job, its candidate and a talent partner, and the theorem of the look-up at them.
use tenon_backend.Base.{◌≡◌, refl, none, some, List, [], ◌∷◌}
use tenon_backend.Base.Text.{codes, same_text, strip, lstrip, is_space}
use tenon_backend.Json.{no_fields}
use tenon_backend.Jobs.Model.{Job, queued}
use tenon_backend.Jobs.Rows.{get_by_id}
use tenon_backend.Trials.Model.{CandidateSession}
use tenon_backend.Candidates.Claims.{Principal, normalize_email}
use tenon_backend.Jobs.Lookup.{
  User, has_permission, company_job, talent_partner_job, visible_job, joined_job, candidate_job,
  get_by_id_for_principal,
}
use tenon_backend.Jobs.Lookup.Access.{MaySee, get_by_id_for_principal-MaySee}

abbrev scoring : Job
scoring = record {
  id = codes "j";
  job_type = codes "score";
  status = queued;
  attempt = 0;
  max_attempts = 5;
  idempotency_key = codes "k";
  payload_json = no_fields;
  result_json = none;
  last_error = none;
  created_at = 10;
  updated_at = 10;
  next_run_at = some 10;
  locked_at = none;
  locked_by = none;
  correlation_id = none;
  company_id = 7;
  candidate_session_id = some 11;
}

abbrev invited : CandidateSession
invited = record {
  id = 11;
  trial_id = 1;
  invite_email = codes "a@b ";
  token = codes "t";
  status = codes "in_progress";
  candidate_email = none;
  candidate_auth0_sub = some (codes "ann");
  candidate_auth0_email = none;
  claimed_at = some 5;
  started_at = some 5;
  completed_at = none;
  expires_at = none;
  scheduled_start_at = none;
  candidate_timezone = none;
  github_username = none;
  day_windows_json = none;
  schedule_locked_at = none;
}

abbrev ann : Principal
ann = record {
  sub = codes "ann";
  email = some (codes "a@b");
  permissions = codes "candidate:access" ∷ [];
}

abbrev partner : Principal
partner = record {
  sub = codes "pat";
  email = some (codes "p@c");
  permissions = codes "talent_partner:access" ∷ [];
}

abbrev users : List User
users = record { email = codes "p@c"; company_id = some 7 } ∷ []

ann_sees :
    get_by_id_for_principal (λ t. t) ann (codes "j") users (invited ∷ []) (scoring ∷ [])
    ≡ some scoring
unfolding get_by_id_for_principal talent_partner_job has_permission same_text candidate_job
    normalize_email strip lstrip is_space get_by_id joined_job visible_job
ann_sees = refl

partner_sees :
    get_by_id_for_principal (λ t. t) partner (codes "j") users [] (scoring ∷ []) ≡ some scoring
unfolding get_by_id_for_principal talent_partner_job has_permission same_text company_job
partner_sees = refl

-- Another candidate of the same address sees nothing once the invitation is claimed.
other_sees_none :
    get_by_id_for_principal
      (λ t. t)
      (record ann { sub = codes "bob" })
      (codes "j")
      users
      (invited ∷ [])
      (scoring ∷ [])
    ≡ none
unfolding get_by_id_for_principal talent_partner_job has_permission same_text candidate_job
    normalize_email strip lstrip is_space get_by_id joined_job visible_job
other_sees_none = refl

get_by_id_for_principal-MaySee_example :
    (codes "j" ≡ codes "j") × MaySee (λ t. t) ann users (invited ∷ []) scoring
get_by_id_for_principal-MaySee_example =
    get_by_id_for_principal-MaySee (λ t. t) ann users (invited ∷ []) (codes "j") (scoring ∷ [])
      ann_sees

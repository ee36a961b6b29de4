-- ===== src/Trials/Model.antt =====
-- The columns of `trials` and `candidate_sessions` that the lifecycle reads or writes:
-- app/trials/repositories/trials_repositories_trials_trial_model.py and
-- app/candidates/candidate_sessions/repositories. A `datetime` is counted as in Jobs/Model, and a
-- status is the string that the column holds.
use tenon_backend.Base.{ℕ, Bool, Option}
use tenon_backend.Base.Text.{Text}
use tenon_backend.Json.{Json, Fields}

pub record Trial : Type 0 where
  pub id : ℕ
  pub company_id : ℕ
  pub created_by : ℕ
  pub status : Text
  -- The `time` columns are microseconds since midnight.
  pub day_window_start_local : ℕ
  pub day_window_end_local : ℕ
  pub day_window_overrides_enabled : Bool
  pub day_window_overrides_json : Option Fields
  pub active_scenario_version_id : Option ℕ
  pub pending_scenario_version_id : Option ℕ
  pub generating_at : Option ℕ
  pub ready_for_review_at : Option ℕ
  pub activated_at : Option ℕ
  pub terminated_at : Option ℕ
  pub terminated_reason : Option Text
  pub terminated_by_talent_partner_id : Option ℕ

pub record CandidateSession : Type 0 where
  pub id : ℕ
  pub trial_id : ℕ
  pub invite_email : Text
  pub token : Text
  pub status : Text
  pub candidate_email : Option Text
  pub candidate_auth0_sub : Option Text
  pub candidate_auth0_email : Option Text
  pub claimed_at : Option ℕ
  pub started_at : Option ℕ
  pub completed_at : Option ℕ
  pub expires_at : Option ℕ
  pub scheduled_start_at : Option ℕ
  pub candidate_timezone : Option Text
  pub github_username : Option Text
  pub day_windows_json : Option Json
  pub schedule_locked_at : Option ℕ

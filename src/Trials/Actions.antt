-- ===== src/Trials/Actions.antt =====
-- `_transition_owned_trial_impl` of
-- app/trials/services/trials_services_trials_lifecycle_actions_service.py: a status change by the owner.
-- The log lines are left out.
pub mod Invitable
use tenon_backend.Base.{ℕ, ◌&&◌, not, List, is_none}
use tenon_backend.Base.Text.{Text, codes, same_text}
use tenon_backend.Base.Result.{Result, ok, api_error, raise_if, ◌>>=◌, ◌>>◌}
use tenon_backend.Trials.Model.{Trial}
use tenon_backend.Trials.Status.{active_inviting, status_text, apply_status_transition}
use tenon_backend.Trials.Termination.{require_owner_for_lifecycle, flush_trial}

unfoldable pub transition_owned_trial : ℕ → ℕ → ℕ → Text → List Trial → Result (Trial × List Trial)
transition_owned_trial changed_at trial_id actor_user_id target_status trials = do
  trial ← require_owner_for_lifecycle trial_id actor_user_id trials
  raise_if
      (same_text target_status (status_text active_inviting)
        && not (is_none trial.pending_scenario_version_id))
      (api_error 409 (codes "SCENARIO_APPROVAL_PENDING"))
  (changed, trial') ← apply_status_transition target_status changed_at trial
  trials' ← flush_trial trial' trials
  ok (trial', trials')

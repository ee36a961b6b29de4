-- ===== src/Trials/Status.antt =====
-- app/trials/services/trials_services_trials_lifecycle_status_service.py,
-- trials_services_trials_lifecycle_transition_rules_service.py and
-- trials_services_trials_lifecycle_invitable_service.py.
pub mod Diagram
pub mod History
use tenon_backend.Base.{
  ℕ, Bool, true, false, not, Option, none, some, List, [], ◌∷◌, any, find, is_none, or_else,
  if◌then◌else◌,
}
use tenon_backend.Base.Text.{Text, codes, same_text}
use tenon_backend.Base.Result.{Result, ok, err, value_error, api_error, raise_if, ◌>>◌}
use tenon_backend.Trials.Model.{Trial}

-- `TRIAL_STATUSES`, by name.
pub data TrialStatus : Type 0 where
  draft generating ready_for_review active_inviting terminated : TrialStatus

abbrev pub trial_statuses : List TrialStatus
trial_statuses = draft ∷ generating ∷ ready_for_review ∷ active_inviting ∷ terminated ∷ []

abbrev pub status_text : TrialStatus → Text
status_text draft = codes "draft"
status_text generating = codes "generating"
status_text ready_for_review = codes "ready_for_review"
status_text active_inviting = codes "active_inviting"
status_text terminated = codes "terminated"

abbrev pub legacy_trial_status_active : Text
legacy_trial_status_active = codes "active"

-- `raw_status in TRIAL_STATUSES`
unfoldable pub normalize_trial_status : Text → Option TrialStatus
normalize_trial_status raw_status =
    if same_text raw_status legacy_trial_status_active
    then some active_inviting
    else find (λ known. same_text raw_status (status_text known)) trial_statuses

abbrev pub same_status : TrialStatus → TrialStatus → Bool
same_status draft draft = true
same_status generating generating = true
same_status ready_for_review ready_for_review = true
same_status active_inviting active_inviting = true
same_status terminated terminated = true
same_status _ _ = false

-- `_ALLOWED_TRANSITIONS`
abbrev pub allowed_transitions : TrialStatus → List TrialStatus
allowed_transitions draft = generating ∷ []
allowed_transitions generating = ready_for_review ∷ []
allowed_transitions ready_for_review = active_inviting ∷ []
allowed_transitions active_inviting = ready_for_review ∷ []
allowed_transitions terminated = []

-- `_ALLOWED_TRANSITIONS.get(current_status or "", set())`
abbrev pub allowed_targets : Option TrialStatus → List TrialStatus
allowed_targets none = []
allowed_targets (some current) = allowed_transitions current

-- The two tests that may raise.
unfoldable pub is_allowed : Option TrialStatus → TrialStatus → Bool
is_allowed none terminated = false
is_allowed (some current) terminated = true
is_allowed current target = any (same_status target) (allowed_targets current)

-- `if column is None: column = at`
abbrev pub set_once : ℕ → Option ℕ → Option ℕ
set_once at column = some (or_else column at)

unfoldable pub touch_timestamp : TrialStatus → ℕ → Trial → Trial
touch_timestamp draft at trial = trial
touch_timestamp generating at trial = record trial {
  generating_at = set_once at trial.generating_at;
}
touch_timestamp ready_for_review at trial = record trial {
  ready_for_review_at = set_once at trial.ready_for_review_at;
}
touch_timestamp active_inviting at trial = record trial {
  activated_at = set_once at trial.activated_at;
}
touch_timestamp terminated at trial = record trial {
  terminated_at = set_once at trial.terminated_at;
}

-- `trial.status = target_status` and `_touch_timestamp`.
unfoldable pub enter : TrialStatus → ℕ → Trial → Trial
enter target changed_at trial =
    touch_timestamp target changed_at (record trial { status = status_text target })

abbrev pub is_already : Option TrialStatus → TrialStatus → Bool
is_already none target = false
is_already (some current) target = same_status current target

-- The result is whether the status changed, and the trial; an exception leaves the trial as it was.
unfoldable pub apply_transition :
    Option TrialStatus → TrialStatus → ℕ → Trial → Result (Bool × Trial)
apply_transition current target changed_at trial =
    if is_already current target
    then ok (false, enter target changed_at trial)
    else if is_allowed current target
    then ok (true, enter target changed_at trial)
    else err (api_error 409 (codes "TRIAL_INVALID_STATUS_TRANSITION"))

unfoldable pub apply_status_transition : Text → ℕ → Trial → Result (Bool × Trial)
apply_status_transition target_status changed_at trial =
    elim (normalize_trial_status target_status) [
      | none ↦ err (value_error (codes "Unsupported trial status: None"))
      | some target ↦ apply_transition (normalize_trial_status trial.status) target changed_at trial
    ]

abbrev pub is_status : TrialStatus → Option TrialStatus → Bool
is_status status current = is_already current status

unfoldable pub require_trial_invitable : Trial → Result (Unit {0})
require_trial_invitable trial = do
  let current_status = normalize_trial_status trial.status
  raise_if (is_status terminated current_status) (api_error 409 (codes "TRIAL_TERMINATED"))
  raise_if (not (is_none trial.pending_scenario_version_id))
      (api_error 409 (codes "SCENARIO_APPROVAL_PENDING"))
  raise_if (not (is_status active_inviting current_status))
      (api_error 409 (codes "TRIAL_NOT_INVITABLE"))
  ok tt

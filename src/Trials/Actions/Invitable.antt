-- ===== src/Trials/Actions/Invitable.antt =====
-- When candidates may be invited to a trial: `require_trial_invitable` and the owner's actions.
use tenon_backend.Base.{
  ℕ, ◌==◌, ◌≡◌, ◌↔◌, refl, sym, ap, ◌∙◌, ◌&&◌, Bool, not, none, some, List, find, is_none, arith,
}
use mathlib.Core.Path.{subst}
use mathlib.Core.Option.{some-injective}
use tenon_backend.Base.Text.{codes, same_text}
use tenon_backend.Base.Result.{ok, api_error, raise_if, >>=-ok}
use tenon_backend.Trials.Model.{Trial}
use tenon_backend.Trials.Status.{
  TrialStatus, draft, generating, ready_for_review, active_inviting, terminated, status_text,
  require_trial_invitable, apply_status_transition, enter, touch_timestamp,
}
use tenon_backend.Trials.Status.Diagram.{Reads, status_text-Reads, apply_status_transition_iff}
use tenon_backend.Trials.Status.History.{enter-Reads, apply_status_transition-Later}
use tenon_backend.Trials.Termination.{require_owner_for_lifecycle, store_trial, flush_trial}
use tenon_backend.Trials.Termination.Stops.{
  find-id, find-store_trial, flush_trial-ok, require_owner-find,
}
use tenon_backend.Trials.Actions.{transition_owned_trial}

enter-pending :
    (target : TrialStatus) (at : ℕ) (trial : Trial)
    → (enter target at trial).pending_scenario_version_id ≡ trial.pending_scenario_version_id
unfolding enter touch_timestamp
enter-pending draft at trial = refl
enter-pending generating at trial = refl
enter-pending ready_for_review at trial = refl
enter-pending active_inviting at trial = refl
enter-pending terminated at trial = refl

-- Inviting is allowed exactly to a trial that is read as inviting and awaits no approval.
pub require_trial_invitable_iff :
    (trial : Trial)
    → (require_trial_invitable trial ≡ ok tt)
      ↔ (Reads trial.status active_inviting × (trial.pending_scenario_version_id ≡ none))
unfolding require_trial_invitable
require_trial_invitable_iff trial = ground arith

module _ (changed_at trial_id actor_user_id : ℕ) (trials : List Trial) where
  not_pending :
      (before : Trial) {result : Unit {0}}
      → raise_if
          (same_text (codes "active_inviting") (status_text active_inviting)
            && not (is_none before.pending_scenario_version_id))
          (api_error 409 (codes "SCENARIO_APPROVAL_PENDING"))
        ≡ ok result
      → before.pending_scenario_version_id ≡ none
  unfolding same_text
  not_pending before h = ground arith

  -- The loaded trial and what the change makes of it.
  after_change :
      {changed : Bool} (before after : Trial)
      → (find (λ row. row.id == trial_id) trials ≡ some before)
        × (before.created_by ≡ actor_user_id)
      → before.pending_scenario_version_id ≡ none
      → apply_status_transition (codes "active_inviting") changed_at before ≡ ok (changed, after)
      → (require_trial_invitable after ≡ ok tt)
        × (find (λ row. row.id == trial_id) (store_trial after trials) ≡ some after)
        × (after.created_by ≡ actor_user_id)
  after_change {changed} before after (found, mine) settled moved =
      let later =
        apply_status_transition-Later (codes "active_inviting") changed_at changed before after
          moved in
      let (_, target, _, read, _, entered) =
        (apply_status_transition_iff changed_at before (codes "active_inviting") changed after).0
          moved in
      let meant : target ≡ active_inviting =
        some-injective _ _ (sym read ∙ status_text-Reads active_inviting) in
      let into : after ≡ enter active_inviting changed_at before =
        entered ∙ ap (λ s. enter s changed_at before) meant in
      (
        (require_trial_invitable_iff after).1 (
          rw into (enter-Reads active_inviting changed_at before),
          ap (λ t. t.pending_scenario_version_id) into
              ∙ enter-pending active_inviting changed_at before
              ∙ settled,
        ),
        find-store_trial trial_id after trials (later.same_trial ∙ find-id trial_id trials found)
            found,
        later.same_owner ∙ mine,
      )

  -- When the owner's change to inviting returns, the trial that it returns is the row, is the
  -- caller's, and candidates may be invited to it.
  pub transition_owned_trial-invitable :
      {trial : Trial} {trials' : List Trial}
      → transition_owned_trial changed_at trial_id actor_user_id (codes "active_inviting") trials
        ≡ ok (trial, trials')
      → (require_trial_invitable trial ≡ ok tt)
        × (find (λ row. row.id == trial_id) trials' ≡ some trial)
        × (trial.created_by ≡ actor_user_id)
  unfolding transition_owned_trial
  transition_owned_trial-invitable {trial} {trials'} h =
      let (before, owned, rest) =
        >>=-ok (require_owner_for_lifecycle trial_id actor_user_id trials) _ h in
      let (_, settled, rest') =
        >>=-ok
          (raise_if
            (same_text (codes "active_inviting") (status_text active_inviting)
              && not (is_none before.pending_scenario_version_id))
            (api_error 409 (codes "SCENARIO_APPROVAL_PENDING")))
          _ rest in
      let ((changed, after), moved, stored) =
        >>=-ok (apply_status_transition (codes "active_inviting") changed_at before) _ rest' in
      let (rows, flushed_to, done) = >>=-ok (flush_trial after trials) _ stored in
      let same : rows ≡ store_trial after trials = flush_trial-ok after trials flushed_to in
      let made : (Trial × List Trial) = (after, store_trial after trials) in
      let e : made ≡ (trial, trials') = cc in
      subst
        (λ r.
          (require_trial_invitable r.0 ≡ ok tt)
          × (find (λ row. row.id == trial_id) r.1 ≡ some r.0)
          × (r.0.created_by ≡ actor_user_id))
        e
        (after_change before after (require_owner-find trial_id actor_user_id trials owned)
          (not_pending before settled) moved)

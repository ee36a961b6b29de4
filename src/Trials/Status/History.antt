-- ===== src/Trials/Status/History.antt =====
-- What any sequence of status changes keeps of a trial.
use tenon_backend.Base.{ℕ, ◌≡◌, refl, sym, ◌∙◌, Bool, true, false, Option, none, some}
use mathlib.Core.Path.{subst}
use mathlib.Core.Option.{some-injective}
use tenon_backend.Base.Text.{Text}
use tenon_backend.Base.Result.{ok}
use tenon_backend.Trials.Model.{Trial}
use tenon_backend.Trials.Status.{
  TrialStatus, draft, generating, ready_for_review, active_inviting, terminated, is_allowed,
  apply_status_transition, enter, touch_timestamp,
}
use tenon_backend.Trials.Status.Diagram.{
  Reads, Moved, Edge-allowed, status_text-Reads, apply_status_transition_iff,
}

-- Calls of `apply_status_transition` that succeed, one after the other, at any times.
pub data History (start : Trial) : Trial → Type 0 where
  begin : History start start
  change :
      {trial trial' : Trial} (target_status : Text) (changed_at : ℕ) {changed : Bool}
      → History start trial
      → apply_status_transition target_status changed_at trial ≡ ok (changed, trial')
      → History start trial'

-- The column with the time at which a status was first entered; a draft has none.
abbrev pub entered_at : TrialStatus → Trial → Option ℕ
entered_at draft trial = none
entered_at generating trial = trial.generating_at
entered_at ready_for_review trial = trial.ready_for_review_at
entered_at active_inviting trial = trial.activated_at
entered_at terminated trial = trial.terminated_at

-- What a later state of a trial still shows of an earlier one.
pub record Later (trial trial' : Trial) : Type 0 where
  pub same_trial : trial'.id ≡ trial.id
  pub same_owner : trial'.created_by ≡ trial.created_by
  pub times :
      (status : TrialStatus) {t : ℕ}
      → entered_at status trial ≡ some t
      → entered_at status trial' ≡ some t
  pub end : Reads trial.status terminated → Reads trial'.status terminated

enter_times :
    (target status : TrialStatus) (at : ℕ) (trial : Trial) {t : ℕ}
    → entered_at status trial ≡ some t
    → entered_at status (enter target at trial) ≡ some t
unfolding enter touch_timestamp
enter_times draft draft at trial h = h
enter_times draft generating at trial h = h
enter_times draft ready_for_review at trial h = h
enter_times draft active_inviting at trial h = h
enter_times draft terminated at trial h = h
enter_times generating draft at trial h = h
enter_times generating generating at trial h = rw h
enter_times generating ready_for_review at trial h = h
enter_times generating active_inviting at trial h = h
enter_times generating terminated at trial h = h
enter_times ready_for_review draft at trial h = h
enter_times ready_for_review generating at trial h = h
enter_times ready_for_review ready_for_review at trial h = rw h
enter_times ready_for_review active_inviting at trial h = h
enter_times ready_for_review terminated at trial h = h
enter_times active_inviting draft at trial h = h
enter_times active_inviting generating at trial h = h
enter_times active_inviting ready_for_review at trial h = h
enter_times active_inviting active_inviting at trial h = rw h
enter_times active_inviting terminated at trial h = h
enter_times terminated draft at trial h = h
enter_times terminated generating at trial h = h
enter_times terminated ready_for_review at trial h = h
enter_times terminated active_inviting at trial h = h
enter_times terminated terminated at trial h = rw h

no_edge_from_terminated :
    (changed : Bool) (target : TrialStatus) → Moved changed terminated target → target ≡ terminated
unfolding is_allowed
no_edge_from_terminated true draft edge = let (other, allowed) = Edge-allowed edge in cc
no_edge_from_terminated true generating edge = let (other, allowed) = Edge-allowed edge in cc
no_edge_from_terminated true ready_for_review edge = let (other, allowed) = Edge-allowed edge in cc
no_edge_from_terminated true active_inviting edge = let (other, allowed) = Edge-allowed edge in cc
no_edge_from_terminated true terminated edge = let (other, allowed) = Edge-allowed edge in cc
no_edge_from_terminated false target same = sym same

pub enter-Reads :
    (target : TrialStatus) (at : ℕ) (trial : Trial) → Reads (enter target at trial).status target
unfolding enter touch_timestamp
enter-Reads draft at trial = status_text-Reads draft
enter-Reads generating at trial = status_text-Reads generating
enter-Reads ready_for_review at trial = status_text-Reads ready_for_review
enter-Reads active_inviting at trial = status_text-Reads active_inviting
enter-Reads terminated at trial = status_text-Reads terminated

enter-id : (target : TrialStatus) (at : ℕ) (trial : Trial) → (enter target at trial).id ≡ trial.id
unfolding enter touch_timestamp
enter-id draft at trial = refl
enter-id generating at trial = refl
enter-id ready_for_review at trial = refl
enter-id active_inviting at trial = refl
enter-id terminated at trial = refl

enter-created_by :
    (target : TrialStatus) (at : ℕ) (trial : Trial)
    → (enter target at trial).created_by ≡ trial.created_by
unfolding enter touch_timestamp
enter-created_by draft at trial = refl
enter-created_by generating at trial = refl
enter-created_by ready_for_review at trial = refl
enter-created_by active_inviting at trial = refl
enter-created_by terminated at trial = refl

enter-Later :
    (target : TrialStatus) (at : ℕ) (trial : Trial)
    → (Reads trial.status terminated → target ≡ terminated)
    → Later trial (enter target at trial)
enter-Later target at trial ends = record {
  same_trial = enter-id target at trial;
  same_owner = enter-created_by target at trial;
  times = λ status h. enter_times target status at trial h;
  end = λ h.
      subst (λ s. Reads (enter target at trial).status s) (ends h) (enter-Reads target at trial);
}

pub apply_status_transition-Later :
    (target_status : Text) (at : ℕ) (changed : Bool) (trial trial' : Trial)
    → apply_status_transition target_status at trial ≡ ok (changed, trial')
    → Later trial trial'
apply_status_transition-Later target_status at changed trial trial' h =
    let (from, target, current, read, moved, entered) =
      (apply_status_transition_iff at trial target_status changed trial').0 h in
    subst (Later trial) (sym entered) (
      enter-Later target at trial (λ over.
        no_edge_from_terminated changed target
          (subst (λ s. Moved changed s target) (some-injective _ _ (sym current ∙ over)) moved)))

-- Whatever status changes succeed, in whatever order and at whatever times, the trial keeps its id
-- and its owner, a time once recorded for a status is never overwritten, and a terminated trial stays
-- terminated.
pub History-Later : {start trial : Trial} → History start trial → Later start trial
History-Later begin = record {
  same_trial = refl;
  same_owner = refl;
  times = λ status h. h;
  end = λ h. h;
}
History-Later (change {trial} {trial'} target_status at {changed} before h) =
    let earlier = History-Later before in
    let step = apply_status_transition-Later target_status at changed trial trial' h in
    record {
      same_trial = step.same_trial ∙ earlier.same_trial;
      same_owner = step.same_owner ∙ earlier.same_owner;
      times = λ status t. step.times status (earlier.times status t);
      end = λ t. step.end (earlier.end t);
    }

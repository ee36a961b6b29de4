-- ===== src/Trials/Status/Diagram.antt =====
-- The transition diagram of a trial as a relation, and what the timestamps keep.
use tenon_backend.Base.{
  ℕ, ◌≡◌, ◌↔◌, inl, inr, refl, Bool, true, false, Option, none, some, Bool-cases, Option-cases,
}
use mathlib.Core.Path.{subst}
use tenon_backend.Base.Text.{Text, codes, same_text}
use tenon_backend.Base.Result.{ok, err, api_error, value_error}
use tenon_backend.Trials.Model.{Trial}
use tenon_backend.Trials.Status.{
  TrialStatus, draft, generating, ready_for_review, active_inviting, terminated, status_text,
  normalize_trial_status, is_allowed, is_already, apply_transition, apply_status_transition, enter,
}

-- The edges: the way from a draft to inviting, the way back from inviting to the review, and the end.
pub data Edge : TrialStatus → TrialStatus → Type 0 where
  generate : Edge draft generating
  review : Edge generating ready_for_review
  activate : Edge ready_for_review active_inviting
  reopen : Edge active_inviting ready_for_review
  stop_draft : Edge draft terminated
  stop_generating : Edge generating terminated
  stop_ready_for_review : Edge ready_for_review terminated
  stop_active_inviting : Edge active_inviting terminated

-- The column holds a name of `TRIAL_STATUSES` or the legacy name of inviting.
abbrev pub Reads : Text → TrialStatus → Type 0
Reads raw status = normalize_trial_status raw ≡ some status

pub status_text-Reads : (status : TrialStatus) → Reads (status_text status) status
unfolding normalize_trial_status same_text
status_text-Reads draft = refl
status_text-Reads generating = refl
status_text-Reads ready_for_review = refl
status_text-Reads active_inviting = refl
status_text-Reads terminated = refl

pub Edge-allowed :
    {current target : TrialStatus}
    → Edge current target
    → (is_already (some current) target ≡ false) × (is_allowed (some current) target ≡ true)
unfolding is_allowed
Edge-allowed generate = (refl, refl)
Edge-allowed review = (refl, refl)
Edge-allowed activate = (refl, refl)
Edge-allowed reopen = (refl, refl)
Edge-allowed stop_draft = (refl, refl)
Edge-allowed stop_generating = (refl, refl)
Edge-allowed stop_ready_for_review = (refl, refl)
Edge-allowed stop_active_inviting = (refl, refl)

allowed_Edge :
    (current target : TrialStatus)
    → is_already (some current) target ≡ false
    → is_allowed (some current) target ≡ true
    → Edge current target
unfolding is_allowed
allowed_Edge draft draft other allowed = cc
allowed_Edge draft generating other allowed = generate
allowed_Edge draft ready_for_review other allowed = cc
allowed_Edge draft active_inviting other allowed = cc
allowed_Edge draft terminated other allowed = stop_draft
allowed_Edge generating draft other allowed = cc
allowed_Edge generating generating other allowed = cc
allowed_Edge generating ready_for_review other allowed = review
allowed_Edge generating active_inviting other allowed = cc
allowed_Edge generating terminated other allowed = stop_generating
allowed_Edge ready_for_review draft other allowed = cc
allowed_Edge ready_for_review generating other allowed = cc
allowed_Edge ready_for_review ready_for_review other allowed = cc
allowed_Edge ready_for_review active_inviting other allowed = activate
allowed_Edge ready_for_review terminated other allowed = stop_ready_for_review
allowed_Edge active_inviting draft other allowed = cc
allowed_Edge active_inviting generating other allowed = cc
allowed_Edge active_inviting ready_for_review other allowed = reopen
allowed_Edge active_inviting active_inviting other allowed = cc
allowed_Edge active_inviting terminated other allowed = stop_active_inviting
allowed_Edge terminated draft other allowed = cc
allowed_Edge terminated generating other allowed = cc
allowed_Edge terminated ready_for_review other allowed = cc
allowed_Edge terminated active_inviting other allowed = cc
allowed_Edge terminated terminated other allowed = cc

same_status_eq :
    (current target : TrialStatus) → is_already (some current) target ≡ true → current ≡ target
same_status_eq draft draft same = refl
same_status_eq draft generating same = cc
same_status_eq draft ready_for_review same = cc
same_status_eq draft active_inviting same = cc
same_status_eq draft terminated same = cc
same_status_eq generating draft same = cc
same_status_eq generating generating same = refl
same_status_eq generating ready_for_review same = cc
same_status_eq generating active_inviting same = cc
same_status_eq generating terminated same = cc
same_status_eq ready_for_review draft same = cc
same_status_eq ready_for_review generating same = cc
same_status_eq ready_for_review ready_for_review same = refl
same_status_eq ready_for_review active_inviting same = cc
same_status_eq ready_for_review terminated same = cc
same_status_eq active_inviting draft same = cc
same_status_eq active_inviting generating same = cc
same_status_eq active_inviting ready_for_review same = cc
same_status_eq active_inviting active_inviting same = refl
same_status_eq active_inviting terminated same = cc
same_status_eq terminated draft same = cc
same_status_eq terminated generating same = cc
same_status_eq terminated ready_for_review same = cc
same_status_eq terminated active_inviting same = cc
same_status_eq terminated terminated same = refl

is_already_self : (status : TrialStatus) → is_already (some status) status ≡ true
is_already_self draft = refl
is_already_self generating = refl
is_already_self ready_for_review = refl
is_already_self active_inviting = refl
is_already_self terminated = refl

-- What a call that succeeds has done, by whether it reports a change.
abbrev pub Moved : Bool → TrialStatus → TrialStatus → Type 0
Moved true current target = Edge current target
Moved false current target = current ≡ target

is_allowed-none : (target : TrialStatus) → is_allowed none target ≡ false
unfolding is_allowed
is_allowed-none draft = refl
is_allowed-none generating = refl
is_allowed-none ready_for_review = refl
is_allowed-none active_inviting = refl
is_allowed-none terminated = refl

module _ (changed_at : ℕ) (trial : Trial) where
  -- The three branches.
  transition_already :
      (current : Option TrialStatus) (target : TrialStatus)
      → is_already current target ≡ true
      → apply_transition current target changed_at trial ≡ ok (false, enter target changed_at trial)
  unfolding apply_transition
  transition_already current target already = rw already

  transition_allowed :
      (current : Option TrialStatus) (target : TrialStatus)
      → is_already current target ≡ false
      → is_allowed current target ≡ true
      → apply_transition current target changed_at trial ≡ ok (true, enter target changed_at trial)
  unfolding apply_transition
  transition_allowed current target other allowed = rw (other, allowed)

  transition_refused :
      (current : Option TrialStatus) (target : TrialStatus)
      → is_already current target ≡ false
      → is_allowed current target ≡ false
      → apply_transition current target changed_at trial
        ≡ err (api_error 409 (codes "TRIAL_INVALID_STATUS_TRANSITION"))
  unfolding apply_transition
  transition_refused current target other refused = rw (other, refused)

  apply_transition-Moved :
      (current : Option TrialStatus) (target : TrialStatus) (changed : Bool) {trial' : Trial}
      → apply_transition current target changed_at trial ≡ ok (changed, trial')
      → (from : TrialStatus) × (current ≡ some from)
        × Moved changed from target
        × (trial' ≡ enter target changed_at trial)
  apply_transition-Moved none target changed h =
      let refused = transition_refused none target refl (is_allowed-none target) in cc
  apply_transition-Moved (some from) target changed {trial'} h =
      elim (Bool-cases (is_already (some from) target)) [
        | inl same ↦
            let kept = transition_already (some from) target same in
            let unchanged : false ≡ changed = cc in
            (
              from,
              refl,
              subst (λ b. Moved b from target) unchanged (same_status_eq from target same),
              cc,
            )
        | inr other ↦ elim (Bool-cases (is_allowed (some from) target)) [
          | inl allowed ↦
              let moved = transition_allowed (some from) target other allowed in
              let reported : true ≡ changed = cc in
              (
                from,
                refl,
                subst (λ b. Moved b from target) reported (allowed_Edge from target other allowed),
                cc,
              )
          | inr refused ↦ let failed = transition_refused (some from) target other refused in cc
        ]
      ]

  Moved-apply_transition :
      (from target : TrialStatus) (changed : Bool)
      → Moved changed from target
      → apply_transition (some from) target changed_at trial
        ≡ ok (changed, enter target changed_at trial)
  Moved-apply_transition from target true edge =
      transition_allowed (some from) target (Edge-allowed edge).0 (Edge-allowed edge).1
  Moved-apply_transition from target false same =
      transition_already (some from) target
        (subst (λ s. is_already (some from) s ≡ true) same (is_already_self from))

  apply_unread :
      (target_status : Text)
      → normalize_trial_status target_status ≡ none
      → apply_status_transition target_status changed_at trial
        ≡ err (value_error (codes "Unsupported trial status: None"))
  unfolding apply_status_transition
  apply_unread target_status unread = rw (unread, apply_status_transition)

  apply_read :
      (target_status : Text) (target : TrialStatus)
      → Reads target_status target
      → apply_status_transition target_status changed_at trial
        ≡ apply_transition (normalize_trial_status trial.status) target changed_at trial
  unfolding apply_status_transition
  apply_read target_status target read = rw (read, apply_status_transition)

  -- A call to change the status succeeds and reports a change exactly when the trial's status and the
  -- target are read as two ends of an edge of the diagram, and succeeds reporting none exactly when
  -- they are read as the same status; the trial has then entered the target.
  pub apply_status_transition_iff :
      (target_status : Text) (changed : Bool) (trial' : Trial)
      → (apply_status_transition target_status changed_at trial ≡ ok (changed, trial')) ↔ (
          (from : TrialStatus) × (target : TrialStatus) × Reads trial.status from
          × Reads target_status target
          × Moved changed from target
          × (trial' ≡ enter target changed_at trial))
  apply_status_transition_iff target_status changed trial' = (
    λ h. elim (Option-cases (normalize_trial_status target_status)) [
      | inl unread ↦ let failed = apply_unread target_status unread in cc
      | inr (target, read) ↦
          let split = apply_read target_status target read in
          let (from, current, moved, entered) =
            apply_transition-Moved (normalize_trial_status trial.status) target changed cc in
          (from, target, current, read, moved, entered)
    ],
    λ (from, target, current, read, moved, entered).
        rw (apply_read target_status target read, current, entered)
          (Moved-apply_transition from target changed moved),
  )

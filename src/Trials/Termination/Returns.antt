-- ===== src/Trials/Termination/Returns.antt =====
-- That `terminate_trial_with_cleanup` returns.
use tenon_backend.Base.{
  ℕ, ◌≡◌, refl, Bool, true, false, Option, some, [], ◌∷◌, any, is_none, arith, Bool-cases, inl, inr,
}
use tenon_backend.Base.Text.{Text, same_text}
use tenon_backend.Base.Result.{ok}
use tenon_backend.Jobs.Model.{Job, Table}
use tenon_backend.Jobs.Rows.{update_where, conflicts, has_key, insert_row}
use tenon_backend.Jobs.Shared.{IdempotentJobSpec, normalize_spec, job_from_spec}
use tenon_backend.Jobs.Create.{
  insert_or_get_existing, load_idempotent_job, create_or_get_idempotent,
  insert_nested_or_get_existing,
}
use tenon_backend.Trials.Model.{Trial}
use tenon_backend.Trials.Status.{
  TrialStatus, draft, generating, ready_for_review, active_inviting, terminated, status_text, enter,
  touch_timestamp,
}
use tenon_backend.Trials.Status.Diagram.{
  Reads, Moved, stop_draft, stop_generating, stop_ready_for_review, stop_active_inviting,
  status_text-Reads, apply_status_transition_iff,
}
use tenon_backend.Trials.Termination.{
  Tables, is_storable, flush_trial, store_trial, cancel, cancel_pending_trial_jobs,
  require_owner_for_lifecycle, trial_cleanup_spec, enqueue_trial_cleanup_job, clean_up,
  sign_termination, normalized_reason, build_trial_cleanup_payload,
  expire_pending_candidate_sessions, is_pending_trial_job, terminate_trial_with_cleanup,
}

-- No row has the id.
abbrev pub IsFree : Text → Table → Type 0
IsFree id jobs = any (λ row. same_text row.id id) jobs ≡ false

-- A row that stands in the way of one with a free id has its key.
conflict_by_key :
    (job : Job) (jobs : Table)
    → IsFree job.id jobs
    → any (conflicts job) jobs ≡ true
    → (found : Job) × (load_idempotent_job job.company_id job.job_type job.idempotency_key jobs
        ≡ some found)
unfolding load_idempotent_job conflicts
conflict_by_key job [] free h = cc
conflict_by_key job (row ∷ rows) free h =
    elim (Bool-cases (has_key job.company_id job.job_type job.idempotency_key row)) [
      | inl same ↦ (row, rw same refl)
      | inr other ↦
          let rest = conflict_by_key job rows (ground arith) (ground arith) in
          (rest.0, rw other rest.1)
    ]

insert_or_get_existing-returns :
    (job : Job) (jobs : Table)
    → IsFree job.id jobs
    → (r : Job × Table) × (insert_or_get_existing job jobs ≡ ok r)
unfolding insert_or_get_existing insert_row
insert_or_get_existing-returns job jobs free = elim (Bool-cases (any (conflicts job) jobs)) [
  | inl met ↦
      let (found, loaded) = conflict_by_key job jobs free met in
      ((found, jobs), rw (met, loaded, insert_or_get_existing) refl)
  | inr unmet ↦ ((job, job ∷ jobs), rw (unmet, insert_or_get_existing) refl)
]

update_where-IsFree :
    (condition : Job → Bool) (changed_at : ℕ) (id : Text) (jobs : Table)
    → IsFree id jobs
    → IsFree id (update_where condition (cancel changed_at) jobs)
unfolding update_where cancel
update_where-IsFree condition changed_at id [] free = refl
update_where-IsFree condition changed_at id (job ∷ jobs) free =
    ground (arith, update_where-IsFree condition changed_at id jobs)

-- Every status may end.
to_terminated : (status : TrialStatus) → (changed : Bool) × Moved changed status terminated
to_terminated draft = (true, stop_draft)
to_terminated generating = (true, stop_generating)
to_terminated ready_for_review = (true, stop_ready_for_review)
to_terminated active_inviting = (true, stop_active_inviting)
to_terminated terminated = (false, refl)

module _ (id : Text) (now changed_at actor_user_id : ℕ) where
  -- The clean-up job of a trial passes the checks on its arguments.
  abbrev pub IsQueueable : Trial → Option Text → Type 0
  IsQueueable trial reason =
      (normalized : IdempotentJobSpec) × (normalize_spec
          (trial_cleanup_spec trial actor_user_id reason)
        ≡ ok normalized)

  enqueue-returns :
      (trial : Trial) (reason : Option Text) (jobs : Table)
      → IsQueueable trial reason
      → IsFree id jobs
      → (r : Job × Table) × (enqueue_trial_cleanup_job
            (λ t. t)
            id
            now
            trial
            actor_user_id
            reason
            jobs
          ≡ ok r)
  unfolding enqueue_trial_cleanup_job create_or_get_idempotent insert_nested_or_get_existing
      job_from_spec
  enqueue-returns trial reason jobs (normalized, passed) free =
      let (r, made) =
        insert_or_get_existing-returns (job_from_spec id now trial.company_id normalized) jobs
          free in
      (r, rw passed made)

  clean_up-returns :
      (reason : Option Text) (trial : Trial) (tables : Tables)
      → is_storable trial ≡ true
      → IsQueueable trial reason
      → IsFree id tables.jobs
      → (r : (Trial × Job) × Tables) × (clean_up
            (λ t. t)
            id
            now
            changed_at
            actor_user_id
            reason
            trial
            tables
          ≡ ok r)
  unfolding clean_up cancel_pending_trial_jobs flush_trial
  clean_up-returns reason trial tables storable passed free =
      let sessions =
        expire_pending_candidate_sessions trial.id changed_at tables.candidate_sessions in
      let ((job, jobs'), made) =
        enqueue-returns trial reason
          (cancel_pending_trial_jobs trial sessions changed_at tables.jobs) passed
          (update_where-IsFree (is_pending_trial_job trial sessions) changed_at id tables.jobs
            free) in
      (
        (
          (trial, job),
          record {
            trials = store_trial trial tables.trials;
            candidate_sessions = sessions;
            jobs = jobs';
          },
        ),
        rw (storable, made) refl,
      )

  -- A terminated trial with an active scenario version passes the constraints of its table.
  signed_storable :
      (changed : Bool) (reason : Option Text) (trial : Trial)
      → is_none trial.active_scenario_version_id ≡ false
      → is_storable
          (sign_termination changed actor_user_id reason (enter terminated changed_at trial))
        ≡ true
  unfolding is_storable sign_termination enter touch_timestamp same_text
  signed_storable changed reason trial active = ground (arith, active)

  signed-IsQueueable :
      (changed : Bool) (reason : Option Text) (trial : Trial)
      → IsQueueable trial reason
      → IsQueueable
          (sign_termination changed actor_user_id reason (enter terminated changed_at trial))
          reason
  unfolding sign_termination enter touch_timestamp trial_cleanup_spec build_trial_cleanup_payload
  signed-IsQueueable changed reason trial passed = passed

  -- The owner's termination of a trial whose status can be read and which has an active scenario version, as the
  -- constraint of its table wants of a terminated trial, returns, when the cleanup job's arguments pass the
  -- checks, its id is free, and no other session is at work.
  pub terminate_trial_with_cleanup-returns :
      (trial_id : ℕ) (reason : Option Text) (tables : Tables) (trial : Trial) (status : TrialStatus)
      → require_owner_for_lifecycle trial_id actor_user_id tables.trials ≡ ok trial
      → Reads trial.status status
      → is_none trial.active_scenario_version_id ≡ false
      → IsQueueable trial (normalized_reason reason)
      → IsFree id tables.jobs
      → (r : (Trial × Job) × Tables) × (terminate_trial_with_cleanup
            (λ t. t)
            id
            now
            changed_at
            trial_id
            actor_user_id
            reason
            tables
          ≡ ok r)
  unfolding terminate_trial_with_cleanup
  terminate_trial_with_cleanup-returns trial_id reason tables trial status owned read active passed
        free =
      let (changed, moved) = to_terminated status in
      let entered = enter terminated changed_at trial in
      let applied =
        (apply_status_transition_iff changed_at trial (status_text terminated) changed entered).1
          (status, terminated, read, status_text-Reads terminated, moved, refl) in
      let (r, cleaned) =
        clean_up-returns (normalized_reason reason)
          (sign_termination changed actor_user_id (normalized_reason reason) entered) tables
          (signed_storable changed (normalized_reason reason) trial active)
          (signed-IsQueueable changed (normalized_reason reason) trial passed) free in
      (r, rw (owned, applied) cleaned)

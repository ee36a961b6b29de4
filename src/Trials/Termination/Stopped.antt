-- ===== src/Trials/Termination/Stopped.antt =====
-- `terminate_trial_with_cleanup` as a whole: what holds of the three tables when it returns.
use tenon_backend.Base.{
  ℕ, ◌==◌, ◌≡◌, refl, sym, ◌∙◌, Bool, true, false, not, ◌&&◌, ◌||◌, [], ◌∷◌, arith, Option, some,
  List, any, find, keep,
}
use mathlib.Core.Path.{subst}
use mathlib.Core.Option.{some-injective}
use mathlib.Core.List.{Memᴰ}
use tenon_backend.Base.Text.{Text, codes, same_text, same_text_iff}
use tenon_backend.Base.Result.{ok, >>=-ok}
use tenon_backend.Jobs.Model.{Job, Table, is_terminal}
use tenon_backend.Jobs.Create.Laws.{create_or_get_ok, load_idempotent_job-mem}
use tenon_backend.Trials.Model.{Trial, CandidateSession}
use tenon_backend.Trials.Status.{
  terminated, status_text, enter, touch_timestamp, apply_status_transition,
}
use tenon_backend.Trials.Status.Diagram.{Reads, status_text-Reads, apply_status_transition_iff}
use tenon_backend.Trials.Termination.{
  Tables, is_of_session, names_trial, is_correlated, trial_cleanup_job_type, flush_trial,
  store_trial, is_pending_session, expire_pending_candidate_sessions, is_pending_trial_job,
  cancel_pending_trial_jobs, require_owner_for_lifecycle, trial_cleanup_spec,
  enqueue_trial_cleanup_job, clean_up, sign_termination, normalized_reason,
  terminate_trial_with_cleanup,
}
use tenon_backend.Trials.Termination.Stops.{
  none_pending_session, others_kept, none_pending_job, find-id, find-store_trial,
  require_owner-find, flush_trial-ok, any-enqueue,
}

-- A job of a trial: of its company, not its clean-up, and about one of its sessions, naming it or correlated
-- with it.
abbrev pub is_of_trial : ℕ → ℕ → List CandidateSession → Job → Bool
is_of_trial company_id trial_id sessions job =
    (job.company_id == company_id)
    && (not (same_text job.job_type (codes "trial_cleanup"))
        && (is_of_session trial_id sessions job.candidate_session_id
            || (names_trial trial_id job.payload_json
                || is_correlated trial_id job.correlation_id)))

-- No job of the trial is left that has not succeeded and is no dead letter.
abbrev pub AreFinished : ℕ → ℕ → List CandidateSession → Table → Type 0
AreFinished company_id trial_id sessions jobs =
    any (λ job. is_of_trial company_id trial_id sessions job && not (is_terminal job.status)) jobs
    ≡ false

-- The trial's row is terminated; no invitation of the trial is pending and the other trials' sessions
-- are as they were; the jobs of the trial but its clean-up are finished, and the clean-up is there.
pub record IsStopped (trial_id : ℕ) (tables tables' : Tables) (trial : Trial) (cleanup_job : Job)
    : Type 0 where
  pub stored : find (λ row. row.id == trial_id) tables'.trials ≡ some trial
  pub ended : Reads trial.status terminated
  pub no_invites : any (is_pending_session trial_id) tables'.candidate_sessions ≡ false
  pub other_sessions :
      keep (λ s. not (s.trial_id == trial_id)) tables'.candidate_sessions
      ≡ keep (λ s. not (s.trial_id == trial_id)) tables.candidate_sessions
  pub no_jobs : AreFinished trial.company_id trial_id tables'.candidate_sessions tables'.jobs
  pub cleanup : Memᴰ cleanup_job tables'.jobs

-- Other sessions commit no unfinished job of the trial between the cancellation and the insertion.
abbrev pub AddsNoJobOf : ℕ → ℕ → List CandidateSession → (Table → Table) → Type 0
AddsNoJobOf company_id trial_id sessions meanwhile =
    (jobs : Table)
    → AreFinished company_id trial_id sessions jobs
    → AreFinished company_id trial_id sessions (meanwhile jobs)

unfinished_pending :
    (trial : Trial) (sessions : List CandidateSession) (job : Job)
    → (is_of_trial trial.company_id trial.id sessions job && not (is_terminal job.status)) ≡ true
    → is_pending_trial_job trial sessions job ≡ true
unfolding is_pending_trial_job
unfinished_pending trial sessions job h = ground (arith, h)

any-none :
    (p q : Job → Bool) (jobs : Table)
    → ((job : Job) → p job ≡ true → q job ≡ true)
    → any q jobs ≡ false
    → any p jobs ≡ false
any-none p q [] f h = h
any-none p q (job ∷ jobs) f h = ground (arith, f job, any-none p q jobs f)

cleanup_other :
    (trial : Trial) (sessions : List CandidateSession) (job : Job)
    → job.job_type ≡ trial_cleanup_job_type
    → (is_of_trial trial.company_id trial.id sessions job && not (is_terminal job.status)) ≡ false
cleanup_other trial sessions job same =
    ground (arith, same_text_iff job.job_type trial_cleanup_job_type)

module _ (meanwhile : Table → Table) (id : Text) (now changed_at actor_user_id : ℕ) where
  enqueued-mem :
      (trial : Trial) (reason : Option Text) (jobs : Table) {job : Job} {jobs' : Table}
      → enqueue_trial_cleanup_job meanwhile id now trial actor_user_id reason jobs ≡ ok (job, jobs')
      → Memᴰ job jobs'
  unfolding enqueue_trial_cleanup_job
  enqueued-mem trial reason jobs {job} {jobs'} h =
      let (normalized, _, loaded) =
        create_or_get_ok meanwhile id now trial.company_id
          (trial_cleanup_spec trial actor_user_id reason) false jobs h in
      load_idempotent_job-mem trial.company_id normalized.job_type normalized.idempotency_key jobs'
        loaded

  clean_up-IsStopped :
      (reason : Option Text) (trial : Trial) (tables : Tables) {found : Trial} {trial' : Trial}
      {cleanup_job : Job} {tables' : Tables}
      → Reads trial.status terminated
      → find (λ row. row.id == trial.id) tables.trials ≡ some found
      → AddsNoJobOf trial.company_id trial.id
          (expire_pending_candidate_sessions trial.id changed_at tables.candidate_sessions)
          meanwhile
      → clean_up meanwhile id now changed_at actor_user_id reason trial tables
        ≡ ok ((trial', cleanup_job), tables')
      → IsStopped trial.id tables tables' trial' cleanup_job
  unfolding clean_up
  clean_up-IsStopped reason trial tables {found} {trial'} {cleanup_job} {tables'} ended present
        quiet h =
      let sessions =
        expire_pending_candidate_sessions trial.id changed_at tables.candidate_sessions in
      let jobs = cancel_pending_trial_jobs trial sessions changed_at tables.jobs in
      let (trials, flushed_to, rest) = >>=-ok (flush_trial trial tables.trials) _ h in
      let kept : trials ≡ store_trial trial tables.trials =
        flush_trial-ok trial tables.trials flushed_to in
      let ((job, jobs'), made, done) =
        >>=-ok (enqueue_trial_cleanup_job meanwhile id now trial actor_user_id reason jobs) _
          rest in
      let left : Tables = record {
        trials = store_trial trial tables.trials;
        candidate_sessions = sessions;
        jobs = jobs';
      } in
      let made_of : (Trial × Job) × Tables = ((trial, job), left) in
      let e : made_of ≡ ((trial', cleanup_job), tables') = cc in
      subst (λ r. IsStopped trial.id tables r.1 r.0.0 r.0.1) e
        (record {
          stored = find-store_trial trial.id trial tables.trials refl present;
          ended = ended;
          no_invites = none_pending_session trial.id changed_at tables.candidate_sessions;
          other_sessions = others_kept trial.id changed_at tables.candidate_sessions;
          no_jobs =
              any-enqueue
                (λ row.
                  is_of_trial trial.company_id trial.id sessions row
                  && not (is_terminal row.status))
                meanwhile id now trial actor_user_id reason jobs (cleanup_other trial sessions)
                (quiet jobs (
                  any-none _ (is_pending_trial_job trial sessions) jobs
                    (unfinished_pending trial sessions)
                    (none_pending_job trial sessions changed_at tables.jobs)))
                made;
          cleanup = enqueued-mem trial reason jobs made;
        })

  -- The trial that the clean-up works on: it is the loaded one, terminated and signed.
  sign-entered :
      (changed : Bool) (reason : Option Text) (trial : Trial)
      → ((sign_termination changed actor_user_id reason (enter terminated changed_at trial)).id
          ≡ trial.id)
        × Reads
            (sign_termination changed actor_user_id reason
              (enter terminated changed_at trial)).status
            terminated
        × ((sign_termination changed actor_user_id reason
              (enter terminated changed_at trial)).company_id
            ≡ trial.company_id)
  unfolding sign_termination enter touch_timestamp
  sign-entered changed reason trial = (refl, status_text-Reads terminated, refl)

  signed_facts :
      (changed : Bool) (reason : Option Text) (before after : Trial)
      → apply_status_transition (status_text terminated) changed_at before ≡ ok (changed, after)
      → ((sign_termination changed actor_user_id reason after).id ≡ before.id)
        × Reads (sign_termination changed actor_user_id reason after).status terminated
        × ((sign_termination changed actor_user_id reason after).company_id ≡ before.company_id)
  signed_facts changed reason before after h =
      let (_, target, _, read, _, entered) =
        (apply_status_transition_iff changed_at before (status_text terminated) changed after).0
          h in
      let meant : terminated ≡ target =
        some-injective _ _ (sym (status_text-Reads terminated) ∙ read) in
      let into : after ≡ enter terminated changed_at before = rw meant entered in
      let (kept, ended, company) = sign-entered changed reason before in
      (rw into kept, rw into ended, rw into company)

  -- When a termination returns, the trial was the caller's; its row is terminated, no invitation of it
  -- is pending, the sessions of the other trials are as they were, each job that is of it, by its session, its payload
  -- or its correlation, and is not its clean-up has succeeded or is a dead letter, and its clean-up job is
  -- there. Other sessions are assumed to commit no unfinished job of this trial and its sessions while the
  -- call runs.
  pub terminate_trial_with_cleanup-IsStopped :
      (trial_id : ℕ) (reason : Option Text) (tables : Tables) {trial : Trial} {cleanup_job : Job}
      {tables' : Tables}
      → ((before : Trial)
          → require_owner_for_lifecycle trial_id actor_user_id tables.trials ≡ ok before
          → AddsNoJobOf before.company_id trial_id
              (expire_pending_candidate_sessions trial_id changed_at tables.candidate_sessions)
              meanwhile)
      → terminate_trial_with_cleanup meanwhile id now changed_at trial_id actor_user_id reason
          tables
        ≡ ok ((trial, cleanup_job), tables')
      → ((before : Trial) × (require_owner_for_lifecycle trial_id actor_user_id tables.trials
            ≡ ok before))
        × IsStopped trial_id tables tables' trial cleanup_job
  unfolding terminate_trial_with_cleanup
  terminate_trial_with_cleanup-IsStopped trial_id reason tables {trial} {cleanup_job} {tables'}
        quiet h =
      let (before, owned, rest) =
        >>=-ok (require_owner_for_lifecycle trial_id actor_user_id tables.trials) _ h in
      let ((changed, after), moved, cleaned) =
        >>=-ok (apply_status_transition (status_text terminated) changed_at before) _ rest in
      let signed = sign_termination changed actor_user_id (normalized_reason reason) after in
      let facts = signed_facts changed (normalized_reason reason) before after moved in
      let (present, _) = require_owner-find trial_id actor_user_id tables.trials owned in
      let same : signed.id ≡ trial_id = facts.0 ∙ find-id trial_id tables.trials present in
      let stopped =
        clean_up-IsStopped (normalized_reason reason) signed tables facts.1
          (subst (λ i. find (λ row. row.id == i) tables.trials ≡ some before) (sym same) present)
          (subst
            (λ (i : ℕ).
              AddsNoJobOf signed.company_id i
                (expire_pending_candidate_sessions i changed_at tables.candidate_sessions)
                meanwhile)
            (sym same)
            (subst
              (λ (c : ℕ).
                AddsNoJobOf c trial_id
                  (expire_pending_candidate_sessions trial_id changed_at tables.candidate_sessions)
                  meanwhile)
              (sym facts.2) (quiet before owned)))
          cleaned in
      ((before, owned), subst (λ i. IsStopped i tables tables' trial cleanup_job) same stopped)

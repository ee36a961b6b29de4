-- ===== src/Schedule/Flow/Outcome.antt =====
-- What a call that sets a schedule has found and left.
use tenon_backend.Base.{
  ℕ, ◌≡◌, ◌≢◌, refl, ap, Bool, true, false, not, Option, none, some, List, is_none, arith,
  Bool-cases, inl, inr,
}
use mathlib.Core.Path.{subst}
use tenon_backend.Base.Text.{Text, codes, same_text, same_text_iff}
use tenon_backend.Base.Result.{Result, ok, err, Error, api_error, raise_if, >>=-ok}
use tenon_backend.Json.{Json}
use tenon_backend.Jobs.Model.{Table}
use tenon_backend.Trials.Model.{Trial, CandidateSession}
use tenon_backend.Candidates.Claims.{Principal, is_text, normalize_email}
use tenon_backend.Schedule.Times.{Zone}
use tenon_backend.Schedule.Overrides.{is_truthy}
use tenon_backend.Schedule.Gates.{Task}
use tenon_backend.Schedule.DayClose.{Surroundings, enqueue_day_close_jobs}
use tenon_backend.Schedule.Flow.{
  on_value_error, rescue, invalid_window, schedule_matches, stored_username, set_username,
  require_claimed_ownership, derive_serialized_day_windows, backfill_locked_schedule,
  set_new_schedule,
}
use tenon_backend.Schedule.Flow.Calls.{lock_schedule}

-- The row, its owner and its invitation are the same.
pub record SameRow (session after : CandidateSession) : Type 0 where
  pub id : after.id ≡ session.id
  pub owner : after.candidate_auth0_sub ≡ session.candidate_auth0_sub
  pub invite_email : after.invite_email ≡ session.invite_email

-- The schedule is the one that was locked.
pub record SameSchedule (session after : CandidateSession) : Type 0 where
  pub start : after.scheduled_start_at ≡ session.scheduled_start_at
  pub timezone : after.candidate_timezone ≡ session.candidate_timezone
  pub locked : after.schedule_locked_at ≡ session.schedule_locked_at

-- A schedule is new, or it is the one that was locked.
pub data SetOrSame (now start : ℕ) (timezone : Text) (session after : CandidateSession)
    : Bool → Type 0 where
  newly :
      session.schedule_locked_at ≡ none
      → after.scheduled_start_at ≡ some start
      → after.candidate_timezone ≡ some timezone
      → after.schedule_locked_at ≡ some now
      → SetOrSame now start timezone session after true
  as_locked :
      session.schedule_locked_at ≢ none
      → schedule_matches session start timezone ≡ true
      → SameSchedule session after
      → SetOrSame now start timezone session after false

pub rescue-ok {ℓ} :
    {X : Type ℓ} (handle : Error → Error) (call : Result X) {x : X}
    → rescue handle call ≡ ok x
    → call ≡ ok x
rescue-ok handle (ok y) h = h
rescue-ok handle (err e) h = cc

is_text_eq : (text : Text) (value : Option Text) → is_text text value ≡ true → value ≡ some text
is_text_eq text none h = cc
is_text_eq text (some value) h = ground (arith, same_text_iff value text)

is_none_eq : (value : Option ℕ) → is_none value ≡ true → value ≡ none
is_none_eq none h = refl
is_none_eq (some n) h = cc

not_none : (value : Option ℕ) → is_none value ≡ false → value ≢ none
not_none value h same = let shown = subst (λ v. is_none v ≡ false) same h in cc

pub set_username-SameRow :
    (username : Text) (session : CandidateSession) → SameRow session (set_username username session)
unfolding set_username
set_username-SameRow username session =
    elim (Bool-cases (same_text (stored_username session) username)) [
      | inl known ↦ rw known (record { id = refl; owner = refl; invite_email = refl })
      | inr new ↦ rw new (record { id = refl; owner = refl; invite_email = refl })
    ]

module _ (lower : Text → Text) (zone_info : Text → Option Zone) (from_iso : Text → Option ℕ)
    (tasks : List Task) where
  pub require_claimed_ownership-ok :
      (principal : Principal) (session : CandidateSession) {changed : Bool}
      {owned : CandidateSession}
      → require_claimed_ownership lower principal session ≡ ok (changed, owned)
      → (session.candidate_auth0_sub ≡ some principal.sub)
        × (same_text
              (normalize_email lower (some session.invite_email))
              (normalize_email lower principal.email)
            ≡ true)
        × (owned ≡ record session {
          candidate_auth0_email = some (normalize_email lower principal.email);
          candidate_email = some (normalize_email lower principal.email);
        })
  unfolding require_claimed_ownership
  require_claimed_ownership-ok principal session h =
      ground (arith, is_text_eq principal.sub session.candidate_auth0_sub)

  set_new_schedule-ok :
      (around : Surroundings × Surroundings) (now : ℕ) (trial : Trial) (start : ℕ) (timezone : Text)
      (session : CandidateSession) (jobs : Table) {after : CandidateSession} {jobs' : Table}
      → set_new_schedule lower zone_info from_iso tasks around now trial start timezone session jobs
        ≡ ok (after, jobs')
      → (windows : Json) × (derive_serialized_day_windows zone_info trial start timezone
          ≡ ok windows)
        × (after ≡ record session {
          scheduled_start_at = some start;
          candidate_timezone = some timezone;
          day_windows_json = some windows;
          schedule_locked_at = some now;
        })
  unfolding set_new_schedule
  set_new_schedule-ok around now trial start timezone session jobs h =
      let (windows, derived, rest) =
        >>=-ok (derive_serialized_day_windows zone_info trial start timezone) _ h in
      let (_, _, done) =
        >>=-ok
          (enqueue_day_close_jobs lower zone_info from_iso around now _ (some trial) tasks jobs) _
          rest in
      (windows, derived, cc)

  -- A call for a locked schedule asks for that schedule, and leaves it as it is.
  backfill_locked_schedule-ok :
      (around : Surroundings × Surroundings) (now : ℕ) (trial : Trial) (start : ℕ) (timezone : Text)
      (session : CandidateSession) (jobs : Table) {written : Bool} {after : CandidateSession}
      {jobs' : Table}
      → backfill_locked_schedule lower zone_info from_iso tasks around now trial start timezone
          session jobs
        ≡ ok (written, (after, jobs'))
      → (schedule_matches session start timezone ≡ true)
        × SameSchedule session after
        × SameRow session after
  unfolding backfill_locked_schedule
  backfill_locked_schedule-ok around now trial start timezone session jobs {after = after} h =
      let (_, matched, rest) =
        >>=-ok
          (raise_if (not (schedule_matches session start timezone))
            (api_error 409 (codes "SCHEDULE_ALREADY_SET")))
          _ h in
      let matches : schedule_matches session start timezone ≡ true = ground arith in
      elim (Bool-cases (is_truthy session.day_windows_json)) [
        | inl there ↦
            let kept : session ≡ after = (let shown = rw there at rest in cc) in
            subst
              (λ a.
                (schedule_matches session start timezone ≡ true)
                × SameSchedule session a
                × SameRow session a)
              kept
              (
                matches,
                record { start = refl; timezone = refl; locked = refl },
                record { id = refl; owner = refl; invite_email = refl },
              )
        | inr missing ↦
            let (windows, _, filling) =
              >>=-ok (derive_serialized_day_windows zone_info trial start timezone) _
                (rw missing at rest) in
            let filled = record session { day_windows_json = some windows } in
            let (_, _, done) =
              >>=-ok
                (enqueue_day_close_jobs lower zone_info from_iso around now filled (some trial)
                  tasks jobs)
                _ filling in
            let kept : filled ≡ after = cc in
            subst
              (λ a.
                (schedule_matches session start timezone ≡ true)
                × SameSchedule session a
                × SameRow session a)
              kept
              (
                matches,
                record { start = refl; timezone = refl; locked = refl },
                record { id = refl; owner = refl; invite_email = refl },
              )
      ]

  pub lock_schedule-ok :
      (around : Surroundings × Surroundings) (now : ℕ) (trial : Trial) (start : ℕ) (timezone : Text)
      (session : CandidateSession) (jobs : Table) {created written : Bool}
      {after : CandidateSession} {jobs' : Table}
      → lock_schedule lower zone_info from_iso tasks around now trial start timezone session jobs
        ≡ ok (created, (written, (after, jobs')))
      → SetOrSame now start timezone session after created
        × SameRow session after
        × (created ≡ true → written ≡ true)
  unfolding lock_schedule
  lock_schedule-ok around now trial start timezone session jobs {created} {written} {after} {jobs'}
        h =
      elim (Bool-cases (is_none session.schedule_locked_at)) [
        | inl new ↦
            let ((_, _), caught, done) =
              >>=-ok
                (rescue (on_value_error invalid_window) (
                  set_new_schedule lower zone_info from_iso tasks around now trial start timezone
                    session jobs))
                _ (rw new at h) in
            let (windows, _, made) =
              set_new_schedule-ok around now trial start timezone session jobs
                (rescue-ok _ _ caught) in
            let is_new : true ≡ created = cc in
            let is_written : written ≡ true = cc in
            let is_made : after ≡ record session {
              scheduled_start_at = some start;
              candidate_timezone = some timezone;
              day_windows_json = some windows;
              schedule_locked_at = some now;
            } =
              cc in
            subst
              (λ c.
                SetOrSame now start timezone session after c
                × SameRow session after
                × (c ≡ true → written ≡ true))
              is_new
              (
                newly (is_none_eq session.schedule_locked_at new)
                    (ap (λ s. s.scheduled_start_at) is_made)
                    (ap (λ s. s.candidate_timezone) is_made)
                    (ap (λ s. s.schedule_locked_at) is_made),
                record {
                  id = ap (λ s. s.id) is_made;
                  owner = ap (λ s. s.candidate_auth0_sub) is_made;
                  invite_email = ap (λ s. s.invite_email) is_made;
                },
                λ _. is_written,
              )
        | inr locked ↦
            let ((_, _), kept, done) =
              >>=-ok
                (backfill_locked_schedule lower zone_info from_iso tasks around now trial start
                  timezone session jobs)
                _ (rw locked at h) in
            let is_old : false ≡ created = cc in
            let (matches, schedule, row) =
              backfill_locked_schedule-ok around now trial start timezone session jobs
                {written = written} {after = after} {jobs' = jobs'} cc in
            subst
              (λ c.
                SetOrSame now start timezone session after c
                × SameRow session after
                × (c ≡ true → written ≡ true))
              is_old
              (
                as_locked (not_none session.schedule_locked_at locked) matches schedule,
                row,
                λ h. cc,
              )
      ]

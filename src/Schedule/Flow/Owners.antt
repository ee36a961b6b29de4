-- ===== src/Schedule/Flow/Owners.antt =====
-- Who sets a schedule, of which invitation, and what is stored.
use tenon_backend.Base.{
  ℕ, ◌≡◌, ◌≤◌, ◌⊎◌, refl, sym, ap, ◌∙◌, Bool, true, false, not, ◌&&◌, ◌||◌, Option, some, List, ltb,
  arith, if◌then◌else◌, Bool-cases, inl, inr,
}
use mathlib.Core.Path.{subst}
use tenon_backend.Base.Text.{Text, codes, strip, same_text}
use tenon_backend.Base.Result.{ok, api_error, raise_if, >>=-ok}
use tenon_backend.Jobs.Model.{Table}
use tenon_backend.Jobs.Shared.{is_empty}
use tenon_backend.Trials.Model.{Trial, CandidateSession}
use tenon_backend.Candidates.Claims.{
  Principal, get_by_token, is_open, trial_of, is_expired, fetch_by_token, normalize_email,
  store_session,
}
use tenon_backend.Candidates.Claims.Owners.{fetch_by_token-ok}
use tenon_backend.Schedule.Times.{Zone, validate_timezone}
use tenon_backend.Schedule.Windows.{zone_or_raise}
use tenon_backend.Schedule.Gates.{Task}
use tenon_backend.Schedule.DayClose.{Surroundings}
use tenon_backend.Schedule.Flow.{
  validate_and_normalize_github_username, ProposedStart, normalize_proposed_start, on_gone,
  on_value_error, rescue, invalid_timezone, Scheduled, stored_username, set_username,
  require_claimed_ownership, schedule_matches,
}
use tenon_backend.Schedule.Flow.Calls.{
  trial_or_raise, lock_schedule, schedule_found, schedule_candidate_session,
}
use tenon_backend.Schedule.Flow.Outcome.{
  SameRow, SameSchedule, SetOrSame, newly, as_locked, rescue-ok, require_claimed_ownership-ok,
  lock_schedule-ok,
}

-- The fields of a schedule are not written before it is locked.
pub record SameLock (session before : CandidateSession) : Type 0 where
  pub row : SameRow session before
  pub schedule : SameSchedule session before

set_username-SameLock :
    (username : Text) (session : CandidateSession)
    → SameLock session (set_username username session)
unfolding set_username
set_username-SameLock username session =
    elim (Bool-cases (same_text (stored_username session) username)) [
      | inl known ↦ rw known (record {
        row = record { id = refl; owner = refl; invite_email = refl };
        schedule = record { start = refl; timezone = refl; locked = refl };
      })
      | inr new ↦ rw new (record {
        row = record { id = refl; owner = refl; invite_email = refl };
        schedule = record { start = refl; timezone = refl; locked = refl };
      })
    ]

SameRow-trans : {a b c : CandidateSession} → SameRow a b → SameRow b c → SameRow a c
SameRow-trans s t = record {
  id = t.id ∙ s.id;
  owner = t.owner ∙ s.owner;
  invite_email = t.invite_email ∙ s.invite_email;
}

SameSchedule-trans :
    {a b c : CandidateSession} → SameSchedule a b → SameSchedule b c → SameSchedule a c
SameSchedule-trans s t = record {
  start = t.start ∙ s.start;
  timezone = t.timezone ∙ s.timezone;
  locked = t.locked ∙ s.locked;
}

schedule_matches-SameSchedule :
    (session before : CandidateSession) (start : ℕ) (timezone : Text)
    → SameSchedule session before
    → schedule_matches before start timezone ≡ schedule_matches session start timezone
unfolding schedule_matches
schedule_matches-SameSchedule session before start timezone s =
    let matches_at : Option ℕ → Option Text → Bool = (λ a t.
      schedule_matches (record session { scheduled_start_at = a; candidate_timezone = t }) start
        timezone) in
    ap (λ a. matches_at a before.candidate_timezone) s.start
    ∙ ap (λ t. matches_at session.scheduled_start_at t) s.timezone

SetOrSame-before :
    {now start : ℕ} {timezone : Text} {session before after : CandidateSession} {created : Bool}
    → SameSchedule session before
    → SetOrSame now start timezone before after created
    → SetOrSame now start timezone session after created
SetOrSame-before s (newly none_before a b c) = newly (sym s.locked ∙ none_before) a b c
SetOrSame-before {now} {start} {timezone} {session} {before} s (as_locked some_before m t) =
    as_locked (λ h. some_before (s.locked ∙ h))
      (sym (schedule_matches-SameSchedule session before start timezone s) ∙ m)
      (SameSchedule-trans s t)

-- What a call that sets a schedule, or meets one, has found and left.
pub record IsScheduled (lower : Text → Text) (token : Text) (principal : Principal) (now : ℕ)
    (trials : List Trial) (sessions : List CandidateSession) (result : Scheduled) : Type 0 where
  pub found : CandidateSession
  pub start : ℕ
  pub timezone : Text
  pub by_token : get_by_token token trials sessions ≡ some found
  pub live : is_open (trial_of trials found) ≡ true
  pub in_time : is_expired now found.expires_at ≡ false
  pub same_email :
      same_text
        (normalize_email lower (some found.invite_email))
        (normalize_email lower principal.email)
      ≡ true
  pub owner : found.candidate_auth0_sub ≡ some principal.sub
  pub row : SameRow found result.candidate_session
  pub schedule : SetOrSame now start timezone found result.candidate_session result.created
  pub ahead : now ≤ start
  pub stored :
      (result.sessions ≡ store_session result.candidate_session sessions)
      ⊎ ((result.sessions ≡ sessions) × (result.created ≡ false))

commits_when : (a b c : Bool) → c ≡ true → (a || (b || c)) ≡ true
commits_when a b c h = ground arith

-- Both outcomes of the commit.
stored_or_kept :
    (b created : Bool) (after : CandidateSession) (sessions : List CandidateSession)
    → (created ≡ true → b ≡ true)
    → ((if b then store_session after sessions else sessions) ≡ store_session after sessions)
      ⊎ (((if b then store_session after sessions else sessions) ≡ sessions) × (created ≡ false))
stored_or_kept true created after sessions writes = inl refl
stored_or_kept false true after sessions writes = let bad = writes refl in cc
stored_or_kept false false after sessions writes = inr (refl, refl)

module _ (lower : Text → Text) (zone_info : Text → Option Zone) (from_iso : Text → Option ℕ)
    (tasks : List Task) (around : Surroundings × Surroundings) (now : ℕ) (token : Text)
    (principal : Principal) (trials : List Trial) (sessions : List CandidateSession) where
  schedule_found-IsScheduled :
      (trial : Trial) (start : ℕ) (timezone username : Text) (session : CandidateSession)
      (jobs : Table) {result : Scheduled}
      → fetch_by_token now token trials sessions ≡ ok session
      → schedule_found lower zone_info from_iso tasks around now principal trial start timezone
          username session sessions jobs
        ≡ ok result
      → IsScheduled lower token principal now trials sessions result
  unfolding schedule_found
  schedule_found-IsScheduled trial start timezone username session jobs {result} fetched h =
      let (by_token, live, in_time) = fetch_by_token-ok now token trials sessions fetched in
      let (_, early, a) =
        >>=-ok (raise_if (ltb start now) (api_error 422 (codes "SCHEDULE_START_IN_PAST"))) _ h in
      let ((changed, owned), required, b) =
        >>=-ok (require_claimed_ownership lower principal session) _ a in
      let existing = stored_username owned in
      let (_, matched, c) =
        >>=-ok
          (raise_if (not (is_empty existing) && not (same_text existing username))
            (api_error 409 (codes "GITHUB_USERNAME_MISMATCH")))
          _ b in
      let named = set_username username owned in
      let ((created, (written, (after, jobs'))), locked, done) =
        >>=-ok
          (lock_schedule lower zone_info from_iso tasks around now trial start timezone named jobs)
          _ c in
      let (owner, same_email, is_owned) =
        require_claimed_ownership-ok lower zone_info from_iso tasks principal session required in
      let (schedule, row, writes) =
        lock_schedule-ok lower zone_info from_iso tasks around now trial start timezone named jobs
          locked in
      let own : SameLock session owned = subst (SameLock session) (sym is_owned) (record {
        row = record { id = refl; owner = refl; invite_email = refl };
        schedule = record { start = refl; timezone = refl; locked = refl };
      }) in
      let given = set_username-SameLock username owned in
      let commits = changed || (not (same_text existing username) || written) in
      let answer : Scheduled = record {
        candidate_session = after;
        created = created;
        sessions = if commits then store_session after sessions else sessions;
        jobs = jobs';
      } in
      let made : answer ≡ result = cc in
      subst (IsScheduled lower token principal now trials sessions) made (record {
        found = session;
        start = start;
        timezone = timezone;
        by_token = by_token;
        live = live;
        in_time = in_time;
        same_email = same_email;
        owner = owner;
        row = SameRow-trans (SameRow-trans own.row given.row) row;
        schedule = SetOrSame-before (SameSchedule-trans own.schedule given.schedule) schedule;
        ahead = ground arith;
        stored = stored_or_kept commits created after sessions (λ is_new.
            commits_when changed (not (same_text existing username)) written (writes is_new));
      })

  -- A call that sets a schedule, or meets one, has found an invitation under the token, of a trial that is
  -- not terminated, not expired, whose address and whose owner are the caller's, and a start that is not
  -- in the past. Either the invitation had no schedule, and it is locked now with that start, at the
  -- instant of the call, and stored; or it had that one, which it keeps.
  pub schedule_candidate_session-IsScheduled :
      (proposed : ProposedStart) (candidate_timezone : Text) (github_username : Option Text)
      (jobs : Table) {result : Scheduled}
      → schedule_candidate_session lower zone_info from_iso tasks around now token principal
          proposed candidate_timezone github_username trials sessions jobs
        ≡ ok result
      → IsScheduled lower token principal now trials sessions result
  unfolding schedule_candidate_session
  schedule_candidate_session-IsScheduled proposed candidate_timezone github_username jobs h =
      let (username, _, a) = >>=-ok (validate_and_normalize_github_username github_username) _ h in
      let (timezone, _, b) =
        >>=-ok
          (rescue (on_value_error invalid_timezone)
            (validate_timezone zone_info (strip candidate_timezone)))
          _ a in
      let (session, fetched, c) =
        >>=-ok (rescue on_gone (fetch_by_token now token trials sessions)) _ b in
      let (trial, _, d) = >>=-ok (trial_or_raise (trial_of trials session)) _ c in
      let (zone, _, e) = >>=-ok (zone_or_raise zone_info timezone) _ d in
      schedule_found-IsScheduled trial (normalize_proposed_start zone proposed trial) timezone
        username session jobs (rescue-ok on_gone (fetch_by_token now token trials sessions) fetched)
        e

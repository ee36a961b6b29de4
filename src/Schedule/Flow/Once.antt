-- ===== src/Schedule/Flow/Once.antt =====
-- A schedule is set once.
use tenon_backend.Base.{ℕ, ◌≡◌, sym, ◌∙◌, Bool, Option, some, List, All, inl, inr}
use mathlib.Core.Path.{subst}
use mathlib.Core.Option.{none-ne-some}
use tenon_backend.Base.Text.{Text}
use tenon_backend.Base.Result.{ok}
use tenon_backend.Jobs.Model.{Table}
use tenon_backend.Trials.Model.{Trial, CandidateSession}
use tenon_backend.Candidates.Claims.{Principal, get_by_token}
use tenon_backend.Candidates.Claims.Owners.{All-find, All-store_session}
use tenon_backend.Schedule.Times.{Zone}
use tenon_backend.Schedule.Gates.{Task}
use tenon_backend.Schedule.DayClose.{Surroundings}
use tenon_backend.Schedule.Flow.{ProposedStart, Scheduled}
use tenon_backend.Schedule.Flow.Calls.{schedule_candidate_session}
use tenon_backend.Schedule.Flow.Outcome.{SameRow, SetOrSame, newly, as_locked}
use tenon_backend.Schedule.Flow.Owners.{schedule_candidate_session-IsScheduled}

-- The invitation of the id, if there is one, is the owner's, with this schedule, locked at this instant.
abbrev pub HasSchedule : ℕ → Text → ℕ → Text → ℕ → CandidateSession → Type 0
HasSchedule id owner start timezone at session =
    session.id ≡ id
    → (session.candidate_auth0_sub ≡ some owner)
      × (session.scheduled_start_at ≡ some start)
      × (session.candidate_timezone ≡ some timezone)
      × (session.schedule_locked_at ≡ some at)

module _ (lower : Text → Text) (zone_info : Text → Option Zone) (from_iso : Text → Option ℕ) where
  -- Calls that return, one after the other, by anyone, at any times and with any arguments.
  pub data Calls (before : List CandidateSession) : List CandidateSession → Type 0 where
    begin : Calls before before
    call :
        {sessions : List CandidateSession} {result : Scheduled} (tasks : List Task)
        (around : Surroundings × Surroundings) (now : ℕ) (token : Text) (principal : Principal)
        (proposed : ProposedStart) (timezone : Text) (username : Option Text) (trials : List Trial)
        (jobs : Table)
        → Calls before sessions
        → schedule_candidate_session lower zone_info from_iso tasks around now token principal
            proposed timezone username trials sessions jobs
          ≡ ok result
        → Calls before result.sessions

  module _ (id : ℕ) (owner : Text) (start : ℕ) (timezone : Text) (at : ℕ) where
    -- What a call leaves of an invitation with a schedule.
    SetOrSame-HasSchedule :
        {now asked : ℕ} {zone : Text} {session after : CandidateSession} {created : Bool}
        → SameRow session after
        → HasSchedule id owner start timezone at session
        → SetOrSame now asked zone session after created
        → HasSchedule id owner start timezone at after
    SetOrSame-HasSchedule {session = session} row has (newly unset a b c) same_id =
        let (_, _, _, locked) = has (sym row.id ∙ same_id) in
        absurd (none-ne-some at (sym unset ∙ locked))
    SetOrSame-HasSchedule row has (as_locked _ _ kept) same_id =
        let (own, began, zoned, locked) = has (sym row.id ∙ same_id) in
        (row.owner ∙ own, kept.start ∙ began, kept.timezone ∙ zoned, kept.locked ∙ locked)

    -- Once an invitation has a schedule, no sequence of calls by anyone changes the schedule, the instant of
    -- its lock, or the owner.
    pub Calls-HasSchedule :
        {before sessions : List CandidateSession}
        → Calls before sessions
        → All (HasSchedule id owner start timezone at) before
        → All (HasSchedule id owner start timezone at) sessions
    unfolding get_by_token
    Calls-HasSchedule begin all = all
    Calls-HasSchedule
          (call {sessions} {result} tasks around now token principal proposed zone username trials
            jobs calls h)
          all =
        let earlier = Calls-HasSchedule calls all in
        let done =
          schedule_candidate_session-IsScheduled lower zone_info from_iso tasks around now token
            principal trials sessions proposed zone username jobs h in
        let has =
          All-find (HasSchedule id owner start timezone at) _ sessions earlier done.by_token in
        let holds = SetOrSame-HasSchedule done.row has done.schedule in
        elim done.stored [
          | inl stored ↦ subst (All (HasSchedule id owner start timezone at)) (sym stored) (
              All-store_session (HasSchedule id owner start timezone at) result.candidate_session
                sessions holds earlier)
          | inr (kept, _) ↦ subst (All (HasSchedule id owner start timezone at)) (sym kept) earlier
        ]

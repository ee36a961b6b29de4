-- ===== src/Lib.antt =====
-- A verification library of the Winoe backend (tenon-backend), the server of an asynchronous hiring
-- trial platform. It models the durable background jobs, which the other parts of the server
-- rely on, the worker that runs them, the lifecycle of a trial with its termination, which cancels jobs
-- and invitations, the claim of an invitation by a candidate, the schedule that the candidate sets once,
-- whose windows open and close the tasks and time the jobs that close the days, the candidate's progress
-- through the tasks, the checks on a submission, and the rate limiter in front of the public routes.
--
-- Parts and files.
-- * `Base` holds the shared names; `Base/Text` models Python's `str` as a list of code points with the
--   methods that the program uses; `Base/Result` models exceptions as values; `Json` models the
--   payloads and the size of their encoding.
-- * `Jobs` models app/shared/jobs/repositories: `Jobs/Model` is the row of `jobs`, `Jobs/Rows` what a
--   SELECT, an UPDATE and an INSERT do to the rows, `Jobs/Shared`, `Jobs/Create`, `Jobs/Bulk`, `Jobs/Claim`
--   and `Jobs/Status` the operations, one definition for each function of the same name, and `Jobs/Lookup`
--   who may see a job; `Jobs/Heartbeats` is the workers' signs of life.
--   `Jobs/Flush` is what the flush of a loaded job writes. `Jobs/Steps` has each statement that writes
--   as one step, so its runs are the interleavings of all workers and requests; the modules below it relate
--   the operations to the steps.
-- * `Worker` models app/shared/jobs/worker_runtime: `Worker/Backoff` the delays of retries,
--   `Worker/RunOnce` one round of a worker, `Worker/Retries` the rounds of a job that keeps failing.
-- * `Trials` models the lifecycle services of app/trials/services: `Trials/Model` is the rows,
--   `Trials/Status` the statuses and `apply_status_transition`, `Trials/Actions` the owner's changes of the
--   status, `Trials/Termination` the owner's termination, which expires sessions, cancels jobs and
--   queues the clean-up job through `Jobs/Create`.
-- * `Candidates/Claims` models the claim of an invitation in app/candidates/candidate_sessions,
--   `Candidates/Owned` how a candidate's request finds its session, and
--   `Candidates/Progress` the current task and the completion of a candidate's days.
-- * `Schedule` models the candidate's schedule in the same folder: `Schedule/Times` and
--   `Schedule/Overrides` read times, zones and the owner's times for single days, `Schedule/Windows`
--   derives the windows of the days, `Schedule/Serial` keeps them in a row, `Schedule/Current` finds
--   the current one, and `Schedule/Gates` opens and closes the tasks and the content by them.
--   `Schedule/Flow` is the candidate's call that sets the schedule, and `Schedule/DayClose` the jobs that
--   it queues through `Jobs/Bulk` for the ends of the windows.
-- * `Submissions/Order` models the checks on a submission in app/submissions before its content is looked at.
-- * `RateLimit/Limiter` models `RateLimiter` of app/shared/auth/rate_limit, with `Base/Dict` for its
--   dictionaries; a call is one step, since the limiter awaits nothing while it changes.
--
-- Choices. The table is a list of rows in no particular order; a `datetime` is the microseconds since
-- the first instant that Python represents, and a difference that Python refuses with an
-- OverflowError, because it is before that instant, is the first instant. The model's table is what the
-- calling session sees; what other sessions commit between two statements is an argument (`world`,
-- `meanwhile`). A commit and a flush differ only in what others see, so the flag `commit` matters where
-- the source takes another path by it. Fresh ids (`uuid4`), the clock and `str.lower` are arguments.
-- A job that is loaded, changed and flushed is written by its id and in the changed columns alone, whatever
-- has become of the row; so is a candidate's session, whose second read gives the object of the first.
-- The rows of `trials` and `candidate_sessions` are otherwise changed by one request at a time. A trial's
-- flush checks the constraints of its table.
-- Numbers in payloads are integers. The database of time zones and `datetime.fromisoformat` are
-- arguments, and so are the zones' local times; `str.isdigit` is read as the ASCII digits. The columns'
-- `onupdate` clocks and log lines are left out, and so is the e-mail that confirms a schedule.
-- Bounds and fuel: the eight rounds of a claim are the source's own; the digits of a number are
-- computed with the number itself as fuel, which is enough since each round divides it by ten; a date
-- is searched in 9999 years and 12 months, which are all that Python represents.
-- Other sessions' commits are not placed between the look-up and the flush in the calls of `Jobs/Bulk`, or
-- between the selection of the jobs that a termination cancels and their flush.
-- The cancellation of jobs by a termination is a write outside app/shared/jobs, and no step of
-- `Jobs/Steps`, to which the calls of `Jobs/Bulk` are not related either.
-- Not modelled: the HTTP layer, media, evaluations, integrations, notifications and migrations, which
-- the manifest lists.
pub mod Base
pub mod Json
pub mod Jobs
pub mod Worker
pub mod Trials
pub mod RateLimit
pub mod Candidates
pub mod Schedule
pub mod Submissions

-- ===== src/Jobs/Model.antt =====
-- app/shared/jobs/repositories/shared_jobs_repositories_models_repository.py: the row of `jobs`.
-- A `datetime` is the microseconds since the first instant that Python can represent.
use tenon_backend.Base.{ℕ, Bool, true, false, Option, List}
use tenon_backend.Base.Text.{Text}
use tenon_backend.Json.{Fields}

pub data JobStatus : Type 0 where
  queued running succeeded dead_letter : JobStatus

abbrev pub is_queued : JobStatus → Bool
is_queued queued = true
is_queued _ = false

abbrev pub is_running : JobStatus → Bool
is_running running = true
is_running _ = false

abbrev pub is_dead_letter : JobStatus → Bool
is_dead_letter dead_letter = true
is_dead_letter _ = false

-- `TERMINAL_JOB_STATUSES`
abbrev pub is_terminal : JobStatus → Bool
is_terminal succeeded = true
is_terminal dead_letter = true
is_terminal _ = false

pub record Job : Type 0 where
  pub id : Text
  pub job_type : Text
  pub status : JobStatus
  pub attempt : ℕ
  pub max_attempts : ℕ
  pub idempotency_key : Text
  pub payload_json : Fields
  pub result_json : Option Fields
  pub last_error : Option Text
  pub created_at : ℕ
  pub updated_at : ℕ
  pub next_run_at : Option ℕ
  pub locked_at : Option ℕ
  pub locked_by : Option Text
  pub correlation_id : Option Text
  pub company_id : ℕ
  pub candidate_session_id : Option ℕ

-- The table, its rows in no particular order.
abbrev pub Table : Type 0
Table = List Job

-- `timedelta(seconds=1)`
abbrev pub second : ℕ
second = 1_000_000

-- ===== src/Jobs/Flush.antt =====
-- What a flush of the session writes of a job that it has loaded and changed: the columns whose values
-- differ from the loaded ones, under the row's id and under no other condition. The functions of
-- shared_jobs_repositories_repository_create_update_repository.py and
-- shared_jobs_repositories_repository_dead_letter_repository.py, in app/shared/jobs/repositories, write
-- so; another session may have changed the row since it was loaded.
use tenon_backend.Base.{ℕ, Bool, true, false, Option, none, some, not, ◌==◌, if◌then◌else◌}
use tenon_backend.Base.Text.{same_text}
use tenon_backend.Json.{same_fields}
use tenon_backend.Jobs.Model.{Job, Table}
use tenon_backend.Jobs.Rows.{update_where}

abbrev pub same_option : {A : Type 0} → (A → A → Bool) → Option A → Option A → Bool
same_option same none none = true
same_option same (some a) (some b) = same a b
same_option same _ _ = false

abbrev pub same_number : ℕ → ℕ → Bool
same_number m n = m == n

-- The columns, besides the status, that a change of a job may write.
pub record Columns : Type 0 where
  pub max_attempts : Bool
  pub payload_json : Bool
  pub result_json : Bool
  pub last_error : Bool
  pub updated_at : Bool
  pub next_run_at : Bool
  pub locked_at : Bool
  pub locked_by : Bool
  pub correlation_id : Bool
  pub candidate_session_id : Bool

-- The columns in which a changed job differs from the loaded one.
unfoldable pub changed_columns : Job → Job → Columns
changed_columns job changed = record {
  max_attempts = not (job.max_attempts == changed.max_attempts);
  payload_json = not (same_fields job.payload_json changed.payload_json);
  result_json = not (same_option same_fields job.result_json changed.result_json);
  last_error = not (same_option same_text job.last_error changed.last_error);
  updated_at = not (job.updated_at == changed.updated_at);
  next_run_at = not (same_option same_number job.next_run_at changed.next_run_at);
  locked_at = not (same_option same_number job.locked_at changed.locked_at);
  locked_by = not (same_option same_text job.locked_by changed.locked_by);
  correlation_id = not (same_option same_text job.correlation_id changed.correlation_id);
  candidate_session_id =
      not (same_option same_number job.candidate_session_id changed.candidate_session_id);
}

-- The row after the flush. The status is the only column that the code sets to a fixed value, other
-- than the loaded one, or leaves alone.
unfoldable pub flushed : Columns → (Job → Job) → Job → Job
flushed columns change job =
    let changed = change job in
    record job {
      status = changed.status;
      max_attempts = if columns.max_attempts then changed.max_attempts else job.max_attempts;
      payload_json = if columns.payload_json then changed.payload_json else job.payload_json;
      result_json = if columns.result_json then changed.result_json else job.result_json;
      last_error = if columns.last_error then changed.last_error else job.last_error;
      updated_at = if columns.updated_at then changed.updated_at else job.updated_at;
      next_run_at = if columns.next_run_at then changed.next_run_at else job.next_run_at;
      locked_at = if columns.locked_at then changed.locked_at else job.locked_at;
      locked_by = if columns.locked_by then changed.locked_by else job.locked_by;
      correlation_id =
          if columns.correlation_id then changed.correlation_id else job.correlation_id;
      candidate_session_id =
          if columns.candidate_session_id
          then changed.candidate_session_id
          else job.candidate_session_id;
    }

-- The flush of a loaded job that was changed.
unfoldable pub flush : (Job → Job) → Job → Table → Table
flush change job =
    update_where (λ row. same_text row.id job.id)
      (flushed (changed_columns job (change job)) change)

-- ===== src/Jobs/Shared.antt =====
-- app/shared/jobs/repositories/shared_jobs_repositories_repository_shared_repository.py and
-- shared_jobs_repositories_repository_specs_repository.py: the checks on a new job, the texts of
-- errors, and the rows that specifications make.
use tenon_backend.Base.{
  ℕ, ◌*◌, Bool, true, false, ◌&&◌, Option, none, some, List, [], ◌∷◌, ltb, is_none, or_else, take,
}
use tenon_backend.Base.Text.{Text, codes, strip, join_words, split_words}
use tenon_backend.Base.Result.{Result, ok, value_error, raise_if, ◌>>=◌, ◌>>◌}
use tenon_backend.Json.{Fields, object, encoded_size}
use tenon_backend.Jobs.Model.{Job, queued, is_queued}

abbrev pub max_job_payload_bytes : ℕ
max_job_payload_bytes = 64 * 1024

abbrev pub max_job_error_chars : ℕ
max_job_error_chars = 2048

unfoldable pub validate_payload_size : Fields → Result (Unit {0})
validate_payload_size payload_json =
    raise_if (ltb max_job_payload_bytes (encoded_size (object payload_json)))
      (value_error (codes "payload_json exceeds 65536 bytes"))

unfoldable pub sanitize_error : Text → Text
sanitize_error error_str = take max_job_error_chars (join_words (split_words error_str))

abbrev pub is_empty : Text → Bool
is_empty [] = true
is_empty (c ∷ s) = false

unfoldable pub normalize_idempotent_create_inputs : Text → Text → ℕ → Result (Text × Text)
normalize_idempotent_create_inputs job_type idempotency_key max_attempts = do
  let normalized_type = strip job_type
  let normalized_key = strip idempotency_key
  raise_if (is_empty normalized_type) (value_error (codes "job_type is required"))
  raise_if (is_empty normalized_key) (value_error (codes "idempotency_key is required"))
  raise_if (ltb max_attempts 1) (value_error (codes "max_attempts must be >= 1"))
  ok (normalized_type, normalized_key)

unfoldable pub is_mutable_idempotent_job : Job → Bool
is_mutable_idempotent_job job =
    is_queued job.status && (is_none job.locked_at && is_none job.locked_by)

pub record IdempotentJobSpec : Type 0 where
  pub job_type : Text
  pub idempotency_key : Text
  pub payload_json : Fields
  pub candidate_session_id : Option ℕ
  pub max_attempts : ℕ
  pub correlation_id : Option Text
  pub next_run_at : Option ℕ

-- `now` is `datetime.now(UTC)`.
unfoldable pub apply_idempotent_job_updates : ℕ → IdempotentJobSpec → Job → Job
apply_idempotent_job_updates now spec job = record job {
  payload_json = spec.payload_json;
  candidate_session_id = spec.candidate_session_id;
  max_attempts = spec.max_attempts;
  correlation_id = spec.correlation_id;
  next_run_at = some (or_else spec.next_run_at now);
}

unfoldable pub normalize_spec : IdempotentJobSpec → Result IdempotentJobSpec
normalize_spec spec = do
  (normalized_type, normalized_key) ←
      normalize_idempotent_create_inputs spec.job_type spec.idempotency_key spec.max_attempts
  validate_payload_size spec.payload_json
  ok (record spec { job_type = normalized_type; idempotency_key = normalized_key })

unfoldable pub normalize_many_specs : List IdempotentJobSpec → Result (List IdempotentJobSpec)
normalize_many_specs [] = ok []
normalize_many_specs (spec ∷ specs) = do
  normalized ← normalize_spec spec
  rest ← normalize_many_specs specs
  ok (normalized ∷ rest)

-- The row's `id` is a fresh `uuid4`, and its `created_at` and `updated_at` are the server's clock.
unfoldable pub job_from_spec : Text → ℕ → ℕ → IdempotentJobSpec → Job
job_from_spec id now company_id spec = record {
  id = id;
  job_type = spec.job_type;
  status = queued;
  attempt = 0;
  max_attempts = spec.max_attempts;
  idempotency_key = spec.idempotency_key;
  payload_json = spec.payload_json;
  result_json = none;
  last_error = none;
  created_at = now;
  updated_at = now;
  next_run_at = some (or_else spec.next_run_at now);
  locked_at = none;
  locked_by = none;
  correlation_id = spec.correlation_id;
  company_id = company_id;
  candidate_session_id = spec.candidate_session_id;
}

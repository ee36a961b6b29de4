-- ===== src/Jobs/Bulk/Tests.antt =====
-- Three jobs at once: one is there, another session makes one meanwhile, and one is new.
use tenon_backend.Base.{ℕ, ◌==◌, ◌≡◌, refl, true, none, some, List, [], ◌∷◌, if◌then◌else◌}
use tenon_backend.Base.Text.{Text, codes, same_text, strip, lstrip, is_space}
use tenon_backend.Base.Result.{ok}
use tenon_backend.Json.{no_fields, encoded_size}
use tenon_backend.Jobs.Model.{Job, Table}
use tenon_backend.Jobs.Rows.{update_where, conflicts, has_key, insert_row}
use tenon_backend.Jobs.Shared.{
  IdempotentJobSpec, normalize_spec, normalize_many_specs, normalize_idempotent_create_inputs,
  validate_payload_size, job_from_spec, is_mutable_idempotent_job, apply_idempotent_job_updates,
}
use tenon_backend.Json.{same_json}
use tenon_backend.Jobs.Flush.{flush, flushed, changed_columns}
use tenon_backend.Jobs.Create.{
  update_existing_if_mutable, insert_commit_or_get_existing, insert_or_get_existing,
  load_idempotent_job,
}
use tenon_backend.Jobs.Bulk.{
  job_of, set_job, is_wanted, map_rows, load_idempotent_jobs_for_keys, update_map,
  apply_updates_to_existing, insert_rows, recover_per_key, recover_bulk_insert_conflicts,
  resolve_jobs_in_order, create_or_update_many_normalized, create_or_update_many_idempotent,
}
use tenon_backend.Jobs.Bulk.Answers.{Answers, create_or_update_many_idempotent-Answers}

abbrev spec_for : Text → IdempotentJobSpec
spec_for key = record {
  job_type = codes "report";
  idempotency_key = key;
  payload_json = no_fields;
  candidate_session_id = none;
  max_attempts = 3;
  correlation_id = none;
  next_run_at = some 40;
}

abbrev specs : List IdempotentJobSpec
specs = spec_for (codes "k") ∷ spec_for (codes "n ") ∷ spec_for (codes "m") ∷ []

abbrev normal : List IdempotentJobSpec
normal = spec_for (codes "k") ∷ spec_for (codes "n") ∷ spec_for (codes "m") ∷ []

abbrev there : Job
there = job_from_spec (codes "a") 10 1 (record (spec_for (codes "k")) { max_attempts = 9 })

abbrev theirs : Job
theirs = job_from_spec (codes "b") 11 1 (spec_for (codes "n"))

abbrev updated : Job
updated = apply_idempotent_job_updates 20 (spec_for (codes "k")) there

abbrev made : Job
made = job_from_spec (codes "c") 20 1 (spec_for (codes "m"))

unfoldable world : ℕ → Table → Table
world n jobs = if n == 0 then theirs ∷ jobs else jobs

unfoldable ids : ℕ → Text
ids n = codes "c"

normalized : normalize_many_specs specs ≡ ok normal
unfolding normalize_many_specs normalize_spec normalize_idempotent_create_inputs
    validate_payload_size encoded_size strip lstrip is_space
normalized = refl

many :
    create_or_update_many_idempotent true world ids 20 1 specs (there ∷ [])
    ≡ ok (updated ∷ theirs ∷ made ∷ [], made ∷ theirs ∷ updated ∷ [])
unfolding create_or_update_many_idempotent create_or_update_many_normalized normalize_many_specs
    normalize_spec normalize_idempotent_create_inputs validate_payload_size encoded_size strip
    lstrip is_space load_idempotent_jobs_for_keys map_rows set_job is_wanted
    apply_updates_to_existing job_of update_existing_if_mutable is_mutable_idempotent_job
    apply_idempotent_job_updates update_where recover_bulk_insert_conflicts insert_rows insert_row
    conflicts has_key job_from_spec recover_per_key insert_commit_or_get_existing
    insert_or_get_existing load_idempotent_job update_map resolve_jobs_in_order same_text world ids
    flush flushed changed_columns same_json
many = refl

create_or_update_many_idempotent-Answers_example :
    (normalized : List IdempotentJobSpec) × (normalize_many_specs specs ≡ ok normalized)
    × Answers 1 normalized (updated ∷ theirs ∷ made ∷ [])
create_or_update_many_idempotent-Answers_example =
    create_or_update_many_idempotent-Answers true world ids 20 1 specs (there ∷ []) many

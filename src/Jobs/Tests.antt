-- ===== src/Jobs/Tests.antt =====
-- Small tables, and the theorems of the job repositories at them.
use tenon_backend.Base.{ℕ, ◌*◌, ◌≡◌, refl, true, false, none, some, List, [], ◌∷◌, arith}
use tenon_backend.Base.Text.{Text, codes, same_text, strip, split_words, join_words, is_space}
use tenon_backend.Base.Result.{ok}
use tenon_backend.Json.{no_fields, encoded_size, field, string}
use tenon_backend.Jobs.Model.{dead_letter, Job, Table, queued, running, second}
use tenon_backend.Jobs.Rows.{
  get_by_id, update_where, rowcount, IsUnique, conflicts, has_key, insert_row,
}
use tenon_backend.Json.{same_json}
use tenon_backend.Jobs.Flush.{flush, flushed, changed_columns}
use tenon_backend.Jobs.Shared.{
  IdempotentJobSpec, normalize_spec, normalize_idempotent_create_inputs, validate_payload_size,
  sanitize_error, job_from_spec, is_mutable_idempotent_job, apply_idempotent_job_updates,
}
use tenon_backend.Jobs.Create.{
  create_or_get_idempotent, create_or_update_idempotent, create_or_update_normalized,
  update_existing_if_mutable, update_and_refresh, insert_commit_or_get_existing,
  insert_nested_or_get_existing, insert_or_get_existing, load_idempotent_job,
}
use tenon_backend.Jobs.Create.Laws.{create_or_get_idempotent-again}
use tenon_backend.Jobs.Claim.{
  claim_filter, claim_values, claim_rounds, claim_next_runnable, select_candidate, first_in_order,
  runnable_filter, in_order,
}
use tenon_backend.Jobs.Claim.Quiet.{quiet, Claimed, claim_next_runnable-Claimed}
use tenon_backend.Jobs.Status.{
  requeue_dead_letter_job, apply_dead_letter_requeue, is_dead_letter_id, bury,
}
use tenon_backend.Jobs.Invariant.{IsConsistent, IsValid}
use tenon_backend.Jobs.Steps.{has_id, burial, write, here, next, Run, begin, grant}
use tenon_backend.Jobs.Steps.Laws.{Reach-IsValid}
use tenon_backend.Jobs.Steps.Leases.{AreDistinct, Run-AreDistinct}

abbrev report : Job
report = record {
  id = codes "a";
  job_type = codes "report";
  status = queued;
  attempt = 0;
  max_attempts = 5;
  idempotency_key = codes "k";
  payload_json = no_fields;
  result_json = none;
  last_error = none;
  created_at = 10;
  updated_at = 10;
  next_run_at = some 20;
  locked_at = none;
  locked_by = none;
  correlation_id = none;
  company_id = 1;
  candidate_session_id = none;
}

abbrev early : Job
early = record report { id = codes "b"; idempotency_key = codes "l"; next_run_at = none }

abbrev table : Table
table = report ∷ early ∷ []

table-IsUnique : IsUnique table
unfolding conflicts has_key same_text
table-IsUnique = (refl, (refl, tt))

report-IsConsistent : IsConsistent report
report-IsConsistent = ground arith

early-IsConsistent : IsConsistent early
early-IsConsistent = ground arith

table-IsValid : IsValid table
table-IsValid = record {
  unique = table-IsUnique;
  consistent = (report-IsConsistent, (early-IsConsistent, tt));
}

-- The row that is due first is claimed, and then the other one.
claim_early : claim_next_runnable quiet (codes "w") 50 300 table ≡ (
  some (claim_values 50 (codes "w") early early),
  report ∷ claim_values 50 (codes "w") early early ∷ [],
)
unfolding claim_next_runnable claim_rounds select_candidate first_in_order runnable_filter in_order
    claim_filter claim_values get_by_id update_where rowcount same_text
claim_early = refl

claim_next_runnable-Claimed_example :
    Claimed 50 0 (codes "w") table (claim_next_runnable quiet (codes "w") 50 300 table)
claim_next_runnable-Claimed_example =
    claim_next_runnable-Claimed (codes "w") 50 300 table table-IsUnique

-- A worker takes the lease, and once the lease is stale another one takes it again.
abbrev later : ℕ
later = 400 * second

abbrev leased : Job
leased = record report {
  status = running;
  attempt = 1;
  locked_at = some 50;
  locked_by = some (codes "w");
  updated_at = 50;
}

abbrev two_leases : List (Text × ℕ)
two_leases = (codes "a", 2) ∷ (codes "a", 1) ∷ []

once : rowcount (claim_filter 50 0 report) table ≡ 1
unfolding claim_filter runnable_filter rowcount same_text
once = refl

again :
    rowcount
      (claim_filter later (100 * second) leased)
      (update_where (claim_filter 50 0 report) (claim_values 50 (codes "w") report) table)
    ≡ 1
unfolding claim_filter claim_values runnable_filter rowcount update_where same_text
again = refl

two_leases-Run : Run table two_leases (
    update_where
      (claim_filter later (100 * second) leased)
      (claim_values later (codes "v") leased)
      (update_where (claim_filter 50 0 report) (claim_values 50 (codes "w") report) table))
two_leases-Run =
    grant later (100 * second) (codes "v") leased (grant 50 0 (codes "w") report begin once) again

Run-AreDistinct_example : AreDistinct two_leases
Run-AreDistinct_example = Run-AreDistinct table-IsValid two_leases-Run

Reach-IsValid_example : IsValid (update_where (has_id (codes "a")) (bury (codes "e") 70) table)
Reach-IsValid_example =
    Reach-IsValid table-IsValid (next here (write (burial (codes "a") (codes "e") 70) refl))

abbrev spec : IdempotentJobSpec
spec = record {
  job_type = codes " report ";
  idempotency_key = codes "new";
  payload_json = field (codes "x") (string (codes "y")) no_fields;
  candidate_session_id = none;
  max_attempts = 3;
  correlation_id = none;
  next_run_at = none;
}

program : Unit {0}
unfolding create_or_get_idempotent create_or_update_idempotent create_or_update_normalized
    update_existing_if_mutable update_and_refresh get_by_id normalize_spec
    normalize_idempotent_create_inputs validate_payload_size insert_commit_or_get_existing
    insert_nested_or_get_existing insert_or_get_existing insert_row load_idempotent_job conflicts
    has_key same_text strip job_from_spec is_mutable_idempotent_job apply_idempotent_job_updates
    update_where encoded_size is_space flush flushed changed_columns same_json claim_values
    requeue_dead_letter_job apply_dead_letter_requeue is_dead_letter_id
program = tt

abbrev created : Job
created = job_from_spec (codes "c") 60 1 (record spec { job_type = codes "report" })

create_new :
    create_or_get_idempotent (λ t. t) (codes "c") 60 1 spec true table
    ≡ ok (created, created ∷ table)
unfolding program
create_new = refl

create_or_get_idempotent-again_example :
    create_or_get_idempotent (λ t. t) (codes "d") 90 1 spec false (created ∷ table)
    ≡ ok (created, created ∷ table)
create_or_get_idempotent-again_example =
    create_or_get_idempotent-again (λ t. t) (codes "c") (codes "d") 60 90 1 spec true false table
      create_new

create_or_update_new :
    create_or_update_idempotent (λ t. t) (λ t. t) (codes "c") 60 1 spec true table
    ≡ ok (created, created ∷ table)
unfolding program
create_or_update_new = refl

-- A worker leases the job between the look-up and the flush: the running job is written all the same.
raced :
    create_or_update_idempotent
      (update_where (has_id (codes "c")) (claim_values 70 (codes "w") created))
      (λ t. t)
      (codes "d")
      80
      1
      (record spec { max_attempts = 9 })
      false
      (created ∷ [])
    ≡ ok (
      record created { max_attempts = 9; next_run_at = some 80 },
      record (claim_values 70 (codes "w") created created) {
        max_attempts = 9;
        next_run_at = some 80;
      }
          ∷ [],
    )
unfolding program
raced = refl

abbrev dead : Job
dead = record created { status = dead_letter; last_error = some (codes "e"); next_run_at = none }

abbrev retaken : Job
retaken = record dead {
  status = running;
  attempt = 1;
  last_error = none;
  locked_at = some 70;
  locked_by = some (codes "w");
}

-- A recovered job that another session has recovered and a worker has leased meanwhile is queued with its lease.
recovery_raced : requeue_dead_letter_job (λ t. retaken ∷ []) (codes "c") 80 (dead ∷ []) ≡ (
  some (apply_dead_letter_requeue 80 dead),
  record retaken { status = queued; next_run_at = some 80; updated_at = 80 } ∷ [],
)
unfolding program
recovery_raced = refl

sanitize : sanitize_error (codes "  a \n b  ") ≡ codes "a b"
unfolding sanitize_error split_words is_space join_words
sanitize = refl

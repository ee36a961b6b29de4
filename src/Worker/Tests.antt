-- ===== src/Worker/Tests.antt =====
-- A job that keeps failing, and the theorems of the worker at it.
use tenon_backend.Base.{
  ℕ, ◌*◌, ◌≡◌, ◌≤◌, max, refl, sym, ◌∙◌, true, Option, none, some, List, [], ◌∷◌, arith, Bool-cases,
  inl, inr,
}
use mathlib.Core.Path.{subst}
use mathlib.Core.Option.{some-injective}
use tenon_backend.Base.Text.{Text, codes, same_text}
use tenon_backend.Json.{no_fields}
use tenon_backend.Jobs.Model.{Job, queued, second}
use tenon_backend.Jobs.Rows.{get_by_id}
use tenon_backend.Jobs.Invariant.{IsValid}
use tenon_backend.Jobs.Steps.{here}
use tenon_backend.Worker.Backoff.{compute_backoff_seconds, is_provider_backoff_error, delay_seconds}
use tenon_backend.Worker.Backoff.Laws.{
  doubled, compute_backoff_seconds-eq-doubled, delay_seconds_bounds,
}
use tenon_backend.Worker.RunOnce.{
  handler_payload, raised, Handler, Registry, get_handler, run_claimed,
}
use tenon_backend.Worker.RunOnce.Steps.{HandlerObeys, RegistryObeys}
use tenon_backend.Worker.RunOnce.Settles.{IsSettled, is_handled, run_claimed-IsSettled}

abbrev job : Job
job = record {
  id = codes "a";
  job_type = codes "r";
  status = queued;
  attempt = 0;
  max_attempts = 2;
  idempotency_key = codes "k";
  payload_json = no_fields;
  result_json = none;
  last_error = none;
  created_at = 10;
  updated_at = 10;
  next_run_at = some 20;
  locked_at = none;
  locked_by = none;
  correlation_id = none;
  company_id = 1;
  candidate_session_id = none;
}

job-IsValid : IsValid (job ∷ [])
job-IsValid = record { unique = (refl, tt); consistent = (ground arith, tt) }

-- The texts of the tests are in lower case.
abbrev lower : Text → Text
lower text = text

abbrev fails : Handler
fails payload jobs = (raised (codes "boom"), jobs)

abbrev registry : Registry
registry = (codes "r", fails) ∷ []

registered : get_handler (codes "r") registry ≡ some fails
unfolding get_handler same_text
registered = refl

registry-Obeys : RegistryObeys registry
unfolding get_handler
registry-Obeys job_type handler known = elim (Bool-cases (same_text (codes "r") job_type)) [
  | inl same ↦
      let known' : some fails ≡ some handler = rw same at known in
      subst HandlerObeys (some-injective fails handler known') (λ payload jobs. here)
  | inr differs ↦
      let known' : ◌≡◌ {A = Option Handler} none (some handler) = rw differs at known in cc
]

compute_backoff_seconds-eq-doubled_example : compute_backoff_seconds 4 1 60 ≡ doubled 1 60 3
compute_backoff_seconds-eq-doubled_example = compute_backoff_seconds-eq-doubled 3 1 60

fourth_delay : compute_backoff_seconds 4 1 60 ≡ 8
unfolding compute_backoff_seconds
fourth_delay = refl

delay_seconds_bounds_example :
    let delay = delay_seconds lower 1 (codes "429") 1 60 in
    (1 ≤ delay)
    × (delay ≤ max 60 180)
    × (is_provider_backoff_error lower (codes "429") ≡ true → 15 ≤ delay)
delay_seconds_bounds_example = delay_seconds_bounds lower 1 (codes "429") 1 60 (omega arith)

job_found : get_by_id (codes "a") (job ∷ []) ≡ some job
unfolding get_by_id same_text
job_found = refl

registry_handles :
    (handler : Handler)
    → get_handler (codes "r") registry ≡ some handler
    → is_handled (handler (handler_payload job) (job ∷ [])).0 ≡ true
registry_handles handler known =
    subst (λ (h : Handler). is_handled (h (handler_payload job) (job ∷ [])).0 ≡ true)
      (some-injective fails handler (sym registered ∙ known)) refl

run_claimed-IsSettled_example :
    let (ended, jobs') = run_claimed lower 1 60 registry job 30 (job ∷ []) in
    (ended ≡ true) × IsSettled (codes "a") jobs'
run_claimed-IsSettled_example =
    run_claimed-IsSettled lower 1 60 registry job job 30 (job ∷ []) registry-Obeys registry_handles
      job_found

abbrev times : List ℕ
times = 30 ∷ (300 * second) ∷ []

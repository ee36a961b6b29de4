-- ===== src/Jobs/Rows.antt =====
-- What SQL does to the rows of `jobs`: the selection and the update by a condition, and an insertion
-- under the primary key and the unique index on (company_id, job_type, idempotency_key).
pub mod Laws
pub mod Unique
use tenon_backend.Base.{
  ℕ, zero, suc, ◌≡◌, refl, Bool, true, false, ◌&&◌, ◌||◌, Option, none, some, List, [], ◌∷◌, map,
  ◌==◌, if◌then◌else◌, find, any, All, arith, length, keep,
}
use tenon_backend.Base.Text.{Text, same_text, same_text_iff}
use tenon_backend.Jobs.Model.{Job, Table}

-- `select(Job).where(Job.id == job_id)`
unfoldable pub get_by_id : Text → Table → Option Job
get_by_id job_id = find (λ job. same_text job.id job_id)

unfoldable pub has_key : ℕ → Text → Text → Job → Bool
has_key company_id job_type key job =
    (job.company_id == company_id)
    && (same_text job.job_type job_type && same_text job.idempotency_key key)

-- `update(Job).where(condition).values(...)`
unfoldable pub update_where : (Job → Bool) → (Job → Job) → Table → Table
update_where condition values [] = []
update_where condition values (job ∷ jobs) =
    (if condition job then values job else job) ∷ update_where condition values jobs

-- The `rowcount` of such an update.
unfoldable pub rowcount : (Job → Bool) → Table → ℕ
rowcount condition [] = 0
rowcount condition (job ∷ jobs) =
    let rest = rowcount condition jobs in if condition job then suc rest else rest

-- Two rows that the primary key or the unique index does not let stand in one table.
unfoldable pub conflicts : Job → Job → Bool
unfolding has_key
conflicts job other =
    same_text other.id job.id || has_key job.company_id job.job_type job.idempotency_key other

-- `none` is the `IntegrityError`.
unfoldable pub insert_row : Job → Table → Option Table
insert_row job jobs = if any (conflicts job) jobs then none else some (job ∷ jobs)

-- The primary key and the unique index hold.
abbrev pub IsUnique : Table → Type 0
IsUnique [] = Unit
IsUnique (job ∷ jobs) = (any (conflicts job) jobs ≡ false) × IsUnique jobs

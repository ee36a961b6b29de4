-- ===== src/Jobs/Rows/Unique.antt =====
-- What the two unique indexes mean for a row that was loaded: no other row has its id.
use tenon_backend.Base.{
  ◌≡◌, refl, sym, Bool, true, false, some, [], ◌∷◌, any, All, arith, find, Bool-cases, inl, inr,
}
use mathlib.Core.List.{Memᴰ}
use mathlib.Core.Path.{subst}
use tenon_backend.Base.Text.{same_text, same_text_iff}
use tenon_backend.Jobs.Model.{Job, Table}
use tenon_backend.Jobs.Rows.{update_where, conflicts, IsUnique}

pub mem-same_id :
    (job row : Job) (rows : Table)
    → any (conflicts job) rows ≡ false
    → Memᴰ row rows
    → same_text row.id job.id ≡ false
unfolding conflicts
mem-same_id job row [] fresh m = elim m [ ]
mem-same_id job row (other ∷ rows) fresh (Memᴰ.head e) = rw e (ground arith)
mem-same_id job row (other ∷ rows) fresh (Memᴰ.tail m) = mem-same_id job row rows (ground arith) m

pub find-mem : (p : Job → Bool) (jobs : Table) {job : Job} → find p jobs ≡ some job → Memᴰ job jobs
find-mem p [] found = cc
find-mem p (row ∷ rows) {job} found = elim (Bool-cases (p row)) [
  | inl met ↦ Memᴰ.head (ground arith)
  | inr not_met ↦ Memᴰ.tail (find-mem p rows (ground arith))
]

not_same :
    (job row : Job) (rows : Table)
    → any (conflicts job) rows ≡ false
    → All (λ other. same_text other.id job.id ≡ true → other ≡ job) rows
unfolding conflicts
not_same job row [] fresh = tt
not_same job row (other ∷ rows) fresh =
    ((λ same. absurd (ground arith)), not_same job row rows (ground arith))

pub unique_by_id :
    (job : Job) (jobs : Table)
    → IsUnique jobs
    → Memᴰ job jobs
    → All (λ row. same_text row.id job.id ≡ true → row ≡ job) jobs
unique_by_id job [] unique m = tt
unique_by_id job (row ∷ rows) unique (Memᴰ.head e) =
    subst (λ j. All (λ other. same_text other.id j.id ≡ true → other ≡ j) (row ∷ rows)) (sym e)
      ((λ _. refl), not_same row row rows unique.0)
unique_by_id job (row ∷ rows) unique (Memᴰ.tail m) = (
  λ same. absurd (apart (mem-same_id row job rows unique.0 m) same),
  unique_by_id job rows unique.1 m,
)
  where
    apart : same_text job.id row.id ≡ false → same_text row.id job.id ≡ true → ⊥
    apart differs same = ground (arith, same_text_iff job.id row.id, same_text_iff row.id job.id)

-- An update by a condition that agrees with another one on the rows.
pub update_where-agree :
    (condition other : Job → Bool) (values : Job → Job) (jobs : Table)
    → All (λ row. condition row ≡ other row) jobs
    → update_where condition values jobs ≡ update_where other values jobs
unfolding update_where
update_where-agree condition other values [] all = refl
update_where-agree condition other values (row ∷ rows) all =
    rw (all.0, update_where-agree condition other values rows all.1)

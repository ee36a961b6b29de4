-- ===== src/Jobs/Steps/Claims.antt =====
-- A claim among other sessions is a run of the step relation.
use tenon_backend.Base.{ℕ, zero, suc, ◌+◌, ◌-◌, ◌*◌, refl, ◌==◌, Bool-cases, Option-cases, inl, inr}
use tenon_backend.Base.Text.{Text}
use tenon_backend.Jobs.Model.{Table, second}
use tenon_backend.Jobs.Rows.{rowcount}
use tenon_backend.Jobs.Claim.{select_candidate, claim_filter, claim_rounds, claim_next_runnable}
use tenon_backend.Jobs.Steps.{lease, write, Reach, here, next}

pub Reach-trans : {a b c : Table} → Reach a b → Reach b c → Reach a c
Reach-trans r here = r
Reach-trans r (next s st) = next (Reach-trans r s) st

-- What the other sessions commit is a run too.
abbrev pub Obeys : (ℕ → Table → Table) → Type 0
Obeys world = (n : ℕ) (jobs : Table) → Reach jobs (world n jobs)

module _ (world : ℕ → Table → Table) (obeys : Obeys world) (worker_id : Text)
    (now stale_before : ℕ) where
  claim_rounds-Reach :
      (rounds n : ℕ) (jobs : Table)
      → Reach jobs (claim_rounds world worker_id now stale_before rounds n jobs).1
  unfolding claim_rounds
  claim_rounds-Reach zero n jobs = here
  claim_rounds-Reach (suc rounds) n jobs =
      let seen = world n jobs in
      elim (Option-cases (select_candidate now stale_before seen)) [
        | inl e ↦ rw (e, claim_rounds) (obeys n jobs)
        | inr (candidate, e) ↦
            let met = world (n + 1) seen in
            let r = Reach-trans (obeys n jobs) (obeys (n + 1) seen) in
            elim (Bool-cases (rowcount (claim_filter now stale_before candidate) met == 1)) [
              | inl one ↦
                  rw (e, claim_rounds)
                    (rw (one, claim_rounds)
                      (Reach-trans
                        (next r (write (lease now stale_before worker_id candidate) refl))
                        (obeys (n + 2) _)))
              | inr lost ↦
                  rw (e, claim_rounds)
                    (rw (lost, claim_rounds)
                      (Reach-trans r (claim_rounds-Reach rounds (n + 2) met)))
            ]
      ]

-- Whatever other sessions commit between its statements, a claim moves the table by steps alone.
pub claim_next_runnable-Reach :
    (world : ℕ → Table → Table) (worker_id : Text) (now lease_seconds : ℕ) (jobs : Table)
    → Obeys world
    → Reach jobs (claim_next_runnable world worker_id now lease_seconds jobs).1
unfolding claim_next_runnable
claim_next_runnable-Reach world worker_id now lease_seconds jobs obeys =
    claim_rounds-Reach world obeys worker_id now (now - lease_seconds * second) 8 0 jobs

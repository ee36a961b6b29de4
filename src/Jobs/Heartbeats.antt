-- ===== src/Jobs/Heartbeats.antt =====
-- app/shared/jobs/repositories/shared_jobs_repositories_worker_heartbeats_repository.py and its model: the signs of life
-- of the workers. `now` is also the server's clock of a new row.
pub mod Latest
mod Tests
use tenon_backend.Base.{
  ℕ, Bool, true, false, ◌&&◌, ◌||◌, ◌==◌, Option, none, some, List, [], ◌∷◌, ◌++◌, map, find, keep,
  length, ltb, leb, if◌then◌else◌,
}
use tenon_backend.Base.Text.{Text, codes, strip, same_text, decimal}
use tenon_backend.Base.Result.{Result, ok, value_error, raise_if, ◌>>=◌, ◌>>◌}
use tenon_backend.Jobs.Shared.{is_empty}

pub record WorkerHeartbeat : Type 0 where
  pub service_name : Text
  pub instance_id : Text
  pub status : Text
  pub started_at : ℕ
  pub last_heartbeat_at : ℕ
  pub created_at : ℕ

unfoldable pub normalize_text : Text → Text → ℕ → Result Text
normalize_text value field_name max_length = do
  let normalized = strip value
  raise_if (is_empty normalized) (value_error (field_name ++ codes " is required"))
  raise_if (ltb max_length (length normalized))
      (value_error (field_name ++ codes " exceeds " ++ decimal max_length ++ codes " characters"))
  ok normalized

abbrev pub is_instance : Text → Text → WorkerHeartbeat → Bool
is_instance service_name instance_id heartbeat =
    same_text heartbeat.service_name service_name && same_text heartbeat.instance_id instance_id

unfoldable pub beat : Text → ℕ → WorkerHeartbeat → WorkerHeartbeat
beat status now heartbeat = record heartbeat { status = status; last_heartbeat_at = now }

-- The row that is there is updated, or a new one is made.
unfoldable pub store_heartbeat :
    Text → Text → Text → ℕ → List WorkerHeartbeat → WorkerHeartbeat × List WorkerHeartbeat
store_heartbeat service_name instance_id status now heartbeats =
    elim (find (is_instance service_name instance_id) heartbeats) [
      | some heartbeat ↦ (
        beat status now heartbeat,
        map (λ h. if is_instance service_name instance_id h then beat status now h else h)
            heartbeats,
      )
      | none ↦
          let heartbeat : WorkerHeartbeat = record {
            service_name = service_name;
            instance_id = instance_id;
            status = status;
            started_at = now;
            last_heartbeat_at = now;
            created_at = now;
          } in
          (heartbeat, heartbeat ∷ heartbeats)
    ]

unfoldable pub upsert_worker_heartbeat :
    Text → Text → ℕ → Text → List WorkerHeartbeat → Result (WorkerHeartbeat × List WorkerHeartbeat)
upsert_worker_heartbeat service_name instance_id now status heartbeats = do
  normalized_service_name ← normalize_text service_name (codes "service_name") 100
  normalized_instance_id ← normalize_text instance_id (codes "instance_id") 255
  normalized_status ← normalize_text status (codes "status") 32
  ok (
      store_heartbeat normalized_service_name normalized_instance_id normalized_status now
        heartbeats)

unfoldable pub mark_worker_stopped :
    Text → Text → ℕ → List WorkerHeartbeat → Result (WorkerHeartbeat × List WorkerHeartbeat)
mark_worker_stopped service_name instance_id now =
    upsert_worker_heartbeat service_name instance_id now (codes "stopped")

-- The descending order by the last heartbeat, and then by the creation.
abbrev pub is_before : WorkerHeartbeat → WorkerHeartbeat → Bool
is_before a b =
    ltb b.last_heartbeat_at a.last_heartbeat_at
    || ((a.last_heartbeat_at == b.last_heartbeat_at) && ltb b.created_at a.created_at)

unfoldable pub first_of : WorkerHeartbeat → List WorkerHeartbeat → WorkerHeartbeat
first_of best [] = best
first_of best (heartbeat ∷ heartbeats) =
    first_of (if is_before heartbeat best then heartbeat else best) heartbeats

abbrev pub first_or_none : List WorkerHeartbeat → Option WorkerHeartbeat
first_or_none [] = none
first_or_none (heartbeat ∷ heartbeats) = some (first_of heartbeat heartbeats)

unfoldable pub get_latest_worker_heartbeat :
    Text → List WorkerHeartbeat → Result (Option WorkerHeartbeat)
get_latest_worker_heartbeat service_name heartbeats = do
  normalized_service_name ← normalize_text service_name (codes "service_name") 100
  ok (first_or_none (keep (λ h. same_text h.service_name normalized_service_name) heartbeats))

-- ===== src/Jobs/Heartbeats/Tests.antt =====
-- Two instances of the worker, of which the second one beats again.
use tenon_backend.Base.{◌≡◌, refl, some, [], ◌∷◌, arith}
use tenon_backend.Base.Text.{codes, same_text, strip, lstrip, is_space}
use tenon_backend.Base.Result.{ok}
use tenon_backend.Jobs.Heartbeats.{
  WorkerHeartbeat, normalize_text, beat, store_heartbeat, upsert_worker_heartbeat,
  mark_worker_stopped, get_latest_worker_heartbeat,
}
use tenon_backend.Jobs.Heartbeats.Latest.{get_latest_worker_heartbeat-upsert_worker_heartbeat}

abbrev one : WorkerHeartbeat
one = record {
  service_name = codes "jobs";
  instance_id = codes "1";
  status = codes "running";
  started_at = 10;
  last_heartbeat_at = 40;
  created_at = 10;
}

abbrev two : WorkerHeartbeat
two = record one { instance_id = codes "2"; last_heartbeat_at = 30 }

abbrev stopped_two : WorkerHeartbeat
stopped_two = record two { status = codes "stopped"; last_heartbeat_at = 50 }

stopped :
    mark_worker_stopped (codes " jobs") (codes "2") 50 (one ∷ two ∷ [])
    ≡ ok (stopped_two, one ∷ stopped_two ∷ [])
unfolding mark_worker_stopped upsert_worker_heartbeat normalize_text store_heartbeat beat strip
    lstrip is_space same_text
stopped = refl

get_latest_worker_heartbeat-upsert_worker_heartbeat_example :
    (latest : WorkerHeartbeat) × (get_latest_worker_heartbeat
        (codes " jobs")
        (one ∷ stopped_two ∷ [])
      ≡ ok (some latest))
    × (latest.last_heartbeat_at ≡ 50)
unfolding mark_worker_stopped
get_latest_worker_heartbeat-upsert_worker_heartbeat_example =
    get_latest_worker_heartbeat-upsert_worker_heartbeat (codes " jobs") (codes "2")
      (codes "stopped") 50 (one ∷ two ∷ []) ((ground arith), ((ground arith), tt)) stopped

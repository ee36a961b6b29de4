-- ===== src/Jobs/Heartbeats/Latest.antt =====
-- The latest sign of life of a service.
use tenon_backend.Base.{
  ℕ, ◌≡◌, ◌≤◌, refl, sym, ap, Bool, true, ◌==◌, some, List, [], ◌∷◌, map, find, keep, any, All,
  arith, if◌then◌else◌, Bool-cases, Option-cases, inl, inr,
}
use mathlib.Core.Path.{subst}
use tenon_backend.Base.Text.{Text, codes, same_text, same_text_iff}
use tenon_backend.Base.Result.{ok, >>=-ok}
use tenon_backend.Jobs.Heartbeats.{
  WorkerHeartbeat, normalize_text, is_instance, beat, store_heartbeat, upsert_worker_heartbeat,
  is_before, first_of, first_or_none, get_latest_worker_heartbeat,
}

abbrev pub IsBy : ℕ → WorkerHeartbeat → Type 0
IsBy now heartbeat = heartbeat.last_heartbeat_at ≤ now

first_of-IsBy :
    (now : ℕ) (best : WorkerHeartbeat) (heartbeats : List WorkerHeartbeat)
    → IsBy now best
    → All (IsBy now) heartbeats
    → IsBy now (first_of best heartbeats)
unfolding first_of
first_of-IsBy now best [] by all = by
first_of-IsBy now best (h ∷ heartbeats) by all =
    first_of-IsBy now (if is_before h best then h else best) heartbeats (ground (arith, all.0))
      all.1

kept-ge :
    (h best : WorkerHeartbeat)
    → (best.last_heartbeat_at ≤ (if is_before h best then h else best).last_heartbeat_at)
      × (h.last_heartbeat_at ≤ (if is_before h best then h else best).last_heartbeat_at)
kept-ge h best = ground arith

first_of-ge :
    (best : WorkerHeartbeat) (heartbeats : List WorkerHeartbeat)
    → best.last_heartbeat_at ≤ (first_of best heartbeats).last_heartbeat_at
unfolding first_of
first_of-ge best [] = ground arith
first_of-ge best (h ∷ heartbeats) =
    let kept = if is_before h best then h else best in
    let later = first_of-ge kept heartbeats in omega (arith, later, (kept-ge h best).0)

-- A heartbeat of that instant is among them.
abbrev pub has_beat : ℕ → List WorkerHeartbeat → Bool
has_beat now heartbeats = any (λ h. h.last_heartbeat_at == now) heartbeats

first_of-beat :
    (now : ℕ) (best : WorkerHeartbeat) (heartbeats : List WorkerHeartbeat)
    → has_beat now (best ∷ heartbeats) ≡ true
    → now ≤ (first_of best heartbeats).last_heartbeat_at
unfolding first_of
first_of-beat now best [] h = ground arith
first_of-beat now best (x ∷ heartbeats) h =
    let kept = if is_before x best then x else best in
    let (over_best, over_x) = kept-ge x best in
    let later = first_of-ge kept heartbeats in
    elim (Bool-cases (has_beat now heartbeats)) [
      | inl rest ↦ first_of-beat now kept heartbeats (ground arith)
      | inr gone ↦
          let now_kept : now ≤ kept.last_heartbeat_at = ground (arith, over_best, over_x) in
          omega (arith, later, now_kept)
    ]

keep-IsBy :
    (now : ℕ) (p : WorkerHeartbeat → Bool) (heartbeats : List WorkerHeartbeat)
    → All (IsBy now) heartbeats
    → All (IsBy now) (keep p heartbeats)
keep-IsBy now p [] all = tt
keep-IsBy now p (h ∷ heartbeats) all = ground (arith, keep-IsBy now p heartbeats all.1)

-- The first one of a list with a heartbeat of the last instant is of that instant.
first_or_none-beat :
    (now : ℕ) (heartbeats : List WorkerHeartbeat)
    → has_beat now heartbeats ≡ true
    → All (IsBy now) heartbeats
    → (latest : WorkerHeartbeat) × (first_or_none heartbeats ≡ some latest)
      × (latest.last_heartbeat_at ≡ now)
first_or_none-beat now [] h all = cc
first_or_none-beat now (best ∷ heartbeats) h all =
    let over = first_of-beat now best heartbeats h in
    let under = first_of-IsBy now best heartbeats all.0 all.1 in
    (first_of best heartbeats, refl, omega (arith, over, under))

module _ (service_name instance_id status : Text) (now : ℕ) where
  abbrev is_of_service : WorkerHeartbeat → Bool
  is_of_service h = same_text h.service_name service_name

  abbrev beaten : WorkerHeartbeat → WorkerHeartbeat
  beaten h = if is_instance service_name instance_id h then beat status now h else h

  beaten-IsBy :
      (heartbeats : List WorkerHeartbeat)
      → All (IsBy now) heartbeats
      → All (IsBy now) (map beaten heartbeats)
  unfolding beat
  beaten-IsBy [] all = tt
  beaten-IsBy (h ∷ heartbeats) all = (ground (arith, all.0), beaten-IsBy heartbeats all.1)

  beaten-beat :
      (heartbeats : List WorkerHeartbeat) {found : WorkerHeartbeat}
      → find (is_instance service_name instance_id) heartbeats ≡ some found
      → has_beat now (keep is_of_service (map beaten heartbeats)) ≡ true
  unfolding beat
  beaten-beat [] h = cc
  beaten-beat (x ∷ heartbeats) {found} h = ground (arith, beaten-beat heartbeats {found = found})

  -- The service has a heartbeat of that instant, and there is no later one.
  abbrev pub IsLatest : List WorkerHeartbeat → Type 0
  IsLatest heartbeats =
      (has_beat now (keep is_of_service heartbeats) ≡ true) × All (IsBy now) heartbeats

  store_heartbeat-IsLatest :
      (heartbeats : List WorkerHeartbeat)
      → All (IsBy now) heartbeats
      → IsLatest (store_heartbeat service_name instance_id status now heartbeats).1
  unfolding store_heartbeat
  store_heartbeat-IsLatest heartbeats all =
      let stored = (store_heartbeat service_name instance_id status now heartbeats).1 in
      elim (Option-cases (find (is_instance service_name instance_id) heartbeats)) [
        | inl missing ↦
            let made : WorkerHeartbeat = record {
              service_name = service_name;
              instance_id = instance_id;
              status = status;
              started_at = now;
              last_heartbeat_at = now;
              created_at = now;
            } in
            let same : stored ≡ made ∷ heartbeats = rw (missing, store_heartbeat) refl in
            subst IsLatest (sym same)
              (ground (arith, same_text_iff service_name service_name), (ground arith, all))
        | inr (found, there) ↦
            let same : stored ≡ map beaten heartbeats = rw (there, store_heartbeat) refl in
            subst IsLatest (sym same) (beaten-beat heartbeats there, beaten-IsBy heartbeats all)
      ]

get_latest_worker_heartbeat_named :
    (service_name service : Text) (heartbeats : List WorkerHeartbeat) (latest : WorkerHeartbeat)
    → normalize_text service_name (codes "service_name") 100 ≡ ok service
    → first_or_none (keep (λ h. same_text h.service_name service) heartbeats) ≡ some latest
    → get_latest_worker_heartbeat service_name heartbeats ≡ ok (some latest)
unfolding get_latest_worker_heartbeat
get_latest_worker_heartbeat_named service_name service heartbeats latest named first =
    rw named (ap (λ o. ok o) first)

-- Right after a heartbeat of a worker, the latest one of its service is of that instant, when no heartbeat is of a later
-- one.
pub get_latest_worker_heartbeat-upsert_worker_heartbeat :
    (service_name instance_id status : Text) (now : ℕ) (heartbeats : List WorkerHeartbeat)
    {made : WorkerHeartbeat} {heartbeats' : List WorkerHeartbeat}
    → All (IsBy now) heartbeats
    → upsert_worker_heartbeat service_name instance_id now status heartbeats
      ≡ ok (made, heartbeats')
    → (latest : WorkerHeartbeat) × (get_latest_worker_heartbeat service_name heartbeats'
        ≡ ok (some latest))
      × (latest.last_heartbeat_at ≡ now)
unfolding upsert_worker_heartbeat
get_latest_worker_heartbeat-upsert_worker_heartbeat service_name instance_id status now heartbeats
      {made} {heartbeats'} all h =
    let (service, named, a) = >>=-ok (normalize_text service_name (codes "service_name") 100) _ h in
    let (instance_of, _, b) = >>=-ok (normalize_text instance_id (codes "instance_id") 255) _ a in
    let (state, _, c) = >>=-ok (normalize_text status (codes "status") 32) _ b in
    let same : (store_heartbeat service instance_of state now heartbeats).1 ≡ heartbeats' = cc in
    let (there, by) =
      subst (IsLatest service instance_of state now) same
        (store_heartbeat-IsLatest service instance_of state now heartbeats all) in
    let chosen = keep (λ g. same_text g.service_name service) heartbeats' in
    let (latest, first, at_now) =
      first_or_none-beat now chosen there (keep-IsBy now _ heartbeats' by) in
    (
      latest,
      get_latest_worker_heartbeat_named service_name service heartbeats' latest named first,
      at_now,
    )

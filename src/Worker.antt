-- ===== src/Worker.antt =====
-- The worker of the durable jobs: app/shared/jobs/worker_runtime. `Backoff` computes the delay of a
-- retry, `RunOnce` claims a job, calls its handler and writes the outcome.
pub mod Backoff
pub mod RunOnce
pub mod Retries
mod Tests

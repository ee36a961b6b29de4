-- ===== src/Schedule.antt =====
-- The candidate's schedule: app/candidates/candidate_sessions/services, the modules whose names begin
-- with `schedule`, and services/scheduling.
pub mod Model
pub mod Times
pub mod Overrides
pub mod Windows
pub mod Current
pub mod Serial
pub mod Gates
pub mod DayClose
pub mod Flow
mod Tests

-- ===== src/Candidates.antt =====
-- Candidates: app/candidates/candidate_sessions. `Claims` is how a candidate takes an invitation, `Owned` how a request finds its session, `Progress` how far the
-- candidate has come.
pub mod Claims
pub mod Owned
pub mod Progress
mod Tests

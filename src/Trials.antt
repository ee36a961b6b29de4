-- ===== src/Trials.antt =====
-- The lifecycle of a trial: app/trials/services. `Model` is the rows, `Status` the transition diagram,
-- `Actions` and `Termination` the owner's actions on it.
pub mod Model
pub mod Status
pub mod Termination
pub mod Actions
mod Tests

-- ===== src/Submissions.antt =====
-- Submissions: app/submissions. `Order` is the checks on a submission before its content is looked at, and the
-- completion of a session.
pub mod Order

-- ===== src/Falsify.antt =====
-- packages/daemon/src/falsify: what a falsification job's facts say of a defect.
pub mod Facts
pub mod Verdict
mod Tests

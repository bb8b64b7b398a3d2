-- ===== src/Inputs.antt =====
-- packages/daemon/src/inputs: which files count as inputs.
pub mod Glob
pub mod Patterns
pub mod Fingerprint
mod Tests

-- ===== src/Core.antt =====
-- packages/core/src: how fresh a result is, and which test a result belongs to.
pub mod Evidence
pub mod Identity
mod Tests

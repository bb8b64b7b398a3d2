-- ===== src/Defects.antt =====
-- packages/daemon/src/defects: what the stored evidence says of each defect definition.
pub mod Records
pub mod Freshness
pub mod Index
pub mod Standing
pub mod Counts
mod Tests

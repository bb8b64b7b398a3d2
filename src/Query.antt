-- ===== src/Query.antt =====
-- packages/daemon/src/query and the records that it reads: how a stored run answers for each test,
-- and when a workspace is due.
pub mod Records
pub mod States
pub mod Due
pub mod Answer
pub mod Lists
mod Tests

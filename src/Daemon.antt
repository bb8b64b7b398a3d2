-- ===== src/Daemon.antt =====
-- packages/daemon/src/daemon: what the daemon remembers of changes and of falsification jobs.
pub mod Standings
pub mod Changes
pub mod Record
pub mod Plan
pub mod Endings
pub mod Entries
pub mod Moments
pub mod Journal
pub mod Explained
pub mod Judgment
pub mod Waits
pub mod Schedule
mod Tests

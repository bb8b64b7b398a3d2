-- ===== src/Selection.antt =====
-- packages/daemon/src/selection: which workspaces a change selects.
pub mod Records

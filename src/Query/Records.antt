-- ===== src/Query/Records.antt =====
-- The stored records that an answer reads: packages/daemon/src/store/stored-records.ts, with the
-- types it takes from vitest/run-states.ts, vitest/run-workspace.ts, vitest/discover-tests.ts and
-- vitest/module-tests.ts. Of a workspace, a run and a discovery, a field that no code modelled here
-- reads is left out.
use rt_test.Base.{ℕ, Bool, List, Text}
use rt_test.Core.Evidence.{TestOutcome}
use rt_test.Core.Identity.{TestIdentity}

pub record ModuleReport : Type 0 where
  pub project_name : Text
  pub module_path : Text

pub record DiscoveredTest : Type 0 where
  pub identity : TestIdentity
  pub is_duplicate : Bool
  pub mode : Text

pub data TestRunState : Type 0 where
  finished_test : TestOutcome → (errors : List Text) → TestRunState
  interrupted_test : TestRunState

pub record RecordedTest : Type 0 where
  pub identity : TestIdentity
  pub is_duplicate : Bool
  pub run_state : TestRunState

pub data ModuleRunState : Type 0 where
  ran_module : (tests : List RecordedTest) → (errors : List Text) → ModuleRunState
  failed_module : (errors : List Text) → ModuleRunState
  crashed_module not_run_module : ModuleRunState

pub record RecordedModule : Type 0 where
  pub report : ModuleReport
  pub state : ModuleRunState

-- A run by its status.
pub data WorkspaceRun : Type 0 where
  ran_run : (modules : List RecordedModule) → WorkspaceRun
  unsupported_run failed_run interrupted_before_load_run crashed_run : WorkspaceRun

pub data InputFingerprint : Type 0 where
  digest : Text → InputFingerprint
  not_fingerprinted : InputFingerprint

pub record StoredRun : Type 0 where
  pub adapter_version : ℕ
  pub input_fingerprint : InputFingerprint
  pub run_id : Text
  pub run : WorkspaceRun

-- What the code reads of a workspace's discovery when its status is `discovered`.
pub record DiscoveredWorkspace : Type 0 where
  pub path : Text
  pub vitest_version : Text
  pub tests : List DiscoveredTest
  pub failed_modules : List ModuleReport

-- A workspace's discovery by its status.
pub data WorkspaceDiscovery : Type 0 where
  discovered : DiscoveredWorkspace → WorkspaceDiscovery
  unsupported_workspace failed_workspace not_confirmed_workspace :
      (path : Text) → WorkspaceDiscovery

-- `entry.workspace.path`.
abbrev pub path_of : WorkspaceDiscovery → Text
path_of (discovered entry) = entry.path
path_of (unsupported_workspace path) = path
path_of (failed_workspace path) = path
path_of (not_confirmed_workspace path) = path

pub record StoredDiscovery : Type 0 where
  pub adapter_version : ℕ
  pub input_fingerprint : InputFingerprint
  pub discovery_id : Text
  pub workspaces : List WorkspaceDiscovery

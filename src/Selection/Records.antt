-- ===== src/Selection/Records.antt =====
-- The types of packages/daemon/src/selection/selection-types.ts that a round's explanation holds.
use rt_test.Base.{ℕ, Bool, Option, List, [], ◌∷◌, Text, codes, Eq, discrete_eq}
use rt_test.Base.Json.{quote_list}

pub data EdgeProducerKind : Type 0 where
  manifest_edge override test_module setup_file_edge alias relative_import : EdgeProducerKind
  bare_import tsconfig manifest_imports link : EdgeProducerKind

pub data UncertaintyKind : Type 0 where
  manifest_missing manifest_unreadable unresolved_local_dependency : UncertaintyKind
  unlisted_package unresolved_override unresolvable_alias unresolvable_specifier : UncertaintyKind
  tests_not_known unreadable_source unparsed_source plugin_format_file : UncertaintyKind
  walk_bound_reached extends_unfollowed malformed_config : UncertaintyKind

pub data TriggerKind : Type 0 where
  changed_path lockfile manifest root_owned_path owner_without_manifest : TriggerKind
  config_outside_workspace workspace_config setup_file global_setup_file : TriggerKind
  non_inputs_file : TriggerKind

pub data FallbackScope : Type 0 where
  project_scope workspace_scope : FallbackScope

pub data NoSelectionKind : Type 0 where
  no_dependent_vitest_workspace only_not_runnable declared_non_input : NoSelectionKind

pub data StepKind : Type 0 where
  by_edge : EdgeProducerKind → StepKind
  by_uncertainty : UncertaintyKind → StepKind

pub record ChainStep : Type 0 where
  pub workspace : Text
  pub via : StepKind
  pub detail : Text

pub record SelectionReason : Type 0 where
  pub path : Text
  pub trigger : TriggerKind
  pub from : Option Text
  pub steps : List ChainStep

pub record BroadFallback : Type 0 where
  pub path : Text
  pub trigger : TriggerKind
  pub scope : FallbackScope
  pub workspaces : List Text

pub record VitestWorkspace : Type 0 where
  pub path : Text
  pub directory : Text

pub record NotRunnableWorkspace : Type 0 where
  pub workspace : VitestWorkspace
  pub reason : Text

pub record PathSelection : Type 0 where
  pub workspace : Text
  pub reasons : List SelectionReason

pub record ChangedPathReport : Type 0 where
  pub path : Text
  pub owner : Option Text
  pub triggers : List TriggerKind
  pub selected : List PathSelection
  pub not_runnable : List NotRunnableWorkspace
  pub nothing_selected : Option (NoSelectionKind × Text)

pub record TestCount : Type 0 where
  pub count : ℕ
  pub complete : Bool

pub record SelectionCounts : Type 0 where
  pub selected_tests : TestCount
  pub total_tests : TestCount
  pub selected_workspaces : ℕ
  pub total_workspaces : TestCount
  pub not_runnable_workspaces : ℕ

unfoldable pub TriggerKind_discrete : Discrete TriggerKind
TriggerKind_discrete = hlevel

instance abbrev pub trigger_eq : Eq TriggerKind
trigger_eq = discrete_eq TriggerKind_discrete

-- The name of a trigger.
abbrev trigger_name : TriggerKind → Text
trigger_name changed_path = codes "changed-path"
trigger_name lockfile = codes "lockfile"
trigger_name manifest = codes "manifest"
trigger_name root_owned_path = codes "root-owned-path"
trigger_name owner_without_manifest = codes "owner-without-manifest"
trigger_name config_outside_workspace = codes "config-outside-workspace"
trigger_name workspace_config = codes "workspace-config"
trigger_name setup_file = codes "setup-file"
trigger_name global_setup_file = codes "global-setup-file"
trigger_name non_inputs_file = codes "non-inputs-file"

-- `fallbackKey` of packages/daemon/src/daemon/workspace-schedule.ts.
unfoldable pub fallback_key : Text → TriggerKind → Text
fallback_key path trigger = quote_list (path ∷ trigger_name trigger ∷ [])

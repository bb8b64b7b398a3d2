-- ===== src/Query/Due.antt =====
-- packages/daemon/src/daemon/due-workspaces.ts: why a workspace is due, and the order of a round.
pub mod Reasons
pub mod Order
use rt_test.Base.{
  Bool, true, false, not, ◌&&◌, ◌||◌, Option, none, some, List, [], ◌∷◌, Text, includes, any,
  filter, nat_eq, list_eq, is_some, if◌then◌else◌,
}
use rt_test.Core.Evidence.{TestOutcome, passed, failed, skipped, error, Freshness, is_current}
use rt_test.Query.Records.{
  finished_test, RecordedTest, ran_module, RecordedModule, WorkspaceRun, ran_run, failed_run,
  crashed_run, InputFingerprint, not_fingerprinted, StoredRun, WorkspaceDiscovery,
}
use rt_test.Query.States.{is_current_adapter_version, record_freshness, flat_map}

pub data DueReason : Type 0 where
  no_run run_refused another_adapter_version due_not_fingerprinted : DueReason
  no_current_fingerprint inputs_changed due_failed_run due_crashed_run : DueReason

pub data QueueGroup : Type 0 where
  direct_target prior_failure rest : QueueGroup

pub record QueuedWorkspace : Type 0 where
  pub entry : WorkspaceDiscovery
  pub reason : DueReason
  pub group : QueueGroup

unfoldable pub retry_reason : Option StoredRun → Option DueReason
retry_reason none = none
retry_reason (some latest) = elim latest.run [
  | failed_run ↦ some due_failed_run
  | crashed_run ↦ some due_crashed_run
  | _ ↦ none
]

unfoldable pub retry_owed : Option StoredRun → Option DueReason → Bool → Bool
unfolding retry_reason
retry_owed latest stale attempt_stored_nothing =
    is_some (retry_reason latest) || (attempt_stored_nothing && is_some stale)

abbrev pub is_not_fingerprinted : InputFingerprint → Bool
is_not_fingerprinted not_fingerprinted = true
is_not_fingerprinted _ = false

unfoldable pub stale_reason : Option StoredRun → Option Text → Bool → Option DueReason
unfolding record_freshness is_current_adapter_version
stale_reason none current_digest refused = some (if refused then run_refused else no_run)
stale_reason (some latest) current_digest refused =
    if is_current (record_freshness latest current_digest)
    then none
    else (if not (is_current_adapter_version latest.adapter_version)
        then some another_adapter_version
        else (if is_not_fingerprinted latest.input_fingerprint
            then some due_not_fingerprinted
            else (if is_some current_digest
                then some inputs_changed
                else some no_current_fingerprint)))

-- `FAILING_OUTCOMES.includes`.
abbrev pub is_failing : TestOutcome → Bool
is_failing failed = true
is_failing error = true
is_failing _ = false

unfoldable pub is_failing_test : RecordedTest → Bool
is_failing_test test = elim test.run_state [
  | finished_test outcome _ ↦ is_failing outcome
  | _ ↦ false
]

unfoldable pub holds_failing_module : RecordedModule → Bool
unfolding is_failing_test
holds_failing_module recorded = elim recorded.state [
  | ran_module tests _ ↦ any is_failing_test tests
  | _ ↦ false
]

unfoldable pub holds_failing_test : Option StoredRun → Bool
unfolding holds_failing_module
holds_failing_test none = false
holds_failing_test (some latest) = elim latest.run [
  | ran_run modules ↦ any holds_failing_module modules
  | _ ↦ false
]

-- `directTargets.has` reads a set of paths, given as a list.
unfoldable pub queue_group : Text → Option StoredRun → List Text → QueueGroup
unfolding holds_failing_test
queue_group workspace_path latest direct_targets =
    if includes workspace_path direct_targets
    then direct_target
    else (if holds_failing_test latest then prior_failure else rest)

abbrev pub group_order : List QueueGroup
group_order = direct_target ∷ prior_failure ∷ rest ∷ []

abbrev pub same_group : QueueGroup → QueueGroup → Bool
same_group direct_target direct_target = true
same_group prior_failure prior_failure = true
same_group rest rest = true
same_group _ _ = false

unfoldable pub order_queue : List QueuedWorkspace → List QueuedWorkspace
unfolding flat_map
order_queue queue =
    flat_map (λ group. filter (λ (q : QueuedWorkspace). same_group q.group group) queue) group_order

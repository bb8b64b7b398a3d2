-- ===== src/Query/States.antt =====
-- packages/daemon/src/query/test-states.ts, with the states of query/answer.ts: the one state and
-- the freshness of each discovered test. A `Map` is a dictionary.
pub mod Answers
pub mod Current
use rt_test.Base.{
  ℕ, ◌+◌, Bool, true, false, not, ◌&&◌, ◌||◌, Option, none, some, List, [], ◌∷◌, ◌++◌, map, Text,
  codes, Dict, lookup, insert, length, ◌==◌, nat_eq, list_eq, or_default, is_some, if◌then◌else◌,
  Eq, discrete_eq,
}
use rt_test.Base.Json.{quote_list}
use rt_test.Core.Evidence.{
  TestOutcome, passed, failed, skipped, error, Freshness, current, stale, unknown, assess_freshness,
  assess_evidence,
}
use rt_test.Core.Identity.{TestIdentity, test_identity_key}
use rt_test.Query.Records.{
  ModuleReport, DiscoveredTest, finished_test, interrupted_test, RecordedTest, ModuleRunState,
  ran_module, failed_module, crashed_module, not_run_module, RecordedModule, WorkspaceRun, ran_run,
  unsupported_run, failed_run, interrupted_before_load_run, crashed_run, InputFingerprint, digest,
  not_fingerprinted, StoredRun, WorkspaceDiscovery, discovered, StoredDiscovery,
}

-- Why a test has no outcome.
pub data NoOutcome : Type 0 where
  interrupted module_not_run module_crashed module_failed_to_load : NoOutcome
  run_failed run_unsupported_vitest run_interrupted_before_load run_crashed run_refused : NoOutcome
  not_in_latest_run never_run : NoOutcome

pub data TestState : Type 0 where
  finished_with : TestOutcome → TestState
  no_outcome : NoOutcome → TestState

unfoldable pub TestState_discrete : Discrete TestState
TestState_discrete = hlevel

instance abbrev pub state_eq : Eq TestState
state_eq = discrete_eq TestState_discrete

pub record TestStanding : Type 0 where
  pub test : DiscoveredTest
  pub state : TestState
  pub freshness : Freshness

pub data RunAnswer : Type 0 where
  answer_outcome : TestOutcome → (positional : Bool) → RunAnswer
  answer_state : NoOutcome → RunAnswer

abbrev pub vitest_adapter_version : ℕ
vitest_adapter_version = 4

abbrev no_fingerprint : Text
no_fingerprint = []

-- `RUN_STATES`, for a run that is not `ran`.
abbrev pub run_states : WorkspaceRun → Option NoOutcome
run_states (ran_run _) = none
run_states failed_run = some run_failed
run_states unsupported_run = some run_unsupported_vitest
run_states interrupted_before_load_run = some run_interrupted_before_load
run_states crashed_run = some run_crashed

-- `MODULE_STATES`, for a module that is not `ran`.
abbrev pub module_states : ModuleRunState → Option NoOutcome
module_states (ran_module _ _) = none
module_states not_run_module = some module_not_run
module_states crashed_module = some module_crashed
module_states (failed_module _) = some module_failed_to_load

unfoldable pub is_current_adapter_version : ℕ → Bool
is_current_adapter_version adapter_version = adapter_version == vitest_adapter_version

-- The digest that `storedFreshness` hands to `assess`.
abbrev pub stored_digest : InputFingerprint → Text
stored_digest not_fingerprinted = no_fingerprint
stored_digest (digest d) = d

unfoldable pub stored_freshness : StoredRun → (Text → Freshness) → Freshness
unfolding is_current_adapter_version
stored_freshness stored assess =
    if not (is_current_adapter_version stored.adapter_version)
    then stale
    else assess (stored_digest stored.input_fingerprint)

unfoldable pub record_freshness : StoredRun → Option Text → Freshness
unfolding stored_freshness assess_freshness
record_freshness stored current_fingerprint =
    stored_freshness stored (λ d. assess_freshness (some d) current_fingerprint)

unfoldable pub position_unvouched : DiscoveredTest → Bool → Bool → Bool
position_unvouched test recorded_positional discovery_is_current =
    (test.is_duplicate || recorded_positional) && not discovery_is_current

unfoldable pub module_key : ModuleReport → Text
module_key test_module = quote_list (test_module.project_name ∷ test_module.module_path ∷ [])

unfoldable pub recorded_answer : RecordedTest → RunAnswer
recorded_answer test = elim test.run_state [
  | finished_test outcome _ ↦ answer_outcome outcome test.is_duplicate
  | interrupted_test ↦ answer_state interrupted
]

-- `new Map(entries)`: the last of the entries with one key is kept.
unfoldable pub map_of {ℓ} : {V : Type ℓ} → Dict Text V → Dict Text V → Dict Text V
map_of held [] = held
map_of held ((key, value) ∷ entries) = map_of (insert key value held) entries

-- `flatMap`.
unfoldable pub flat_map {ℓ κ} : {A : Type ℓ} {B : Type κ} → (A → List B) → List A → List B
flat_map f [] = []
flat_map f (x ∷ xs) = f x ++ flat_map f xs

abbrev pub module_tests : RecordedModule → List RecordedTest
module_tests test_module = elim test_module.state [ ran_module tests _ ↦ tests | _ ↦ [] ]

unfoldable pub recorded_tests : List RecordedModule → List RecordedTest
unfolding flat_map
recorded_tests modules = flat_map module_tests modules

abbrev pub by_test_key : RecordedTest → Text × RecordedTest
by_test_key test = (test_identity_key test.identity, test)

abbrev pub by_module_key : RecordedModule → Text × RecordedModule
by_module_key test_module = (module_key test_module.report, test_module)

-- `modules.get(moduleKey(identity))`, and the state that a module of the run gives its tests.
unfoldable pub module_answer : Option RecordedModule → RunAnswer
module_answer none = answer_state not_in_latest_run
module_answer (some test_module) =
    answer_state (or_default (module_states test_module.state) not_in_latest_run)

-- The answer from the test and the module that the two maps hold for an identity.
unfoldable pub found_answer : Option RecordedTest → Option RecordedModule → RunAnswer
unfolding recorded_answer module_answer
found_answer (some test) held = recorded_answer test
found_answer none held = module_answer held

abbrev pub module_of : TestIdentity → ModuleReport
module_of identity = record {
  project_name = identity.project_name;
  module_path = identity.module_path;
}

unfoldable pub run_answer : WorkspaceRun → TestIdentity → RunAnswer
unfolding map_of recorded_tests found_answer module_key lookup
run_answer (ran_run modules) identity =
    found_answer
      (lookup (test_identity_key identity) (map_of [] (map by_test_key (recorded_tests modules))))
      (lookup (module_key (module_of identity)) (map_of [] (map by_module_key modules)))
run_answer run identity = answer_state (or_default (run_states run) not_in_latest_run)

unfoldable pub run_answerer : StoredRun → TestIdentity → RunAnswer
unfolding run_answer
run_answerer stored identity = run_answer stored.run identity

unfoldable pub unanswered : List DiscoveredTest → NoOutcome → List TestStanding
unanswered tests state =
    map (λ test. record { test = test; state = no_outcome state; freshness = unknown }) tests

-- What `workspaceStandings` makes of one test, by the run's answer for it.
unfoldable pub answered_standing :
    StoredRun → Option Text → Bool → DiscoveredTest → RunAnswer → TestStanding
unfolding stored_freshness position_unvouched assess_evidence
answered_standing stored current_fingerprint discovery_is_current test
      (answer_outcome found positional) =
    record {
      test = test;
      state = finished_with found;
      freshness = stored_freshness stored (λ d.
          if position_unvouched test positional discovery_is_current
          then unknown
          else (assess_evidence (some (record { fingerprint = d; outcome = found }))
              current_fingerprint).freshness);
    }
answered_standing stored current_fingerprint discovery_is_current test (answer_state state) =
    record { test = test; state = no_outcome state; freshness = unknown }

unfoldable pub test_standing : StoredRun → Option Text → Bool → DiscoveredTest → TestStanding
unfolding run_answerer answered_standing
test_standing stored current_fingerprint discovery_is_current test =
    answered_standing stored current_fingerprint discovery_is_current test
      (run_answerer stored test.identity)

unfoldable pub workspace_standings :
    List DiscoveredTest → Option StoredRun → Option Text → Bool → List TestStanding
unfolding unanswered test_standing
workspace_standings tests none current_fingerprint discovery_is_current = unanswered tests never_run
workspace_standings tests (some stored) current_fingerprint discovery_is_current =
    map (test_standing stored current_fingerprint discovery_is_current) tests

-- The standings of one entry of the discovery.
unfoldable pub entry_standings :
    Dict Text StoredRun
    → Dict Text Text
    → (Text → Option Text)
    → Bool
    → WorkspaceDiscovery
    → List TestStanding
unfolding unanswered workspace_standings lookup
entry_standings latest_runs refused_runs current_of discovery_is_current (discovered entry) =
    if is_some (lookup entry.path refused_runs)
    then unanswered entry.tests run_refused
    else workspace_standings entry.tests (lookup entry.path latest_runs) (current_of entry.path)
        discovery_is_current
entry_standings latest_runs refused_runs current_of discovery_is_current _ = []

unfoldable pub test_standings :
    StoredDiscovery
    → Dict Text StoredRun
    → Dict Text Text
    → (Text → Option Text)
    → Bool
    → List TestStanding
unfolding flat_map entry_standings
test_standings discovery latest_runs refused_runs current_of discovery_is_current =
    flat_map (entry_standings latest_runs refused_runs current_of discovery_is_current)
      discovery.workspaces

-- ===== src/Query/Lists.antt =====
-- packages/daemon/src/vitest/test-lists.ts, less what reads Vitest's objects, and
-- query/list-freshness.ts: the list of each module's tests, and whether a run vouches for it. The
-- status of a discovery is its constructor.
pub mod Grouped
pub mod Listed
pub mod Modules
pub mod Recorded
pub mod Vouched
use rt_test.Base.{
  ℕ, ◌+◌, Bool, true, false, not, ◌&&◌, ◌||◌, Option, none, some, List, [], ◌∷◌, ◌++◌, map, filter,
  Text, codes, Dict, lookup, insert, length, includes, ltb, ◌==◌, nat_eq, list_eq, is_some,
  if◌then◌else◌,
}
use rt_test.Base.Json.{quote, quote_list}
use rt_test.Core.Evidence.{Freshness, current, stale, unknown, is_current}
use rt_test.Core.Identity.{TestIdentity, test_identity_key}
use rt_test.Query.Records.{
  ModuleReport, DiscoveredTest, RecordedTest, RecordedModule, ran_module, WorkspaceRun, ran_run,
  StoredRun, DiscoveredWorkspace, WorkspaceDiscovery, discovered, path_of,
}
use rt_test.Query.States.{map_of, flat_map, module_key, module_of, record_freshness}
use rt_test.Daemon.Standings.{sort, text_le}

pub record ModuleTests : Type 0 where
  pub report : ModuleReport
  pub tests : List DiscoveredTest

-- `WorkspaceLists`' modules put in place of a discovery's.
pub record ReplacedLists : Type 0 where
  pub discovery : List WorkspaceDiscovery
  pub changed_modules : ℕ

-- A module's tests, with one more.
abbrev pub with_test : Option ModuleTests → DiscoveredTest → ModuleTests
with_test none test = record { report = module_of test.identity; tests = test ∷ [] }
with_test (some listed) test = record { report = listed.report; tests = listed.tests ++ test ∷ [] }

-- The loop of `testsByModule`.
unfoldable pub tests_by_module_from :
    List DiscoveredTest → Dict Text ModuleTests → Dict Text ModuleTests
unfolding module_key lookup insert
tests_by_module_from [] modules = modules
tests_by_module_from (test ∷ tests) modules =
    let key = module_key (module_of test.identity) in
    tests_by_module_from tests (insert key (with_test (lookup key modules) test) modules)

unfoldable pub tests_by_module : List DiscoveredTest → Dict Text ModuleTests
unfolding tests_by_module_from
tests_by_module tests = tests_by_module_from tests []

unfoldable pub listed_modules : DiscoveredWorkspace → List ModuleTests
unfolding tests_by_module module_key
listed_modules entry =
    let failed = map module_key entry.failed_modules in
    map (λ (held : Text × ModuleTests). held.1)
      (filter (λ (held : Text × ModuleTests). not (includes held.0 failed))
        (tests_by_module entry.tests))

-- `identities`, of the tests' identities.
unfoldable pub identities : List TestIdentity → Text
unfolding sort
identities tests = quote_list (sort text_le (map test_identity_key tests))

abbrev pub discovered_identity : DiscoveredTest → TestIdentity
discovered_identity test = test.identity

abbrev pub recorded_identity : RecordedTest → TestIdentity
recorded_identity test = test.identity

-- The identities that a run recorded for a module that ran.
abbrev pub recorded_list : RecordedModule → Dict Text Text
recorded_list recorded = elim recorded.state [
  | ran_module tests _ ↦ (module_key recorded.report, identities (map recorded_identity tests)) ∷ []
  | _ ↦ []
]

abbrev pub same_list : Option Text → Text → Bool
same_list none list = false
same_list (some recorded) list = recorded == list

-- The run recorded the module as ran, with the tests that the list holds.
abbrev pub vouches : Dict Text Text → ModuleTests → Bool
vouches recorded listed =
    same_list (lookup (module_key listed.report) recorded)
      (identities (map discovered_identity listed.tests))

unfoldable pub vouched_modules : DiscoveredWorkspace → WorkspaceRun → List ModuleTests
unfolding listed_modules identities module_key map_of flat_map lookup
vouched_modules entry (ran_run modules) =
    filter (vouches (map_of [] (flat_map recorded_list modules))) (listed_modules entry)
vouched_modules entry run = []

unfoldable pub vouched_freshness : DiscoveredWorkspace → StoredRun → Option Text → Freshness
unfolding record_freshness vouched_modules listed_modules
vouched_freshness entry latest current_fingerprint =
    let freshness = record_freshness latest current_fingerprint in
    if not (is_current freshness)
    then freshness
    else (if length (vouched_modules entry latest.run) == length (listed_modules entry)
        then current
        else unknown)

-- The freshness of one discovered workspace's list, when a run of it is stored or was refused.
unfoldable pub entry_freshness :
    Dict Text StoredRun
    → Dict Text Text
    → (Text → Option Text)
    → DiscoveredWorkspace
    → Option Freshness
unfolding vouched_freshness lookup
entry_freshness latest_runs refused_runs current_of entry = elim (lookup entry.path latest_runs) [
  | none ↦ if is_some (lookup entry.path refused_runs) then some unknown else none
  | some latest ↦ some (vouched_freshness entry latest (current_of entry.path))
]

-- A rating joined by one more: stale at once, and unknown until then.
abbrev pub join_freshness : Option Freshness → Freshness → Freshness → Freshness
join_freshness none rated rest = rest
join_freshness (some stale) rated rest = stale
join_freshness (some _) rated rest = rest

-- The rating after an entry, if the loop goes on.
abbrev pub rated_after : Option Freshness → Freshness → Freshness
rated_after (some unknown) rated = unknown
rated_after _ rated = rated

-- The loop over the discovered workspaces.
unfoldable pub rate_entries :
    (DiscoveredWorkspace → Option Freshness) → List WorkspaceDiscovery → Freshness → Freshness
rate_entries freshness_of [] rated = rated
rate_entries freshness_of (discovered entry ∷ entries) rated =
    let vouched = freshness_of entry in
    join_freshness vouched rated (rate_entries freshness_of entries (rated_after vouched rated))
rate_entries freshness_of (_ ∷ entries) rated = rate_entries freshness_of entries rated

unfoldable pub list_freshness :
    Freshness
    → List WorkspaceDiscovery
    → Dict Text StoredRun
    → Dict Text Text
    → (Text → Option Text)
    → Freshness
unfolding rate_entries entry_freshness
list_freshness own workspaces latest_runs refused_runs current_of =
    if not (is_current own)
    then own
    else rate_entries (entry_freshness latest_runs refused_runs current_of) workspaces current

-- `listSignature`: equal for two lists that hold the same tests in the same order.
abbrev boolean_text : Bool → Text
boolean_text true = codes "true"
boolean_text false = codes "false"

abbrev test_signature : DiscoveredTest → Text
test_signature test =
    b'[' ∷ quote (test_identity_key test.identity)
    ++ (b',' ∷ boolean_text test.is_duplicate ++ (b',' ∷ quote test.mode ++ b']' ∷ []))

abbrev join_signatures : List Text → Text
join_signatures [] = []
join_signatures (x ∷ []) = x
join_signatures (x ∷ y ∷ xs) = x ++ b',' ∷ join_signatures (y ∷ xs)

unfoldable pub list_signature : List DiscoveredTest → Text
list_signature tests = b'[' ∷ join_signatures (map test_signature tests) ++ b']' ∷ []

-- A list that replaces the one a discovery holds of its module.
abbrev pub replaces : Dict Text ModuleTests → ModuleTests → Bool
replaces modules list = elim (lookup (module_key list.report) modules) [
  | none ↦ false
  | some held ↦
      ltb 0 (length list.tests) && not (list_signature held.tests == list_signature list.tests)
]

-- The lists put in place of those of their modules.
unfoldable pub put_lists : List ModuleTests → Dict Text ModuleTests → Dict Text ModuleTests
unfolding insert module_key
put_lists [] modules = modules
put_lists (list ∷ lists) modules = put_lists lists (insert (module_key list.report) list modules)

abbrev pub module_tests_of : Text × ModuleTests → List DiscoveredTest
module_tests_of held = held.1.tests

-- The tests of a workspace once the lists that changed are in place, and how many did.
unfoldable pub refreshed_tests : List DiscoveredTest → List ModuleTests → List DiscoveredTest × ℕ
unfolding tests_by_module put_lists flat_map list_signature module_key lookup
refreshed_tests tests lists =
    let modules = tests_by_module tests in
    let changed = filter (replaces modules) lists in
    (flat_map module_tests_of (put_lists changed modules), length changed)

-- `ReplacedLists`, when a list was replaced.
abbrev with_refreshed :
    DiscoveredWorkspace → List WorkspaceDiscovery → List DiscoveredTest × ℕ → Option ReplacedLists
with_refreshed entry others (tests, changed) =
    if changed == 0
    then none
    else some (record {
      discovery = discovered (record entry { tests = tests }) ∷ others;
      changed_modules = changed;
    })

abbrev after_entry : WorkspaceDiscovery → Option ReplacedLists → Option ReplacedLists
after_entry entry none = none
after_entry entry (some replaced) =
    some (record replaced { discovery = entry ∷ replaced.discovery })

-- What becomes of the first entry of a path.
abbrev refreshed_entry :
    WorkspaceDiscovery → List WorkspaceDiscovery → List ModuleTests → Option ReplacedLists
refreshed_entry (discovered entry) others lists =
    with_refreshed entry others (refreshed_tests entry.tests lists)
refreshed_entry _ others lists = none

unfoldable pub with_module_lists :
    List WorkspaceDiscovery → Text → List ModuleTests → Option ReplacedLists
unfolding refreshed_tests
with_module_lists [] workspace_path lists = none
with_module_lists (entry ∷ entries) workspace_path lists =
    let later = with_module_lists entries workspace_path lists in
    if path_of entry == workspace_path
    then refreshed_entry entry entries lists
    else after_entry entry later

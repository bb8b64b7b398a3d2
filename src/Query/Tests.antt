-- ===== src/Query/Tests.antt =====
-- Checks and examples on one workspace with one stored run.
use rt_test.Base.{
  ◌⊎◌, All, true, false, none, some, List, [], ◌∷◌, Text, codes, map, filter, ◌≡◌, ◌↔◌, ◌≢◌,
}
use rt_test.Core.Evidence.{TestOutcome, passed, current}
use rt_test.Core.Identity.{TestIdentity}
use rt_test.Query.Records.{
  DiscoveredTest, finished_test, RecordedTest, ran_module, ran_run, digest, StoredRun,
  DiscoveredWorkspace, discovered, failed_workspace, StoredDiscovery,
}
use rt_test.Query.States.{
  TestStanding, flat_map, test_standing, test_standings, vitest_adapter_version,
}
use rt_test.Query.States.Answers.{listed_tests, test_standings-tests}
use rt_test.Query.States.Current.{Finished, IsVouched, test_standing-current_iff}
use rt_test.Query.Lists.{list_freshness}
use rt_test.Query.Lists.Vouched.{Discovered, Stands, list_freshness-current_iff}
use rt_test.Query.Due.{
  QueueGroup, rest, direct_target, QueuedWorkspace, no_run, inputs_changed, stale_reason,
  order_queue,
}
use rt_test.Query.Due.Reasons.{IsBound, stale_reason-none_iff, stale_reason-inputs_changed_iff}
use rt_test.Query.Due.Order.{IsGrouped, in_group, order_queue-IsGrouped}

abbrev identity : TestIdentity
identity = record {
  workspace_path = codes ".";
  project_name = codes "unit";
  module_path = codes "a.test.ts";
  name_path = codes "adds" ∷ [];
  occurrence = 0;
}

abbrev listed : DiscoveredTest
listed = record { identity = identity; is_duplicate = false; mode = codes "run" }

abbrev stored : StoredRun
stored = record {
  adapter_version = 4;
  input_fingerprint = digest (codes "d1");
  run_id = codes "r1";
  run = ran_run (
      record {
        report = record { project_name = codes "unit"; module_path = codes "a.test.ts" };
        state =
            ran_module
              (record {
                identity = identity;
                is_duplicate = false;
                run_state = finished_test passed [];
              }
                ∷ [])
              [];
      }
      ∷ []);
}

abbrev listed_workspace : DiscoveredWorkspace
listed_workspace = record {
  path = codes ".";
  vitest_version = codes "4.0.0";
  tests = listed ∷ [];
  failed_modules = [];
}

abbrev discovery : StoredDiscovery
discovery = record {
  adapter_version = 4;
  input_fingerprint = digest (codes "d1");
  discovery_id = codes "s1";
  workspaces = failed_workspace (codes "b") ∷ discovered listed_workspace ∷ [];
}

abbrev queue : List QueuedWorkspace
queue =
    record { entry = failed_workspace (codes "a"); reason = no_run; group = rest }
    ∷ record { entry = failed_workspace (codes "b"); reason = no_run; group = direct_target }
    ∷ []

test_standing-current_iff_example :
    ((test_standing stored (some (codes "d1")) false listed).freshness ≡ current) ↔ (
      IsBound stored (some (codes "d1"))
      × ((recorded : RecordedTest) × (o : TestOutcome) × Finished stored identity recorded o
          × IsVouched false listed recorded))
test_standing-current_iff_example =
    test_standing-current_iff stored (some (codes "d1")) false listed

test_standings-tests_example :
    map
      (λ (s : TestStanding). s.test)
      (test_standings discovery ((codes ".", stored) ∷ []) [] (λ _. some (codes "d1")) true)
    ≡ flat_map listed_tests discovery.workspaces
test_standings-tests_example =
    test_standings-tests discovery ((codes ".", stored) ∷ []) [] (λ _. some (codes "d1")) true

stale_reason-none_iff_example :
    (stale_reason (some stored) (some (codes "d1")) false ≡ none)
    ↔ ((run : StoredRun) × (some stored ≡ some run) × IsBound run (some (codes "d1")))
stale_reason-none_iff_example = stale_reason-none_iff (some stored) (some (codes "d1")) false

stale_reason-inputs_changed_iff_example :
    (stale_reason (some stored) (some (codes "d2")) false ≡ some inputs_changed) ↔ (
      (run : StoredRun) × (d : Text) × (now : Text) × (some stored ≡ some run)
      × (run.adapter_version ≡ vitest_adapter_version)
      × (run.input_fingerprint ≡ digest d)
      × (some (codes "d2") ≡ some now)
      × ((d ≢ now) ⊎ (d ≡ [])))
stale_reason-inputs_changed_iff_example =
    stale_reason-inputs_changed_iff (some stored) (some (codes "d2")) false

order_queue-IsGrouped_example :
    IsGrouped (order_queue queue)
    × ((g : QueueGroup) → filter (in_group g) (order_queue queue) ≡ filter (in_group g) queue)
order_queue-IsGrouped_example = order_queue-IsGrouped queue

list_freshness-current_iff_example :
    (list_freshness current discovery.workspaces
        ((codes ".", stored) ∷ [])
        []
        (λ _. some (codes "d1"))
      ≡ current)
    ↔ ((current ≡ current)
        × All
            (Discovered (Stands ((codes ".", stored) ∷ []) [] (λ _. some (codes "d1"))))
            discovery.workspaces)
list_freshness-current_iff_example =
    list_freshness-current_iff current discovery.workspaces ((codes ".", stored) ∷ []) []
      (λ _. some (codes "d1"))

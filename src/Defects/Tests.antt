-- ===== src/Defects/Tests.antt =====
-- Examples on one definition with one stored detection.
use rt_test.Base.{true, false, none, some, List, [], ◌∷◌, Text, codes, Exists, ◌≡◌, ◌↔◌}
use rt_test.Core.Evidence.{TestOutcome, current}
use rt_test.Core.Identity.{TestIdentity}
use rt_test.Query.Records.{DiscoveredTest, discovered}
use rt_test.Query.States.{finished_with}
use rt_test.Daemon.Standings.{never_verified}
use rt_test.Defects.Records.{
  ResolvedDefinition, Verdict, StoredEvidence, inputs_changed, current_evidence,
}
use rt_test.Defects.Freshness.{Rated, evidence_freshness, stale_causes_of}
use rt_test.Defects.Freshness.Rates.{
  Holds, IsCurrentEvidence, stale_causes_of-evidence_freshness, evidence_freshness-current_iff,
}
use rt_test.Defects.Standing.{standing_of, is_verified}
use rt_test.Defects.Index.{StandingFacts, DefectStanding, standing_index}
use rt_test.Defects.Standing.Verified.{IsVerified, standing_of-is_verified_iff}
use rt_test.Defects.Standing.Eligible.{IsEligible, standing_of-eligible_iff}
use rt_test.Defects.Counts.{count_defect_standings}
use rt_test.Defects.Counts.Sums.{IsCounted, count_defect_standings-IsCounted}

abbrev identity : TestIdentity
identity = record {
  workspace_path = codes ".";
  project_name = codes "unit";
  module_path = codes "a.test.ts";
  name_path = codes "adds" ∷ [];
  occurrence = 0;
}

abbrev listed : DiscoveredTest
listed = record { identity = identity; is_duplicate = false; mode = codes "run" }

abbrev definition : ResolvedDefinition
definition = record {
  file = codes "a.defects.json";
  position = 0;
  id = some (codes "x");
  resolved = some listed;
  mutation = some (record { file = codes "a.ts"; old_text = codes "1"; new_text = codes "2" });
  mutation_path = some (codes "/root/a.ts");
  state = never_verified;
  reason = none;
  mutation_file_digest = some (codes "f");
}

abbrev stored : StoredEvidence
stored = record {
  input_fingerprint_digest = codes "d1";
  defect_id = codes "x";
  definition_digest = codes "x";
  mutation_file_digest = codes "f";
  vitest_version = codes "4.0.0";
  falsifier_version = 4;
  adapter_version = 4;
  verdict = Verdict.detected;
  judgement = none;
}

abbrev rated_by : Rated
rated_by = record {
  record_ = stored;
  digest = codes "x";
  test = listed;
  definition = definition;
  vitest_versions = (codes ".", codes "4.0.0") ∷ [];
  current_fingerprint = λ _. some (codes "d2");
  discovery_current = true;
}

abbrev facts : StandingFacts
facts = record {
  consumer_root = codes "/root";
  assertion_errors = [];
  evidence = record { evidence = stored ∷ []; evidence_refusals = [] };
  discovery =
      discovered (record {
        path = codes ".";
        vitest_version = codes "4.0.0";
        tests = listed ∷ [];
        failed_modules = [];
      })
      ∷ [];
  discovery_current = true;
  current_fingerprint = λ _. some (codes "d1");
  test_standings =
      record { test = listed; state = finished_with TestOutcome.passed; freshness = current } ∷ [];
}

abbrev hash : Text → Text
hash _ = codes "x"

abbrev relative_path : Text → Text → Text
relative_path _ path = path

abbrev standings : List DefectStanding
standings = standing_of hash relative_path definition (standing_index facts) ∷ []

stale_causes_of-evidence_freshness_example :
    Exists (λ c. c ≡ inputs_changed) (stale_causes_of (evidence_freshness rated_by))
    ↔ Holds rated_by inputs_changed
stale_causes_of-evidence_freshness_example =
    stale_causes_of-evidence_freshness rated_by inputs_changed

evidence_freshness-current_iff_example :
    (evidence_freshness rated_by ≡ current_evidence) ↔ IsCurrentEvidence rated_by
evidence_freshness-current_iff_example = evidence_freshness-current_iff rated_by

standing_of-is_verified_iff_example :
    (is_verified (standing_of hash relative_path definition (standing_index facts)) ≡ true)
    ↔ IsVerified hash relative_path definition (standing_index facts)
standing_of-is_verified_iff_example =
    standing_of-is_verified_iff hash relative_path definition (standing_index facts)

standing_of-eligible_iff_example :
    ((standing_of hash relative_path definition (standing_index facts)).eligible ≡ true)
    ↔ IsEligible hash relative_path definition facts
standing_of-eligible_iff_example = standing_of-eligible_iff hash relative_path definition facts

count_defect_standings-IsCounted_example : IsCounted standings (count_defect_standings standings)
count_defect_standings-IsCounted_example = count_defect_standings-IsCounted standings

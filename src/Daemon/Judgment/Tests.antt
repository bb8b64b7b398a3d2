-- ===== src/Daemon/Judgment/Tests.antt =====
-- An example on one run during which one path outside its inputs changed.
use rt_test.Base.{false, none, some, [], ◌∷◌, Text, codes, ◌≡◌, ◌↔◌}
use rt_test.Inputs.Fingerprint.{fingerprinted}
use rt_test.Daemon.Judgment.{
  BuildPlacement, narrowed_placement, RunFacts, kept, case_comparable, judge_run,
}
use rt_test.Daemon.Judgment.Kept.{IsKept, judge_run-kept_iff}

abbrev build : BuildPlacement
build = record {
  build = 1;
  place = λ _ _. some (record { inside = codes "a.ts" ∷ []; widened = [] });
}

abbrev run_facts : RunFacts
run_facts = record {
  workspace_path = codes "a";
  start = fingerprinted (codes "d");
  window = record {
    paths = codes "b.md" ∷ [];
    causes = [];
    start_digests = none;
    end_digests = none;
  };
  listed_files = codes "a.test.ts" ∷ [];
  placements = narrowed_placement build ∷ [];
  end_fingerprint = some (fingerprinted (codes "d"));
}

abbrev same_case : Text → Text
same_case = case_comparable false (λ path. path)

judge_run-kept_iff_example :
    (judge_run same_case run_facts ≡ some (kept (codes "b.md" ∷ [])))
    ↔ IsKept same_case run_facts (codes "b.md" ∷ [])
judge_run-kept_iff_example = judge_run-kept_iff same_case run_facts (codes "b.md" ∷ [])

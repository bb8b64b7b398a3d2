-- ===== src/Core/Tests.antt =====
-- Runs of packages/core/src at concrete inputs, and the theorems applied at some of them.
use rt_test.Base.{
  ℕ, Bool, true, false, none, some, List, [], ◌∷◌, map, Text, codes, nat_eq, list_eq, list_beq,
  lookup, insert, ◌≡◌, ◌≢◌, ◌↔◌, refl, Pairs,
}
use rt_test.Base.Json.{quote, quote_list, print_nat}
use rt_test.Core.Evidence.{
  TestEvidence, passed, current, stale, unknown, assess_freshness, assess_evidence,
}
use rt_test.Core.Evidence.Laws.{Rates, assess_freshness-Rates, current_pass_iff}
use rt_test.Core.Identity.{
  TestIdentity, TestModuleLocation, test_identity_key, identify_module_tests, name_path_key,
  count_by, count_of, identify_from, count_from,
}
use rt_test.Core.Identity.Keys.{test_identity_key_iff}
use rt_test.Core.Identity.Occurrences.{
  described, identify_module_tests-described, identify_module_tests-distinct,
}

abbrev digest : Text
digest = codes "d1"

abbrev pass : TestEvidence
pass = record { fingerprint = digest; outcome = passed }

freshness_tests :
    (assess_freshness (some digest) (some digest) ≡ current)
    × (assess_freshness (some digest) (some (codes "d2")) ≡ stale)
    × (assess_freshness (some []) (some digest) ≡ unknown)
    × (assess_freshness (some digest) none ≡ unknown)
unfolding assess_freshness list_beq
freshness_tests = (refl, refl, refl, refl)

assess_freshness-Rates_example :
    Rates (some digest) (some digest) (assess_freshness (some digest) (some digest))
assess_freshness-Rates_example = assess_freshness-Rates (some digest) (some digest)

current_pass_iff_example : ((assess_evidence (some pass) (some digest)).is_current_pass ≡ true) ↔ (
    (d : Text) × (d ≢ [])
    × (some pass ≡ some (record { fingerprint = d; outcome = passed }))
    × (some digest ≡ some d))
current_pass_iff_example = current_pass_iff (some pass) (some digest)

abbrev identity : Text → ℕ → TestIdentity
identity name n = record {
  workspace_path = codes "packages/a";
  project_name = [];
  module_path = codes "a.test.ts";
  name_path = name ∷ [];
  occurrence = n;
}

key_test :
    test_identity_key (identity (codes "q\"\\") 12)
    ≡ codes "[\"packages/a\",\"\",\"a.test.ts\",[\"q\\\"\\\\\"],12]"
unfolding test_identity_key quote quote_list print_nat
key_test = refl

test_identity_key_iff_example :
    (test_identity_key (identity (codes "a") 1) ≡ test_identity_key (identity (codes "a") 2))
    ↔ (identity (codes "a") 1 ≡ identity (codes "a") 2)
test_identity_key_iff_example =
    test_identity_key_iff (identity (codes "a") 1) (identity (codes "a") 2)

abbrev location : TestModuleLocation
location = record { workspace_path = codes "w"; project_name = codes "p"; module_path = codes "m" }

abbrev names : List (List Text)
names = (codes "a" ∷ []) ∷ (codes "b" ∷ []) ∷ (codes "a" ∷ []) ∷ []

occurrence_test :
    map {B = ℕ × Bool}
      (λ t. (t.identity.occurrence, t.is_duplicate))
      (identify_module_tests location names)
    ≡ (0, true) ∷ (0, false) ∷ (1, true) ∷ []
unfolding identify_module_tests identify_from count_by count_from count_of name_path_key quote_list
    lookup insert list_beq
occurrence_test = refl

identify_module_tests-described_example :
    identify_module_tests location names ≡ described location names [] names
identify_module_tests-described_example = identify_module_tests-described location names

identify_module_tests-distinct_example :
    Pairs
      (λ s t. test_identity_key s.identity ≢ test_identity_key t.identity)
      (identify_module_tests location names)
identify_module_tests-distinct_example = identify_module_tests-distinct location names

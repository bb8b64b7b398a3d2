-- ===== src/Falsify/Tests.antt =====
-- Judgements of packages/daemon/src/falsify/verdict.ts at concrete facts, and the theorems applied.
use rt_test.Base.{
  ℕ, true, false, Option, none, some, List, [], ◌∷◌, codes, lookup, nat_eq, list_eq, list_beq, ◌≡◌,
  ◌↔◌, refl,
}
use rt_test.Falsify.Facts.{
  in_test, TestState, passed, failed, ErrorFact, assertion, other_error, assertion_error_name,
  TestFacts, collected, RunExecution, RunFacts, BaselineFacts, ExperimentRunFacts, confirming_ran,
  restored_recorded, next_recorded, ExperimentFacts, ran, ConfirmingFacts,
}
use rt_test.Falsify.Verdict.{judge, is_would_be_detection}
use rt_test.Falsify.Verdict.Types.{
  Judgement, detected, unclear, no_verdict, in_run, not_an_assertion, confirming_run_differed,
  SettledReading, NoVerdict, next_run_unclean,
}
use rt_test.Falsify.Verdict.Reading.{WouldDetect}
use rt_test.Falsify.Verdict.Runs.{is_would_be_detection_iff}
use rt_test.Falsify.Verdict.Detection.{IsDetection, judge-detected_iff}
use rt_test.Falsify.Verdict.Survival.{IsSurvival, judge-survived_iff}
use rt_test.Falsify.Verdict.Missing.{has_verdict, LacksFacts, judge-no_verdict_iff}

abbrev test_of : TestState → List ErrorFact → TestFacts
test_of state errors = record {
  state = state;
  mode = codes "run";
  errors = errors;
  repeats = none;
  hooks = some ((codes "beforeEach", codes "pass") ∷ []);
  reach = some in_test;
}

abbrev facts_with : TestFacts → RunFacts
facts_with test = record {
  test = some test;
  module_facts = some (collected 0 []);
  unhandled_error_count = 0;
  ending = record {
    execution = RunExecution.completed;
    force_stopped = false;
    cancel_failed = false;
  };
}

abbrev sound : BaselineFacts
sound = record {
  facts = facts_with (test_of passed []);
  counted_unhandled_error_count = 0;
  unnamed_unhandled_error_count = 0;
}

abbrev run_of : TestFacts → ExperimentRunFacts
run_of test = record { facts = facts_with test; mutation = [] }

abbrev by_assertion : TestFacts
by_assertion = test_of failed (assertion assertion_error_name none ∷ [])

abbrev experiment : TestFacts → Option TestFacts → ℕ → ExperimentFacts
experiment test confirming unhandled = ran (record {
  shared = record {
    baseline = some sound;
    restored_baseline = some (restored_recorded sound);
    job = record { unhandled_error_count = 0; closed = true };
  };
  run = run_of test;
  confirming = confirmed confirming;
  next_run = some (next_recorded unhandled);
})
  where
    confirmed : Option TestFacts → Option ConfirmingFacts
    confirmed none = none
    confirmed (some t) = some (confirming_ran (run_of t))

judge_tests :
    (judge (experiment by_assertion (some by_assertion) 0) ≡ detected)
    × (judge (experiment (test_of passed []) none 0) ≡ Judgement.survived)
    × (judge (experiment by_assertion (some (test_of passed [])) 0)
        ≡ unclear (confirming_run_differed SettledReading.survived))
    × (judge (experiment (test_of failed (other_error none ∷ [])) none 0)
        ≡ unclear (in_run not_an_assertion))
    × (judge (experiment by_assertion (some by_assertion) 1) ≡ unclear next_run_unclean)
    × (judge (experiment by_assertion none 0) ≡ no_verdict NoVerdict.confirming_run_unrecorded)
unfolding judge lookup list_beq
judge_tests = (refl, refl, refl, refl, refl, refl)

is_would_be_detection_iff_example :
    (is_would_be_detection (run_of by_assertion) ≡ true) ↔ WouldDetect (run_of by_assertion)
is_would_be_detection_iff_example = is_would_be_detection_iff (run_of by_assertion)

judge-detected_iff_example :
    (judge (experiment by_assertion (some by_assertion) 0) ≡ detected)
    ↔ IsDetection (experiment by_assertion (some by_assertion) 0)
judge-detected_iff_example = judge-detected_iff (experiment by_assertion (some by_assertion) 0)

judge-survived_iff_example :
    (judge (experiment (test_of passed []) none 0) ≡ Judgement.survived)
    ↔ IsSurvival (experiment (test_of passed []) none 0)
judge-survived_iff_example = judge-survived_iff (experiment (test_of passed []) none 0)

judge-no_verdict_iff_example :
    (has_verdict (judge (experiment by_assertion none 0)) ≡ false)
    ↔ LacksFacts (experiment by_assertion none 0)
judge-no_verdict_iff_example = judge-no_verdict_iff (experiment by_assertion none 0)

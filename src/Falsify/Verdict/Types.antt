-- ===== src/Falsify/Verdict/Types.antt =====
-- The readings and judgements of packages/daemon/src/falsify/verdict.ts.
use rt_test.Base.{ℕ, Option, List, Text}
use rt_test.Falsify.Facts.{NoProbeSite, ReachUnknownReason, TestState}

pub data UnexecutedDetail : Type 0 where
  never_transformed : UnexecutedDetail
  mutation_not_applied : (occurrences : ℕ) → UnexecutedDetail

-- The state of a test that did not run: a state that is neither `passed` nor `failed`, or none.
pub data NotRunState : Type 0 where
  test_state : Text → NotRunState
  test_absent : NotRunState

-- A hook's state, or `not-recorded`.
pub data HookReading : Type 0 where
  hook_state : Text → HookReading
  hook_not_recorded : HookReading

pub data InvalidRun : Type 0 where
  run_not_clean module_failed : InvalidRun
  suite_error : (suite : List Text) → InvalidRun
  test_not_run : NotRunState → InvalidRun
  hook_not_passed : (hook : Text) → HookReading → InvalidRun
  test_repeated : (repeats : ℕ) → InvalidRun
  site_not_executed : Option UnexecutedDetail → InvalidRun
  reach_unknown : Option ReachUnknownReason → InvalidRun

-- The reasons read from the job's own check and from the two baselines.
pub data InvalidOutsideRun : Type 0 where
  no_probe_site : NoProbeSite → InvalidOutsideRun
  baseline_not_passed : Option (TestState × Text) → InvalidOutsideRun
  no_module baseline_not_clean : InvalidOutsideRun
  restored_baseline_not_passed restored_baseline_not_clean : InvalidOutsideRun

pub data UnclearRun : Type 0 where
  not_an_assertion unhandled_error : UnclearRun

-- What one run reads, taken alone, when that is no detection.
pub data SettledReading : Type 0 where
  survived : SettledReading
  invalid_run : InvalidRun → SettledReading
  unclear_run : UnclearRun → SettledReading

pub data RunReading : Type 0 where
  settled : SettledReading → RunReading
  would_detect : RunReading

pub data Unclear : Type 0 where
  in_run : UnclearRun → Unclear
  confirming_run_differed : (confirming : SettledReading) → Unclear
  next_run_unclean job_unclean : Unclear

pub data NoVerdict : Type 0 where
  interrupted mutation_file_unreadable baseline_unrecorded run_unrecorded : NoVerdict
  confirming_run_unrecorded restored_baseline_unrecorded : NoVerdict
  anchor_count : (count : ℕ) → NoVerdict

pub data Judgement : Type 0 where
  detected survived : Judgement
  invalid_experiment : InvalidRun → Judgement
  invalid_outside_run : InvalidOutsideRun → Judgement
  unclear : Unclear → Judgement
  no_verdict : NoVerdict → Judgement

-- A settled reading of the first run is the judgement.
abbrev pub of_settled : SettledReading → Judgement
of_settled SettledReading.survived = Judgement.survived
of_settled (invalid_run reason) = invalid_experiment reason
of_settled (unclear_run reason) = unclear (in_run reason)

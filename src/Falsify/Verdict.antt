-- ===== src/Falsify/Verdict.antt =====
-- `judge` of packages/daemon/src/falsify/verdict.ts: an experiment's one judgement. A reason and
-- its detail are one constructor. The types stand in Verdict/Types.antt.
pub mod Types
pub mod Reading
pub mod Runs
pub mod Baselines
pub mod Detection
pub mod Survival
pub mod Missing
use rt_test.Base.{
  ℕ, Bool, true, false, not, ◌&&◌, ◌||◌, Option, none, some, List, [], ◌∷◌, ◌==◌, nat_eq, list_eq,
  any, Text, codes, lookup, or_default, ◌<|>◌, if◌then◌else◌, ltb,
}
use rt_test.Falsify.Facts.{
  in_test, outside_test, no_reach, unknown_reach, Reach, TestState, passed, failed, other_state,
  ErrorFact, assertion, other_error, HookStates, TestFacts, ModuleFacts, collected, not_collected,
  RunExecution, RunEnding, RunFacts, BaselineFacts, MutationLoad, applied_probed, applied_unprobed,
  not_applied, ExperimentRunFacts, ConfirmingFacts, confirming_ran, confirming_unrecorded,
  confirming_interrupted, RestoredBaselineFacts, restored_recorded, restored_unrecorded,
  NextRunFact, next_recorded, next_unrecorded, NotRunFact, JobFacts, SharedFacts, RanFacts,
  ExperimentFacts, not_run, ran,
}
use rt_test.Falsify.Verdict.Types.{
  UnexecutedDetail, never_transformed, mutation_not_applied, NotRunState, test_state, test_absent,
  HookReading, hook_state, hook_not_recorded, run_not_clean, module_failed, suite_error,
  test_not_run, hook_not_passed, test_repeated, site_not_executed, reach_unknown, InvalidOutsideRun,
  not_an_assertion, unhandled_error, SettledReading, invalid_run, unclear_run, RunReading, settled,
  would_detect, confirming_run_differed, next_run_unclean, job_unclean, Judgement, detected,
  invalid_outside_run, unclear, no_verdict, NoVerdict, of_settled, InvalidRun,
}

abbrev pub required_hook : Text
required_hook = codes "beforeEach"

abbrev pub hook_passed : Text
hook_passed = codes "pass"

abbrev pub is_completed : RunExecution → Bool
is_completed RunExecution.completed = true
is_completed RunExecution.interrupted = false

unfoldable pub ended_cleanly : RunEnding → Bool
ended_cleanly ending =
    is_completed ending.execution && (not ending.force_stopped && not ending.cancel_failed)

abbrev pub is_passed : TestState → Bool
is_passed passed = true
is_passed _ = false

-- `run.test?.state === PASSED`.
abbrev pub test_passed : Option TestFacts → Bool
test_passed none = false
test_passed (some test) = is_passed test.state

unfoldable pub run_passed : RunFacts → Bool
run_passed run = test_passed run.test

unfoldable pub untroubled : BaselineFacts → Bool
unfolding ended_cleanly
untroubled baseline =
    ended_cleanly baseline.facts.ending && baseline.counted_unhandled_error_count == 0

-- A reading that says the run is no detection, for an invalid experiment.
abbrev pub invalid : InvalidRun → Option SettledReading
invalid reason = some (invalid_run reason)

unfoldable pub read_module : Option ModuleFacts → Option SettledReading
read_module none = invalid module_failed
read_module (some (not_collected state)) = invalid module_failed
read_module (some (collected error_count failing_suites)) =
    if ltb 0 error_count
    then invalid module_failed
    else elim failing_suites [ [] ↦ none | suite ∷ _ ↦ invalid (suite_error suite.name_path) ]

-- The loop over the hook states.
unfoldable pub read_hook_states : HookStates → Option SettledReading
read_hook_states [] = none
read_hook_states ((hook, state) ∷ hooks) =
    if not (state == hook_passed)
    then invalid (hook_not_passed hook (hook_state state))
    else read_hook_states hooks

-- `hooks?.[REQUIRED_HOOK]`.
abbrev pub required_state : Option HookStates → Option Text
required_state none = none
required_state (some hooks) = lookup required_hook hooks

unfoldable pub read_hooks : Option HookStates → Option SettledReading
unfolding read_hook_states
read_hooks hooks = elim (required_state hooks) [
  | none ↦ invalid (hook_not_passed required_hook hook_not_recorded)
  | some _ ↦ read_hook_states (or_default hooks [])
]

abbrev pub repeats_of : TestState → Option ℕ → Option SettledReading
repeats_of failed (some repeats) = invalid (test_repeated repeats)
repeats_of _ _ = none

unfoldable pub read_repeats : TestFacts → Option SettledReading
read_repeats test = repeats_of test.state test.repeats

abbrev pub is_applied : MutationLoad → Bool
is_applied (not_applied _) = false
is_applied _ = true

unfoldable pub unexecuted_detail : List MutationLoad → Option UnexecutedDetail
unexecuted_detail [] = some never_transformed
unexecuted_detail (not_applied occurrences ∷ loads) =
    if any is_applied (not_applied occurrences ∷ loads)
    then none
    else some (mutation_not_applied occurrences)
unexecuted_detail (_ ∷ loads) = none

unfoldable pub read_reach : Option Reach → ExperimentRunFacts → Option SettledReading
unfolding unexecuted_detail
read_reach none run = invalid (reach_unknown none)
read_reach (some in_test) run = none
read_reach (some outside_test) run = none
read_reach (some no_reach) run = invalid (site_not_executed (unexecuted_detail run.mutation))
read_reach (some (unknown_reach reason)) run = invalid (reach_unknown (some reason))

abbrev pub is_assertion : ErrorFact → Bool
is_assertion (assertion _ _) = true
is_assertion (other_error _) = false

abbrev pub is_nil {ℓ} : {A : Type ℓ} → List A → Bool
is_nil [] = true
is_nil (_ ∷ _) = false

unfoldable pub read_body : TestFacts → ℕ → RunReading
read_body test unhandled_error_count =
    if is_passed test.state
    then settled SettledReading.survived
    else (if is_nil test.errors || any (λ error. not (is_assertion error)) test.errors
        then settled (unclear_run not_an_assertion)
        else (if ltb 0 unhandled_error_count
            then settled (unclear_run unhandled_error)
            else would_detect))

-- `a ?? b` on readings.
abbrev pub or_reading : Option SettledReading → RunReading → RunReading
or_reading none reading = reading
or_reading (some reading) _ = settled reading

-- What a run reads of a test that passed or failed.
unfoldable pub read_test : TestFacts → ExperimentRunFacts → RunReading
unfolding read_hooks read_repeats read_reach read_body
read_test test run = or_reading (read_hooks test.hooks) (
    or_reading (read_repeats test)
      (or_reading (read_reach test.reach run) (read_body test run.facts.unhandled_error_count)))

abbrev pub test_did_not_run : NotRunState → RunReading
test_did_not_run state = settled (invalid_run (test_not_run state))

-- The test's own state decides whether it ran.
unfoldable pub read_state : TestState → TestFacts → ExperimentRunFacts → RunReading
unfolding read_test
read_state (other_state state) test run = test_did_not_run (test_state state)
read_state passed test run = read_test test run
read_state failed test run = read_test test run

unfoldable pub read_run : ExperimentRunFacts → RunReading
unfolding ended_cleanly read_module read_state
read_run run =
    if not (ended_cleanly run.facts.ending)
    then settled (invalid_run run_not_clean)
    else or_reading (read_module run.facts.module_facts) (elim run.facts.test [
      | none ↦ test_did_not_run test_absent
      | some test ↦ read_state test.state test run
    ])

abbrev pub is_detection : RunReading → Bool
is_detection would_detect = true
is_detection (settled _) = false

unfoldable pub is_would_be_detection : ExperimentRunFacts → Bool
unfolding read_run
is_would_be_detection run = is_detection (read_run run)

-- What the baseline gave the test.
abbrev pub given_by : Option BaselineFacts → Option (TestState × Text)
given_by none = none
given_by (some baseline) = elim baseline.facts.test [
  | none ↦ none
  | some test ↦ some (test.state, test.mode)
]

abbrev pub baseline_not_passed : Option BaselineFacts → Judgement
baseline_not_passed baseline =
    invalid_outside_run (InvalidOutsideRun.baseline_not_passed (given_by baseline))

unfoldable pub judge_not_run : NotRunFact → Option BaselineFacts → Judgement
judge_not_run NotRunFact.was_interrupted baseline = no_verdict NoVerdict.interrupted
judge_not_run NotRunFact.unreadable baseline = no_verdict NoVerdict.mutation_file_unreadable
judge_not_run (NotRunFact.anchor_count count) baseline = no_verdict (NoVerdict.anchor_count count)
judge_not_run NotRunFact.baseline_not_run baseline = no_verdict NoVerdict.baseline_unrecorded
judge_not_run (NotRunFact.run_unrecorded run) baseline = no_verdict NoVerdict.run_unrecorded
judge_not_run (NotRunFact.no_probe_site site) baseline =
    invalid_outside_run (InvalidOutsideRun.no_probe_site site)
judge_not_run NotRunFact.no_module baseline = invalid_outside_run InvalidOutsideRun.no_module
judge_not_run NotRunFact.baseline_not_passed baseline = baseline_not_passed baseline

unfoldable pub baseline_trouble : BaselineFacts → BaselineFacts → Option Judgement
unfolding run_passed untroubled
baseline_trouble baseline restored =
    if not (run_passed baseline.facts)
    then some (baseline_not_passed (some baseline))
    else (if not (untroubled baseline)
        then some (invalid_outside_run InvalidOutsideRun.baseline_not_clean)
        else (if not (run_passed restored.facts)
            then some (invalid_outside_run InvalidOutsideRun.restored_baseline_not_passed)
            else (if not (untroubled restored)
                then some (invalid_outside_run InvalidOutsideRun.restored_baseline_not_clean)
                else none)))

-- Whether the run started next is unclean.
abbrev pub next_unclean : Option NextRunFact → Bool
next_unclean none = true
next_unclean (some next_unrecorded) = true
next_unclean (some (next_recorded unhandled_error_count)) = ltb 0 unhandled_error_count

-- The readings of the two runs, then the run started next and the job's end.
unfoldable pub judge_second : RunReading → Option NextRunFact → JobFacts → Judgement
judge_second (settled second) next_run job = unclear (confirming_run_differed second)
judge_second would_detect next_run job =
    if next_unclean next_run
    then unclear next_run_unclean
    else (if ltb 0 job.unhandled_error_count || not job.closed
        then unclear job_unclean
        else detected)

unfoldable pub judge_first :
    RunReading → Option ExperimentRunFacts → Option NextRunFact → JobFacts → Judgement
unfolding judge_second read_run
judge_first (settled first) confirming next_run job = of_settled first
judge_first would_detect none next_run job = no_verdict NoVerdict.confirming_run_unrecorded
judge_first would_detect (some confirming) next_run job =
    judge_second (read_run confirming) next_run job

unfoldable pub judge_runs :
    ExperimentRunFacts → Option ExperimentRunFacts → Option NextRunFact → JobFacts → Judgement
unfolding judge_first read_run
judge_runs run confirming next_run job = judge_first (read_run run) confirming next_run job

-- The confirming run of `judgeRan` after its guard: `none` when it left no record.
abbrev pub recorded_confirming : Option ConfirmingFacts → Option (Option ExperimentRunFacts)
recorded_confirming none = some none
recorded_confirming (some (confirming_ran run)) = some (some run)
recorded_confirming (some (confirming_unrecorded run)) = none
recorded_confirming (some confirming_interrupted) = none

abbrev pub recorded_restored : Option RestoredBaselineFacts → Option BaselineFacts
recorded_restored none = none
recorded_restored (some (restored_unrecorded run)) = none
recorded_restored (some (restored_recorded baseline)) = some baseline

unfoldable pub judge_ran : RanFacts → Judgement
unfolding baseline_trouble judge_runs
judge_ran facts = elim facts.shared.baseline [
  | none ↦ no_verdict NoVerdict.baseline_unrecorded
  | some baseline ↦ elim (recorded_confirming facts.confirming) [
    | none ↦ no_verdict NoVerdict.confirming_run_unrecorded
    | some confirming ↦ elim (recorded_restored facts.shared.restored_baseline) [
      | none ↦ no_verdict NoVerdict.restored_baseline_unrecorded
      | some restored ↦
          or_default (baseline_trouble baseline restored)
            (judge_runs facts.run confirming facts.next_run facts.shared.job)
    ]
  ]
]

unfoldable pub judge : ExperimentFacts → Judgement
unfolding judge_not_run judge_ran
judge (not_run shared fact) = judge_not_run fact shared.baseline
judge (ran facts) = judge_ran facts

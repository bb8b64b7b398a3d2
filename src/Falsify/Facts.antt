-- ===== src/Falsify/Facts.antt =====
-- The facts of packages/daemon/src/falsify/fact-types.ts, with the types that it takes from
-- experiment-record.ts, mutation-transform.ts and reach-probe.ts. A field that may be absent is an
-- option. A state or a mode that Vitest defines and no code tells apart is a text.
use rt_test.Base.{ℕ, Bool, Option, List, Text, Dict}

pub data ReachUnknownReason : Type 0 where
  not_observed unattributed no_probe : ReachUnknownReason

pub data Reach : Type 0 where
  in_test outside_test no_reach : Reach
  unknown_reach : ReachUnknownReason → Reach

-- A test's state in Vitest: the code asks only whether it passed or failed.
pub data TestState : Type 0 where
  passed failed : TestState
  other_state : Text → TestState

pub data AssertionMarker : Type 0 where
  assertion_error_name extended_matcher declared_name : AssertionMarker

pub data ErrorFact : Type 0 where
  assertion : AssertionMarker → (name : Option Text) → ErrorFact
  other_error : (name : Option Text) → ErrorFact

-- The state of each hook that Vitest recorded, by its name.
abbrev pub HookStates : Type 0
HookStates = Dict Text Text

pub record TestFacts : Type 0 where
  pub state : TestState
  pub mode : Text
  pub errors : List ErrorFact
  pub repeats : Option ℕ
  pub hooks : Option HookStates
  pub reach : Option Reach

pub record FailingSuite : Type 0 where
  pub name_path : List Text
  pub error_count : ℕ

pub data ModuleFacts : Type 0 where
  collected : (error_count : ℕ) → (failing_suites : List FailingSuite) → ModuleFacts
  not_collected : (state : Text) → ModuleFacts

pub data RunExecution : Type 0 where
  completed interrupted : RunExecution

pub record RunEnding : Type 0 where
  pub execution : RunExecution
  pub force_stopped : Bool
  pub cancel_failed : Bool

pub record RunFacts : Type 0 where
  pub test : Option TestFacts
  pub module_facts : Option ModuleFacts
  pub unhandled_error_count : ℕ
  pub ending : RunEnding

pub record BaselineFacts : Type 0 where
  pub facts : RunFacts
  pub counted_unhandled_error_count : ℕ
  pub unnamed_unhandled_error_count : ℕ

pub record ProbeSite : Type 0 where
  pub line : ℕ
  pub column : ℕ
  pub node_kind : Text

pub data NoProbeSite : Type 0 where
  position : (line column : ℕ) → (node_kind role : Text) → NoProbeSite
  unparsed : (line column nesting : Option ℕ) → NoProbeSite

-- One transform of the mutated module: with its probe's site, or why no probe was placed.
pub data MutationLoad : Type 0 where
  applied_probed : ProbeSite → MutationLoad
  applied_unprobed : NoProbeSite → MutationLoad
  not_applied : (occurrences : ℕ) → MutationLoad

pub record ExperimentRunFacts : Type 0 where
  pub facts : RunFacts
  pub mutation : List MutationLoad

pub data UnrecordedKind : Type 0 where
  stale_modules run_failed : UnrecordedKind

pub data ConfirmingFacts : Type 0 where
  confirming_ran : ExperimentRunFacts → ConfirmingFacts
  confirming_unrecorded : UnrecordedKind → ConfirmingFacts
  confirming_interrupted : ConfirmingFacts

pub data RestoredBaselineFacts : Type 0 where
  restored_recorded : BaselineFacts → RestoredBaselineFacts
  restored_unrecorded : UnrecordedKind → RestoredBaselineFacts

pub data NextRunFact : Type 0 where
  next_recorded : (unhandled_error_count : ℕ) → NextRunFact
  next_unrecorded : NextRunFact

pub data NotRunFact : Type 0 where
  was_interrupted unreadable baseline_not_run no_module baseline_not_passed : NotRunFact
  anchor_count : (count : ℕ) → NotRunFact
  no_probe_site : NoProbeSite → NotRunFact
  run_unrecorded : UnrecordedKind → NotRunFact

pub record JobFacts : Type 0 where
  pub unhandled_error_count : ℕ
  pub closed : Bool

-- What every experiment has, and what one that ran has besides.
pub record SharedFacts : Type 0 where
  pub baseline : Option BaselineFacts
  pub restored_baseline : Option RestoredBaselineFacts
  pub job : JobFacts

pub record RanFacts : Type 0 where
  pub shared : SharedFacts
  pub run : ExperimentRunFacts
  pub confirming : Option ConfirmingFacts
  pub next_run : Option NextRunFact

pub data ExperimentFacts : Type 0 where
  not_run : SharedFacts → NotRunFact → ExperimentFacts
  ran : RanFacts → ExperimentFacts

-- ===== src/Query/Answer.antt =====
-- The parts of an answer that the schedule gives (packages/daemon/src/query/answer.ts), with
-- `cutReason` of query/summary.ts.
use rt_test.Base.{ℕ, ◌-◌, Option, List, Text, length, take}
use rt_test.Query.Due.{DueReason}
use rt_test.Selection.Records.{
  TriggerKind, FallbackScope, NoSelectionKind, StepKind, VitestWorkspace, SelectionCounts,
}

pub record CutReason : Type 0 where
  pub reason : Text
  pub omitted_characters : ℕ

abbrev pub max_reason_characters : ℕ
max_reason_characters = 1000

unfoldable pub cut_reason : Text → CutReason
cut_reason text = record {
  reason = take max_reason_characters text;
  omitted_characters = length text - max_reason_characters;
}

pub record NamedList (T : Type 0) : Type 0 where
  pub named : List T
  pub more : ℕ

pub data RoundWait : Type 0 where
  first_reconciliation quiet_window inputs_settling dependency_build : RoundWait
  rediscovery job_in_progress : RoundWait

pub data RoundFacts : Type 0 where
  pending_facts : (waits_for : RoundWait) → RoundFacts
  planned_facts : (revision : ℕ) → RoundFacts
  held_facts : (failure : CutReason) → RoundFacts

pub data ScheduleDueReason : Type 0 where
  due_reason : DueReason → ScheduleDueReason
  invalidated earlier_daemon_life : ScheduleDueReason

pub record DueFacts : Type 0 where
  pub kind : ScheduleDueReason
  pub detail : Option CutReason

pub data NotSelfChangingReason : Type 0 where
  retry_pending no_run_until_input_change round_held : NotSelfChangingReason

-- A job by its workspace path; the discovery names none.
pub record SelfChangedPath : Type 0 where
  pub path : Text
  pub jobs : NamedList (Option Text)

pub record ChoosingReason : Type 0 where
  pub path : Text
  pub trigger : TriggerKind
  pub scope : Option FallbackScope

pub data NotRunning : Type 0 where
  self_changing : DueFacts → (self_changed : NamedList SelfChangedPath) → NotRunning
  not_self_changing : NotSelfChangingReason → DueFacts → NotRunning

pub data ExecutionState : Type 0 where
  running_now : ExecutionState
  queued :
      DueFacts
      → (chosen_by : NamedList ChoosingReason) → (interrupted_by : Option (NamedList Text))
      → ExecutionState
  interrupted_now : (interrupted_by : NamedList Text) → ExecutionState
  idle_now : (not_running : Option NotRunning) → ExecutionState

pub record WorkspaceExecution : Type 0 where
  pub workspace_path : Text
  pub state : ExecutionState

pub record ScheduleFacts : Type 0 where
  pub round : RoundFacts
  pub workspaces : List WorkspaceExecution
  pub self_changing_discovery : Option (NamedList SelfChangedPath)

pub record ExplainedNotRunnable : Type 0 where
  pub workspace : VitestWorkspace
  pub reason : CutReason

pub record ExplainedStep : Type 0 where
  pub workspace : Text
  pub via : StepKind
  pub detail : CutReason

pub record ExplainedReason : Type 0 where
  pub path : Text
  pub trigger : TriggerKind
  pub from : Option Text
  pub steps : List ExplainedStep

pub record ExplainedSelection : Type 0 where
  pub workspace : Text
  pub reasons : List ExplainedReason

pub record ExplainedPath : Type 0 where
  pub path : Text
  pub owner : Option Text
  pub triggers : List TriggerKind
  pub selected : NamedList ExplainedSelection
  pub not_runnable : NamedList ExplainedNotRunnable
  pub nothing_selected : Option (NoSelectionKind × CutReason)

pub record ExplainedFallback : Type 0 where
  pub path : Text
  pub trigger : TriggerKind
  pub scope : FallbackScope
  pub workspaces : NamedList Text

-- The kind of a selection that was not made is its name.
pub data SelectionExplanation : Type 0 where
  no_round_yet : SelectionExplanation
  made_selection :
      (revision : ℕ)
      → (paths : NamedList ExplainedPath) → (fallbacks : NamedList ExplainedFallback)
      → (counts : SelectionCounts) → SelectionExplanation
  no_selection : (revision : ℕ) → (kind : Text) → (reason : CutReason) → SelectionExplanation

-- ===== src/Daemon/Schedule/Read.antt =====
-- What an answer reads of the schedule: `read` and `invalidation` of
-- packages/daemon/src/daemon/workspace-schedule.ts, with `DaemonActivity` of protocol.ts. What the
-- schedule is built over (ScheduleParts) and what it is read against (ScheduleQuery) are records of
-- functions.
pub mod Planned
pub mod Executions
use rt_test.Base.{
  ℕ, ◌-◌, Bool, true, false, not, ◌&&◌, ◌||◌, Option, none, some, List, [], ◌∷◌, ◌++◌, map, filter,
  Text, Dict, lookup, includes, ◌==◌, nat_eq, list_eq, ◌<|>◌, or_default, is_some, if◌then◌else◌,
}
use rt_test.Query.Records.{StoredRun, WorkspaceDiscovery, path_of}
use rt_test.Query.Due.{
  DueReason, due_not_fingerprinted, no_current_fingerprint, stale_reason, retry_reason, retry_owed,
}
use rt_test.Query.Answer.{
  CutReason, cut_reason, NamedList, ScheduleDueReason, due_reason, invalidated, earlier_daemon_life,
  DueFacts, NotSelfChangingReason, retry_pending, no_run_until_input_change, round_held,
  SelfChangedPath, NotRunning, self_changing, not_self_changing, ExecutionState, running_now,
  queued, interrupted_now, idle_now, WorkspaceExecution, RoundFacts, pending_facts, planned_facts,
  held_facts, ScheduleFacts, SelectionExplanation, no_round_yet, made_selection, no_selection,
}
use rt_test.Daemon.Changes.{Job}
use rt_test.Daemon.Explained.{
  RoundExplanation, made, not_made, bounded_list, mapped_list, explained_path, explained_fallback,
  max_explained, no_choices,
}
use rt_test.Inputs.Fingerprint.{
  FingerprintResult, fingerprinted, unfingerprinted, fingerprint_digest,
}
use rt_test.Daemon.Judgment.{NotKeptVerdict, labels_invalidated}
use rt_test.Daemon.Schedule.{
  WorkspaceSchedule, RecordedRound, pending_round, planned_round, held_round, StoredVerdict,
  round_facts,
}

abbrev pub max_named_changes : ℕ
max_named_changes = 20

abbrev pub JobsByPath : Type 0
JobsByPath = Dict Text (List Job)

pub data DaemonActivity : Type 0 where
  discovering : DaemonActivity
  running : (workspace_path : Text) → DaemonActivity
  falsifying : (workspace_path : Text) → (definitions : ℕ) → DaemonActivity
  idle : DaemonActivity

pub record ScheduleParts : Type 0 where
  pub confirmed : WorkspaceDiscovery → Bool
  pub stored_nothing : Text → Bool
  pub held_by : Text → Option JobsByPath
  pub discovery_held_by : Option JobsByPath

-- A run refused as unreadable, by its workspace's path.
pub record ScheduleQuery : Type 0 where
  pub revision : ℕ
  pub activity : DaemonActivity
  pub workspaces : List WorkspaceDiscovery
  pub latest_runs : Dict Text StoredRun
  pub refused_runs : Dict Text Text
  pub fingerprint : WorkspaceDiscovery → FingerprintResult

abbrev self_changed_path : Text × List Job → SelfChangedPath
self_changed_path (path, jobs) = record {
  path = path;
  jobs = mapped_list jobs max_named_changes (λ (job : Job). job);
}

unfoldable pub self_changed_list : JobsByPath → NamedList SelfChangedPath
unfolding mapped_list
self_changed_list by_path = mapped_list by_path max_named_changes self_changed_path

unfoldable pub idle_reason : RoundFacts → Bool → NotSelfChangingReason
idle_reason (held_facts _) retrying = round_held
idle_reason (pending_facts _) retrying =
    if retrying then retry_pending else no_run_until_input_change
idle_reason (planned_facts _) retrying =
    if retrying then retry_pending else no_run_until_input_change

abbrev pub is_planned : RoundFacts → Bool
is_planned (planned_facts _) = true
is_planned _ = false

abbrev pub is_running : DaemonActivity → Text → Bool
is_running (running path) workspace_path = path == workspace_path
is_running _ workspace_path = false

-- The verdict held for a run, by its id and the path of its workspace, under which it is stored.
unfoldable pub verdict_of : WorkspaceSchedule → Text → Text → Option NotKeptVerdict
unfolding lookup
verdict_of s path run_id = elim (lookup path s.stored) [
  | none ↦ none
  | some stored ↦ if stored.run_id == run_id then stored.not_kept else none
]

-- `invalidation`, of a run by its workspace's path and its id.
unfoldable pub invalidation : WorkspaceSchedule → Text → Text → Option CutReason
unfolding verdict_of labels_invalidated cut_reason
invalidation s path run_id = elim (verdict_of s path run_id) [
  | none ↦ none
  | some not_kept ↦
      if labels_invalidated (some not_kept) then some (cut_reason not_kept.reason) else none
]

-- The reason that the recorded round holds, while an answer's round is planned.
unfoldable pub due_in : RecordedRound → Text → RoundFacts → Option DueReason
unfolding lookup
due_in (planned_round at due) path round = if is_planned round then lookup path due else none
due_in pending_round path round = none
due_in (held_round failure) path round = none

unfoldable pub due_at : WorkspaceSchedule → Text → RoundFacts → Option DueReason
unfolding due_in
due_at s path round = due_in s.round path round

-- The facts of a run that was stored not fingerprinted.
unfoldable pub not_fingerprinted_facts : Option NotKeptVerdict → DueFacts
unfolding labels_invalidated cut_reason
not_fingerprinted_facts none = record { kind = earlier_daemon_life; detail = none }
not_fingerprinted_facts (some not_kept) = record {
  kind =
      if labels_invalidated (some not_kept) then invalidated else due_reason due_not_fingerprinted;
  detail = some (cut_reason not_kept.reason);
}

-- Why no current fingerprint can be computed.
abbrev no_fingerprint_detail : FingerprintResult → Option CutReason
no_fingerprint_detail (fingerprinted _) = none
no_fingerprint_detail (unfingerprinted reason) = some (cut_reason reason)

unfoldable pub due_facts :
    WorkspaceSchedule → Text → DueReason → Option StoredRun → FingerprintResult → DueFacts
unfolding not_fingerprinted_facts verdict_of cut_reason
due_facts s path due latest current = elim due [
  | no_current_fingerprint ↦ record {
    kind = due_reason no_current_fingerprint;
    detail = no_fingerprint_detail current;
  }
  | due_not_fingerprinted ↦ elim latest [
    | none ↦ record { kind = due_reason due_not_fingerprinted; detail = none }
    | some run ↦ not_fingerprinted_facts (verdict_of s path run.run_id)
  ]
  | other ↦ record { kind = due_reason other; detail = none }
]

abbrev pub is_pending : RoundFacts → Bool
is_pending (pending_facts _) = true
is_pending _ = false

unfoldable pub latest_selection : WorkspaceSchedule → SelectionExplanation
unfolding mapped_list explained_path explained_fallback cut_reason
latest_selection s = elim s.explanation [
  | none ↦ no_round_yet
  | some (not_made revision kind reason) ↦ no_selection revision kind (cut_reason reason)
  | some (made revision paths fallbacks counts) ↦
      made_selection revision (mapped_list paths max_explained explained_path)
        (mapped_list fallbacks max_explained explained_fallback) counts
]

module _ (parts : ScheduleParts) where
  -- What is not running of a workspace that is due.
  unfoldable pub not_running_due :
      Text → RoundFacts → Option StoredRun → Option DueReason → DueFacts → NotRunning
  unfolding self_changed_list idle_reason retry_owed
  not_running_due path round latest stale facts = elim (parts.held_by path) [
    | some held ↦ self_changing facts (self_changed_list held)
    | none ↦
        not_self_changing
          (idle_reason round
            (is_planned round && retry_owed latest stale (parts.stored_nothing path)))
          facts
  ]

  unfoldable pub not_running :
      WorkspaceSchedule
      → Text
      → RoundFacts
      → Option StoredRun
      → FingerprintResult
      → Bool
      → Option NotRunning
  unfolding stale_reason retry_reason not_running_due due_facts
  not_running s path round latest current refused =
      let stale = stale_reason latest (fingerprint_digest current) refused in
      if is_pending round then none else (elim (stale <|> retry_reason latest) [
        | none ↦ none
        | some due ↦
            some (not_running_due path round latest stale (due_facts s path due latest current))
      ])

  -- The execution of a workspace that is neither running nor reads interrupted.
  unfoldable pub queued_or_idle :
      WorkspaceSchedule
      → WorkspaceDiscovery
      → RoundFacts
      → ScheduleQuery
      → Option (NamedList Text)
      → ExecutionState
  unfolding due_at due_facts not_running lookup
  queued_or_idle s entry round query interrupted_by =
      let path = path_of entry in
      let latest = lookup path query.latest_runs in
      let current = query.fingerprint entry in
      elim (due_at s path round) [
        | some due ↦
            queued (due_facts s path due latest current)
              (or_default (lookup path s.chosen) no_choices) interrupted_by
        | none ↦
            idle_now
              (not_running s path round latest current (is_some (lookup path query.refused_runs)))
      ]

  -- The execution of a workspace that is not running.
  unfoldable pub not_running_state :
      WorkspaceSchedule
      → WorkspaceDiscovery
      → RoundFacts
      → ScheduleQuery
      → Option (List Text)
      → ExecutionState
  unfolding queued_or_idle bounded_list
  not_running_state s entry round query none = queued_or_idle s entry round query none
  not_running_state s entry round query (some interruption) =
      let interrupted_by = bounded_list interruption max_named_changes in
      if includes (path_of entry) s.interrupted
      then interrupted_now interrupted_by
      else queued_or_idle s entry round query (some interrupted_by)

  unfoldable pub execution :
      WorkspaceSchedule → WorkspaceDiscovery → RoundFacts → ScheduleQuery → ExecutionState
  unfolding not_running_state lookup
  execution s entry round query =
      if is_running query.activity (path_of entry)
      then running_now
      else not_running_state s entry round query (lookup (path_of entry) s.interruptions)

  -- The paths that hold the discovery, while no round is pending.
  abbrev discovery_held : RoundFacts → Option (NamedList SelfChangedPath)
  discovery_held round = if is_pending round then none else (elim parts.discovery_held_by [
    | none ↦ none
    | some held ↦ some (self_changed_list held)
  ])

  unfoldable pub read : WorkspaceSchedule → ScheduleQuery → ScheduleFacts × SelectionExplanation
  unfolding execution latest_selection round_facts self_changed_list
  read s query =
      let round = round_facts s query.revision in
      (
        record {
          round = round;
          workspaces =
              map
                (λ (entry : WorkspaceDiscovery). record {
                  workspace_path = path_of entry;
                  state = execution s entry round query;
                })
                (filter parts.confirmed query.workspaces);
          self_changing_discovery = discovery_held round;
        },
        latest_selection s,
      )

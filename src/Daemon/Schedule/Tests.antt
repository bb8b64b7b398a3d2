-- ===== src/Daemon/Schedule/Tests.antt =====
-- Examples on one schedule with one planned workspace, and one selection.
use rt_test.Base.{
  All, includes, nat_eq, list_eq, true, false, none, some, List, [], ◌∷◌, codes, lookup, list_beq,
  ◌≡◌, ◌↔◌, refl,
}
use rt_test.Query.Records.{failed_workspace}
use rt_test.Query.Due.{inputs_changed}
use rt_test.Query.Answer.{cut_reason, quiet_window}
use rt_test.Selection.Records.{
  lockfile, BroadFallback, project_scope, ChangedPathReport, SelectionCounts,
}
use rt_test.Daemon.Explained.{Index, made, choosing_index}
use rt_test.Daemon.Explained.Chosen.{Counts, entry_of, reasons_of}
use rt_test.Daemon.Explained.Given.{IsGiven, choosing_index-IsGiven}
use rt_test.Inputs.Fingerprint.{fingerprinted}
use rt_test.Daemon.Judgment.{NotKeptVerdict, changed_inside}
use rt_test.Daemon.Schedule.{
  WorkspaceSchedule, new_schedule, moved, planned, waiting, run_ended, run_threw, EndedRun,
  round_facts, StoredVerdict,
}
use rt_test.Daemon.Schedule.Steps.{
  was_planned, waited, IsWoken, asked, moved-IsWoken, due_of, DueBy, Step-DueBy, run_ended-due_of,
}
use rt_test.Daemon.Schedule.Read.{idle, ScheduleParts, ScheduleQuery, execution, invalidation}
use rt_test.Daemon.Schedule.Read.Executions.{
  IsWaiting, execution-Queued_iff, Invalidates, invalidation-some_iff,
}
use rt_test.Daemon.Schedule.Read.Planned.{Queued}

abbrev schedule : WorkspaceSchedule
schedule = planned 3 ((codes "a", inputs_changed) ∷ []) new_schedule

abbrev waits : WorkspaceSchedule
waits = (moved schedule).0

abbrev ended_run : EndedRun
ended_run = record {
  run_id = some (codes "r");
  not_kept = some (record { kind = changed_inside; reason = codes "a.ts" });
  interrupted_by = none;
}

abbrev after_run : WorkspaceSchedule
after_run = run_ended (codes "a") ended_run false schedule

abbrev parts : ScheduleParts
parts = record {
  confirmed = λ _. true;
  stored_nothing = λ _. false;
  held_by = λ _. none;
  discovery_held_by = none;
}

abbrev query : ScheduleQuery
query = record {
  revision = 3;
  activity = idle;
  workspaces = failed_workspace (codes "a") ∷ [];
  latest_runs = [];
  refused_runs = [];
  fingerprint = λ _. fingerprinted (codes "d");
}

abbrev selection_counts : SelectionCounts
selection_counts = record {
  selected_tests = record { count = 1; complete = true };
  total_tests = record { count = 1; complete = true };
  selected_workspaces = 1;
  total_workspaces = record { count = 1; complete = true };
  not_runnable_workspaces = 0;
}

abbrev report : ChangedPathReport
report = record {
  path = codes "package-lock.json";
  owner = none;
  triggers = lockfile ∷ [];
  selected =
      record {
        workspace = codes "a";
        reasons =
            record { path = codes "package-lock.json"; trigger = lockfile; from = none; steps = [] }
            ∷ [];
      }
      ∷ [];
  not_runnable = [];
  nothing_selected = none;
}

abbrev fallbacks : List BroadFallback
fallbacks =
    record {
      path = codes "package-lock.json";
      trigger = lockfile;
      scope = project_scope;
      workspaces = codes "a" ∷ [];
    }
    ∷ []

moved-IsWoken_example :
    (includes (moved schedule).1 (waiting quiet_window 3 (moved schedule).0).resolved ≡ true)
    × IsWoken (moved schedule).0 (waiting quiet_window 3 (moved schedule).0)
moved-IsWoken_example = moved-IsWoken (asked schedule) (waited quiet_window 3)

Step-DueBy_example : DueBy new_schedule schedule (codes "a") inputs_changed
unfolding planned list_beq lookup
Step-DueBy_example =
    Step-DueBy (was_planned {s = new_schedule} 3 ((codes "a", inputs_changed) ∷ [])) (codes "a")
      inputs_changed refl

run_ended-due_of_example :
    (due_of after_run.round (codes "a") ≡ none)
    × (due_of (run_threw (codes "a") schedule).round (codes "a") ≡ none)
run_ended-due_of_example = run_ended-due_of (codes "a") ended_run schedule

execution-Queued_iff_example :
    Queued (execution parts schedule (failed_workspace (codes "a")) (round_facts schedule 3) query)
    ↔ IsWaiting parts schedule (failed_workspace (codes "a")) query
execution-Queued_iff_example =
    execution-Queued_iff parts schedule (failed_workspace (codes "a")) query

invalidation-some_iff_example :
    (invalidation after_run (codes "a") (codes "r") ≡ some (cut_reason (codes "a.ts"))) ↔ (
      (verdict : NotKeptVerdict) × ((stored : StoredVerdict) × (lookup (codes "a") after_run.stored
          ≡ some stored)
        × (stored.run_id ≡ codes "r")
        × (stored.not_kept ≡ some verdict))
      × Invalidates verdict
      × (cut_reason (codes "a.ts") ≡ cut_reason verdict.reason))
invalidation-some_iff_example =
    invalidation-some_iff after_run (codes "a") (codes "r") (cut_reason (codes "a.ts"))

abbrev chosen : Index
chosen = choosing_index (made 3 (report ∷ []) fallbacks selection_counts)

choosing_index-IsGiven_example :
    Counts (codes "a") (reasons_of (codes "a") (report ∷ [])) chosen
    × All (IsGiven (codes "a") (report ∷ [])) (entry_of (codes "a") chosen).named
choosing_index-IsGiven_example =
    choosing_index-IsGiven 3 (report ∷ []) fallbacks selection_counts (codes "a")

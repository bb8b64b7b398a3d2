-- ===== src/Daemon/Endings.antt =====
-- How a job's end marks its definitions and its workspace: `workspaceWaits`, `ranToEnd`,
-- `endedByBound`, `endedByChange` and what they call, of
-- packages/daemon/src/daemon/falsification-plan.ts. A mark is put back in its `Map` where the source
-- writes to the one it holds.
pub mod Kept
use rt_test.Base.{
  ℕ, Bool, true, false, not, ◌&&◌, ◌||◌, Option, none, some, List, [], ◌∷◌, ◌++◌, Text, codes, Dict,
  lookup, insert, delete, length, includes, filter, find?, take, map, nat_eq, list_eq, ◌==◌,
  is_some, or_default, ltb, leb, ◌+◌, ◌-◌, ◌/◌, ◌%◌, if◌then◌else◌,
}
use rt_test.Daemon.Plan.{
  max_job_definitions, time_bound, repeated_input_change, JobDefinition, PlannedJob, Candidate,
  Look, DefinitionMark, WorkspaceMark, FalsificationPlan, is_at, candidate_of, candidate,
  candidates, digest_of, forget, waits_at, held_by, marked_last, may_take, taken_last,
  none_taken_look, job_of, comes_first, next_of, next_waiting, next,
}

abbrev pub new_mark : Text → Text → DefinitionMark
new_mark id workspace_path = record {
  id = id;
  workspace_path = workspace_path;
  held_at = none;
  reason = none;
  taken_last = false;
  ended_running = false;
}

-- `#mark`: the mark that is held, or a new one, which the caller puts back.
unfoldable pub mark : PlannedJob → JobDefinition → FalsificationPlan → DefinitionMark
unfolding lookup
mark planned d plan =
    or_default (lookup d.digest plan.definitions) (new_mark d.id planned.workspace_path)

abbrev pub with_mark : Text → DefinitionMark → FalsificationPlan → FalsificationPlan
with_mark digest m plan = record {
  definitions = insert digest m plan.definitions;
  workspaces = plan.workspaces;
  reported_at = plan.reported_at;
}

abbrev pub running_ended : Bool → DefinitionMark → DefinitionMark
running_ended ended m = record {
  id = m.id;
  workspace_path = m.workspace_path;
  held_at = m.held_at;
  reason = m.reason;
  taken_last = m.taken_last;
  ended_running = ended;
}

-- The place of the first definition with an id.
unfoldable pub find_running : Option Text → List JobDefinition → Option (ℕ × JobDefinition)
find_running none ds = none
find_running (some id) [] = none
find_running (some id) (d ∷ ds) =
    let rest = find_running (some id) ds in
    if d.id == id
    then some (0, d)
    else elim rest [ some found ↦ some (found.0 + 1, found.1) | none ↦ none ]

-- `#endStreaks`, from a place of the job's definitions; the exception is known by its place.
unfoldable pub end_streaks :
    List JobDefinition → ℕ → Option ℕ → FalsificationPlan → FalsificationPlan
unfolding lookup insert
end_streaks [] place except plan = plan
end_streaks (d ∷ ds) place except plan = end_streaks ds (place + 1) except (
    if is_at except place then plan else elim (lookup d.digest plan.definitions) [
      | some m ↦ with_mark d.digest (running_ended false m) plan
      | none ↦ plan
    ])

abbrev pub left_mark : ℕ → Text → DefinitionMark → DefinitionMark
left_mark revision reason m = record {
  id = m.id;
  workspace_path = m.workspace_path;
  held_at = some revision;
  reason = some reason;
  taken_last = true;
  ended_running = m.ended_running;
}

-- `#leave`, for the definition that `find` gives.
unfoldable pub leave :
    PlannedJob → Option (ℕ × JobDefinition) → ℕ → Text → FalsificationPlan → FalsificationPlan
unfolding mark
leave planned none revision reason plan = plan
leave planned (some (_, d)) revision reason plan =
    with_mark d.digest (left_mark revision reason (mark planned d plan)) plan

unfoldable pub workspace_waits : PlannedJob → ℕ → Text → FalsificationPlan → FalsificationPlan
unfolding insert end_streaks
workspace_waits planned revision reason plan = end_streaks planned.definitions 0 none (record {
  definitions = plan.definitions;
  workspaces =
      insert planned.workspace_path (record { revision = revision; reason = reason })
        plan.workspaces;
  reported_at = plan.reported_at;
})

abbrev pub ran_mark : ℕ → Option Text → DefinitionMark → DefinitionMark
ran_mark revision reason m = record {
  id = m.id;
  workspace_path = m.workspace_path;
  held_at = some revision;
  reason = reason;
  taken_last = m.taken_last;
  ended_running = false;
}

-- The loop of `ranToEnd`.
unfoldable pub ran_from :
    PlannedJob → List JobDefinition → ℕ → Dict Text Text → FalsificationPlan → FalsificationPlan
unfolding mark lookup
ran_from planned [] revision left plan = plan
ran_from planned (d ∷ ds) revision left plan =
    ran_from planned ds revision left
      (with_mark d.digest (ran_mark revision (lookup d.id left) (mark planned d plan)) plan)

unfoldable pub ran_to_end : PlannedJob → ℕ → Dict Text Text → FalsificationPlan → FalsificationPlan
unfolding ran_from
ran_to_end planned revision left plan = ran_from planned planned.definitions revision left plan

unfoldable pub ended_by_bound : PlannedJob → ℕ → Text → FalsificationPlan → FalsificationPlan
unfolding end_streaks leave find_running
ended_by_bound planned revision running_id plan =
    leave planned (find_running (some running_id) planned.definitions) revision time_bound
      (end_streaks planned.definitions 0 none plan)

abbrev pub marked_running : Option DefinitionMark → Bool
marked_running none = false
marked_running (some m) = m.ended_running

-- `endedByChange`, for the definition that was running.
unfoldable pub change_ended :
    PlannedJob → ℕ → Option (ℕ × JobDefinition) → FalsificationPlan → FalsificationPlan
unfolding end_streaks leave mark lookup
change_ended planned revision_now none plan = end_streaks planned.definitions 0 none plan
change_ended planned revision_now (some (place, running)) plan =
    let again = marked_running (lookup running.digest plan.definitions) in
    let ended = end_streaks planned.definitions 0 (some place) plan in
    let marked = with_mark running.digest (running_ended true (mark planned running ended)) ended in
    if again
    then leave planned (some (place, running)) revision_now repeated_input_change marked
    else marked

unfoldable pub ended_by_change :
    PlannedJob → ℕ → Option Text → FalsificationPlan → FalsificationPlan
unfolding change_ended find_running
ended_by_change planned revision_now running_id plan =
    change_ended planned revision_now (find_running running_id planned.definitions) plan

-- ===== src/Daemon/Entries.antt =====
-- `FalsificationPlan.entries` of packages/daemon/src/daemon/falsification-plan.ts, with `namedList` of
-- inputs/input-jobs.ts: what a query lists as left waiting.
use rt_test.Base.{
  ℕ, ◌-◌, Bool, Option, none, some, List, [], ◌∷◌, ◌++◌, map, Text, codes, Dict, lookup, insert,
  length, take, ltb, ◌==◌, nat_eq, list_eq, or_default, is_some, ◌&&◌, if◌then◌else◌,
}
use rt_test.Base.Json.{print_nat}
use rt_test.Query.Answer.{cut_reason}
use rt_test.Daemon.Record.{keys, add_texts}
use rt_test.Daemon.Plan.{DefinitionMark, WorkspaceMark, FalsificationPlan, is_at}
use rt_test.Daemon.Standings.{sort, text_le}

-- `UnstoredJob`, as a falsification's entry.
pub record UnstoredJob : Type 0 where
  pub workspace_path : Text
  pub kind : Text
  pub reason : Text

abbrev pub falsification_job : Text
falsification_job = codes "falsification"

abbrev max_named_changes : ℕ
max_named_changes = 20

-- The array method `join`.
unfoldable pub join_texts : Text → List Text → Text
join_texts separator [] = []
join_texts separator (x ∷ []) = x
join_texts separator (x ∷ y ∷ xs) = x ++ separator ++ join_texts separator (y ∷ xs)

unfoldable pub named_list : List Text → Text
unfolding join_texts
named_list descriptions =
    let named = join_texts (codes ", ") (take max_named_changes descriptions) in
    let others = length descriptions - max_named_changes in
    if ltb 0 others then named ++ codes " and " ++ print_nat others ++ codes " more" else named

abbrev left_lead : Text
left_lead = codes "left without a verdict, and given no further experiment"

abbrev definitions_wait : Text
definitions_wait =
    codes "until the input revision, the definition or the declared assertion error names change"

abbrev named_mark : DefinitionMark → Text
named_mark m = (cut_reason m.id).reason ++ codes " (" ++ or_default m.reason [] ++ codes ")"

unfoldable pub left_reason : List DefinitionMark → List Text
unfolding named_list
left_reason [] = []
left_reason (m ∷ ms) =
    (left_lead
      ++ codes " "
      ++ definitions_wait
      ++ codes ": "
      ++ named_list (map named_mark (m ∷ ms)))
    ∷ []

unfoldable pub workspace_reason : Option WorkspaceMark → ℕ → List Text
workspace_reason none revision = []
workspace_reason (some m) revision = if m.revision == revision then m.reason ∷ [] else []

-- Whether an entry names a definition's mark at a revision.
abbrev pub is_left : ℕ → DefinitionMark → Bool
is_left revision m = is_at m.held_at revision && is_some m.reason

-- The loop that groups the marks by their workspace.
unfoldable pub left_by_workspace :
    ℕ → Dict Text DefinitionMark → Dict Text (List DefinitionMark) → Dict Text (List DefinitionMark)
unfolding lookup insert
left_by_workspace revision [] left = left
left_by_workspace revision ((_, m) ∷ marks) left = left_by_workspace revision marks (
    if is_left revision m
    then insert m.workspace_path (or_default (lookup m.workspace_path left) [] ++ m ∷ []) left
    else left)

unfoldable pub workspaces_at : ℕ → Dict Text WorkspaceMark → List Text
workspaces_at revision [] = []
workspaces_at revision ((path, m) ∷ marks) =
    let others = workspaces_at revision marks in
    if m.revision == revision then path ∷ others else others

abbrev entry_of : ℕ → FalsificationPlan → Dict Text (List DefinitionMark) → Text → UnstoredJob
entry_of revision plan left path = record {
  workspace_path = path;
  kind = falsification_job;
  reason = join_texts (codes "; ") (
      workspace_reason (lookup path plan.workspaces) revision
      ++ left_reason (or_default (lookup path left) []));
}

unfoldable pub entries : ℕ → FalsificationPlan → List UnstoredJob
unfolding left_by_workspace workspaces_at add_texts sort join_texts workspace_reason left_reason
entries revision plan =
    let left = left_by_workspace revision plan.definitions [] in
    map (entry_of revision plan left)
      (sort text_le (add_texts (workspaces_at revision plan.workspaces ++ keys left) []))

-- ===== src/Daemon/Explained.antt =====
-- The bounded lists of packages/daemon/src/daemon/workspace-schedule.ts, with the explanation of a
-- round's selection (RoundExplanation of round-selection.ts) as an answer carries it.
pub mod Chosen
pub mod Given
use rt_test.Base.{
  ℕ, ◌+◌, ◌-◌, Bool, true, false, ◌&&◌, ◌||◌, Option, none, some, List, [], ◌∷◌, ◌++◌, map, Text,
  Dict, lookup, insert, length, take, ltb, includes, distinct, or_default, is_some, nat_eq, list_eq,
  if◌then◌else◌,
}
use rt_test.Query.States.{map_of, flat_map}
use rt_test.Query.Answer.{
  CutReason, cut_reason, NamedList, ChoosingReason, ExplainedPath, ExplainedSelection,
  ExplainedReason, ExplainedStep, ExplainedNotRunnable, ExplainedFallback,
}
use rt_test.Selection.Records.{
  TriggerKind, trigger_eq, FallbackScope, NoSelectionKind, SelectionReason, ChainStep,
  BroadFallback, NotRunnableWorkspace, PathSelection, ChangedPathReport, SelectionCounts,
  fallback_key,
}

abbrev pub max_explained : ℕ
max_explained = 20

abbrev pub max_choosing_reasons : ℕ
max_choosing_reasons = 3

-- The kind of a selection that was not made is its name.
pub data RoundExplanation : Type 0 where
  made :
      (revision : ℕ)
      → (paths : List ChangedPathReport) → (fallbacks : List BroadFallback)
      → (counts : SelectionCounts) → RoundExplanation
  not_made : (revision : ℕ) → (kind : Text) → (reason : Text) → RoundExplanation

unfoldable pub bounded_list : {T : Type 0} → List T → ℕ → NamedList T
bounded_list items bound = record { named = take bound items; more = length items - bound }

unfoldable pub mapped_list : {T U : Type 0} → List T → ℕ → (T → U) → NamedList U
unfolding bounded_list
mapped_list items bound f =
    let held = bounded_list items bound in record { named = map f held.named; more = held.more }

abbrev explained_step : ChainStep → ExplainedStep
explained_step step = record {
  workspace = step.workspace;
  via = step.via;
  detail = cut_reason step.detail;
}

abbrev explained_reason : SelectionReason → ExplainedReason
explained_reason reason = record {
  path = reason.path;
  trigger = reason.trigger;
  from = reason.from;
  steps = map explained_step reason.steps;
}

unfoldable explained_selection : PathSelection → ExplainedSelection
explained_selection s = record { workspace = s.workspace; reasons = map explained_reason s.reasons }

abbrev explained_not_runnable : NotRunnableWorkspace → ExplainedNotRunnable
explained_not_runnable w = record { workspace = w.workspace; reason = cut_reason w.reason }

abbrev cut_detail : Option (NoSelectionKind × Text) → Option (NoSelectionKind × CutReason)
cut_detail none = none
cut_detail (some (kind, detail)) = some (kind, cut_reason detail)

unfoldable pub explained_path : ChangedPathReport → ExplainedPath
unfolding mapped_list explained_selection
explained_path report = record {
  path = report.path;
  owner = report.owner;
  triggers = report.triggers;
  selected = mapped_list report.selected max_explained explained_selection;
  not_runnable = mapped_list report.not_runnable max_explained explained_not_runnable;
  nothing_selected = cut_detail report.nothing_selected;
}

unfoldable pub explained_fallback : BroadFallback → ExplainedFallback
unfolding bounded_list
explained_fallback fallback = record {
  path = fallback.path;
  trigger = fallback.trigger;
  scope = fallback.scope;
  workspaces = bounded_list fallback.workspaces max_explained;
}

abbrev pub key_of_fallback : BroadFallback → Text
key_of_fallback fallback = fallback_key fallback.path fallback.trigger

abbrev pub scope_by_key : BroadFallback → Text × FallbackScope
scope_by_key fallback = (key_of_fallback fallback, fallback.scope)

abbrev pub trigger_of : SelectionReason → TriggerKind
trigger_of reason = reason.trigger

-- The reason that a workspace was chosen for, by a changed path and a trigger.
unfoldable pub choice : Text → Dict Text FallbackScope → Text → TriggerKind → Text × ChoosingReason
unfolding lookup
choice path scopes workspace trigger = (
  workspace,
  record { path = path; trigger = trigger; scope = lookup (fallback_key path trigger) scopes },
)

abbrev pub chosen_by_selection :
    Text → Dict Text FallbackScope → PathSelection → List (Text × ChoosingReason)
chosen_by_selection path scopes s =
    map (choice path scopes s.workspace) (distinct (map trigger_of s.reasons))

unfoldable pub choosing_reasons :
    ChangedPathReport → Dict Text FallbackScope → List (Text × ChoosingReason)
unfolding flat_map choice
choosing_reasons report scopes = flat_map (chosen_by_selection report.path scopes) report.selected

abbrev pub Index : Type 0
Index = Dict Text (NamedList ChoosingReason)

abbrev pub no_choices : NamedList ChoosingReason
no_choices = record { named = []; more = 0 }

-- A reason is named while fewer than the bound are, and counted otherwise.
unfoldable pub add_choice :
    Bool → ChoosingReason → NamedList ChoosingReason → NamedList ChoosingReason
add_choice nameable reason entry =
    if nameable && ltb (length entry.named) max_choosing_reasons
    then record { named = entry.named ++ reason ∷ []; more = entry.more }
    else record { named = entry.named; more = entry.more + 1 }

-- `position < MAX_EXPLAINED`, and a broad fallback is one of those named.
abbrev pub is_nameable : List Text → ℕ → ChoosingReason → Bool
is_nameable named_fallbacks position reason = ltb position max_explained && (elim reason.scope [
  | none ↦ true
  | some _ ↦ includes (fallback_key reason.path reason.trigger) named_fallbacks
])

-- The loop over the reasons of one changed path.
unfoldable pub index_reasons : List Text → ℕ → List (Text × ChoosingReason) → Index → Index
unfolding add_choice lookup insert
index_reasons named_fallbacks position [] index = index
index_reasons named_fallbacks position ((workspace, reason) ∷ chosen) index =
    index_reasons named_fallbacks position chosen (
      insert workspace
        (add_choice (is_nameable named_fallbacks position reason) reason
          (or_default (lookup workspace index) no_choices))
        index)

-- The loop over the changed paths, from a position on.
unfoldable pub index_paths :
    List Text → Dict Text FallbackScope → ℕ → List ChangedPathReport → Index → Index
unfolding index_reasons choosing_reasons
index_paths named_fallbacks scopes position [] index = index
index_paths named_fallbacks scopes position (report ∷ reports) index =
    index_paths named_fallbacks scopes (position + 1) reports
      (index_reasons named_fallbacks position (choosing_reasons report scopes) index)

abbrev pub scopes_of : List BroadFallback → Dict Text FallbackScope
scopes_of fallbacks = map_of [] (map scope_by_key fallbacks)

unfoldable pub choosing_index : RoundExplanation → Index
unfolding index_paths map_of
choosing_index (not_made _ _ _) = []
choosing_index (made _ paths fallbacks _) =
    index_paths (map key_of_fallback (take max_explained fallbacks)) (scopes_of fallbacks) 0 paths
      []

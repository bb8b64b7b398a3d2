-- ===== src/Daemon/Judgment.antt =====
-- `judgeRun` of packages/daemon/src/daemon/run-judgment.ts: whether a run can be stored under the
-- fingerprint it started from, with what follows from the judgement. A build that cannot place paths
-- throws, which is `none`. A build is known by its number where the source knows it by its object.
pub mod Placed
mod Tests
pub mod Kept
use rt_test.Base.{
  ℕ, ◌+◌, Bool, true, false, not, ◌&&◌, ◌||◌, Option, none, some, List, [], ◌∷◌, ◌++◌, map, filter,
  Text, codes, includes, length, ltb, ◌==◌, nat_eq, list_eq, if◌then◌else◌,
}
use rt_test.Inputs.Fingerprint.{FingerprintResult, fingerprinted, unfingerprinted}
use rt_test.Daemon.Record.{JobWindow, add_texts}
use rt_test.Daemon.Entries.{named_list}

pub data NotKeptKind : Type 0 where
  no_start_fingerprint changed_inside causes end_unavailable moved_inputs : NotKeptKind

pub record NotKeptVerdict : Type 0 where
  pub kind : NotKeptKind
  pub reason : Text

pub data RunJudgment : Type 0 where
  judged_no_start : (reason : Text) → RunJudgment
  judged_changed_inside : (paths narrowed : List Text) → (end_fingerprinted : Bool) → RunJudgment
  judged_causes : (causes : List Text) → RunJudgment
  judged_end_unavailable : (reason : Text) → RunJudgment
  judged_moved : RunJudgment
  kept : (outside : List Text) → RunJudgment

-- `PathPlacement` and `BuildPlacement` of inputs/narrowed-inputs.ts.
pub record PathPlacement : Type 0 where
  pub inside : List Text
  pub widened : List Text

pub record BuildPlacement : Type 0 where
  pub build : ℕ
  pub place : List Text → Text → Option PathPlacement

pub data ChangePlacement : Type 0 where
  narrowed_placement : BuildPlacement → ChangePlacement
  widened_placement : ChangePlacement

-- The sets of the loop of `placeFor`, and its result.
pub record PathsInside : Type 0 where
  pub inside : List Text
  pub narrowed : List Text

-- `listed_files` are case-comparable, as `case_comparable` makes a path.
pub record RunFacts : Type 0 where
  pub workspace_path : Text
  pub start : FingerprintResult
  pub window : JobWindow
  pub listed_files : List Text
  pub placements : List ChangePlacement
  pub end_fingerprint : Option FingerprintResult

-- `caseComparable` of inputs/protection.ts, on Windows or not.
abbrev pub case_comparable : Bool → (Text → Text) → Text → Text
case_comparable windows to_lower_case path = if windows then to_lower_case path else path

-- The paths that a narrowed build's placement adds.
abbrev pub add_placed : List Text → PathPlacement → PathsInside → PathsInside
add_placed listed placed sets = record {
  inside = add_texts placed.widened (add_texts (placed.inside ++ listed) sets.inside);
  narrowed = add_texts (placed.inside ++ listed) sets.narrowed;
}

-- The loop over the placements.
unfoldable pub place_all :
    List Text → Text → List Text → List ChangePlacement → PathsInside → Option PathsInside
unfolding add_texts
place_all paths workspace_path listed [] sets = some sets
place_all paths workspace_path listed (widened_placement ∷ placements) sets =
    place_all paths workspace_path listed placements
      (record sets { inside = add_texts paths sets.inside })
place_all paths workspace_path listed (narrowed_placement build ∷ placements) sets =
    elim (build.place paths workspace_path) [
      | none ↦ none
      | some placed ↦
          place_all paths workspace_path listed placements (add_placed listed placed sets)
    ]

-- The paths that stand in the sets, in their order.
abbrev pub keep_placed : List Text → PathsInside → PathsInside
keep_placed paths sets = record {
  inside = filter (λ (path : Text). includes path sets.inside) paths;
  narrowed = filter (λ (path : Text). includes path sets.narrowed) paths;
}

abbrev pub end_is_fingerprinted : Option FingerprintResult → Bool
end_is_fingerprinted (some (fingerprinted _)) = true
end_is_fingerprinted _ = false

-- The judgement by the fingerprint at the end.
unfoldable pub judge_end : Text → Option FingerprintResult → List Text → RunJudgment
judge_end start none paths = kept paths
judge_end start (some (unfingerprinted reason)) paths = judged_end_unavailable reason
judge_end start (some (fingerprinted digest)) paths =
    if not (digest == start) then judged_moved else kept paths

-- The judgement of a run that started with a fingerprint, once its changed paths are placed.
unfoldable pub judge_placed : Text → RunFacts → PathsInside → RunJudgment
unfolding judge_end
judge_placed start facts placed =
    if ltb 0 (length placed.inside)
    then judged_changed_inside placed.inside placed.narrowed
        (end_is_fingerprinted facts.end_fingerprint)
    else (if ltb 0 (length facts.window.causes)
        then judged_causes facts.window.causes
        else judge_end start facts.end_fingerprint facts.window.paths)

unfoldable pub run_verdict_reason : RunJudgment → Option Text
unfolding named_list
run_verdict_reason (judged_no_start reason) =
    some (codes "it started without an input fingerprint: " ++ reason)
run_verdict_reason (judged_changed_inside paths _ _) =
    some (codes "its inputs changed while it ran: " ++ named_list paths)
run_verdict_reason (judged_causes named) =
    some (codes "its inputs could not be vouched for while it ran: " ++ named_list named)
run_verdict_reason (judged_end_unavailable reason) =
    some (codes "its workspace's input fingerprint could not be taken at its end: " ++ reason)
run_verdict_reason judged_moved =
    some (codes "its workspace's input fingerprint at its end differs from the one at its start")
run_verdict_reason (kept _) = none

-- The kind of a judgement that does not keep the run.
abbrev not_kept_kind : RunJudgment → Option NotKeptKind
not_kept_kind (judged_no_start _) = some no_start_fingerprint
not_kept_kind (judged_changed_inside _ _ _) = some changed_inside
not_kept_kind (judged_causes _) = some NotKeptKind.causes
not_kept_kind (judged_end_unavailable _) = some end_unavailable
not_kept_kind judged_moved = some moved_inputs
not_kept_kind (kept _) = none

abbrev verdict_from : Option NotKeptKind → Option Text → Option NotKeptVerdict
verdict_from (some kind) (some reason) = some (record { kind = kind; reason = reason })
verdict_from _ _ = none

unfoldable pub not_kept_verdict : RunJudgment → Option NotKeptVerdict
unfolding run_verdict_reason
not_kept_verdict judgment = verdict_from (not_kept_kind judgment) (run_verdict_reason judgment)

abbrev invalidating : NotKeptKind → Bool
invalidating changed_inside = true
invalidating moved_inputs = true
invalidating _ = false

unfoldable pub labels_invalidated : Option NotKeptVerdict → Bool
labels_invalidated none = false
labels_invalidated (some not_kept) = invalidating not_kept.kind

-- `JobVerdict` of inputs/input-jobs.ts.
pub data JobVerdict : Type 0 where
  verdict_fingerprinted : JobVerdict
  verdict_not_fingerprinted : (reason : Text) → (changed_while_running : Bool) → JobVerdict

abbrev is_moved_or_changed : RunJudgment → Bool
is_moved_or_changed judged_moved = true
is_moved_or_changed (judged_changed_inside _ _ end_fingerprinted) = end_fingerprinted
is_moved_or_changed _ = false

unfoldable pub run_verdict : RunJudgment → JobVerdict
unfolding run_verdict_reason
run_verdict judgment = elim (run_verdict_reason judgment) [
  | none ↦ verdict_fingerprinted
  | some reason ↦ verdict_not_fingerprinted reason (is_moved_or_changed judgment)
]

unfoldable pub changed_while_running : RunJudgment → Bool
unfolding run_verdict
changed_while_running judgment = elim (run_verdict judgment) [
  | verdict_fingerprinted ↦ false
  | verdict_not_fingerprinted _ changed ↦ changed
]

unfoldable pub interrupting_paths : RunJudgment → Option (List Text)
interrupting_paths (judged_changed_inside _ [] _) = none
interrupting_paths (judged_changed_inside _ (path ∷ paths) _) = some (path ∷ paths)
interrupting_paths _ = none

unfoldable pub kept_although_changed : RunJudgment → Option Text
unfolding named_list
kept_although_changed (kept (path ∷ paths)) = some (
    codes
      "is stored under its input fingerprint, since only paths outside its workspace's inputs changed while it ran: "
    ++ named_list (path ∷ paths))
kept_although_changed _ = none

module _ (comparable : Text → Text) where
  abbrev pub listed_among : List Text → List Text → List Text
  listed_among listed_files paths =
      filter (λ (path : Text). includes (comparable path) listed_files) paths

  unfoldable pub place_for :
      List Text → Text → List Text → List ChangePlacement → Option PathsInside
  unfolding place_all add_texts
  place_for paths workspace_path listed_files placements =
      let listed = listed_among listed_files paths in
      elim (place_all paths workspace_path listed placements
        (record { inside = add_texts listed []; narrowed = [] })) [
          | none ↦ none
          | some sets ↦ some (keep_placed paths sets)
        ]

  unfoldable pub judge_run : RunFacts → Option RunJudgment
  unfolding place_for judge_placed
  judge_run facts = elim facts.start [
    | unfingerprinted reason ↦ some (judged_no_start reason)
    | fingerprinted digest ↦
        elim (place_for facts.window.paths facts.workspace_path facts.listed_files
          facts.placements) [ none ↦ none | some placed ↦ some (judge_placed digest facts placed) ]
  ]

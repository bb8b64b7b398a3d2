-- ===== src/Daemon/Changes.antt =====
-- packages/daemon/src/daemon/change-record.ts, with `changedPaths` of daemon/round-selection.ts and
-- `JobWindow` of inputs/input-jobs.ts. A `Set` is a list without duplicates, in its order of insertion.
pub mod Held
pub mod Counted
pub mod Bound
pub mod Kept
use rt_test.Base.{
  ℕ, ◌+◌, Bool, true, false, not, ◌&&◌, ◌||◌, Option, none, some, List, [], ◌∷◌, ◌++◌, Text, Dict,
  lookup, insert, delete, length, includes, filter, leb, ltb, ◌==◌, Eq, nat_eq, list_eq, is_some,
  if◌then◌else◌,
}

abbrev pub max_counted_changes : ℕ
max_counted_changes = 1000

-- `Job`: a run by its workspace path, or the discovery.
abbrev pub Job : Type 0
Job = Option Text

-- `===` on jobs.
abbrev pub same_job : Job → Job → Bool
same_job none none = true
same_job none (some _) = false
same_job (some _) none = false
same_job (some a) (some b) = a == b

abbrev pub has_job : Job → List Job → Bool
has_job job [] = false
has_job job (j ∷ jobs) = same_job job j || has_job job jobs

-- `Set.add`.
abbrev pub add_text : Text → List Text → List Text
add_text x xs = if includes x xs then xs else xs ++ x ∷ []

abbrev pub add_job_to : Job → List Job → List Job
add_job_to x xs = if has_job x xs then xs else xs ++ x ∷ []

-- `ChangeSets`.
pub record ChangeSets : Type 0 where
  pub by_jobs : Dict Text (List Job)
  pub edits : List Text
  pub everywhere : Bool
  pub distinct : ℕ

unfoldable pub new_change_sets : ChangeSets
new_change_sets = record { by_jobs = []; edits = []; everywhere = false; distinct = 0 }

unfoldable pub edited_everywhere : ChangeSets → ChangeSets
edited_everywhere sets = record {
  by_jobs = [];
  edits = [];
  everywhere = true;
  distinct = sets.distinct;
}

-- `#counts`: whether the path may be added, and the sets then.
unfoldable pub counts : Text → ChangeSets → Bool × ChangeSets
unfolding edited_everywhere lookup
counts path sets =
    if sets.everywhere
    then (false, sets)
    else (if is_some (lookup path sets.by_jobs) || includes path sets.edits
        then (true, sets)
        else (let counted : ChangeSets = record {
          by_jobs = sets.by_jobs;
          edits = sets.edits;
          everywhere = sets.everywhere;
          distinct = sets.distinct + 1;
        } in
            if leb counted.distinct max_counted_changes
            then (true, counted)
            else (false, edited_everywhere counted)))

abbrev with_by_jobs : Dict Text (List Job) → ChangeSets → ChangeSets
with_by_jobs by_jobs sets = record {
  by_jobs = by_jobs;
  edits = sets.edits;
  everywhere = sets.everywhere;
  distinct = sets.distinct;
}

abbrev with_edits : List Text → ChangeSets → ChangeSets
with_edits edits sets = record {
  by_jobs = sets.by_jobs;
  edits = edits;
  everywhere = sets.everywhere;
  distinct = sets.distinct;
}

-- A path that no job changed yet, by whether it may be added.
unfoldable pub put_job : Text → Job → Bool × ChangeSets → ChangeSets
unfolding insert
put_job path job (may_add, sets) =
    if may_add then with_by_jobs (insert path (job ∷ []) sets.by_jobs) sets else sets

-- One round of the loop of `addJob`, before its early return.
unfoldable pub add_job_path : Text → Job → ChangeSets → ChangeSets
unfolding lookup insert
add_job_path path job sets = elim (lookup path sets.by_jobs) [
  | some jobs ↦ with_by_jobs (insert path (add_job_to job jobs) sets.by_jobs) sets
  | none ↦ put_job path job (counts path sets)
]

unfoldable pub add_job : List Text → Job → ChangeSets → ChangeSets
unfolding add_job_path
add_job [] job sets = sets
add_job (path ∷ paths) job sets =
    let added = add_job_path path job sets in
    let rest = add_job paths job added in if added.everywhere then added else rest

unfoldable pub add_edit : Text → ChangeSets → ChangeSets
add_edit path sets =
    if includes path sets.edits
    then sets
    else (let counted = counts path sets in
        if counted.0 then with_edits (add_text path counted.1.edits) counted.1 else counted.1)

unfoldable pub add_edits : List Text → ChangeSets → ChangeSets
unfolding add_edit
add_edits [] sets = sets
add_edits (path ∷ paths) sets =
    let added = add_edit path sets in
    let rest = add_edits paths added in if added.everywhere then added else rest

unfoldable pub move_to_edits : List Text → ChangeSets → ChangeSets
unfolding lookup delete
move_to_edits [] sets = sets
move_to_edits (path ∷ paths) sets = move_to_edits paths (
    if is_some (lookup path sets.by_jobs)
    then (with_edits (add_text path sets.edits) (with_by_jobs (delete path sets.by_jobs) sets))
    else sets)

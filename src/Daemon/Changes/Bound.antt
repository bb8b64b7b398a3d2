-- ===== src/Daemon/Changes/Bound.antt =====
-- How much a subject's changes hold (packages/daemon/src/daemon/change-record.ts).
use rt_test.Base.{
  Bool-cases, Option-cases, inl, inr, Bool, true, false, none, some, List, [], ◌∷◌, ◌++◌, Text,
  lookup, insert, delete, length-append, includes, nat_eq, list_eq, ◌≡◌, refl, sym, ap, ◌∙◌, arith,
}
use mathlib.Core.Path.{subst}
use rt_test.Daemon.Changes.Held.{
  unedited, unedited-append, unedited-insert-held, unedited-delete, unedited-delete-held,
}
use rt_test.Daemon.Changes.{
  Job, ChangeSets, add_text, add_job_to, counts, put_job, add_job_path, add_job, add_edit,
  add_edits, move_to_edits, new_change_sets, with_edits, with_by_jobs,
}
use rt_test.Daemon.Changes.Counted.{
  held_count, IsBounded, IsCounted, counts-IsBounded, within-IsBounded, lookup_nil,
  put_job-IsBounded, put_edit-IsBounded,
}

pub counts-by_jobs :
    (path : Text) (sets : ChangeSets)
    → (counts path sets).0 ≡ true
    → ((counts path sets).1.by_jobs ≡ sets.by_jobs) × ((counts path sets).1.edits ≡ sets.edits)
unfolding counts
counts-by_jobs path sets h = ground arith

more_jobs-IsBounded :
    (path : Text) (old jobs : List Job) (sets : ChangeSets)
    → IsBounded sets
    → lookup path sets.by_jobs ≡ some old
    → IsBounded (with_by_jobs (insert path jobs sets.by_jobs) sets)
unfolding held_count
more_jobs-IsBounded path old jobs sets b e = elim (Bool-cases sets.everywhere) [
  | inl every ↦
      let none_held : lookup path sets.by_jobs ≡ none =
        ap (lookup path) (b.cleared every).0 ∙ lookup_nil path in
      absurd (ground arith)
  | inr inside ↦
      let (fits, within) = b.held_le inside in
      within-IsBounded _ inside
        (omega (arith, unedited-insert-held sets.edits path old jobs sets.by_jobs e)) within
]

put_counted-IsBounded :
    (path : Text) (job : Job) (result : Bool × ChangeSets)
    → IsCounted path result
    → (result.0 ≡ true → lookup path result.1.by_jobs ≡ none)
    → IsBounded (put_job path job result)
unfolding put_job
put_counted-IsBounded path job (true, sets) (room, b) n =
    put_job-IsBounded path job sets (room refl) (n refl)
put_counted-IsBounded path job (false, sets) (room, b) n = b

add_job_path-IsBounded :
    (path : Text) (job : Job) (sets : ChangeSets)
    → IsBounded sets
    → IsBounded (add_job_path path job sets)
unfolding add_job_path
add_job_path-IsBounded path job sets b = elim (Option-cases (lookup path sets.by_jobs)) [
  | inr (jobs, e) ↦
      let is : add_job_path path job sets
          ≡ with_by_jobs (insert path (add_job_to job jobs) sets.by_jobs) sets =
        rw (e, add_job_path) in
      subst IsBounded (sym is) (more_jobs-IsBounded path jobs _ sets b e)
  | inl e ↦
      let is : add_job_path path job sets ≡ put_job path job (counts path sets) =
        rw (e, add_job_path) in
      subst IsBounded (sym is) (
        put_counted-IsBounded path job (counts path sets) (counts-IsBounded path sets b)
          (λ ok. ap (lookup path) (counts-by_jobs path sets ok).0 ∙ e))
]

pub add_job-IsBounded :
    (paths : List Text) (job : Job) (sets : ChangeSets)
    → IsBounded sets
    → IsBounded (add_job paths job sets)
unfolding add_job
add_job-IsBounded [] job sets b = b
add_job-IsBounded (path ∷ paths) job sets b =
    let first = add_job_path-IsBounded path job sets b in
    elim (Bool-cases (add_job_path path job sets).everywhere) [
      | inl e ↦ subst IsBounded (sym (rw e)) first
      | inr e ↦ subst IsBounded (sym (rw e)) (add_job-IsBounded paths job _ first)
    ]

add_edit-IsBounded :
    (path : Text) (sets : ChangeSets) → IsBounded sets → IsBounded (add_edit path sets)
unfolding add_edit
add_edit-IsBounded path sets b = elim (Bool-cases (includes path sets.edits)) [
  | inl e ↦ let is : add_edit path sets ≡ sets = rw e in subst IsBounded (sym is) b
  | inr e ↦
      let (room, bounded) = counts-IsBounded path sets b in
      elim (Bool-cases (counts path sets).0) [
        | inr full ↦
            let is : add_edit path sets ≡ (counts path sets).1 = rw (e, full) in
            subst IsBounded (sym is) bounded
        | inl ok ↦
            let sets' = (counts path sets).1 in
            let is : add_edit path sets ≡ with_edits (add_text path sets'.edits) sets' =
              rw (e, ok) in
            let new : includes path sets'.edits ≡ false =
              ap (includes path) (counts-by_jobs path sets ok).1 ∙ e in
            subst IsBounded (sym is) (put_edit-IsBounded path sets' (room ok) new)
      ]
]

pub add_edits-IsBounded :
    (paths : List Text) (sets : ChangeSets) → IsBounded sets → IsBounded (add_edits paths sets)
unfolding add_edits
add_edits-IsBounded [] sets b = b
add_edits-IsBounded (path ∷ paths) sets b =
    let first = add_edit-IsBounded path sets b in
    elim (Bool-cases (add_edit path sets).everywhere) [
      | inl e ↦ subst IsBounded (sym (rw e)) first
      | inr e ↦ subst IsBounded (sym (rw e)) (add_edits-IsBounded paths _ first)
    ]

-- Moving one path that a job changed.
move_one-IsBounded :
    (path : Text) (jobs : List Job) (sets : ChangeSets)
    → IsBounded sets
    → lookup path sets.by_jobs ≡ some jobs
    → IsBounded
        (with_edits (add_text path sets.edits) (with_by_jobs (delete path sets.by_jobs) sets))
unfolding held_count
move_one-IsBounded path jobs sets b e = elim (Bool-cases sets.everywhere) [
  | inl every ↦
      let none_held : lookup path sets.by_jobs ≡ none =
        ap (lookup path) (b.cleared every).0 ∙ lookup_nil path in
      absurd (ground arith)
  | inr inside ↦
      let (fits, within) = b.held_le inside in
      elim (Bool-cases (includes path sets.edits)) [
        | inl edited ↦
            let is : add_text path sets.edits ≡ sets.edits = rw edited in
            subst (λ x. IsBounded (with_edits x (with_by_jobs (delete path sets.by_jobs) sets)))
              (sym is)
              (within-IsBounded _ inside
                (omega (arith, unedited-delete sets.edits path sets.by_jobs)) within)
        | inr new ↦
            let is : add_text path sets.edits ≡ sets.edits ++ path ∷ [] = rw new in
            let longer = length-append sets.edits (path ∷ []) in
            let fewer = unedited-delete-held sets.edits path sets.by_jobs jobs new e in
            subst (λ x. IsBounded (with_edits x (with_by_jobs (delete path sets.by_jobs) sets)))
              (sym is)
              (within-IsBounded _ inside
                (omega (arith, unedited-append sets.edits path (delete path sets.by_jobs))) within)
      ]
]

pub move_to_edits-IsBounded :
    (paths : List Text) (sets : ChangeSets) → IsBounded sets → IsBounded (move_to_edits paths sets)
unfolding move_to_edits
move_to_edits-IsBounded [] sets b = b
move_to_edits-IsBounded (path ∷ paths) sets b = elim (Option-cases (lookup path sets.by_jobs)) [
  | inl e ↦ subst IsBounded (sym (rw e)) (move_to_edits-IsBounded paths sets b)
  | inr (jobs, e) ↦
      subst IsBounded (sym (rw e))
        (move_to_edits-IsBounded paths _ (move_one-IsBounded path jobs sets b e))
]

pub new_change_sets-IsBounded : IsBounded new_change_sets
unfolding new_change_sets held_count unedited
new_change_sets-IsBounded = within-IsBounded _ refl (omega arith) (omega arith)

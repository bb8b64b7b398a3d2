-- ===== src/Daemon/Record/Steps.antt =====
-- What holds of a change record after any of its operations (packages/daemon/src/daemon/change-record.ts).
use rt_test.Base.{
  ℕ, List, [], ◌∷◌, Text, Dict, Option, none, some, Bool-cases, inl, inr, All, ◌==◌, insert, ltb,
  ◌||◌, length, lookup, delete, sym, ◌≡◌, not, filter,
}
use mathlib.Core.Path.{subst}
use rt_test.Daemon.Changes.{
  Job, ChangeSets, add_edits, add_job, new_change_sets, edited_everywhere, max_counted_changes,
}
use rt_test.Daemon.Changes.Bound.{
  new_change_sets-IsBounded, add_edits-IsBounded, add_job-IsBounded, move_to_edits-IsBounded,
}
use rt_test.Daemon.Changes.Counted.{IsBounded, edited_everywhere-IsBounded}
use rt_test.Daemon.Record.{
  job_eq, InputDigests, JobWindow, ChangeRecord, map_values, changed_paths, all_everywhere,
  start_afresh, interval_between, interval, job_began, is_reported, with_running, with_subjects,
  job_not_begun, job_threw, report_edits, report_read, observed, window_placed, job_ended,
}

-- The operations of a change record, as a step.
pub data Step : ChangeRecord → ChangeRecord → Type 0 where
  began : {r : ChangeRecord} (job : Job) → Step r (job_began job r)
  not_begun : {r : ChangeRecord} (job : Job) → Step r (job_not_begun job r)
  threw : {r : ChangeRecord} (job : Job) → Step r (job_threw job r)
  reported : {r : ChangeRecord} (edited : List Text) → Step r (report_edits edited r)
  read : {r : ChangeRecord} (report : ℕ) → Step r (report_read report r)
  observes : {r : ChangeRecord} (digests : Option InputDigests) → Step r (observed digests r)
  ended : {r : ChangeRecord} (window : JobWindow) (job : Job) → Step r (job_ended window job r)

-- Every subject's changes are bounded.
abbrev pub AllBounded : Dict Job ChangeSets → Type 0
AllBounded subjects = All (λ (entry : Job × ChangeSets). IsBounded entry.1) subjects

map_values-AllBounded :
    (f : ChangeSets → ChangeSets)
    → ((sets : ChangeSets) → IsBounded sets → IsBounded (f sets))
    → (subjects : Dict Job ChangeSets) → AllBounded subjects
    → AllBounded (map_values f subjects)
unfolding map_values
map_values-AllBounded f g [] b = tt
map_values-AllBounded f g (entry ∷ m) b = (g _ b.0, map_values-AllBounded f g m b.1)

insert-AllBounded :
    (job : Job) (subjects : Dict Job ChangeSets)
    → AllBounded subjects
    → AllBounded (insert job new_change_sets subjects)
unfolding insert
insert-AllBounded job [] b = (new_change_sets-IsBounded, tt)
insert-AllBounded job ((j, w) ∷ m) b = elim (Bool-cases (j == job)) [
  | inl e ↦
      let is : insert job new_change_sets ((j, w) ∷ m) ≡ (j, new_change_sets) ∷ m = rw e in
      subst AllBounded (sym is) (new_change_sets-IsBounded, b.1)
  | inr e ↦
      let is : insert job new_change_sets ((j, w) ∷ m) ≡ (j, w) ∷ insert job new_change_sets m =
        rw e in
      subst AllBounded (sym is) (b.0, insert-AllBounded job m b.1)
]

all_everywhere-AllBounded :
    (r : ChangeRecord) → AllBounded r.subjects → AllBounded (all_everywhere r).subjects
unfolding all_everywhere
all_everywhere-AllBounded r b =
    map_values-AllBounded edited_everywhere (λ s _. edited_everywhere-IsBounded s) r.subjects b

start_afresh-AllBounded :
    (job : Job) (r : ChangeRecord)
    → AllBounded r.subjects
    → AllBounded (start_afresh job r).subjects
unfolding start_afresh
start_afresh-AllBounded job r b = insert-AllBounded job r.subjects b

interval_between-AllBounded :
    (from to : Option InputDigests) (r : ChangeRecord)
    → AllBounded r.subjects
    → AllBounded (interval_between from to r).subjects
unfolding interval_between
interval_between-AllBounded none to r b = all_everywhere-AllBounded r b
interval_between-AllBounded (some from) none r b = all_everywhere-AllBounded r b
interval_between-AllBounded (some from) (some to) r b =
    elim (Bool-cases (ltb max_counted_changes (length (changed_paths from to)))) [
      | inl e ↦
          let is : interval_between (some from) (some to) r ≡ all_everywhere r = rw e in
          subst (λ (x : ChangeRecord). AllBounded x.subjects) (sym is)
            (all_everywhere-AllBounded r b)
      | inr e ↦
          let is : interval_between (some from) (some to) r
              ≡ with_subjects (map_values (add_edits (changed_paths from to)) r.subjects) r =
            rw e in
          subst (λ (x : ChangeRecord). AllBounded x.subjects) (sym is)
            (map_values-AllBounded _ (add_edits-IsBounded (changed_paths from to)) r.subjects b)
    ]

window_placed-AllBounded :
    (window : JobWindow) (job : Job) (keys : Option (List Text)) (r : ChangeRecord)
    → AllBounded r.subjects
    → AllBounded (window_placed window job keys r).subjects
unfolding window_placed
window_placed-AllBounded window job keys r b =
    elim (Bool-cases
      (ltb 0 (length window.causes) || ltb max_counted_changes (length window.paths))) [
        | inl e ↦
            let is : window_placed window job keys r ≡ all_everywhere r = rw e in
            subst (λ (x : ChangeRecord). AllBounded x.subjects) (sym is)
              (all_everywhere-AllBounded r b)
        | inr e ↦
            let edits = filter (is_reported keys) window.paths in
            let caused = filter (λ path. not (is_reported keys path)) window.paths in
            let is : window_placed window job keys r
                ≡ with_subjects
                    (map_values (λ sets. add_edits edits (add_job caused job sets)) r.subjects) r =
              rw e in
            subst (λ (x : ChangeRecord). AllBounded x.subjects) (sym is)
              (map_values-AllBounded _
                (λ s h. add_edits-IsBounded edits _ (add_job-IsBounded caused job s h)) r.subjects
                b)
      ]

-- Every operation keeps each subject's changes bounded: they hold no more paths than were counted,
-- at most 1,000, and none once an edit counts as reaching every input.
pub Step-AllBounded :
    {r s : ChangeRecord} → Step r s → AllBounded r.subjects → AllBounded s.subjects
unfolding job_began job_not_begun job_threw report_edits report_read observed job_ended interval
Step-AllBounded (began job) b = b
Step-AllBounded (not_begun job) b = b
Step-AllBounded {r} (threw job) b =
    start_afresh-AllBounded job (with_running (delete job r.running) r) b
Step-AllBounded (reported edited) b = map_values-AllBounded _ (move_to_edits-IsBounded edited) _ b
Step-AllBounded (read report) b = b
Step-AllBounded (observes digests) b = interval_between-AllBounded _ digests _ b
Step-AllBounded {r} (ended window job) b =
    let stopped = with_running (delete job r.running) r in
    let moved = interval_between r.last window.start_digests stopped in
    window_placed-AllBounded window job (lookup job r.running) (start_afresh job moved) (
      start_afresh-AllBounded job moved
        (interval_between-AllBounded r.last window.start_digests stopped b))

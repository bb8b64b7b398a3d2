-- ===== src/Daemon/Schedule/Steps.antt =====
-- How the record of the schedule moves (packages/daemon/src/daemon/workspace-schedule.ts).
use rt_test.Base.{
  ℕ, Bool, true, false, not, ◌&&◌, ◌||◌, Bool-cases, Option-cases, inl, inr, ◌⊎◌, Option, none,
  some, List, [], ◌∷◌, ◌++◌, includes, eq_refl, Text, Dict, lookup, insert, delete, lookup-insert,
  lookup-delete, append-nil, ◌==◌, eq_iff, nat_eq, list_eq, is_some, if◌then◌else◌, ◌≡◌, ◌≢◌, refl,
  sym, ap, ◌∙◌, arith,
}
use mathlib.Core.Path.{subst}
use rt_test.Query.Due.{DueReason, due_not_fingerprinted}
use rt_test.Query.Answer.{RoundWait}
use rt_test.Daemon.Explained.{RoundExplanation}
use rt_test.Daemon.Schedule.{
  WorkspaceSchedule, RecordedRound, pending_round, planned_round, held_round, EndedRun, move, moved,
  pending, waiting, planned_at, planned, held, selected, job_starts, job_settles, run_ended,
  run_threw, change_due, leave_due, requeue, due_after, interrupted_after,
}

-- A change of the record.
pub data Step : WorkspaceSchedule → WorkspaceSchedule → Type 0 where
  became_pending : {s : WorkspaceSchedule} (wait : RoundWait) → Step s (pending wait s)
  waited :
      {s : WorkspaceSchedule} (wait : RoundWait) (revision : ℕ) → Step s (waiting wait revision s)
  was_planned :
      {s : WorkspaceSchedule} (revision : ℕ) (due : Dict Text DueReason)
      → Step s (planned revision due s)
  was_held : {s : WorkspaceSchedule} (failure : Text) → Step s (held failure s)
  was_selected :
      {s : WorkspaceSchedule} (explanation : RoundExplanation) → Step s (selected explanation s)
  job_started : {s : WorkspaceSchedule} (revision : ℕ) → Step s (job_starts revision s)
  job_settled : {s : WorkspaceSchedule} → Step s (job_settles s)
  ended :
      {s : WorkspaceSchedule} (path : Text) (run : EndedRun) (owed_again : Bool)
      → Step s (run_ended path run owed_again s)
  threw : {s : WorkspaceSchedule} (path : Text) → Step s (run_threw path s)

-- Every waiter is resolved, once each, and none waits.
pub record IsWoken (s t : WorkspaceSchedule) : Type 0 where
  pub none_wait : t.moved_waiters ≡ []
  pub resolved : t.resolved ≡ s.resolved ++ s.moved_waiters

-- `runEnded` changes who waits only by its one move.
interrupted_after-IsWoken :
    (s t : WorkspaceSchedule) (path : Text) (by : Option (List Text))
    → IsWoken s t
    → IsWoken s (interrupted_after path by t)
unfolding interrupted_after
interrupted_after-IsWoken s t path none h = record {
  none_wait = h.none_wait;
  resolved = h.resolved;
}
interrupted_after-IsWoken s t path (some paths) h = record {
  none_wait = h.none_wait;
  resolved = h.resolved;
}

due_after-round :
    (path : Text) (run : EndedRun) (owed_again : Bool) (s : WorkspaceSchedule)
    → due_after path run owed_again s ≡ record s { round = (due_after path run owed_again s).round }
unfolding due_after leave_due requeue
due_after-round path run owed_again s = elim (Bool-cases (owed_again && is_some run.run_id)) [
  | inl e ↦ rw e
  | inr e ↦ elim (Bool-cases (not owed_again)) [ inl f ↦ rw (e, f) | inr f ↦ rw (e, f) ]
]

-- A change resolves every waiter, whichever change it is.
Step-IsWoken : {s t : WorkspaceSchedule} → Step s t → IsWoken s t
unfolding pending waiting planned held selected job_starts job_settles run_ended run_threw move
    leave_due
Step-IsWoken (became_pending wait) = record { none_wait = refl; resolved = refl }
Step-IsWoken (waited {s} wait revision) = elim (Bool-cases (planned_at s.round revision)) [
  | inl e ↦
      let is : waiting wait revision s ≡ record (move s) { wait = wait } = rw e in
      subst (IsWoken s) (sym is) (record { none_wait = refl; resolved = refl })
  | inr e ↦
      let is : waiting wait revision s ≡ pending wait (move s) = rw e in
      subst (IsWoken s) (sym is)
        (record { none_wait = refl; resolved = append-nil (s.resolved ++ s.moved_waiters) })
]
Step-IsWoken (was_planned revision due) = record { none_wait = refl; resolved = refl }
Step-IsWoken (was_held failure) = record { none_wait = refl; resolved = refl }
Step-IsWoken (was_selected explanation) = record { none_wait = refl; resolved = refl }
Step-IsWoken (job_started revision) = record { none_wait = refl; resolved = refl }
Step-IsWoken job_settled = record { none_wait = refl; resolved = refl }
Step-IsWoken (ended {s} path run owed_again) =
    let same = due_after-round path run owed_again s in
    interrupted_after-IsWoken s _ path run.interrupted_by (record {
      none_wait = refl;
      resolved = ap (λ (x : WorkspaceSchedule). x.resolved ++ x.moved_waiters) same;
    })
Step-IsWoken (threw path) = record { none_wait = refl; resolved = refl }

-- A caller was given a number by `moved`, and the record has not changed since, however many have
-- asked after it.
pub data Asked : ℕ → WorkspaceSchedule → Type 0 where
  asked : (s : WorkspaceSchedule) → Asked (moved s).1 (moved s).0
  asked_after : {n : ℕ} (s : WorkspaceSchedule) → Asked n s → Asked n (moved s).0

includes-append :
    (n : ℕ) (xs ys : List ℕ) → includes n (xs ++ ys) ≡ (includes n xs || includes n ys)
includes-append n [] ys = refl
includes-append n (x ∷ xs) ys = ground (arith, includes-append n xs ys)

Asked-waits : {n : ℕ} {s : WorkspaceSchedule} → Asked n s → includes n s.moved_waiters ≡ true
unfolding moved
Asked-waits (asked s) =
    let added = includes-append s.next_waiter s.moved_waiters (s.next_waiter ∷ []) in
    let own = eq_refl s.next_waiter in ground arith
Asked-waits (asked_after {n} s a) =
    let added = includes-append n s.moved_waiters (s.next_waiter ∷ []) in
    let before = Asked-waits a in ground arith

-- Whoever waits for the record to move is resolved by its next change, whichever that is and whoever
-- else waits, and no one is left waiting.
pub moved-IsWoken :
    {n : ℕ} {s t : WorkspaceSchedule}
    → Asked n s
    → Step s t
    → (includes n t.resolved ≡ true) × IsWoken s t
moved-IsWoken {n} {s} {t} a step =
    let woken = Step-IsWoken step in
    let waits = Asked-waits a in
    let all = includes-append n s.resolved s.moved_waiters in
    (ap (includes n) woken.resolved ∙ (ground arith), woken)

-- The reason for which a planned round holds a workspace due.
abbrev pub due_of : RecordedRound → Text → Option DueReason
due_of (planned_round revision due) path = lookup path due
due_of pending_round path = none
due_of (held_round failure) path = none

-- What makes a workspace due: it was, a plan found it due, or its run that was stored is owed again.
pub data DueBy (s t : WorkspaceSchedule) (path : Text) (reason : DueReason) : Type 0 where
  was_due : due_of s.round path ≡ some reason → DueBy s t path reason
  by_plan :
      (revision : ℕ) (due : Dict Text DueReason)
      → t ≡ planned revision due s
      → lookup path due ≡ some reason
      → DueBy s t path reason
  by_owed_run :
      (run : EndedRun)
      → t ≡ run_ended path run true s
      → is_some run.run_id ≡ true
      → reason ≡ due_not_fingerprinted
      → DueBy s t path reason

due_of-insert :
    (path p : Text) (d r : DueReason) (round : RecordedRound)
    → due_of (change_due (insert path d) round) p ≡ some r
    → (due_of round p ≡ some r) ⊎ ((path ≡ p) × (d ≡ r))
due_of-insert path p d r pending_round h = inl h
due_of-insert path p d r (held_round failure) h = inl h
due_of-insert path p d r (planned_round revision due) h =
    let is = sym (lookup-insert path p d due) ∙ h in
    elim (Bool-cases (path == p)) [
      | inl e ↦
          let kept : some d ≡ some r = ap (λ b. if b then some d else lookup p due) (sym e) ∙ is in
          inr ((eq_iff path p).0 e, cc)
      | inr e ↦ inl (ap (λ b. if b then some d else lookup p due) (sym e) ∙ is)
    ]

due_of-delete :
    (path p : Text) (r : DueReason) (round : RecordedRound)
    → due_of (change_due (delete path) round) p ≡ some r
    → (due_of round p ≡ some r) × (path ≢ p)
due_of-delete path p r pending_round h = absurd (ground arith)
due_of-delete path p r (held_round failure) h = absurd (ground arith)
due_of-delete path p r (planned_round revision due) h =
    let is = sym (lookup-delete path p due) ∙ h in
    elim (Bool-cases (path == p)) [
      | inl e ↦
          let gone : none ≡ some r = ap (λ b. if b then none else lookup p due) (sym e) ∙ is in
          absurd (ground arith)
      | inr e ↦ (
        ap (λ b. if b then none else lookup p due) (sym e) ∙ is,
        λ same. let here = (eq_iff path p).1 same in absurd (ground arith),
      )
    ]

interrupted_after-round :
    (path : Text) (by : Option (List Text)) (s : WorkspaceSchedule)
    → (interrupted_after path by s).round ≡ s.round
unfolding interrupted_after
interrupted_after-round path none s = refl
interrupted_after-round path (some paths) s = refl

run_ended-round :
    (path : Text) (run : EndedRun) (owed_again : Bool) (s : WorkspaceSchedule)
    → (run_ended path run owed_again s).round ≡ (due_after path run owed_again s).round
unfolding run_ended move
run_ended-round path run owed_again s = interrupted_after-round path run.interrupted_by _

due_after-DueBy :
    (path p : Text) (run : EndedRun) (owed_again : Bool) (s : WorkspaceSchedule) (r : DueReason)
    → due_of (due_after path run owed_again s).round p ≡ some r
    → DueBy s (run_ended path run owed_again s) p r
unfolding due_after leave_due requeue
due_after-DueBy path p run true s r h = elim (Bool-cases (is_some run.run_id)) [
  | inl e ↦
      let is : due_after path run true s ≡ requeue path due_not_fingerprinted s = rw e in
      elim (due_of-insert path p due_not_fingerprinted r s.round
        (ap (λ (x : WorkspaceSchedule). due_of x.round p) (sym is) ∙ h)) [
          | inl before ↦ was_due before
          | inr (same, why) ↦ by_owed_run run (ap (λ x. run_ended x run true s) same) e (sym why)
        ]
  | inr e ↦
      let is : due_after path run true s ≡ s = rw e in
      was_due (ap (λ (x : WorkspaceSchedule). due_of x.round p) (sym is) ∙ h)
]
due_after-DueBy path p run false s r h = was_due (due_of-delete path p r s.round h).0

-- A workspace becomes due only when a plan finds it due, or when its run that was stored is owed
-- once more at the plan's revision, which makes it due as not fingerprinted.
pub Step-DueBy :
    {s t : WorkspaceSchedule} (step : Step s t) (path : Text) (reason : DueReason)
    → due_of t.round path ≡ some reason
    → DueBy s t path reason
unfolding pending waiting planned held selected job_starts job_settles run_threw move leave_due
Step-DueBy (became_pending wait) path reason h = absurd (ground arith)
Step-DueBy (waited {s} wait revision) path reason h =
    elim (Bool-cases (planned_at s.round revision)) [
      | inl e ↦
          let is : waiting wait revision s ≡ record (move s) { wait = wait } = rw e in
          was_due (ap (λ (x : WorkspaceSchedule). due_of x.round path) (sym is) ∙ h)
      | inr e ↦
          let is : waiting wait revision s ≡ pending wait (move s) = rw e in
          let bad : none ≡ some reason =
            ap (λ (x : WorkspaceSchedule). due_of x.round path) (sym is) ∙ h in
          absurd (ground arith)
    ]
Step-DueBy (was_planned revision due) path reason h = by_plan revision due refl h
Step-DueBy (was_held failure) path reason h = absurd (ground arith)
Step-DueBy (was_selected explanation) path reason h = was_due h
Step-DueBy (job_started revision) path reason h = was_due h
Step-DueBy job_settled path reason h = was_due h
Step-DueBy (ended {s} p run owed_again) path reason h =
    due_after-DueBy p path run owed_again s reason
      (ap (λ x. due_of x path) (sym (run_ended-round p run owed_again s)) ∙ h)
Step-DueBy (threw {s} p) path reason h = was_due (due_of-delete p path reason s.round h).0

-- A run that ended and is not owed once more, or that threw, leaves its workspace due no longer.
pub run_ended-due_of :
    (path : Text) (run : EndedRun) (s : WorkspaceSchedule)
    → (due_of (run_ended path run false s).round path ≡ none)
      × (due_of (run_threw path s).round path ≡ none)
unfolding run_threw move leave_due
run_ended-due_of path run s =
    let gone = λ (r : DueReason) (h : due_of (change_due (delete path) s.round) path ≡ some r).
      (due_of-delete path path r s.round h).1 refl in
    let left : due_of (change_due (delete path) s.round) path ≡ none =
      elim (Option-cases (due_of (change_due (delete path) s.round) path)) [
        | inl n ↦ n
        | inr (r, e) ↦ absurd (gone r e)
      ] in
    (ap (λ x. due_of x path) (run_ended-round path run false s) ∙ (unfold due_after in left), left)

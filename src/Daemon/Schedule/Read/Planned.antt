-- ===== src/Daemon/Schedule/Read/Planned.antt =====
-- Which plans hold a workspace due at the revision of an answer
-- (packages/daemon/src/daemon/workspace-schedule.ts).
use rt_test.Base.{
  ℕ, Bool, true, false, Bool-cases, inl, inr, Option, none, some, Text, Dict, lookup, ◌==◌, eq_iff,
  nat_eq, list_eq, ◌≡◌, ◌≢◌, ◌↔◌, refl, sym, ap, ◌∙◌, arith,
}
use rt_test.Query.Due.{DueReason}
use rt_test.Query.Answer.{
  NamedList, DueFacts, ChoosingReason, ExecutionState, running_now, queued, interrupted_now,
  idle_now,
}
use rt_test.Daemon.Schedule.{
  WorkspaceSchedule, RecordedRound, pending_round, planned_round, held_round, facts_of,
}
use rt_test.Daemon.Schedule.Read.{DaemonActivity, running, is_running, due_in}

-- A plan at the answer's revision holds the workspace due.
abbrev pub DueAt : RecordedRound → ℕ → Text → DueReason → Type 0
DueAt round revision path reason =
    (due : Dict Text DueReason) × (round ≡ planned_round revision due)
    × (lookup path due ≡ some reason)

pub due_in_iff :
    (round : RecordedRound) (s : WorkspaceSchedule) (revision : ℕ) (path : Text)
    (reason : DueReason)
    → (due_in round path (facts_of round s revision) ≡ some reason)
      ↔ DueAt round revision path reason
unfolding due_in
due_in_iff pending_round s revision path reason =
    (λ h. absurd (ground arith), λ (due, e, _). absurd (ground arith))
due_in_iff (held_round failure) s revision path reason =
    (λ h. absurd (ground arith), λ (due, e, _). absurd (ground arith))
due_in_iff (planned_round at due) s revision path reason =
    let facts = facts_of (planned_round at due) s revision in
    elim (Bool-cases (at == revision)) [
      | inl e ↦
          let is : due_in (planned_round at due) path facts ≡ lookup path due = rw e in
          (
            λ h. (due, ap (λ x. planned_round x due) ((eq_iff at revision).0 e), sym is ∙ h),
            λ (due', same, found).
                let kept : due ≡ due' = cc in is ∙ ap (λ x. lookup path x) kept ∙ found,
          )
      | inr e ↦
          let is : due_in (planned_round at due) path facts ≡ none = rw e in
          (
            λ h. let bad = sym is ∙ h in absurd (ground arith),
            λ (due', same, found). let here : at ≡ revision = cc in absurd (ground arith),
          )
    ]

pub is_running_iff :
    (activity : DaemonActivity) (path : Text)
    → (is_running activity path ≡ true) ↔ (activity ≡ running path)
is_running_iff DaemonActivity.discovering path = ground arith
is_running_iff (running p) path =
    (λ h. ap running ((eq_iff p path).0 h), λ h. (eq_iff p path).1 (cc h))
is_running_iff (DaemonActivity.falsifying p n) path = ground arith
is_running_iff DaemonActivity.idle path = ground arith

-- A state that is queued, whatever it names.
abbrev pub Queued : ExecutionState → Type 0
Queued state =
    (due : DueFacts) × (chosen_by : NamedList ChoosingReason) × (interrupted_by : Option
      (NamedList Text))
    × (state ≡ queued due chosen_by interrupted_by)

abbrev pub is_queued : ExecutionState → Bool
is_queued (queued _ _ _) = true
is_queued _ = false

pub Queued-of : (state : ExecutionState) → is_queued state ≡ true → Queued state
Queued-of (queued due chosen_by by) h = (due, chosen_by, by, refl)
Queued-of running_now h = absurd (ground arith)
Queued-of (interrupted_now by) h = absurd (ground arith)
Queued-of (idle_now why) h = absurd (ground arith)

pub not_queued :
    (state : ExecutionState) {due : DueFacts} {chosen_by : NamedList ChoosingReason}
    {by : Option (NamedList Text)}
    → is_queued state ≡ false
    → state ≢ queued due chosen_by by
not_queued state h e = let is = ap is_queued e in absurd (ground arith)

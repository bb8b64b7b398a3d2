-- ===== src/Daemon/Schedule.antt =====
-- `WorkspaceSchedule` of packages/daemon/src/daemon/workspace-schedule.ts: the record of what the
-- scheduler is doing. A waiter for a change of the record is
-- known by its number where the source knows it by the function that resolves its promise. A job in
-- progress is its start and its end.
pub mod Steps
pub mod Read
mod Tests
use rt_test.Base.{
  ℕ, ◌+◌, Bool, true, false, not, ◌&&◌, ◌||◌, Option, none, some, List, [], ◌∷◌, ◌++◌, Text, Dict,
  lookup, insert, delete, includes, ◌==◌, nat_eq, list_eq, is_some, if◌then◌else◌,
}
use rt_test.Query.Due.{DueReason, due_not_fingerprinted}
use rt_test.Query.Answer.{
  CutReason, cut_reason, NamedList, ChoosingReason, RoundWait, first_reconciliation,
  job_in_progress, RoundFacts, pending_facts, planned_facts, held_facts,
}
use rt_test.Daemon.Changes.{add_text}
use rt_test.Daemon.Judgment.{NotKeptVerdict}
use rt_test.Daemon.Explained.{RoundExplanation, choosing_index}

pub data RecordedRound : Type 0 where
  pending_round : RecordedRound
  planned_round : (revision : ℕ) → (due : Dict Text DueReason) → RecordedRound
  held_round : (failure : Text) → RecordedRound

pub record StoredVerdict : Type 0 where
  pub run_id : Text
  pub not_kept : Option NotKeptVerdict

pub record EndedRun : Type 0 where
  pub run_id : Option Text
  pub not_kept : Option NotKeptVerdict
  pub interrupted_by : Option (List Text)

-- `WorkspaceSchedule`, with the waiters that were resolved.
pub record WorkspaceSchedule : Type 0 where
  pub round : RecordedRound
  pub wait : RoundWait
  pub job_revision : Option ℕ
  pub explanation : Option RoundExplanation
  pub chosen : Dict Text (NamedList ChoosingReason)
  pub interrupted : List Text
  pub interruptions : Dict Text (List Text)
  pub stored : Dict Text StoredVerdict
  pub moved_waiters : List ℕ
  pub next_waiter : ℕ
  pub resolved : List ℕ

unfoldable pub new_schedule : WorkspaceSchedule
new_schedule = record {
  round = pending_round;
  wait = first_reconciliation;
  job_revision = none;
  explanation = none;
  chosen = [];
  interrupted = [];
  interruptions = [];
  stored = [];
  moved_waiters = [];
  next_waiter = 0;
  resolved = [];
}

unfoldable pub moved : WorkspaceSchedule → WorkspaceSchedule × ℕ
moved s = (
  record s {
    moved_waiters = s.moved_waiters ++ s.next_waiter ∷ [];
    next_waiter = s.next_waiter + 1;
  },
  s.next_waiter,
)

unfoldable pub move : WorkspaceSchedule → WorkspaceSchedule
move s = record s { moved_waiters = []; resolved = s.resolved ++ s.moved_waiters }

unfoldable pub pending : RoundWait → WorkspaceSchedule → WorkspaceSchedule
unfolding move
pending waits_for s = move (record s { wait = waits_for; round = pending_round })

-- Whether the round is planned at a revision.
abbrev pub planned_at : RecordedRound → ℕ → Bool
planned_at (planned_round at due) revision = at == revision
planned_at _ revision = false

unfoldable pub waiting : RoundWait → ℕ → WorkspaceSchedule → WorkspaceSchedule
unfolding move pending
waiting waits_for revision s =
    let woken = move s in
    if planned_at s.round revision
    then record woken { wait = waits_for }
    else pending waits_for woken

unfoldable pub planned : ℕ → Dict Text DueReason → WorkspaceSchedule → WorkspaceSchedule
unfolding move
planned revision due s = move (record s { round = planned_round revision due; interrupted = [] })

unfoldable pub held : Text → WorkspaceSchedule → WorkspaceSchedule
unfolding move
held failure s = move (record s { round = held_round failure })

unfoldable pub selected : RoundExplanation → WorkspaceSchedule → WorkspaceSchedule
unfolding move choosing_index
selected explanation s =
    move (record s { explanation = some explanation; chosen = choosing_index explanation })

-- `during` until the job settles, then after.
unfoldable pub job_starts : ℕ → WorkspaceSchedule → WorkspaceSchedule
unfolding move
job_starts revision s = move (record s { job_revision = some revision })

unfoldable pub job_settles : WorkspaceSchedule → WorkspaceSchedule
unfolding move
job_settles s = move (record s { job_revision = none })

-- The round's due list, changed while the round is planned.
abbrev pub change_due : (Dict Text DueReason → Dict Text DueReason) → RecordedRound → RecordedRound
change_due f (planned_round revision due) = planned_round revision (f due)
change_due f pending_round = pending_round
change_due f (held_round failure) = held_round failure

unfoldable pub leave_due : Text → WorkspaceSchedule → WorkspaceSchedule
unfolding delete
leave_due path s = record s { round = change_due (delete path) s.round }

unfoldable pub requeue : Text → DueReason → WorkspaceSchedule → WorkspaceSchedule
unfolding insert
requeue path due s = record s { round = change_due (insert path due) s.round }

-- The due list of `runEnded`.
unfoldable pub due_after : Text → EndedRun → Bool → WorkspaceSchedule → WorkspaceSchedule
unfolding leave_due requeue
due_after path run owed_again s =
    if owed_again && is_some run.run_id
    then requeue path due_not_fingerprinted s
    else (if not owed_again then leave_due path s else s)

-- The verdicts of `runEnded`.
unfoldable pub stored_after : Text → EndedRun → Dict Text StoredVerdict → Dict Text StoredVerdict
unfolding insert
stored_after path run stored = elim run.run_id [
  | none ↦ stored
  | some run_id ↦ insert path (record { run_id = run_id; not_kept = run.not_kept }) stored
]

-- The interruption of `runEnded`.
unfoldable pub interrupted_after : Text → Option (List Text) → WorkspaceSchedule → WorkspaceSchedule
unfolding delete insert
interrupted_after path none s = record s { interruptions = delete path s.interruptions }
interrupted_after path (some paths) s = record s {
  interruptions = insert path paths (delete path s.interruptions);
  interrupted = add_text path s.interrupted;
}

unfoldable pub run_ended : Text → EndedRun → Bool → WorkspaceSchedule → WorkspaceSchedule
unfolding due_after stored_after interrupted_after move
run_ended path run owed_again s =
    let due = due_after path run owed_again s in
    interrupted_after path run.interrupted_by
      (move (record due { stored = stored_after path run due.stored }))

unfoldable pub run_threw : Text → WorkspaceSchedule → WorkspaceSchedule
unfolding leave_due delete move
run_threw path s =
    let left = leave_due path s in
    move (record left { interruptions = delete path left.interruptions })

-- Whether the job in progress was planned at another revision.
abbrev pub earlier_job : Option ℕ → ℕ → Bool
earlier_job none revision = false
earlier_job (some job) revision = not (job == revision)

-- The facts of a round that decides nothing at a revision.
abbrev pub undecided : WorkspaceSchedule → ℕ → RoundFacts
undecided s revision =
    pending_facts (if earlier_job s.job_revision revision then job_in_progress else s.wait)

abbrev pub facts_of : RecordedRound → WorkspaceSchedule → ℕ → RoundFacts
facts_of (held_round failure) s revision = held_facts (cut_reason failure)
facts_of (planned_round at due) s revision =
    if at == revision then planned_facts revision else undecided s revision
facts_of pending_round s revision = undecided s revision

unfoldable pub round_facts : WorkspaceSchedule → ℕ → RoundFacts
unfolding cut_reason
round_facts s revision = facts_of s.round s revision

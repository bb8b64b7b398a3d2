-- ===== src/Daemon/Schedule/Read/Executions.antt =====
-- When a workspace reads queued, and when a stored run reads invalidated
-- (packages/daemon/src/daemon/workspace-schedule.ts).
use rt_test.Base.{
  true, false, Bool-cases, Option-cases, inl, inr, ◌⊎◌, Option, none, some, Text, lookup, includes,
  ◌==◌, eq_iff, nat_eq, list_eq, ◌≡◌, ◌≢◌, ◌↔◌, refl, sym, ap, ◌∙◌, arith,
}
use mathlib.Core.Path.{subst}
use rt_test.Query.Records.{WorkspaceDiscovery, path_of}
use rt_test.Query.Due.{DueReason}
use rt_test.Query.Answer.{CutReason, cut_reason, NamedList}
use rt_test.Daemon.Explained.{bounded_list}
use rt_test.Daemon.Judgment.{NotKeptVerdict, changed_inside, moved_inputs, labels_invalidated}
use rt_test.Daemon.Schedule.{StoredVerdict, WorkspaceSchedule, round_facts, facts_of}
use rt_test.Daemon.Schedule.Read.{
  verdict_of, invalidation, running, ScheduleParts, ScheduleQuery, is_running, due_in, due_at,
  execution, not_running_state, queued_or_idle, max_named_changes,
}
use rt_test.Daemon.Schedule.Read.Planned.{
  DueAt, due_in_iff, is_running_iff, Queued, is_queued, Queued-of, not_queued,
}

module _ (parts : ScheduleParts) where
  -- Nothing runs the workspace, a change did not interrupt it since the last plan, and a plan at
  -- the answer's revision holds it due.
  pub record IsWaiting (s : WorkspaceSchedule) (entry : WorkspaceDiscovery) (query : ScheduleQuery)
      : Type 0 where
    pub not_running : query.activity ≢ running (path_of entry)
    pub not_interrupted :
        (lookup (path_of entry) s.interruptions ≡ none)
        ⊎ (includes (path_of entry) s.interrupted ≡ false)
    pub reason : DueReason
    pub due : DueAt s.round query.revision (path_of entry) reason

  queued_or_idle-Queued_iff :
      (s : WorkspaceSchedule) (entry : WorkspaceDiscovery) (query : ScheduleQuery)
      (by : Option (NamedList Text))
      → Queued (queued_or_idle parts s entry (round_facts s query.revision) query by)
        ↔ ((reason : DueReason) × DueAt s.round query.revision (path_of entry) reason)
  unfolding queued_or_idle due_at round_facts
  queued_or_idle-Queued_iff s entry query by =
      let path = path_of entry in
      let holds = due_in_iff s.round s query.revision path in
      elim (Option-cases (due_in s.round path (facts_of s.round s query.revision))) [
        | inl n ↦ (
          λ (_, _, _, e).
              let idle : is_queued
                    (queued_or_idle parts s entry (round_facts s query.revision) query by)
                  ≡ false =
                rw (n, queued_or_idle, due_at, round_facts) in
              absurd (not_queued _ idle e),
          λ (reason, d). let is = (holds reason).1 d in absurd (ground arith),
        )
        | inr (reason, e) ↦ (
          λ _. (reason, (holds reason).0 e),
          λ _.
              Queued-of (queued_or_idle parts s entry (round_facts s query.revision) query by)
                (rw (e, queued_or_idle, due_at, round_facts)),
        )
      ]

  -- A workspace reads queued exactly when no run of it is in progress, it does not read interrupted,
  -- and the latest plan was made at the answer's revision and holds it due.
  pub execution-Queued_iff :
      (s : WorkspaceSchedule) (entry : WorkspaceDiscovery) (query : ScheduleQuery)
      → Queued (execution parts s entry (round_facts s query.revision) query)
        ↔ IsWaiting s entry query
  unfolding execution
  execution-Queued_iff s entry query =
      let path = path_of entry in
      let round = round_facts s query.revision in
      let runs = is_running_iff query.activity path in
      elim (Bool-cases (is_running query.activity path)) [
        | inl e ↦ (
          λ (_, _, _, q).
              let now : is_queued (execution parts s entry round query) ≡ false =
                rw (e, execution) in
              absurd (not_queued _ now q),
          λ w. absurd (w.not_running (runs.0 e)),
        )
        | inr e ↦
            let idle : query.activity ≢ running path =
              λ r. let is = runs.1 r in absurd (ground arith) in
            elim (Option-cases (lookup path s.interruptions)) [
              | inl n ↦
                  let is : execution parts s entry round query
                      ≡ queued_or_idle parts s entry round query none =
                    rw (e, n, execution, not_running_state) in
                  let waits = queued_or_idle-Queued_iff s entry query none in
                  (
                    λ q.
                        let (reason, due) = waits.0 (subst Queued is q) in
                        record {
                          not_running = idle;
                          not_interrupted = inl n;
                          reason = reason;
                          due = due;
                        },
                    λ w. subst Queued (sym is) (waits.1 (w.reason, w.due)),
                  )
              | inr (paths, n) ↦
                  let by = bounded_list paths max_named_changes in
                  elim (Bool-cases (includes path s.interrupted)) [
                    | inl i ↦ (
                      λ (_, _, _, q).
                          let now : is_queued (execution parts s entry round query) ≡ false =
                            rw (e, n, i, execution, not_running_state) in
                          absurd (not_queued _ now q),
                      λ w. elim w.not_interrupted [
                        | inl m ↦ absurd (ground arith)
                        | inr m ↦ absurd (ground arith)
                      ],
                    )
                    | inr i ↦
                        let is : execution parts s entry round query
                            ≡ queued_or_idle parts s entry round query (some by) =
                          rw (e, n, i, execution, not_running_state) in
                        let waits = queued_or_idle-Queued_iff s entry query (some by) in
                        (
                          λ q.
                              let (reason, due) = waits.0 (subst Queued is q) in
                              record {
                                not_running = idle;
                                not_interrupted = inr i;
                                reason = reason;
                                due = due;
                              },
                          λ w. subst Queued (sym is) (waits.1 (w.reason, w.due)),
                        )
                  ]
            ]
      ]

verdict_of_iff :
    (s : WorkspaceSchedule) (path run_id : Text) (verdict : NotKeptVerdict)
    → (verdict_of s path run_id ≡ some verdict) ↔ (
        (stored : StoredVerdict) × (lookup path s.stored ≡ some stored)
        × (stored.run_id ≡ run_id)
        × (stored.not_kept ≡ some verdict))
unfolding verdict_of
verdict_of_iff s path run_id verdict = elim (Option-cases (lookup path s.stored)) [
  | inl n ↦ (λ h. absurd (ground arith), λ (stored, found, _, _). absurd (ground arith))
  | inr (stored, n) ↦
      let same = eq_iff stored.run_id run_id in
      elim (Bool-cases (stored.run_id == run_id)) [
        | inl e ↦
            let is : verdict_of s path run_id ≡ stored.not_kept = rw (n, e, verdict_of) in
            (
              λ h. (stored, n, same.0 e, sym is ∙ h),
              λ (other, found, _, kept).
                  let one : other ≡ stored = cc in
                  is ∙ ap (λ (x : StoredVerdict). x.not_kept) (sym one) ∙ kept,
            )
        | inr e ↦
            let is : verdict_of s path run_id ≡ none = rw (n, e, verdict_of) in
            (
              λ h. let bad = sym is ∙ h in absurd (ground arith),
              λ (other, found, id, kept).
                  let one : other ≡ stored = cc in
                  let here = same.1 (ap (λ (x : StoredVerdict). x.run_id) (sym one) ∙ id) in
                  absurd (ground arith),
            )
      ]
]

-- The inputs changed while a run ran, or moved.
abbrev pub Invalidates : NotKeptVerdict → Type 0
Invalidates verdict = (verdict.kind ≡ changed_inside) ⊎ (verdict.kind ≡ moved_inputs)

labels_invalidated_iff :
    (verdict : NotKeptVerdict) → (labels_invalidated (some verdict) ≡ true) ↔ Invalidates verdict
unfolding labels_invalidated
labels_invalidated_iff verdict = ground arith

-- A run reads invalidated, with a reason, exactly when the latest run that this daemon stored for the
-- workspace is that very run and its verdict is that its inputs changed while it ran or moved.
pub invalidation-some_iff :
    (s : WorkspaceSchedule) (path run_id : Text) (cut : CutReason)
    → (invalidation s path run_id ≡ some cut) ↔ (
        (verdict : NotKeptVerdict) × ((stored : StoredVerdict) × (lookup path s.stored
            ≡ some stored)
          × (stored.run_id ≡ run_id)
          × (stored.not_kept ≡ some verdict))
        × Invalidates verdict
        × (cut ≡ cut_reason verdict.reason))
unfolding invalidation
invalidation-some_iff s path run_id cut = elim (Option-cases (verdict_of s path run_id)) [
  | inl n ↦ (
    λ h. let bad : none ≡ some cut = sym (rw (n, invalidation) refl) ∙ h in absurd (ground arith),
    λ (verdict, held, _, _).
        let is = (verdict_of_iff s path run_id verdict).1 held in absurd (ground arith),
  )
  | inr (verdict, n) ↦
      let held = (verdict_of_iff s path run_id verdict).0 n in
      let labels = labels_invalidated_iff verdict in
      elim (Bool-cases (labels_invalidated (some verdict))) [
        | inl e ↦
            let is : invalidation s path run_id ≡ some (cut_reason verdict.reason) =
              rw (n, e, invalidation) in
            (
              λ h.
                  let same : cut_reason verdict.reason ≡ cut = cc in
                  (verdict, held, labels.0 e, sym same),
              λ (other, found, _, c).
                  let n' = (verdict_of_iff s path run_id other).1 found in
                  let one : other ≡ verdict = cc in
                  is ∙ ap some (ap (λ (x : NotKeptVerdict). cut_reason x.reason) (sym one) ∙ sym c),
            )
        | inr e ↦
            let is : invalidation s path run_id ≡ none = rw (n, e, invalidation) in
            (
              λ h. let bad = sym is ∙ h in absurd (ground arith),
              λ (other, found, kinds, _).
                  let n' = (verdict_of_iff s path run_id other).1 found in
                  let one : other ≡ verdict = cc in
                  let label = labels.1 (subst Invalidates one kinds) in absurd (ground arith),
            )
      ]
]

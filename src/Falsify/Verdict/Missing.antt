-- ===== src/Falsify/Verdict/Missing.antt =====
-- When `judge` (packages/daemon/src/falsify/verdict.ts) gives no verdict.
use rt_test.Base.{
  Bool, true, false, Option, none, some, or_default, Option-cases, ◌≡◌, refl, ◌↔◌, ◌⊎◌, inl, inr,
  arith,
}
use mathlib.Core.Path.{subst, ap, ◌∙◌}
use rt_test.Falsify.Facts.{
  ConfirmingFacts, confirming_ran, confirming_unrecorded, confirming_interrupted, BaselineFacts,
  ExperimentRunFacts, NextRunFact, JobFacts, RanFacts, ExperimentFacts, not_run, ran, NotRunFact,
  was_interrupted, unreadable, baseline_not_run, anchor_count, run_unrecorded, restored_recorded,
}
use rt_test.Falsify.Verdict.{
  recorded_confirming, recorded_restored, baseline_trouble, judge_second, judge_first, judge_runs,
  judge_not_run, judge_ran, judge, read_run,
}
use rt_test.Falsify.Verdict.Types.{RunReading, settled, would_detect, Judgement, no_verdict}
use rt_test.Falsify.Verdict.Reading.{WouldDetect}
use rt_test.Falsify.Verdict.Runs.{read_run-detects_iff}
use rt_test.Falsify.Verdict.Baselines.{IsSound, IsSound-iff, recorded_restored-eq}

abbrev pub has_verdict : Judgement → Bool
has_verdict (no_verdict _) = false
has_verdict _ = true

-- Why an experiment was given no run, where the job did not finish its runs or could not start
-- this one.
abbrev pub NotFinished : NotRunFact → Type 0
NotFinished was_interrupted = Unit
NotFinished unreadable = Unit
NotFinished baseline_not_run = Unit
NotFinished (anchor_count _) = Unit
NotFinished (run_unrecorded _) = Unit
NotFinished _ = ⊥

-- A run that would be a detection between sound baselines, with no confirming run.
pub record Unconfirmed (facts : RanFacts) (baseline restored : BaselineFacts) : Type 0 where
  pub baseline_sound : IsSound baseline
  pub restored_sound : IsSound restored
  pub detects : WouldDetect facts.run
  pub alone : facts.confirming ≡ none

abbrev pub LacksFacts : ExperimentFacts → Type 0
LacksFacts (not_run shared fact) = NotFinished fact
LacksFacts (ran facts) =
    (facts.shared.baseline ≡ none)
    ⊎ (recorded_confirming facts.confirming ≡ none)
    ⊎ (recorded_restored facts.shared.restored_baseline ≡ none)
    ⊎ ((baseline restored : BaselineFacts) × (facts.shared.baseline ≡ some baseline)
        × (facts.shared.restored_baseline ≡ some (restored_recorded restored))
        × Unconfirmed facts baseline restored)

not_run_lem :
    (fact : NotRunFact) (baseline : Option BaselineFacts)
    → (has_verdict (judge_not_run fact baseline) ≡ false) ↔ NotFinished fact
unfolding judge_not_run
not_run_lem fact baseline = ground arith

second-has_verdict :
    (second : RunReading) (next_run : Option NextRunFact) (job : JobFacts)
    → has_verdict (judge_second second next_run job) ≡ true
unfolding judge_second
second-has_verdict (settled s) next_run job = refl
second-has_verdict would_detect next_run job = ground arith

first_lem :
    (first : RunReading) (confirming : Option ExperimentRunFacts) (next_run : Option NextRunFact)
    (job : JobFacts)
    → (has_verdict (judge_first first confirming next_run job) ≡ false)
      ↔ ((first ≡ would_detect) × (confirming ≡ none))
unfolding judge_first
first_lem (settled s) c n job = ground arith
first_lem would_detect none n job = ground arith
first_lem would_detect (some second) n job =
    ground (arith, second-has_verdict (read_run second) n job)

trouble_lem :
    (baseline restored : BaselineFacts) (rest : Judgement)
    → (has_verdict (or_default (baseline_trouble baseline restored) rest) ≡ false)
      ↔ (IsSound baseline × IsSound restored × (has_verdict rest ≡ false))
unfolding baseline_trouble
trouble_lem baseline restored rest = (
  λ h. (
    (IsSound-iff baseline).0 (ground arith, ground arith),
    (IsSound-iff restored).0 (ground arith, ground arith),
    ground arith,
  ),
  λ (s, r, e).
      let (p, u) = (IsSound-iff baseline).1 s in
      let (q, v) = (IsSound-iff restored).1 r in ground arith,
)

recorded_confirming-none :
    (c : Option ConfirmingFacts) → (recorded_confirming c ≡ some none) ↔ (c ≡ none)
recorded_confirming-none none = ground arith
recorded_confirming-none (some (confirming_ran x)) = ground arith
recorded_confirming-none (some (confirming_unrecorded k)) = ground arith
recorded_confirming-none (some confirming_interrupted) = ground arith

-- With everything recorded, only the last reason of `LacksFacts` is left.
module _ (facts : RanFacts) (b r : BaselineFacts) (c : Option ExperimentRunFacts)
    (hb : facts.shared.baseline ≡ some b) (hc : recorded_confirming facts.confirming ≡ some c)
    (hr : facts.shared.restored_baseline ≡ some (restored_recorded r)) where
  lacks_only : LacksFacts (ran facts) → IsSound b × IsSound r × WouldDetect facts.run × (c ≡ none)
  lacks_only (inl e) = absurd (ground arith)
  lacks_only (inr (inl e)) = absurd (ground arith)
  lacks_only (inr (inr (inl e))) = absurd (ground arith)
  lacks_only (inr (inr (inr (b', r', eb, er, u)))) =
      let same_b : b' ≡ b = cc (eb, hb) in
      let same_r : r' ≡ r = cc (er, hr) in
      let nothing = (recorded_confirming-none _).1 u.alone in
      (
        subst IsSound same_b u.baseline_sound,
        subst IsSound same_r u.restored_sound,
        u.detects,
        cc (nothing, hc),
      )

  recorded_lem : (has_verdict (judge_ran facts) ≡ false) ↔ LacksFacts (ran facts)
  unfolding judge_ran judge_runs
  recorded_lem =
      let trouble = trouble_lem b r (judge_runs facts.run c facts.next_run facts.shared.job) in
      let first = first_lem (read_run facts.run) c facts.next_run facts.shared.job in
      let restored = (recorded_restored-eq _ _).1 hr in
      (
        λ h.
            let (sb, sr, e) = trouble.0 (rw (hb, hc, restored, judge_ran) at h) in
            let (reads, alone) = first.0 e in
            inr (
              inr (
                inr (
                  b,
                  r,
                  hb,
                  hr,
                  record {
                    baseline_sound = sb;
                    restored_sound = sr;
                    detects = (read_run-detects_iff facts.run).0 reads;
                    alone = (recorded_confirming-none _).0 (hc ∙ ap some alone);
                  },
                ))),
        λ l.
            let (sb, sr, d, alone) = lacks_only l in
            rw (hb, hc, restored, judge_ran)
              (trouble.1 (sb, sr, first.1 ((read_run-detects_iff facts.run).1 d, alone))),
      )

ran_lem : (facts : RanFacts) → (has_verdict (judge_ran facts) ≡ false) ↔ LacksFacts (ran facts)
unfolding judge_ran
ran_lem facts = elim (Option-cases facts.shared.baseline) [
  | inl missing ↦ (λ _. inl missing, λ _. rw (missing, judge_ran))
  | inr (b, hb) ↦ elim (Option-cases (recorded_confirming facts.confirming)) [
    | inl missing ↦ (λ _. inr (inl missing), λ _. rw (hb, missing, judge_ran))
    | inr (c, hc) ↦ elim (Option-cases (recorded_restored facts.shared.restored_baseline)) [
      | inl missing ↦ (λ _. inr (inr (inl missing)), λ _. rw (hb, hc, missing, judge_ran))
      | inr (r, hr) ↦ recorded_lem facts b r c hb hc ((recorded_restored-eq _ _).0 hr)
    ]
  ]
]

-- An experiment gets no verdict exactly when a fact that a verdict needs was not recorded: the job
-- gave it no run for a reason of its own, the baseline, the confirming run or the restored
-- baseline left no record, or a run that would be a detection has no confirming run.
pub judge-no_verdict_iff :
    (facts : ExperimentFacts) → (has_verdict (judge facts) ≡ false) ↔ LacksFacts facts
unfolding judge
judge-no_verdict_iff (not_run shared fact) = not_run_lem fact shared.baseline
judge-no_verdict_iff (ran facts) = ran_lem facts

-- ===== src/Falsify/Verdict/Detection.antt =====
-- When `judge` (packages/daemon/src/falsify/verdict.ts) reads detected.
use rt_test.Base.{true, false, Option, none, some, ◌≡◌, ◌≢◌, refl, ap, ◌∙◌, ◌↔◌, arith}
use mathlib.Core.Path.{subst}
use rt_test.Falsify.Facts.{
  BaselineFacts, ExperimentRunFacts, ConfirmingFacts, confirming_ran, confirming_unrecorded,
  confirming_interrupted, restored_recorded, NextRunFact, next_recorded, next_unrecorded, JobFacts,
  RanFacts, ExperimentFacts, not_run, ran, NotRunFact,
}
use rt_test.Falsify.Verdict.{
  recorded_confirming, next_unclean, judge_second, judge_first, judge_runs, judge_not_run, judge,
  read_run,
}
use rt_test.Falsify.Verdict.Types.{
  SettledReading, RunReading, settled, would_detect, detected, of_settled,
}
use rt_test.Falsify.Verdict.Reading.{WouldDetect}
use rt_test.Falsify.Verdict.Runs.{read_run-detects_iff}
use rt_test.Falsify.Verdict.Baselines.{IsSound, judge_ran_to, judge_ran_from}

-- What the run started next and the job's own end have to show.
pub record EndsClean (next_run : Option NextRunFact) (job : JobFacts) : Type 0 where
  pub next : next_run ≡ some (next_recorded 0)
  pub unhandled : job.unhandled_error_count ≡ 0
  pub closed : job.closed ≡ true

-- Everything that a detection rests on.
pub record Detects (facts : RanFacts) : Type 0 where
  pub baseline : BaselineFacts
  pub restored : BaselineFacts
  pub second : ExperimentRunFacts
  pub has_baseline : facts.shared.baseline ≡ some baseline
  pub has_restored : facts.shared.restored_baseline ≡ some (restored_recorded restored)
  pub has_confirming : facts.confirming ≡ some (confirming_ran second)
  pub baseline_sound : IsSound baseline
  pub restored_sound : IsSound restored
  pub run_detects : WouldDetect facts.run
  pub confirming_detects : WouldDetect second
  pub end_clean : EndsClean facts.next_run facts.shared.job

abbrev pub IsDetection : ExperimentFacts → Type 0
IsDetection (not_run shared fact) = ⊥
IsDetection (ran facts) = Detects facts

next_unclean_iff :
    (next_run : Option NextRunFact)
    → (next_unclean next_run ≡ false) ↔ (next_run ≡ some (next_recorded 0))
next_unclean_iff none = ground arith
next_unclean_iff (some next_unrecorded) = ground arith
next_unclean_iff (some (next_recorded n)) = ground arith

judge_second_iff :
    (second : RunReading) (next_run : Option NextRunFact) (job : JobFacts)
    → (judge_second second next_run job ≡ detected)
      ↔ ((second ≡ would_detect) × EndsClean next_run job)
unfolding judge_second
judge_second_iff (settled s) next_run job = (λ h. absurd (ground arith), λ h. absurd (ground arith))
judge_second_iff would_detect next_run job = (
  λ h. (
    refl,
    record {
      next = (next_unclean_iff next_run).0 (ground arith);
      unhandled = ground arith;
      closed = ground arith;
    },
  ),
  λ (_, c).
      let calm = (next_unclean_iff next_run).1 c.next in
      rw (calm, c.closed) (ground (arith, c.unhandled)),
)

of_settled-ne-detected : (s : SettledReading) → of_settled s ≢ detected
of_settled-ne-detected s e = ground arith

judge_first_iff :
    (first : RunReading) (confirming : Option ExperimentRunFacts) (next_run : Option NextRunFact)
    (job : JobFacts)
    → (judge_first first confirming next_run job ≡ detected) ↔ (
        (first ≡ would_detect)
        × ((second : ExperimentRunFacts) × (confirming ≡ some second)
            × (read_run second ≡ would_detect)
            × EndsClean next_run job))
unfolding judge_first
judge_first_iff (settled s) confirming next_run job =
    (λ h. absurd (of_settled-ne-detected s h), λ h. absurd (ground arith))
judge_first_iff would_detect none next_run job =
    (λ h. absurd (ground arith), λ (_, (s, e, _, _)). absurd (ground arith))
judge_first_iff would_detect (some second) next_run job =
    let after = judge_second_iff (read_run second) next_run job in
    (
      λ h. let (reads, clean) = after.0 h in (refl, (second, refl, reads, clean)),
      λ (_, (s, e, reads, clean)).
          let same : s ≡ second = cc in
          after.1 (subst (λ x. read_run x ≡ would_detect) same reads, clean),
    )

recorded_confirming-eq :
    (c : Option ConfirmingFacts) (second : ExperimentRunFacts)
    → recorded_confirming c ≡ some (some second)
    → c ≡ some (confirming_ran second)
recorded_confirming-eq none second h = ground arith
recorded_confirming-eq (some (confirming_ran x)) second h = ground arith
recorded_confirming-eq (some (confirming_unrecorded k)) second h = ground arith
recorded_confirming-eq (some confirming_interrupted) second h = ground arith

not_run-ne-detected :
    (fact : NotRunFact) (baseline : Option BaselineFacts) → judge_not_run fact baseline ≢ detected
unfolding judge_not_run
not_run-ne-detected fact baseline e = ground arith

-- An experiment reads detected exactly when it ran, both baselines gave the test a pass, ended
-- cleanly and count no unhandled error, its run and its recorded confirming run would each be a
-- detection, the run started next left a record with no unhandled error, and the job closed with
-- none of its own.
pub judge-detected_iff : (facts : ExperimentFacts) → (judge facts ≡ detected) ↔ IsDetection facts
unfolding judge judge_not_run judge_runs
judge-detected_iff (not_run shared fact) =
    (λ h. not_run-ne-detected fact shared.baseline h, λ d. absurd d)
judge-detected_iff (ran facts) = (
  λ h.
      let (baseline, restored, confirming, r, e) = judge_ran_to facts detected refl h in
      let (first, (second, has, reads, clean)) = (judge_first_iff _ _ _ _).0 e in
      record {
        baseline = baseline;
        restored = restored;
        second = second;
        has_baseline = r.has_baseline;
        has_restored = r.has_restored;
        has_confirming =
            recorded_confirming-eq facts.confirming second (r.has_confirming ∙ ap some has);
        baseline_sound = r.baseline_sound;
        restored_sound = r.restored_sound;
        run_detects = (read_run-detects_iff facts.run).0 first;
        confirming_detects = (read_run-detects_iff second).0 reads;
        end_clean = clean;
      },
  λ d.
      judge_ran_from facts detected {baseline = d.baseline} {restored = d.restored}
        {confirming = some d.second} refl
        (record {
          has_baseline = d.has_baseline;
          has_confirming = ap recorded_confirming d.has_confirming;
          has_restored = d.has_restored;
          baseline_sound = d.baseline_sound;
          restored_sound = d.restored_sound;
        })
        ((judge_first_iff _ _ _ _).1 (
          (read_run-detects_iff facts.run).1 d.run_detects,
          (d.second, refl, (read_run-detects_iff d.second).1 d.confirming_detects, d.end_clean),
        )),
)

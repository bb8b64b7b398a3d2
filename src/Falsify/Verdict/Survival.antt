-- ===== src/Falsify/Verdict/Survival.antt =====
-- When `judge` (packages/daemon/src/falsify/verdict.ts) reads survived.
use rt_test.Base.{Option, none, some, ◌≡◌, ◌≢◌, refl, ◌↔◌, arith}
use rt_test.Falsify.Facts.{
  BaselineFacts, ExperimentRunFacts, NextRunFact, JobFacts, ExperimentFacts, not_run, ran,
  NotRunFact,
}
use rt_test.Falsify.Verdict.{judge_second, judge_first, judge_runs, judge_not_run, judge, read_run}
use rt_test.Falsify.Verdict.Types.{
  SettledReading, invalid_run, unclear_run, RunReading, settled, would_detect, Judgement,
}
use rt_test.Falsify.Verdict.Reading.{Survives}
use rt_test.Falsify.Verdict.Runs.{read_run-survived_iff}
use rt_test.Falsify.Verdict.Baselines.{Ready, judge_ran_to, judge_ran_from}

abbrev pub IsSurvival : ExperimentFacts → Type 0
IsSurvival (not_run shared fact) = ⊥
IsSurvival (ran facts) =
    (baseline restored : BaselineFacts) × (confirming : Option ExperimentRunFacts) × Ready facts
      baseline restored confirming
    × Survives facts.run

second-ne-survived :
    (second : RunReading) (next_run : Option NextRunFact) (job : JobFacts)
    → judge_second second next_run job ≢ Judgement.survived
unfolding judge_second
second-ne-survived (settled s) next_run job e = ground arith
second-ne-survived would_detect next_run job e = ground arith

judge_first_iff :
    (first : RunReading) (confirming : Option ExperimentRunFacts) (next_run : Option NextRunFact)
    (job : JobFacts)
    → (judge_first first confirming next_run job ≡ Judgement.survived)
      ↔ (first ≡ settled SettledReading.survived)
unfolding judge_first
judge_first_iff (settled SettledReading.survived) c n job = (λ _. refl, λ _. refl)
judge_first_iff (settled (invalid_run r)) c n job = ground arith
judge_first_iff (settled (unclear_run r)) c n job = ground arith
judge_first_iff would_detect none n job = ground arith
judge_first_iff would_detect (some second) n job =
    (λ h. absurd (second-ne-survived (read_run second) n job h), λ h. ground arith)

not_run-ne-survived :
    (fact : NotRunFact) (baseline : Option BaselineFacts)
    → judge_not_run fact baseline ≢ Judgement.survived
unfolding judge_not_run
not_run-ne-survived fact baseline e = ground arith

-- An experiment reads survived exactly when it ran, both baselines gave the test a pass, ended
-- cleanly and count no unhandled error, any confirming run left a record, and its test ran to an
-- end that can be judged and passed with the mutation active. So baseline trouble comes before a
-- survivor, and the confirming run's own reading does not matter.
pub judge-survived_iff :
    (facts : ExperimentFacts) → (judge facts ≡ Judgement.survived) ↔ IsSurvival facts
unfolding judge judge_runs
judge-survived_iff (not_run shared fact) =
    (λ h. not_run-ne-survived fact shared.baseline h, λ d. absurd d)
judge-survived_iff (ran facts) = (
  λ h.
      let (baseline, restored, confirming, r, e) = judge_ran_to facts Judgement.survived refl h in
      (
        baseline,
        restored,
        confirming,
        r,
        (read_run-survived_iff facts.run).0 ((judge_first_iff _ _ _ _).0 e),
      ),
  λ (baseline, restored, confirming, r, s).
      judge_ran_from facts Judgement.survived refl r
        ((judge_first_iff _ _ _ _).1 ((read_run-survived_iff facts.run).1 s)),
)

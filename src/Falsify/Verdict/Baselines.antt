-- ===== src/Falsify/Verdict/Baselines.antt =====
-- What has to hold before an experiment's own runs are read (`judgeRan` and `baselineTrouble` of
-- packages/daemon/src/falsify/verdict.ts).
use rt_test.Base.{
  Bool, true, false, Option, none, some, or_default, nat_eq, Option-cases, ◌≡◌, ◌↔◌, inl, inr,
  arith,
}
use rt_test.Falsify.Facts.{
  passed, TestFacts, RunFacts, BaselineFacts, ExperimentRunFacts, RestoredBaselineFacts,
  restored_recorded, restored_unrecorded, RanFacts,
}
use rt_test.Falsify.Verdict.{
  run_passed, untroubled, baseline_trouble, recorded_confirming, recorded_restored, judge_runs,
  judge_ran,
}
use rt_test.Falsify.Verdict.Types.{Judgement, no_verdict, invalid_outside_run}
use rt_test.Falsify.Verdict.Reading.{EndedCleanly, ended_cleanly_iff}

-- A baseline that gave the test a pass, ended cleanly and counts no unhandled error.
pub record IsSound (baseline : BaselineFacts) : Type 0 where
  pub test : TestFacts
  pub recorded : baseline.facts.test ≡ some test
  pub passing : test.state ≡ passed
  pub ending : EndedCleanly baseline.facts.ending
  pub counted : baseline.counted_unhandled_error_count ≡ 0

run_passed-eq :
    (run : RunFacts)
    → run_passed run ≡ true
    → (test : TestFacts) × (run.test ≡ some test) × (test.state ≡ passed)
unfolding run_passed
run_passed-eq run h = elim (Option-cases run.test) [
  | inl missing ↦ absurd (ground arith)
  | inr (test, found) ↦ (test, found, ground arith)
]

pub IsSound-iff :
    (b : BaselineFacts) → ((run_passed b.facts ≡ true) × (untroubled b ≡ true)) ↔ IsSound b
unfolding untroubled
IsSound-iff b = (
  λ (p, u).
      let (test, found, pass) = run_passed-eq b.facts p in
      record {
        test = test;
        recorded = found;
        passing = pass;
        ending = (ended_cleanly_iff b.facts.ending).0 (ground arith);
        counted = ground arith;
      },
  λ s.
      let clean = (ended_cleanly_iff b.facts.ending).1 s.ending in
      (unfold run_passed in (rw (s.recorded, s.passing)), ground (arith, s.counted)),
)

-- What an experiment needs for its runs to be read at all.
pub record Ready (facts : RanFacts) (baseline restored : BaselineFacts)
    (confirming : Option ExperimentRunFacts) : Type 0 where
  pub has_baseline : facts.shared.baseline ≡ some baseline
  pub has_confirming : recorded_confirming facts.confirming ≡ some confirming
  pub has_restored : facts.shared.restored_baseline ≡ some (restored_recorded restored)
  pub baseline_sound : IsSound baseline
  pub restored_sound : IsSound restored

-- A judgement that is decided from the runs themselves.
abbrev pub is_from_runs : Judgement → Bool
is_from_runs (no_verdict _) = false
is_from_runs (invalid_outside_run _) = false
is_from_runs _ = true

pub recorded_restored-eq :
    (r : Option RestoredBaselineFacts) (b : BaselineFacts)
    → (recorded_restored r ≡ some b) ↔ (r ≡ some (restored_recorded b))
recorded_restored-eq none b = ground arith
recorded_restored-eq (some (restored_unrecorded k)) b = ground arith
recorded_restored-eq (some (restored_recorded x)) b = ground arith

trouble_lem :
    (baseline restored : BaselineFacts) (rest j : Judgement)
    → is_from_runs j ≡ true
    → (or_default (baseline_trouble baseline restored) rest ≡ j)
      ↔ (IsSound baseline × IsSound restored × (rest ≡ j))
unfolding baseline_trouble
trouble_lem baseline restored rest j from = (
  λ h. (
    (IsSound-iff baseline).0 (ground arith, ground arith),
    (IsSound-iff restored).0 (ground arith, ground arith),
    ground arith,
  ),
  λ (s, r, e).
      let (p, u) = (IsSound-iff baseline).1 s in
      let (q, v) = (IsSound-iff restored).1 r in ground arith,
)

pub judge_ran_to :
    (facts : RanFacts) (j : Judgement)
    → is_from_runs j ≡ true
    → judge_ran facts ≡ j
    → (baseline restored : BaselineFacts) × (confirming : Option ExperimentRunFacts) × Ready facts
        baseline restored confirming
      × (judge_runs facts.run confirming facts.next_run facts.shared.job ≡ j)
unfolding judge_ran
judge_ran_to facts j from h = elim (Option-cases facts.shared.baseline) [
  | inl missing ↦ absurd (ground arith)
  | inr (b, hb) ↦ elim (Option-cases (recorded_confirming facts.confirming)) [
    | inl missing ↦ absurd (ground arith)
    | inr (c, hc) ↦ elim (Option-cases (recorded_restored facts.shared.restored_baseline)) [
      | inl missing ↦ absurd (ground arith)
      | inr (r, hr) ↦
          let (s, t, e) =
            (trouble_lem b r (judge_runs facts.run c facts.next_run facts.shared.job) j from).0
              (rw (hb, hc, hr, judge_ran) at h) in
          (
            b,
            r,
            c,
            record {
              has_baseline = hb;
              has_confirming = hc;
              has_restored = (recorded_restored-eq _ _).0 hr;
              baseline_sound = s;
              restored_sound = t;
            },
            e,
          )
    ]
  ]
]

pub judge_ran_from :
    (facts : RanFacts) (j : Judgement) {baseline restored : BaselineFacts}
    {confirming : Option ExperimentRunFacts}
    → is_from_runs j ≡ true
    → Ready facts baseline restored confirming
    → judge_runs facts.run confirming facts.next_run facts.shared.job ≡ j
    → judge_ran facts ≡ j
unfolding judge_ran
judge_ran_from facts j {baseline} {restored} {confirming} from r e =
    rw (r.has_baseline, r.has_confirming, r.has_restored, judge_ran)
      ((trouble_lem baseline restored _ j from).1 (r.baseline_sound, r.restored_sound, e))

-- ===== src/Falsify/Verdict/Runs.antt =====
-- What a whole run reads (`readRun` and `isWouldBeDetection` of
-- packages/daemon/src/falsify/verdict.ts).
use rt_test.Base.{
  ℕ, true, false, not, none, List, [], ◌∷◌, any, All, Bool-cases, Option-cases, ◌≡◌, ◌≢◌, refl, ◌↔◌,
  ◌⊎◌, inl, inr, arith,
}
use mathlib.Core.Path.{subst}
use rt_test.Falsify.Facts.{
  TestState, passed, failed, other_state, ErrorFact, TestFacts, ExperimentRunFacts,
}
use rt_test.Falsify.Verdict.{
  ended_cleanly, read_module, read_hooks, read_repeats, read_reach, read_body, read_test,
  read_state, read_run, is_assertion, is_nil, or_reading, is_would_be_detection, test_did_not_run,
}
use rt_test.Falsify.Verdict.Types.{SettledReading, RunReading, settled, would_detect, test_absent}
use rt_test.Falsify.Verdict.Reading.{
  ended_cleanly_iff, Ran, WouldDetect, Survives, is_valid, or_reading_iff, read_module_iff,
  read_hooks_iff, read_repeats_iff, read_reach_iff, read_module-IsInvalid, read_hooks-IsInvalid,
  read_repeats-IsInvalid, read_reach-IsInvalid,
}

module _ (run : ExperimentRunFacts) (t : RunReading) (valid : is_valid t ≡ true) where
  read_test_iff :
      (test : TestFacts)
      → (read_test test run ≡ t) ↔ (
          (read_hooks test.hooks ≡ none)
          × (read_repeats test ≡ none)
          × (read_reach test.reach run ≡ none)
          × (read_body test run.facts.unhandled_error_count ≡ t))
  unfolding read_test
  read_test_iff test =
      let body = read_body test run.facts.unhandled_error_count in
      let reach = read_reach test.reach run in
      let repeats = read_repeats test in
      let i =
        or_reading_iff (read_hooks test.hooks) (or_reading repeats (or_reading reach body)) t
          (read_hooks-IsInvalid test.hooks) valid in
      let j =
        or_reading_iff repeats (or_reading reach body) t (read_repeats-IsInvalid test) valid in
      let k = or_reading_iff reach body t (read_reach-IsInvalid test.reach run) valid in
      (
        λ h. let (a, h1) = i.0 h in let (b, h2) = j.0 h1 in let (c, h3) = k.0 h2 in (a, b, c, h3),
        λ (a, b, c, h). i.1 (a, j.1 (b, k.1 (c, h))),
      )

  read_state_iff :
      (test : TestFacts) (state : TestState)
      → (read_state state test run ≡ t)
        ↔ (((state ≡ passed) ⊎ (state ≡ failed)) × (read_test test run ≡ t))
  unfolding read_state
  read_state_iff test passed = (λ h. (inl refl, h), λ h. h.1)
  read_state_iff test failed = (λ h. (inr refl, h), λ h. h.1)
  read_state_iff test (other_state s) = (λ h. absurd (ground arith), λ h. absurd (ground arith))

  -- A run reads as its test's body exactly when the test ran to an end that can be judged.
  read_run_iff :
      (read_run run ≡ t)
      ↔ ((test : TestFacts) × Ran run test × (read_body test run.facts.unhandled_error_count ≡ t))
  unfolding read_run
  read_run_iff = elim (Bool-cases (ended_cleanly run.facts.ending)) [
    | inr unclean ↦ (
      λ h. absurd (ground arith),
      λ (test, r, h). cc ((ended_cleanly_iff run.facts.ending).1 r.ending),
    )
    | inl clean ↦ elim (Option-cases run.facts.test) [
      | inl missing ↦
          let m =
            or_reading_iff (read_module run.facts.module_facts) (test_did_not_run test_absent) t
              (read_module-IsInvalid run.facts.module_facts) valid in
          (
            λ h. let (_, h1) = m.0 (rw (clean, missing, read_run) at h) in absurd (ground arith),
            λ (test, r, h). cc (r.recorded),
          )
      | inr (test, found) ↦
          let m =
            or_reading_iff (read_module run.facts.module_facts) (read_state test.state test run) t
              (read_module-IsInvalid run.facts.module_facts) valid in
          (
            λ h.
                let (in_module, h1) = m.0 (rw (clean, found, read_run) at h) in
                let (finished, h2) = (read_state_iff test test.state).0 h1 in
                let (hooks, once, reached, body) = (read_test_iff test).0 h2 in
                (
                  test,
                  record {
                    ending = (ended_cleanly_iff run.facts.ending).0 clean;
                    in_module = (read_module_iff _).0 in_module;
                    recorded = found;
                    finished = finished;
                    hooks = (read_hooks_iff _).0 hooks;
                    once = (read_repeats_iff test).0 once;
                    reached = (read_reach_iff test.reach run).0 reached;
                  },
                  body,
                ),
            λ (test', r, body).
                let same : test' ≡ test = cc (r.recorded, found) in
                let r2 = subst (Ran run) same r in
                let body2 =
                  subst (λ x. read_body x run.facts.unhandled_error_count ≡ t) same body in
                rw (clean, found, read_run)
                  (m.1 (
                    (read_module_iff _).1 r2.in_module,
                    (read_state_iff test test.state).1 (
                      r2.finished,
                      (read_test_iff test).1 (
                        (read_hooks_iff _).1 r2.hooks,
                        (read_repeats_iff test).1 r2.once,
                        (read_reach_iff test.reach run).1 r2.reached,
                        body2,
                      ),
                    ),
                  )),
          )
    ]
  ]

only_assertions_iff :
    (errors : List ErrorFact)
    → (any (λ error. not (is_assertion error)) errors ≡ false)
      ↔ All (λ error. is_assertion error ≡ true) errors
only_assertions_iff [] = (λ _. tt, λ _. refl)
only_assertions_iff (e ∷ es) = ground (arith, only_assertions_iff es)

is_nil-eq-false : (errors : List ErrorFact) → errors ≢ [] → is_nil errors ≡ false
is_nil-eq-false [] ne = absurd (ne refl)
is_nil-eq-false (e ∷ es) ne = refl

body_detects_iff :
    (test : TestFacts) (n : ℕ)
    → ((test.state ≡ passed) ⊎ (test.state ≡ failed))
    → (read_body test n ≡ would_detect) ↔ (
        (test.state ≡ failed)
        × (test.errors ≢ [])
        × All (λ error. is_assertion error ≡ true) test.errors
        × (n ≡ 0))
unfolding read_body
body_detects_iff test n finished = (
  λ h. (
    ground arith,
    λ e. ground arith,
    (only_assertions_iff test.errors).0 (ground arith),
    ground arith,
  ),
  λ (failing, has_error, assertions, unhandled).
      let only = (only_assertions_iff test.errors).1 assertions in
      let some_error = is_nil-eq-false test.errors has_error in ground arith,
)

body_survives_iff :
    (test : TestFacts) (n : ℕ)
    → ((test.state ≡ passed) ⊎ (test.state ≡ failed))
    → (read_body test n ≡ settled SettledReading.survived) ↔ (test.state ≡ passed)
unfolding read_body
body_survives_iff test n finished = (λ h. ground arith, λ h. ground arith)

pub read_run-detects_iff :
    (run : ExperimentRunFacts) → (read_run run ≡ would_detect) ↔ WouldDetect run
read_run-detects_iff run =
    let whole = read_run_iff run would_detect refl in
    (
      λ h.
          let (test, r, body) = whole.0 h in
          let (failing, has_error, assertions, unhandled) =
            (body_detects_iff test _ r.finished).0 body in
          record {
            test = test;
            ran = r;
            failing = failing;
            has_error = has_error;
            assertions = assertions;
            unhandled = unhandled;
          },
      λ d. whole.1 (
        d.test,
        d.ran,
        (body_detects_iff d.test _ d.ran.finished).1
            (d.failing, d.has_error, d.assertions, d.unhandled),
      ),
    )

pub read_run-survived_iff :
    (run : ExperimentRunFacts) → (read_run run ≡ settled SettledReading.survived) ↔ Survives run
read_run-survived_iff run =
    let whole = read_run_iff run (settled SettledReading.survived) refl in
    (
      λ h.
          let (test, r, body) = whole.0 h in
          record { test = test; ran = r; passing = (body_survives_iff test _ r.finished).0 body },
      λ d. whole.1 (d.test, d.ran, (body_survives_iff d.test _ d.ran.finished).1 d.passing),
    )

-- One run would be a detection exactly when it ended cleanly, its test's module had no trouble,
-- every hook passed, the mutated site executed, and the test, told to run once, failed with at
-- least one error, all of them assertions, while the run raised no unhandled error.
pub is_would_be_detection_iff :
    (run : ExperimentRunFacts) → (is_would_be_detection run ≡ true) ↔ WouldDetect run
unfolding is_would_be_detection
is_would_be_detection_iff run =
    (λ h. (read_run-detects_iff run).0 (ground arith), λ d. rw ((read_run-detects_iff run).1 d))

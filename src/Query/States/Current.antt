-- ===== src/Query/States/Current.antt =====
-- When a test's standing reads current (packages/daemon/src/query/test-states.ts).
use rt_test.Base.{
  Bool-cases, inl, inr, ◌⊎◌, true, false, Bool, Option, none, some, List, [], map, Text, lookup,
  ◌≡◌, ◌≢◌, ◌↔◌, ◌∙◌, refl, sym, ap, nat_eq, list_eq, ◌<|>◌, arith,
}
use rt_test.Core.Evidence.{TestOutcome, current, unknown, assess_evidence}
use rt_test.Core.Identity.{TestIdentity, test_identity_key}
use rt_test.Query.Records.{
  DiscoveredTest, finished_test, interrupted_test, TestRunState, RecordedTest, RecordedModule,
  WorkspaceRun, ran_run, unsupported_run, failed_run, interrupted_before_load_run, crashed_run,
  StoredRun,
}
use rt_test.Query.States.{
  NoOutcome, RunAnswer, answer_outcome, answer_state, map_of, stored_freshness, record_freshness,
  position_unvouched, recorded_answer, recorded_tests, by_test_key, found_answer, module_answer,
  run_answer, run_answerer, answered_standing, test_standing,
}
use rt_test.Query.States.Answers.{
  IsLastNamed, last_value, lookup-map_of, last_value-some, last_value_of_last,
}
use rt_test.Query.Due.Reasons.{IsBound, record_freshness-current_iff}

-- Rating a finished outcome is rating the run, but for a position that nothing vouches for.
answered_freshness :
    (stored : StoredRun) (c : Option Text) (dc : Bool) (test : DiscoveredTest) (o : TestOutcome)
    (p : Bool)
    → position_unvouched test p dc ≡ false
    → (answered_standing stored c dc test (answer_outcome o p)).freshness
      ≡ record_freshness stored c
unfolding answered_standing record_freshness stored_freshness assess_evidence
answered_freshness stored c dc test o p h = rw h

unvouched_freshness :
    (stored : StoredRun) (c : Option Text) (dc : Bool) (test : DiscoveredTest) (o : TestOutcome)
    (p : Bool)
    → position_unvouched test p dc ≡ true
    → (answered_standing stored c dc test (answer_outcome o p)).freshness ≢ current
unfolding answered_standing stored_freshness
unvouched_freshness stored c dc test o p h e = ground arith

-- The run finished a test: the last that it recorded with the identity.
abbrev pub Finished : StoredRun → TestIdentity → RecordedTest → TestOutcome → Type 0
Finished stored identity recorded o =
    (modules : List RecordedModule) × (errors : List Text) × (stored.run ≡ ran_run modules)
    × IsLastNamed identity (recorded_tests modules) recorded
    × (recorded.run_state ≡ finished_test o errors)

run_state-cases :
    (r : TestRunState)
    → (r ≡ interrupted_test)
      ⊎ ((o : TestOutcome) × (errors : List Text) × (r ≡ finished_test o errors))
run_state-cases interrupted_test = inl refl
run_state-cases (finished_test o errors) = inr (o, errors, refl)

recorded_answer-outcome :
    (t : RecordedTest) (o : TestOutcome) (p : Bool)
    → recorded_answer t ≡ answer_outcome o p
    → (errors : List Text) × (t.run_state ≡ finished_test o errors) × (t.is_duplicate ≡ p)
unfolding recorded_answer
recorded_answer-outcome t o p e = elim (run_state-cases t.run_state) [
  | inl i ↦ absurd (ground arith)
  | inr (o', errors, r) ↦
      (errors, r ∙ ap (λ x. finished_test x errors) (ground arith), ground arith)
]

found_answer-outcome :
    (t : Option RecordedTest) (m : Option RecordedModule) (o : TestOutcome) (p : Bool)
    → found_answer t m ≡ answer_outcome o p
    → (r : RecordedTest) × (t ≡ some r) × (recorded_answer r ≡ answer_outcome o p)
unfolding found_answer module_answer
found_answer-outcome (some r) m o p e = (r, refl, e)
found_answer-outcome none none o p e = absurd (ground arith)
found_answer-outcome none (some m) o p e = absurd (ground arith)

or_none {ℓ} : {A : Type ℓ} (o : Option A) → (o <|> none) ≡ o
or_none none = refl
or_none (some a) = refl

-- The test that a run's map holds for an identity.
abbrev held_test : List RecordedModule → TestIdentity → Option RecordedTest
held_test modules identity =
    lookup (test_identity_key identity) (map_of [] (map by_test_key (recorded_tests modules)))

held_test-last_value :
    (modules : List RecordedModule) (identity : TestIdentity)
    → held_test modules identity
      ≡ last_value (test_identity_key identity) (map by_test_key (recorded_tests modules))
unfolding lookup
held_test-last_value modules identity =
    lookup-map_of (test_identity_key identity) [] (map by_test_key (recorded_tests modules))
    ∙ or_none _

run_answer-outcome :
    (run : WorkspaceRun) (identity : TestIdentity) (o : TestOutcome) (p : Bool)
    → run_answer run identity ≡ answer_outcome o p
    → (modules : List RecordedModule) × (recorded : RecordedTest) × (errors : List Text) × (run
        ≡ ran_run modules)
      × IsLastNamed identity (recorded_tests modules) recorded
      × (recorded.run_state ≡ finished_test o errors)
      × (recorded.is_duplicate ≡ p)
unfolding run_answer
run_answer-outcome (ran_run modules) identity o p e =
    let (r, held, answer) = found_answer-outcome (held_test modules identity) _ o p e in
    let (errors, state, duplicate) = recorded_answer-outcome r o p answer in
    let last =
      last_value-some identity (recorded_tests modules) r
        (sym (held_test-last_value modules identity) ∙ held) in
    (modules, r, errors, refl, last, state, duplicate)
run_answer-outcome unsupported_run identity o p e = absurd (ground arith)
run_answer-outcome failed_run identity o p e = absurd (ground arith)
run_answer-outcome interrupted_before_load_run identity o p e = absurd (ground arith)
run_answer-outcome crashed_run identity o p e = absurd (ground arith)

run_answer_of_last :
    (modules : List RecordedModule) (identity : TestIdentity) (recorded : RecordedTest)
    → IsLastNamed identity (recorded_tests modules) recorded
    → run_answer (ran_run modules) identity ≡ recorded_answer recorded
unfolding run_answer found_answer
run_answer_of_last modules identity recorded (before, after, split, name, later) =
    let held : held_test modules identity ≡ some recorded =
      held_test-last_value modules identity
      ∙ ap (λ ts. last_value (test_identity_key identity) (map by_test_key ts)) split
      ∙ last_value_of_last identity before after recorded name later in
    rw held

Finished-answer :
    (stored : StoredRun) (identity : TestIdentity) (recorded : RecordedTest) (o : TestOutcome)
    → Finished stored identity recorded o
    → run_answerer stored identity ≡ answer_outcome o recorded.is_duplicate
unfolding run_answerer recorded_answer
Finished-answer stored identity recorded o (modules, errors, ran, last, state) =
    ap (λ r. run_answer r identity) ran
    ∙ run_answer_of_last modules identity recorded last
    ∙ rw state

answer-cases :
    (a : RunAnswer)
    → ((o : TestOutcome) × (p : Bool) × (a ≡ answer_outcome o p))
      ⊎ ((s : NoOutcome) × (a ≡ answer_state s))
answer-cases (answer_outcome o p) = inl (o, p, refl)
answer-cases (answer_state s) = inr (s, refl)

no_outcome_freshness :
    (stored : StoredRun) (c : Option Text) (dc : Bool) (test : DiscoveredTest) (s : NoOutcome)
    → (answered_standing stored c dc test (answer_state s)).freshness ≡ unknown
unfolding answered_standing
no_outcome_freshness stored c dc test s = refl

test_standing-answer :
    (stored : StoredRun) (c : Option Text) (dc : Bool) (test : DiscoveredTest) (a : RunAnswer)
    → run_answerer stored test.identity ≡ a
    → (test_standing stored c dc test).freshness ≡ (answered_standing stored c dc test a).freshness
unfolding test_standing
test_standing-answer stored c dc test a e =
    ap (λ r. (answered_standing stored c dc test r).freshness) e

current_answer :
    (stored : StoredRun) (c : Option Text) (dc : Bool) (test : DiscoveredTest)
    → (test_standing stored c dc test).freshness ≡ current
    → (o : TestOutcome) × (p : Bool) × (run_answerer stored test.identity ≡ answer_outcome o p)
      × (position_unvouched test p dc ≡ false)
current_answer stored c dc test now = elim (answer-cases (run_answerer stored test.identity)) [
  | inr (s, e) ↦
      let rated =
        test_standing-answer stored c dc test _ e ∙ no_outcome_freshness stored c dc test s in
      absurd (ground arith)
  | inl (o, p, e) ↦
      let rated = test_standing-answer stored c dc test _ e in
      elim (Bool-cases (position_unvouched test p dc)) [
        | inl u ↦ absurd (unvouched_freshness stored c dc test o p u (sym rated ∙ now))
        | inr v ↦ (o, p, e, v)
      ]
]

-- What vouches for the place of a test among the tests of its name.
abbrev pub IsVouched : Bool → DiscoveredTest → RecordedTest → Type 0
IsVouched discovery_is_current test recorded =
    (discovery_is_current ≡ true) ⊎ ((test.is_duplicate ≡ false) × (recorded.is_duplicate ≡ false))

position_unvouched_iff :
    (dc : Bool) (test : DiscoveredTest) (recorded : RecordedTest)
    → (position_unvouched test recorded.is_duplicate dc ≡ false) ↔ IsVouched dc test recorded
unfolding position_unvouched
position_unvouched_iff true test recorded = (λ _. inl refl, λ _. ground arith)
position_unvouched_iff false test recorded = elim (Bool-cases test.is_duplicate) [
  | inl d ↦ (λ e. absurd (ground arith), λ v. ground arith)
  | inr d ↦ (λ e. inr (d, ground arith), λ v. ground arith)
]

-- A test's standing reads current exactly when the run was stored under the present adapter version
-- and a digest that is not empty and is the current fingerprint, the run finished the last test
-- that it recorded with the identity, and neither the discovery nor the run tells that test apart
-- by its position only, or the discovery is current.
pub test_standing-current_iff :
    (stored : StoredRun) (c : Option Text) (discovery_is_current : Bool) (test : DiscoveredTest)
    → ((test_standing stored c discovery_is_current test).freshness ≡ current) ↔ (
        IsBound stored c
        × ((recorded : RecordedTest) × (o : TestOutcome) × Finished stored test.identity recorded o
            × IsVouched discovery_is_current test recorded))
unfolding run_answerer
test_standing-current_iff stored c dc test = (
  λ now.
      let (o, p, e, v) = current_answer stored c dc test now in
      let rated =
        test_standing-answer stored c dc test _ e ∙ answered_freshness stored c dc test o p v in
      let (modules, r, errors, ran, last, state, same) =
        run_answer-outcome stored.run test.identity o p e in
      (
        (record_freshness-current_iff stored c).0 (sym rated ∙ now),
        (
          r,
          o,
          (modules, errors, ran, last, state),
          (position_unvouched_iff dc test r).0 (ap (λ b. position_unvouched test b dc) same ∙ v),
        ),
      ),
  λ (bound, (r, o, finished, v)).
      test_standing-answer stored c dc test _ (Finished-answer stored test.identity r o finished)
      ∙ answered_freshness stored c dc test o r.is_duplicate
          ((position_unvouched_iff dc test r).1 v)
      ∙ (record_freshness-current_iff stored c).1 bound,
)

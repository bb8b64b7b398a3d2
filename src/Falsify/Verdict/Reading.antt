-- ===== src/Falsify/Verdict/Reading.antt =====
-- When one run of an experiment, taken alone, would be a detection, and when its mutation survived
-- it (`readRun` of packages/daemon/src/falsify/verdict.ts).
use rt_test.Base.{
  ℕ, Bool, true, false, Option, none, some, [], ◌∷◌, nat_eq, list_eq, eq_iff, All, Text, or_default,
  Option-cases, ◌≡◌, ◌≢◌, refl, ◌↔◌, ◌⊎◌, inl, inr, arith,
}
use rt_test.Falsify.Facts.{
  in_test, outside_test, no_reach, unknown_reach, Reach, TestState, passed, failed, other_state,
  HookStates, TestFacts, ModuleFacts, collected, not_collected, RunExecution, RunEnding,
  ExperimentRunFacts,
}
use rt_test.Falsify.Verdict.{
  hook_passed, required_state, ended_cleanly, read_module, read_hook_states, read_hooks,
  read_repeats, read_reach, is_assertion, or_reading, repeats_of,
}
use rt_test.Falsify.Verdict.Types.{SettledReading, invalid_run, unclear_run, RunReading, settled}

-- A run that completed, was not force-stopped and whose cancel raised no error.
pub record EndedCleanly (ending : RunEnding) : Type 0 where
  pub completed : ending.execution ≡ RunExecution.completed
  pub not_stopped : ending.force_stopped ≡ false
  pub not_failed : ending.cancel_failed ≡ false

pub ended_cleanly_iff : (ending : RunEnding) → (ended_cleanly ending ≡ true) ↔ EndedCleanly ending
unfolding ended_cleanly
ended_cleanly_iff ending = (λ h. ground arith, λ h. ground arith)

-- The setup file's own hook and every hook recorded passed.
pub record HooksPassed (hooks : Option HookStates) : Type 0 where
  pub recorded : (state : Text) × (required_state hooks ≡ some state)
  pub every : All (λ (hook : Text × Text). hook.1 ≡ hook_passed) (or_default hooks [])

-- The test ran to an end that can be judged: in a module with no trouble of its own, with its
-- hooks passed, once if it failed, and with the mutated site executed.
pub record Ran (run : ExperimentRunFacts) (test : TestFacts) : Type 0 where
  pub ending : EndedCleanly run.facts.ending
  pub in_module : run.facts.module_facts ≡ some (collected 0 [])
  pub recorded : run.facts.test ≡ some test
  pub finished : (test.state ≡ passed) ⊎ (test.state ≡ failed)
  pub hooks : HooksPassed test.hooks
  pub once : test.state ≡ failed → test.repeats ≡ none
  pub reached : (test.reach ≡ some in_test) ⊎ (test.reach ≡ some outside_test)

-- A run that, taken alone, would be a detection: the test failed by assertions alone, and the run
-- raised no unhandled error.
pub record WouldDetect (run : ExperimentRunFacts) : Type 0 where
  pub test : TestFacts
  pub ran : Ran run test
  pub failing : test.state ≡ failed
  pub has_error : test.errors ≢ []
  pub assertions : All (λ error. is_assertion error ≡ true) test.errors
  pub unhandled : run.facts.unhandled_error_count ≡ 0

pub record Survives (run : ExperimentRunFacts) : Type 0 where
  pub test : TestFacts
  pub ran : Ran run test
  pub passing : test.state ≡ passed

pub read_module_iff :
    (m : Option ModuleFacts) → (read_module m ≡ none) ↔ (m ≡ some (collected 0 []))
unfolding read_module
read_module_iff none = ground arith
read_module_iff (some (not_collected s)) = ground arith
read_module_iff (some (collected n [])) = ground arith
read_module_iff (some (collected n (s ∷ ss))) = ground arith

read_hook_states_iff :
    (hooks : HookStates)
    → (read_hook_states hooks ≡ none) ↔ All (λ (hook : Text × Text). hook.1 ≡ hook_passed) hooks
unfolding read_hook_states
read_hook_states_iff [] = (λ _. tt, λ _. refl)
read_hook_states_iff ((hook, state) ∷ hooks) =
    ground (arith, eq_iff state hook_passed, read_hook_states_iff hooks)

pub read_hooks_iff : (hooks : Option HookStates) → (read_hooks hooks ≡ none) ↔ HooksPassed hooks
unfolding read_hooks
read_hooks_iff hooks = elim (Option-cases (required_state hooks)) [
  | inl missing ↦ (λ h. absurd (ground arith), λ h. let (s, e) = h.recorded in cc)
  | inr (state, found) ↦ (
    λ h. record {
      recorded = (state, found);
      every = (read_hook_states_iff _).0 (rw (found, read_hooks) at h);
    },
    λ h. rw (found, read_hooks) ((read_hook_states_iff _).1 h.every),
  )
]

repeats_of_iff :
    (state : TestState) (repeats : Option ℕ)
    → (repeats_of state repeats ≡ none) ↔ (state ≡ failed → repeats ≡ none)
repeats_of_iff failed none = (λ _ _. refl, λ _. refl)
repeats_of_iff failed (some n) = (λ h e. cc, λ h. absurd (ground (arith, h refl)))
repeats_of_iff passed r = (λ _ e. cc, λ _. refl)
repeats_of_iff (other_state s) r = (λ _ e. cc, λ _. refl)

pub read_repeats_iff :
    (test : TestFacts) → (read_repeats test ≡ none) ↔ (test.state ≡ failed → test.repeats ≡ none)
unfolding read_repeats
read_repeats_iff test = repeats_of_iff test.state test.repeats

pub read_reach_iff :
    (reach : Option Reach) (run : ExperimentRunFacts)
    → (read_reach reach run ≡ none) ↔ ((reach ≡ some in_test) ⊎ (reach ≡ some outside_test))
unfolding read_reach
read_reach_iff none run = ground arith
read_reach_iff (some in_test) run = ground arith
read_reach_iff (some outside_test) run = ground arith
read_reach_iff (some no_reach) run = ground arith
read_reach_iff (some (unknown_reach r)) run = ground arith

-- A reading that is not an invalid experiment's.
abbrev pub is_valid : RunReading → Bool
is_valid (settled (invalid_run _)) = false
is_valid _ = true

abbrev pub IsInvalid : Option SettledReading → Type 0
IsInvalid none = Unit
IsInvalid (some (invalid_run _)) = Unit
IsInvalid (some _) = ⊥

-- A reader that finds trouble gives an invalid experiment, so a valid reading comes from the last.
pub or_reading_iff :
    (o : Option SettledReading) (r t : RunReading)
    → IsInvalid o
    → is_valid t ≡ true
    → (or_reading o r ≡ t) ↔ ((o ≡ none) × (r ≡ t))
or_reading_iff none r t i v = (λ h. (refl, h), λ h. h.1)
or_reading_iff (some (invalid_run x)) r t i v =
    (λ h. absurd (ground arith), λ h. absurd (ground arith))
or_reading_iff (some SettledReading.survived) r t i v = absurd i
or_reading_iff (some (unclear_run x)) r t i v = absurd i

pub read_module-IsInvalid : (m : Option ModuleFacts) → IsInvalid (read_module m)
unfolding read_module
read_module-IsInvalid none = tt
read_module-IsInvalid (some (not_collected s)) = tt
read_module-IsInvalid (some (collected n [])) = ground arith
read_module-IsInvalid (some (collected n (s ∷ ss))) = ground arith

read_hook_states-IsInvalid : (hooks : HookStates) → IsInvalid (read_hook_states hooks)
unfolding read_hook_states
read_hook_states-IsInvalid [] = tt
read_hook_states-IsInvalid ((hook, state) ∷ hooks) =
    ground (arith, read_hook_states-IsInvalid hooks)

pub read_hooks-IsInvalid : (hooks : Option HookStates) → IsInvalid (read_hooks hooks)
unfolding read_hooks
read_hooks-IsInvalid hooks = ground (arith, read_hook_states-IsInvalid (or_default hooks []))

pub read_repeats-IsInvalid : (test : TestFacts) → IsInvalid (read_repeats test)
unfolding read_repeats
read_repeats-IsInvalid test = ground arith

pub read_reach-IsInvalid :
    (reach : Option Reach) (run : ExperimentRunFacts) → IsInvalid (read_reach reach run)
unfolding read_reach
read_reach-IsInvalid reach run = ground arith

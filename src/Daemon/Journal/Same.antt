-- ===== src/Daemon/Journal/Same.antt =====
-- What a standing shows, by which two standings of one key are compared
-- (packages/daemon/src/daemon/change-journal.ts).
use rt_test.Base.{Option, none, some, true, ◌==◌, eq_iff, ◌↔◌, ◌≡◌, refl, arith}
use mathlib.Core.Bool.{and-eq-true_iff}
use rt_test.Core.Evidence.{Freshness}
use rt_test.Query.States.{TestState}
use rt_test.Daemon.Journal.{state_eq, freshness_eq}
use rt_test.Daemon.Moments.{recorded_test, recorded_entry, RecordedStanding, same, same_standing}

-- A test's state and freshness, or that an entry is listed.
pub data Shown : Type 0 where
  shown_test : TestState → Freshness → Shown
  shown_entry : Shown

abbrev pub shown : Option RecordedStanding → Option Shown
shown none = none
shown (some (recorded_test _ state freshness)) = some (shown_test state freshness)
shown (some (recorded_entry _)) = some shown_entry

-- Two standings are the same exactly when they show the same.
pub same_iff : (a b : Option RecordedStanding) → (same a b ≡ true) ↔ (shown a ≡ shown b)
unfolding same same_standing
same_iff none none = (λ _. refl, λ _. refl)
same_iff none (some (recorded_test _ _ _)) = ground arith
same_iff none (some (recorded_entry _)) = ground arith
same_iff (some (recorded_test _ _ _)) none = ground arith
same_iff (some (recorded_entry _)) none = ground arith
same_iff (some (recorded_entry _)) (some (recorded_entry _)) = (λ _. refl, λ _. refl)
same_iff (some (recorded_entry _)) (some (recorded_test _ _ _)) = ground arith
same_iff (some (recorded_test _ _ _)) (some (recorded_entry _)) = ground arith
same_iff (some (recorded_test _ s f)) (some (recorded_test _ s' f')) =
    ground (arith, and-eq-true_iff (s == s') (f == f'), eq_iff s s', eq_iff f f')

-- ===== src/Daemon/Journal/Dropped.antt =====
-- What a journal drops of its changes (packages/daemon/src/daemon/change-journal.ts).
use rt_test.Base.{
  ℕ, ◌≤◌, ◌<◌, Bool-cases, inl, inr, ◌⊎◌, true, Option, none, some, List, [], ◌∷◌, ◌++◌, length,
  leb, nat_eq, ◌≡◌, refl, sym, ap, All, Pairs, arith,
}
use mathlib.Core.Path.{subst}
use rt_test.Daemon.Journal.{is_sequence, drop_from}
use rt_test.Daemon.Moments.{RecordedChange, max_recorded_changes}

abbrev pub AllAtMost : ℕ → List RecordedChange → Type 0
AllAtMost n changes = All (λ (c : RecordedChange). c.sequence ≤ n) changes

abbrev pub AllAtLeast : ℕ → List RecordedChange → Type 0
AllAtLeast n changes = All (λ (c : RecordedChange). n ≤ c.sequence) changes

-- The changes of a journal stand in the order of their sequences.
abbrev pub IsOrdered : List RecordedChange → Type 0
IsOrdered changes = Pairs (λ (c d : RecordedChange). c.sequence ≤ d.sequence) changes

-- What is left of the changes is their end; what is gone has a sequence that is dropped.
pub record IsDropped (dropped : ℕ) (changes : List RecordedChange) (left : List RecordedChange × ℕ)
    : Type 0 where
  pub gone : List RecordedChange
  pub split : changes ≡ gone ++ left.0
  pub gone_old : AllAtMost left.1 gone
  pub left_new : AllAtLeast left.1 left.0
  pub later : dropped ≤ left.1
  pub below : (n : ℕ) → dropped ≤ n → AllAtMost n changes → left.1 ≤ n
  pub within : length left.0 < max_recorded_changes

-- The first change goes too.
one_more-IsDropped :
    (dropped d : ℕ) (c : RecordedChange) (changes : List RecordedChange)
    (left : List RecordedChange × ℕ)
    → dropped ≤ d
    → d ≡ c.sequence
    → IsDropped d changes left
    → IsDropped dropped (c ∷ changes) left
one_more-IsDropped dropped d c changes left h e r =
    let later = r.later in
    record {
      gone = c ∷ r.gone;
      split = ap (λ x. c ∷ x) r.split;
      gone_old = (omega arith, r.gone_old);
      left_new = r.left_new;
      later = omega arith;
      below = λ n k all. r.below n (let first = all.0 in omega arith) all.1;
      within = r.within;
    }

nothing-IsDropped :
    (dropped : ℕ) (changes : List RecordedChange)
    → AllAtLeast dropped changes
    → length changes < max_recorded_changes
    → IsDropped dropped changes (changes, dropped)
nothing-IsDropped dropped changes h k = record {
  gone = [];
  split = refl;
  gone_old = tt;
  left_new = h;
  later = omega arith;
  below = λ n m all. m;
  within = k;
}

dropped_sequence :
    (dropping : Option ℕ) (dropped sequence : ℕ)
    → (dropping ≡ none) ⊎ (dropping ≡ some dropped)
    → is_sequence dropping sequence ≡ true
    → dropped ≡ sequence
dropped_sequence dropping dropped sequence (inl m) e = absurd (ground arith)
dropped_sequence dropping dropped sequence (inr m) e = ground arith

-- Dropping only ever takes whole sequences from the front, and leaves fewer than the bound.
pub drop_from-IsDropped :
    (dropping : Option ℕ) (dropped : ℕ) (changes : List RecordedChange)
    → (dropping ≡ none) ⊎ (dropping ≡ some dropped)
    → AllAtLeast dropped changes
    → IsOrdered changes
    → IsDropped dropped changes (drop_from dropping dropped changes)
unfolding drop_from
drop_from-IsDropped dropping dropped [] m h o = nothing-IsDropped dropped [] tt (omega arith)
drop_from-IsDropped dropping dropped (c ∷ changes) m (h, hs) (o, os) =
    elim (Bool-cases (is_sequence dropping c.sequence)) [
      | inl e ↦
          let is : drop_from dropping dropped (c ∷ changes) ≡ drop_from dropping dropped changes =
            rw e in
          subst (IsDropped dropped (c ∷ changes)) (sym is) (
            one_more-IsDropped dropped dropped c changes _ (omega arith)
              (dropped_sequence dropping dropped c.sequence m e)
              (drop_from-IsDropped dropping dropped changes m hs os))
      | inr e ↦ elim (Bool-cases (leb max_recorded_changes (length (c ∷ changes)))) [
        | inl full ↦
            let is : drop_from dropping dropped (c ∷ changes)
                ≡ drop_from (some c.sequence) c.sequence changes =
              rw (e, full) in
            subst (IsDropped dropped (c ∷ changes)) (sym is) (
              one_more-IsDropped dropped c.sequence c changes _ h refl
                (drop_from-IsDropped (some c.sequence) c.sequence changes (inr refl) o os))
        | inr fits ↦
            let is : drop_from dropping dropped (c ∷ changes) ≡ (c ∷ changes, dropped) =
              rw (e, fits) in
            subst (IsDropped dropped (c ∷ changes)) (sym is)
              (nothing-IsDropped dropped (c ∷ changes) (h, hs) (ground arith))
      ]
    ]

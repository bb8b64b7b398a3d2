-- ===== src/Inputs/Glob.antt =====
-- `matchesSequence` of packages/daemon/src/inputs/non-inputs.ts: a pattern in which each `run`
-- element stands for any number of elements. The indices are the source's; the pair of
-- `resumePattern` and `resumeSubject` is `none` while `resumePattern` is -1. The `while` loops take
-- fuel, and `none` as a result says that it ran out.
pub mod Matching
pub mod Correct
use rt_test.Base.{
  ℕ, zero, suc, ◌+◌, ◌*◌, Bool, true, false, Option, none, some, List, Eq, ◌==◌, length, get_elem?,
  if◌then◌else◌, nat_beq, or_default,
}

-- The state of the first loop: `patternIndex`, `subjectIndex` and what to resume.
abbrev pub Rounds : Type 0
Rounds = ℕ → ℕ → Option (ℕ × ℕ) → Option Bool

-- The last two branches: only the latest run is resumed, one element further on.
unfoldable pub resume : Rounds → Option (ℕ × ℕ) → Option Bool
resume next none = some false
resume next (some (resume_pattern, resume_subject)) =
    next (resume_pattern + 1) (resume_subject + 1) (some (resume_pattern, resume_subject + 1))

-- `patternIndex < pattern.length && matchesOne(wanted, element)`.
unfoldable pub is_one {ℓ} : {A : Type ℓ} → (A → A → Bool) → Option A → A → Bool
is_one matches_one none element = false
is_one matches_one (some wanted) element = matches_one wanted element

module _ {ℓ} {A : Type ℓ} ⦃e : Eq A⦄ (run : A) where
  -- `wanted === run`, where an index out of range gives `undefined`.
  unfoldable pub is_run : Option A → Bool
  is_run none = false
  is_run (some wanted) = wanted == run

  -- The last loop: the runs that are left match nothing.
  unfoldable pub trailing_runs : List A → ℕ → ℕ → Option ℕ
  trailing_runs pattern zero pattern_index = none
  trailing_runs pattern (suc fuel) pattern_index =
      let further = trailing_runs pattern fuel (pattern_index + 1) in
      if is_run (get_elem? pattern pattern_index) then further else some pattern_index

  unfoldable pub finish : List A → ℕ → Option Bool
  finish pattern pattern_index = elim (trailing_runs pattern (suc (length pattern)) pattern_index) [
    | none ↦ none
    | some last ↦ some (nat_beq last (length pattern))
  ]

module _ {ℓ} {A : Type ℓ} ⦃e : Eq A⦄ (run : A) (matches_one : A → A → Bool)
    (pattern subject : List A) where
  -- One round of the first loop, which ends where the subject does.
  unfoldable pub round : Rounds → Rounds
  round next pattern_index subject_index saved = elim (get_elem? subject subject_index) [
    | none ↦ finish run pattern pattern_index
    | some element ↦
        let wanted = get_elem? pattern pattern_index in
        let skipped =
          next (pattern_index + 1) subject_index (some (pattern_index, subject_index)) in
        let taken = next (pattern_index + 1) (subject_index + 1) saved in
        let again = resume next saved in
        if is_run run wanted
        then skipped
        else (if is_one matches_one wanted element then taken else again)
  ]

  unfoldable pub rounds : ℕ → Rounds
  rounds zero pattern_index subject_index saved = none
  rounds (suc fuel) pattern_index subject_index saved =
      round (rounds fuel) pattern_index subject_index saved

  -- At most the product of the two lengths, each counted with its end.
  abbrev pub enough_rounds : ℕ
  enough_rounds = (length subject + 1) * (length pattern + 1)

  unfoldable pub run_sequence : Option Bool
  run_sequence = rounds enough_rounds 0 0 none

  unfoldable pub matches_sequence : Bool
  unfolding run_sequence rounds round resume finish trailing_runs is_run is_one
  matches_sequence = or_default run_sequence false

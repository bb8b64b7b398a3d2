-- ===== src/Inputs/Patterns/Usable.antt =====
-- Which patterns `patternProblem` accepts (packages/daemon/src/inputs/non-inputs.ts).
use rt_test.Base.{
  ℕ, Bool, true, false, not, ◌&&◌, none, List, [], ◌∷◌, ◌==◌, nat_eq, list_eq, eq_iff, eq_refl,
  includes, any, All, Text, split, starts_with, includes_text, ◌≡◌, ◌≢◌, refl, ◌↔◌, ◌⊎◌, arith,
}
use rt_test.Inputs.Patterns.{
  globstar, posix_separator, forbidden_characters, invalid_segments, pattern_problem,
  segments_problem,
}

abbrev pub IsUsableSegment : Text → Type 0
IsUsableSegment segment =
    (segment ≢ [])
    × (segment ≢ b'.' ∷ [])
    × (segment ≢ b'.' ∷ b'.' ∷ [])
    × ((segment ≡ globstar) ⊎ (includes_text segment globstar ≡ false))

abbrev pub IsUsable : Text → Type 0
IsUsable pattern =
    All (λ forbidden. includes forbidden pattern ≡ false) forbidden_characters
    × All IsUsableSegment (split posix_separator pattern)

segment_lem :
    (segment : Text)
    → ((includes segment invalid_segments ≡ false)
        × ((not (segment == globstar) && includes_text segment globstar) ≡ false))
      ↔ IsUsableSegment segment
segment_lem segment = ground (
  arith,
  eq_iff segment [],
  eq_iff segment (b'.' ∷ []),
  eq_iff segment (b'.' ∷ b'.' ∷ []),
  eq_iff segment globstar,
)

abbrev is_unusable : Text → Bool
is_unusable segment = includes segment invalid_segments

abbrev hides_globstar : Text → Bool
hides_globstar segment = not (segment == globstar) && includes_text segment globstar

segments_lem :
    (ts : List Text)
    → ((any is_unusable ts ≡ false) × (any hides_globstar ts ≡ false)) ↔ All IsUsableSegment ts
segments_lem [] = (λ _. tt, λ _. (refl, refl))
segments_lem (t ∷ ts) = (
  λ (h, k). (
    (segment_lem t).0 (ground arith, ground arith),
    (segments_lem ts).0 (ground arith, ground arith),
  ),
  λ (u, us).
      let (h1, k1) = (segment_lem t).1 u in
      let (h2, k2) = (segments_lem ts).1 us in (rw (h1, h2), rw (k1, k2)),
)

segments_problem_iff : (ts : List Text) → (segments_problem ts ≡ none) ↔ All IsUsableSegment ts
unfolding segments_problem
segments_problem_iff ts = (
  λ h. (segments_lem ts).0 (ground arith, ground arith),
  λ u. let (h, k) = (segments_lem ts).1 u in rw (h, k),
)

-- A pattern that begins with a separator has an empty first segment.
begins_lem :
    (c : ℕ) (s : Text)
    → starts_with (c ∷ s) (posix_separator ∷ []) ≡ true
    → ¬ All IsUsableSegment (split posix_separator (c ∷ s))
unfolding starts_with split
begins_lem c s h usable =
    let is : (c == posix_separator) ≡ true = ground arith in (rw is at usable).0.0 refl

-- A pattern can be used exactly when it holds none of the forbidden characters and each of its
-- segments is neither empty nor `.` nor `..`, and is `**` or does not contain it.
pub pattern_problem_iff : (pattern : Text) → (pattern_problem pattern ≡ none) ↔ IsUsable pattern
unfolding pattern_problem split
pattern_problem_iff [] = (λ h. ground (arith, eq_refl {A = Text} []), λ u. absurd (u.1.0.0 refl))
pattern_problem_iff (c ∷ s) = ground (
  arith,
  eq_iff {A = Text} (c ∷ s) [],
  begins_lem c s,
  segments_problem_iff (split posix_separator (c ∷ s)),
)

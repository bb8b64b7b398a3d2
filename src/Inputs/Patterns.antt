-- ===== src/Inputs/Patterns.antt =====
-- The patterns of `rt-test.json`: `patternProblem`, `matchesPath`, `matchesBelow` and
-- `matchesSegment` of packages/daemon/src/inputs/non-inputs.ts.
pub mod Segments
pub mod Below
pub mod Usable
use rt_test.Base.{
  ℕ, zero, suc, ◌+◌, Bool, true, false, not, ◌&&◌, ◌||◌, Option, none, some, List, [], ◌∷◌, ◌==◌,
  nat_eq, list_eq, length, get_elem?, any, find?, includes, Text, codes, split, starts_with,
  includes_text, if◌then◌else◌, ltb,
}
use rt_test.Inputs.Glob.{matches_sequence}

abbrev pub globstar : Text
globstar = b'*' ∷ b'*' ∷ []

abbrev pub any_run : ℕ
any_run = b'*'

abbrev pub any_character : ℕ
any_character = b'?'

abbrev pub posix_separator : ℕ
posix_separator = b'/'

abbrev pub forbidden_characters : List ℕ
forbidden_characters = b'\\' ∷ b'[' ∷ b']' ∷ b'{' ∷ b'}' ∷ b'!' ∷ []

abbrev pub invalid_segments : List Text
invalid_segments = [] ∷ (b'.' ∷ []) ∷ (b'.' ∷ b'.' ∷ []) ∷ []

abbrev pub wildcard_characters : List ℕ
wildcard_characters = any_run ∷ any_character ∷ []

-- `wanted === ANY_CHARACTER || wanted === character`.
abbrev pub one_character : ℕ → ℕ → Bool
one_character wanted character = wanted == any_character || wanted == character

unfoldable pub matches_segment : Text → Text → Bool
matches_segment pattern name =
    if not (any (λ wildcard. includes wildcard pattern) wildcard_characters)
    then pattern == name
    else matches_sequence any_run one_character pattern name

unfoldable pub matches_path : List Text → List Text → Bool
matches_path pattern path = matches_sequence globstar matches_segment pattern path

-- The loop of `matchesBelow`: `true` as soon as it returns true, `none` when it ends.
unfoldable pub below_from : List Text → ℕ → List Text → Option Bool
below_from pattern index [] = none
below_from pattern index (name ∷ directory) =
    let onward = below_from pattern (index + 1) directory in
    elim (get_elem? pattern index) [
      | none ↦ some false
      | some wanted ↦
          if wanted == globstar
          then some true
          else (if not (matches_segment wanted name) then some false else onward)
    ]

unfoldable pub matches_below : List Text → List Text → Bool
unfolding below_from
matches_below pattern directory = elim (below_from pattern 0 directory) [
  | none ↦ ltb (length directory) (length pattern)
  | some answer ↦ answer
]

-- Why a pattern cannot be used: one constructor for each sentence of the source.
pub data PatternProblem : Type 0 where
  is_empty begins_with_separator bad_segment inner_globstar : PatternProblem
  contains : ℕ → PatternProblem

-- The last two tests, over the segments.
unfoldable pub segments_problem : List Text → Option PatternProblem
segments_problem segments =
    if any (λ segment. includes segment invalid_segments) segments
    then some bad_segment
    else (if any (λ segment. not (segment == globstar) && includes_text segment globstar) segments
        then some inner_globstar
        else none)

unfoldable pub pattern_problem : Text → Option PatternProblem
unfolding segments_problem
pattern_problem pattern =
    if pattern == []
    then some is_empty
    else (if starts_with pattern (posix_separator ∷ [])
        then some begins_with_separator
        else elim (find? (λ character. includes character pattern) forbidden_characters) [
          | some forbidden ↦ some (contains forbidden)
          | none ↦ segments_problem (split posix_separator pattern)
        ])

-- ===== src/Inputs/Tests.antt =====
-- Runs of the patterns of packages/daemon/src/inputs/non-inputs.ts, and the theorems applied.
use rt_test.Base.{
  Bool, true, false, none, some, List, [], ◌∷◌, ◌++◌, Text, codes, split, starts_with,
  includes_text, nat_eq, list_eq, list_beq, ◌≡◌, ◌≢◌, ◌↔◌, refl,
}
use Prim.Native.String.{String}
use rt_test.Inputs.Glob.{matches_sequence, run_sequence}
use rt_test.Inputs.Glob.Matching.{Matches}
use rt_test.Inputs.Glob.Correct.{run_sequence_ends, matches_sequence_iff}
use rt_test.Inputs.Patterns.{
  any_run, one_character, matches_segment, matches_path, matches_below, pattern_problem,
  bad_segment, inner_globstar, contains,
}
use rt_test.Inputs.Patterns.Segments.{Fits, matches_segment_iff}
use rt_test.Inputs.Patterns.Below.{matches_below_iff}
use rt_test.Inputs.Patterns.Usable.{IsUsable, pattern_problem_iff}

abbrev segments : String → List Text
segments s = unfold split in split b'/' (codes s)

segment_tests :
    (matches_segment (codes "*.md") (codes "a.b.md") ≡ true)
    × (matches_segment (codes "a?c") (codes "abc") ≡ true)
    × (matches_segment (codes "a?c") (codes "ac") ≡ false)
    × (matches_segment (codes "abc") (codes "abd") ≡ false)
unfolding matches_segment matches_sequence list_beq
segment_tests = (refl, refl, refl, refl)

path_tests :
    (matches_path (segments "docs/**") (segments "docs/a/b.md") ≡ true)
    × (matches_path (segments "**/*.md") (segments "README.md") ≡ true)
    × (matches_path (segments "docs/*") (segments "docs/a/b.md") ≡ false)
    × (matches_below (segments "docs/*/x") (segments "docs/a") ≡ true)
    × (matches_below (segments "docs/*") (segments "docs/a") ≡ false)
    × (matches_below (segments "a/**/b") (segments "a/c/d/e") ≡ true)
unfolding matches_path matches_below matches_segment matches_sequence split list_beq
path_tests = (refl, refl, refl, refl, refl, refl)

problem_tests :
    (pattern_problem (codes "docs/**") ≡ none)
    × (pattern_problem (codes "a//b") ≡ some bad_segment)
    × (pattern_problem (codes "a**") ≡ some inner_globstar)
    × (pattern_problem (codes "!a") ≡ some (contains b'!'))
unfolding pattern_problem split starts_with includes_text list_beq
problem_tests = (refl, refl, refl, refl)

run_sequence_ends_example :
    (b : Bool) × (run_sequence any_run one_character (codes "*a*b") (codes "aaab") ≡ some b)
run_sequence_ends_example = run_sequence_ends any_run one_character (codes "*a*b") (codes "aaab")

matches_sequence_iff_example :
    (matches_sequence any_run one_character (codes "*a*b") (codes "aaab") ≡ true)
    ↔ Matches any_run one_character (codes "*a*b") (codes "aaab")
matches_sequence_iff_example =
    matches_sequence_iff any_run one_character (codes "*a*b") (codes "aaab")

matches_segment_iff_example :
    (matches_segment (codes "*.md") (codes "a.md") ≡ true) ↔ Fits (codes "*.md") (codes "a.md")
matches_segment_iff_example = matches_segment_iff (codes "*.md") (codes "a.md")

abbrev below_pattern : List Text
below_pattern = codes "docs" ∷ codes "**" ∷ []

matches_below_iff_example : (matches_below below_pattern (codes "docs" ∷ []) ≡ true) ↔ (
    (rest : List Text) × (rest ≢ [])
    × (matches_path below_pattern ((codes "docs" ∷ []) ++ rest) ≡ true))
matches_below_iff_example = matches_below_iff below_pattern (codes "docs" ∷ [])

pattern_problem_iff_example :
    (pattern_problem (codes "docs/**") ≡ none) ↔ IsUsable (codes "docs/**")
pattern_problem_iff_example = pattern_problem_iff (codes "docs/**")

-- ===== src/Inputs/Patterns/Segments.antt =====
-- What `matchesSegment` and `matchesPath` decide (packages/daemon/src/inputs/non-inputs.ts).
use rt_test.Base.{
  true, false, List, [], ◌∷◌, ◌==◌, nat_eq, list_eq, eq_iff, includes, any, Text, Bool-cases, ◌≡◌,
  refl, ◌↔◌, inl, inr, arith,
}
use rt_test.Inputs.Glob.Matching.{Matches, done, leave, extend, single}
use rt_test.Inputs.Glob.Correct.{matches_sequence_iff}
use rt_test.Inputs.Patterns.{
  globstar, any_run, any_character, one_character, wildcard_characters, matches_segment,
  matches_path,
}

-- A name fits a segment: `*` takes any run of characters and `?` one.
abbrev pub Fits : Text → Text → Type 0
Fits = Matches any_run one_character

-- A path fits a pattern: `**` takes any number of segments.
abbrev pub FitsPath : List Text → List Text → Type 0
FitsPath = Matches globstar matches_segment

-- With no wildcard a segment fits itself alone.
plain-Fits :
    {p n : Text} → Fits p n → includes any_run p ≡ false → includes any_character p ≡ false → p ≡ n
plain-Fits done h k = refl
plain-Fits (leave {w} e f) h k = absurd (ground arith)
plain-Fits (extend {w} e f) h k = absurd (ground arith)
plain-Fits (single {w} {x} {p} {s} ne ok f) h k =
    ground (arith, plain-Fits f (ground arith) (ground arith))

pub Fits-self : (p : Text) → Fits p p
Fits-self [] = done
Fits-self (c ∷ p) = elim (Bool-cases (c == any_run)) [
  | inl star ↦ let is = (eq_iff c any_run).0 star in extend is (leave is (Fits-self p))
  | inr other ↦ single (λ e. cc ((eq_iff c any_run).1 e)) (ground arith) (Fits-self p)
]

-- `matchesSegment` answers true exactly on the names that fit, also where it compares a segment
-- with no wildcard as it stands.
pub matches_segment_iff : (p n : Text) → (matches_segment p n ≡ true) ↔ Fits p n
unfolding matches_segment
matches_segment_iff p n =
    elim (Bool-cases (any (λ wildcard. includes wildcard p) wildcard_characters)) [
      | inl wild ↦ rw wild (matches_sequence_iff any_run one_character p n)
      | inr plain ↦ rw plain (
        λ same. rw (← (eq_iff p n).0 same) (Fits-self p),
        λ f. (eq_iff p n).1 (plain-Fits f (ground arith) (ground arith)),
      )
    ]

-- `matchesPath` answers true exactly on the paths whose segments fit the pattern's.
pub matches_path_iff : (p path : List Text) → (matches_path p path ≡ true) ↔ FitsPath p path
unfolding matches_path
matches_path_iff p path = matches_sequence_iff globstar matches_segment p path

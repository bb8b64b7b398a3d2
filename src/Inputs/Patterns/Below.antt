-- ===== src/Inputs/Patterns/Below.antt =====
-- `matchesBelow` (packages/daemon/src/inputs/non-inputs.ts) rules a directory out exactly when no
-- path below it fits.
use rt_test.Base.{
  ℕ, ◌+◌, ◌≤◌, Bool, true, List, [], ◌∷◌, ◌++◌, ◌==◌, nat_eq, list_eq, eq_iff, Text, Bool-cases,
  length, drop, get_elem?-cases, ltb, or_default, ◌≡◌, ◌≢◌, refl, sym, ◌∙◌, ◌↔◌, inl, inr, arith,
}
use rt_test.Inputs.Glob.Matching.{done, leave, extend, single, single_inv, nothing_left}
use rt_test.Inputs.Patterns.{globstar, matches_segment, matches_path, below_from, matches_below}
use rt_test.Inputs.Patterns.Segments.{FitsPath, Fits-self, matches_segment_iff, matches_path_iff}

FitsPath-self : (p : List Text) → FitsPath p p
FitsPath-self [] = done
FitsPath-self (w ∷ p) = elim (Bool-cases (w == globstar)) [
  | inl star ↦ let is = (eq_iff w globstar).0 star in extend is (leave is (FitsPath-self p))
  | inr other ↦
      single (λ e. cc ((eq_iff w globstar).1 e)) ((matches_segment_iff w w).1 (Fits-self w))
        (FitsPath-self p)
]

-- A `**` takes any path in front of what fits already.
absorb :
    {w : Text} {p : List Text} (d s : List Text)
    → w ≡ globstar
    → FitsPath (w ∷ p) s
    → FitsPath (w ∷ p) (d ++ s)
absorb [] s e f = f
absorb (x ∷ d) s e f = extend e (absorb d s e f)

-- Some path below the directory fits the rest of the pattern.
abbrev Reaches : List Text → List Text → Type 0
Reaches p d = (s : List Text) × (s ≢ []) × FitsPath p (d ++ s)

abbrev answer_from : List Text → ℕ → List Text → ℕ → Bool
answer_from pattern i d n = or_default (below_from pattern i d) (ltb n (length pattern))

nothing_fits : (s : List Text) → s ≢ [] → ¬ FitsPath [] s
nothing_fits [] ne f = ne refl
nothing_fits (x ∷ s) ne f = nothing_left f

module _ (pattern : List Text) where
  end_lem : (i n : ℕ) → n ≡ i → (ltb n (length pattern) ≡ true) ↔ Reaches (drop i pattern) []
  end_lem i n e = elim (get_elem?-cases i pattern) [
    | inl (_, nothing, past) ↦
        rw nothing (λ h. absurd (ground arith), λ (s, ne, f). absurd (nothing_fits s ne f))
    | inr (w, _, rest, within) ↦ (
      λ h. (drop i pattern, λ none_left. cc (sym rest ∙ none_left), FitsPath-self _),
      λ _. ground arith,
    )
  ]

  below_lem :
      (d : List Text) (i n : ℕ)
      → n ≡ i + length d
      → i ≤ length pattern
      → (answer_from pattern i d n ≡ true) ↔ Reaches (drop i pattern) d
  unfolding below_from
  below_lem [] i n e hi = end_lem i n (omega arith)
  below_lem (x ∷ d) i n e hi = elim (get_elem?-cases i pattern) [
    | inl (out, nothing, _) ↦
        rw (out, below_from, nothing) (λ h. cc, λ (s, ne, f). absurd (nothing_left f))
    | inr (w, at, rest, within) ↦ elim (Bool-cases (w == globstar)) [
      | inl star ↦
          let is = (eq_iff w globstar).0 star in
          rw (at, below_from, rest, star)
            (
              λ _. (
                [] ∷ drop (i + 1) pattern,
                λ none_left. cc,
                absorb (x ∷ d) _ is (extend is (leave is (FitsPath-self _))),
              ),
              λ _. refl,
            )
      | inr other ↦
          let is_not : w ≢ globstar = λ is. cc ((eq_iff w globstar).1 is) in
          elim (Bool-cases (matches_segment w x)) [
            | inl ok ↦
                rw (at, below_from, rest, other, ok)
                  (
                    λ h.
                        let (s, ne, f) = (below_lem d (i + 1) n (omega arith) (omega arith)).0 h in
                        (s, ne, single is_not ok f),
                    λ (s, ne, f).
                        (below_lem d (i + 1) n (omega arith) (omega arith)).1
                          (s, ne, (single_inv is_not f).1),
                  )
            | inr bad ↦
                rw (at, below_from, rest, other, bad)
                  (λ h. cc, λ (s, ne, f). cc ((single_inv is_not f).0))
          ]
    ]
  ]

-- `matchesBelow` answers true exactly when some path below the directory, a segment or more
-- deeper, matches the pattern; so a directory it rules out holds no match at any depth.
pub matches_below_iff :
    (pattern directory : List Text)
    → (matches_below pattern directory ≡ true)
      ↔ ((rest : List Text) × (rest ≢ []) × (matches_path pattern (directory ++ rest) ≡ true))
unfolding matches_below
matches_below_iff pattern directory =
    let found = below_lem pattern directory 0 (length directory) (omega arith) (omega arith) in
    (
      λ h. let (s, ne, f) = found.0 (ground arith) in (s, ne, (matches_path_iff _ _).1 f),
      λ (s, ne, m). let h = found.1 (s, ne, (matches_path_iff _ _).0 m) in ground arith,
    )

-- ===== src/Inputs/Glob/Matching.antt =====
-- When a sequence matches a pattern, as a relation: a run takes any number of elements, and any
-- other element takes one that it accepts.
use rt_test.Base.{Bool, true, List, [], ◌∷◌, ◌≡◌, ◌≢◌}

pub data Matches {ℓ} {A : Type ℓ} (run : A) (matches_one : A → A → Bool)
    : List A → List A → Type ℓ where
  done : Matches run matches_one [] []
  leave :
      {w : A} {p s : List A}
      → w ≡ run
      → Matches run matches_one p s
      → Matches run matches_one (w ∷ p) s
  extend :
      {w x : A} {p s : List A}
      → w ≡ run
      → Matches run matches_one (w ∷ p) s
      → Matches run matches_one (w ∷ p) (x ∷ s)
  single :
      {w x : A} {p s : List A}
      → w ≢ run
      → matches_one w x ≡ true
      → Matches run matches_one p s
      → Matches run matches_one (w ∷ p) (x ∷ s)

module _ {ℓ} {A : Type ℓ} {run : A} {matches_one : A → A → Bool} where
  pub single_inv :
      {w x : A} {p s : List A}
      → w ≢ run
      → Matches run matches_one (w ∷ p) (x ∷ s)
      → (matches_one w x ≡ true) × Matches run matches_one p s
  single_inv ne (leave e m) = absurd (ne e)
  single_inv ne (extend e m) = absurd (ne e)
  single_inv ne (single _ h m) = (h, m)

  pub single_needs : {w : A} {p : List A} → w ≢ run → ¬ Matches run matches_one (w ∷ p) []
  single_needs ne (leave e m) = ne e

  pub nothing_left : {x : A} {s : List A} → ¬ Matches run matches_one [] (x ∷ s)
  nothing_left m = elim m [ ]

  pub leave_empty :
      {w : A} {p : List A}
      → w ≡ run
      → Matches run matches_one (w ∷ p) []
      → Matches run matches_one p []
  leave_empty e (leave _ m) = m

  -- Two runs in a row are one.
  pub two_runs :
      {v w : A} {p s : List A}
      → w ≡ run
      → Matches run matches_one (v ∷ w ∷ p) s
      → v ≡ run
      → Matches run matches_one (w ∷ p) s
  two_runs e (leave _ m) r = m
  two_runs e (extend _ m) r = extend e (two_runs e m r)
  two_runs e (single ne _ m) r = absurd (ne r)

  -- A run before a single element can take that element too.
  pub widen :
      {v w : A} {p s : List A}
      → v ≡ run
      → w ≢ run
      → Matches run matches_one (v ∷ w ∷ p) s
      → Matches run matches_one (v ∷ p) s
  widen r ne (leave _ (leave e m)) = absurd (ne e)
  widen r ne (leave _ (extend e m)) = absurd (ne e)
  widen r ne (leave _ (single _ h m)) = extend r (leave r m)
  widen r ne (extend _ m) = extend r (widen r ne m)
  widen r ne (single n _ m) = absurd (n r)

  -- So after one element of the subject the run still reaches what follows the single one.
  pub after_single :
      {v w x : A} {p s : List A}
      → v ≡ run
      → w ≢ run
      → Matches run matches_one (v ∷ w ∷ p) (x ∷ s)
      → Matches run matches_one (v ∷ p) s
  after_single r ne (leave _ m) = leave r (single_inv ne m).1
  after_single r ne (extend _ m) = widen r ne m
  after_single r ne (single n _ m) = absurd (n r)

  -- A run that is not left at once takes an element.
  pub must_extend :
      {w x : A} {p s : List A}
      → w ≡ run
      → Matches run matches_one (w ∷ p) (x ∷ s)
      → ¬ Matches run matches_one p (x ∷ s)
      → Matches run matches_one (w ∷ p) s
  must_extend r (leave _ m) no_match = absurd (no_match m)
  must_extend r (extend _ m) no_match = m
  must_extend r (single n _ m) no_match = absurd (n r)

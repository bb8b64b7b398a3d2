-- ===== src/Daemon/Judgment/Kept.antt =====
-- When a run is kept under its fingerprint (packages/daemon/src/daemon/run-judgment.ts).
use rt_test.Base.{
  false, Bool-cases, Option-cases, inl, inr, ◌⊎◌, Option, none, some, List, [], ◌∷◌, Text, length,
  ltb, ◌==◌, eq_iff, nat_eq, list_eq, All, ◌≡◌, ◌↔◌, refl, sym, ap, ◌∙◌, arith,
}
use mathlib.Core.Path.{subst}
use rt_test.Inputs.Fingerprint.{FingerprintResult, fingerprinted, unfingerprinted}
use rt_test.Daemon.Judgment.{
  RunJudgment, judged_no_start, kept, PathsInside, RunFacts, judge_end, judge_placed, place_for,
  judge_run,
}
use rt_test.Daemon.Judgment.Placed.{Answers, IsOutside, place_for-nil_iff}

-- The run still runs, or it ended under the fingerprint that it started from.
abbrev pub EndsAs : Text → Option FingerprintResult → Type 0
EndsAs start end = (end ≡ none) ⊎ (end ≡ some (fingerprinted start))

empty_iff {ℓ} : {A : Type ℓ} (xs : List A) → (ltb 0 (length xs) ≡ false) ↔ (xs ≡ [])
empty_iff [] = ground arith
empty_iff (x ∷ xs) = ground arith

kept_inj : (xs ys : List Text) → kept xs ≡ kept ys → xs ≡ ys
kept_inj xs ys h = cc h

judge_end-kept_iff :
    (start : Text) (end : Option FingerprintResult) (paths outside : List Text)
    → (judge_end start end paths ≡ kept outside) ↔ (EndsAs start end × (outside ≡ paths))
unfolding judge_end
judge_end-kept_iff start none paths outside =
    (λ h. (inl refl, sym (kept_inj paths outside h)), λ (_, e). ap kept (sym e))
judge_end-kept_iff start (some (unfingerprinted reason)) paths outside = (
  λ h. absurd (ground arith),
  λ (ends, _). elim ends [ inl e ↦ absurd (ground arith) | inr e ↦ absurd (ground arith) ],
)
judge_end-kept_iff start (some (fingerprinted digest)) paths outside =
    let same = eq_iff digest start in
    elim (Bool-cases (digest == start)) [
      | inl e ↦
          let is : judge_end start (some (fingerprinted digest)) paths ≡ kept paths = rw e in
          (
            λ h. (
              inr (ap (λ d. some (fingerprinted d)) (same.0 e)),
              sym (kept_inj paths outside (sym is ∙ h)),
            ),
            λ (_, k). is ∙ ap kept (sym k),
          )
      | inr e ↦
          let is : judge_end start (some (fingerprinted digest)) paths ≡ RunJudgment.judged_moved =
            rw e in
          (
            λ h. let bad = sym is ∙ h in absurd (ground arith),
            λ (ends, _). elim ends [
              | inl n ↦ absurd (ground arith)
              | inr n ↦
                  let one : digest ≡ start = cc n in let here = same.1 one in absurd (ground arith)
            ],
          )
    ]

judge_placed-kept_iff :
    (start : Text) (facts : RunFacts) (placed : PathsInside) (outside : List Text)
    → (judge_placed start facts placed ≡ kept outside) ↔ (
        (placed.inside ≡ [])
        × (facts.window.causes ≡ [])
        × EndsAs start facts.end_fingerprint
        × (outside ≡ facts.window.paths))
unfolding judge_placed
judge_placed-kept_iff start facts placed outside =
    let inside = empty_iff placed.inside in
    let causes = empty_iff facts.window.causes in
    let ends = judge_end-kept_iff start facts.end_fingerprint facts.window.paths outside in
    elim (Bool-cases (ltb 0 (length placed.inside))) [
      | inl e ↦ (
        λ h. absurd (ground arith),
        λ (none_in, _, _, _). let no = inside.1 none_in in absurd (ground arith),
      )
      | inr e ↦ elim (Bool-cases (ltb 0 (length facts.window.causes))) [
        | inl f ↦ (
          λ h. absurd (ground arith),
          λ (_, no_cause, _, _). let no = causes.1 no_cause in absurd (ground arith),
        )
        | inr f ↦
            let is : judge_placed start facts placed
                ≡ judge_end start facts.end_fingerprint facts.window.paths =
              rw (e, f) in
            (
              λ h. let (how, same) = ends.0 (sym is ∙ h) in (inside.0 e, causes.0 f, how, same),
              λ (_, _, how, same). is ∙ ends.1 (how, same),
            )
      ]
    ]

FingerprintResult-cases :
    (f : FingerprintResult)
    → ((digest : Text) × (f ≡ fingerprinted digest))
      ⊎ ((reason : Text) × (f ≡ unfingerprinted reason))
FingerprintResult-cases (fingerprinted digest) = inl (digest, refl)
FingerprintResult-cases (unfingerprinted reason) = inr (reason, refl)

module _ (comparable : Text → Text) where
  -- A run started with a fingerprint, nothing kept its inputs from being vouched for, each path
  -- that changed lies outside its workspace's inputs by every build, and it ended as it started.
  pub record IsKept (facts : RunFacts) (outside : List Text) : Type 0 where
    pub digest : Text
    pub started : facts.start ≡ fingerprinted digest
    pub answered : All (Answers facts.window.paths facts.workspace_path) facts.placements
    pub all_outside :
        All
          (IsOutside comparable facts.workspace_path facts.listed_files facts.window.paths
            facts.placements)
          facts.window.paths
    pub no_causes : facts.window.causes ≡ []
    pub ended : EndsAs digest facts.end_fingerprint
    pub named : outside ≡ facts.window.paths

  -- A run is kept under its fingerprint exactly when it started with one, each path that changed
  -- while it ran is one the discovery does not list and every build answers that it lies outside the
  -- workspace's inputs, no other cause was recorded, and it has not ended or ended under the same
  -- fingerprint.
  pub judge_run-kept_iff :
      (facts : RunFacts) (outside : List Text)
      → (judge_run comparable facts ≡ some (kept outside)) ↔ IsKept facts outside
  unfolding judge_run
  judge_run-kept_iff facts outside =
      let paths = facts.window.paths in
      let places =
        place_for-nil_iff comparable facts.workspace_path facts.listed_files paths
          facts.placements in
      let place =
        place_for comparable paths facts.workspace_path facts.listed_files facts.placements in
      elim (FingerprintResult-cases facts.start) [
        | inr (reason, n) ↦
            let is : judge_run comparable facts ≡ some (judged_no_start reason) =
              rw (n, judge_run) in
            (
              λ h. let bad = sym is ∙ h in absurd (ground arith),
              λ k. let started = k.started in absurd (ground arith),
            )
        | inl (digest, n) ↦ elim (Option-cases place) [
          | inl p ↦
              let is : judge_run comparable facts ≡ none = rw (n, p, judge_run) in
              (
                λ h. let bad = sym is ∙ h in absurd (ground arith),
                λ k.
                    let (placed, q, _) = places.1 (k.answered, k.all_outside) in
                    absurd (ground arith),
              )
          | inr (placed, p) ↦
              let is : judge_run comparable facts ≡ some (judge_placed digest facts placed) =
                rw (n, p, judge_run) in
              let judged = judge_placed-kept_iff digest facts placed outside in
              (
                λ h.
                    let reads : judge_placed digest facts placed ≡ kept outside = cc (sym is ∙ h) in
                    let (none_in, no_causes, how, named) = judged.0 reads in
                    let (answered, all_outside) = places.0 (placed, p, none_in) in
                    record {
                      digest = digest;
                      started = n;
                      answered = answered;
                      all_outside = all_outside;
                      no_causes = no_causes;
                      ended = how;
                      named = named;
                    },
                λ k.
                    let (placed', q, none_in) = places.1 (k.answered, k.all_outside) in
                    let one : placed' ≡ placed = cc in
                    let started = k.started in
                    let same : k.digest ≡ digest = cc in
                    is
                    ∙ ap some (
                        judged.1 (
                          ap (λ (x : PathsInside). x.inside) (sym one) ∙ none_in,
                          k.no_causes,
                          subst (λ d. EndsAs d facts.end_fingerprint) same k.ended,
                          k.named,
                        )),
              )
        ]
      ]

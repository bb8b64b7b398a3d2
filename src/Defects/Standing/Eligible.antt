-- ===== src/Defects/Standing/Eligible.antt =====
-- When a definition can be falsified now (packages/daemon/src/defects/defect-standings.ts).
use rt_test.Base.{
  Bool-cases, Option-cases, inl, inr, true, false, ◌&&◌, Option, none, some, List, [], ◌∷◌, map,
  Text, lookup, includes, filter, ◌==◌, eq_iff, nat_eq, list_eq, ◌≡◌, ◌↔◌, refl, sym, ap, ◌∙◌,
  Exists, arith,
}
use mathlib.Core.Bool.{and-eq-true_iff}
use mathlib.Core.Path.{subst}
use rt_test.Core.Evidence.{current, TestOutcome}
use rt_test.Core.Identity.{TestIdentity, test_identity_key}
use rt_test.Core.Identity.Keys.{test_identity_key_iff}
use rt_test.Query.States.{finished_with, TestStanding}
use rt_test.Daemon.Standings.{never_verified}
use rt_test.Defects.Records.{ResolvedDefinition}
use rt_test.Defects.Standing.{
  digest_subject, is_never_verified, not_runnable, evidence_standing, runnable,
  never_verified_standing, standing_of_subject, standing_of,
}
use rt_test.Defects.Index.{
  StandingFacts, StandingIndex, DigestSubject, DefectStanding, standing_index, is_current_pass,
  pass_key,
}
use rt_test.Defects.Standing.Verified.{IsSubject, digest_subject_iff, is_never_verified_iff}

-- A standing that is a current pass of a test.
abbrev pub PassesNow : TestIdentity → TestStanding → Type 0
PassesNow identity standing =
    (standing.state ≡ finished_with TestOutcome.passed)
    × (standing.freshness ≡ current)
    × (identity ≡ standing.test.identity)

is_current_pass_iff :
    (s : TestStanding)
    → (is_current_pass s ≡ true)
      ↔ ((s.state ≡ finished_with TestOutcome.passed) × (s.freshness ≡ current))
is_current_pass_iff s = ground arith

includes-passes_iff :
    (identity : TestIdentity) (standings : List TestStanding)
    → (includes (test_identity_key identity) (map pass_key (filter is_current_pass standings))
        ≡ true)
      ↔ Exists (PassesNow identity) standings
includes-passes_iff identity [] = ground arith
includes-passes_iff identity (s ∷ ss) =
    let key = test_identity_key identity in
    let rest = includes-passes_iff identity ss in
    let passes = is_current_pass_iff s in
    let same = test_identity_key_iff identity s.test.identity in
    let found = eq_iff key (test_identity_key s.test.identity) in
    let others = includes key (map pass_key (filter is_current_pass ss)) in
    elim (Bool-cases (is_current_pass s && key == test_identity_key s.test.identity)) [
      | inl e ↦
          let (pass, here) = (and-eq-true_iff _ _).0 e in
          let (state, fresh) = passes.0 pass in
          (λ _. inl (state, fresh, same.0 (found.0 here)), λ _. rw (pass, here))
      | inr e ↦
          let step : includes key (map pass_key (filter is_current_pass (s ∷ ss))) ≡ others =
            elim (Bool-cases (is_current_pass s)) [
              | inl pass ↦
                  let other : key == test_identity_key s.test.identity ≡ false = ground arith in
                  rw (pass, other)
              | inr fails ↦ rw fails
            ] in
          (
            λ h. inr (rest.0 (sym step ∙ h)),
            λ k. elim k [
              | inl (state, fresh, i) ↦
                  let pass = passes.1 (state, fresh) in
                  let here = found.1 (same.1 i) in absurd (ground arith)
              | inr m ↦ step ∙ rest.1 m
            ],
          )
    ]

module _ (hash : Text → Text) (relative_path : Text → Text → Text) where
  -- A definition that can be falsified, whose test holds a current pass.
  pub record IsEligible (definition : ResolvedDefinition) (facts : StandingFacts) : Type 0 where
    pub subject : DigestSubject
    pub is_subject : IsSubject definition subject
    pub runnable : definition.state ≡ never_verified
    pub passes : Exists (PassesNow subject.test.identity) facts.test_standings

  runnable-eligible :
      (d : ResolvedDefinition) (s : DigestSubject) (index : StandingIndex)
      → (runnable hash relative_path d s index).eligible
        ≡ includes (test_identity_key s.test.identity) index.current_passes
  unfolding runnable evidence_standing never_verified_standing
  runnable-eligible d s index = elim (Option-cases (lookup s.id index.evidence)) [
    | inl n ↦ rw (n, runnable)
    | inr (stored, n) ↦ rw (n, runnable)
  ]

  not_runnable-eligible :
      (d : ResolvedDefinition) (s : Option DigestSubject) (index : StandingIndex)
      → (not_runnable hash relative_path d s index).eligible ≡ false
  unfolding not_runnable
  not_runnable-eligible d s index = refl

  passes_iff :
      (identity : TestIdentity) (facts : StandingFacts)
      → (includes (test_identity_key identity) (standing_index facts).current_passes ≡ true)
        ↔ Exists (PassesNow identity) facts.test_standings
  unfolding standing_index
  passes_iff identity facts = includes-passes_iff identity facts.test_standings

  -- A defect can be falsified exactly when its definition is valid and anchored, and one of the
  -- moment's test standings is a current pass of its test, found by the test's whole identity.
  pub standing_of-eligible_iff :
      (definition : ResolvedDefinition) (facts : StandingFacts)
      → ((standing_of hash relative_path definition (standing_index facts)).eligible ≡ true)
        ↔ IsEligible definition facts
  unfolding standing_of standing_of_subject
  standing_of-eligible_iff d facts =
      let index = standing_index facts in
      elim (Option-cases (digest_subject d)) [
        | inl n ↦ (
          λ h. let bad = not_runnable-eligible d none index in absurd (ground arith),
          λ k. let is = (digest_subject_iff d k.subject).1 k.is_subject in absurd (ground arith),
        )
        | inr (s, is) ↦
            let valid = (digest_subject_iff d s).0 is in
            let verified = is_never_verified_iff d.state in
            elim (Bool-cases (is_never_verified d.state)) [
              | inl e ↦
                  let same : standing_of hash relative_path d index
                      ≡ runnable hash relative_path d s index =
                    rw (is, e) in
                  let reads =
                    ap (λ (x : DefectStanding). x.eligible) same ∙ runnable-eligible d s index in
                  (
                    λ h. record {
                      subject = s;
                      is_subject = valid;
                      runnable = verified.0 e;
                      passes = (passes_iff s.test.identity facts).0 (sym reads ∙ h);
                    },
                    λ k.
                        let is' = (digest_subject_iff d k.subject).1 k.is_subject in
                        let subject_same : k.subject ≡ s = cc in
                        reads
                        ∙ (passes_iff s.test.identity facts).1 (
                            subst (λ x. Exists (PassesNow x.test.identity) facts.test_standings)
                              subject_same k.passes),
                  )
              | inr e ↦
                  let same : standing_of hash relative_path d index
                      ≡ not_runnable hash relative_path d (some s) index =
                    rw (is, e) in
                  let bad = ap (λ (x : DefectStanding). x.eligible) same in
                  (
                    λ h. absurd (ground arith),
                    λ k. let n = verified.1 k.runnable in absurd (ground arith),
                  )
            ]
      ]

-- ===== src/Defects/Standing/Verified.antt =====
-- When a definition reads verified and when it can be falsified
-- (packages/daemon/src/defects/defect-standings.ts).
use rt_test.Base.{
  Bool-cases, Option-cases, inl, inr, Bool, true, false, Option, none, some, Text, lookup, includes,
  nat_eq, list_eq, ◌≡◌, ◌≢◌, ◌↔◌, refl, sym, ap, ◌∙◌, arith,
}
use mathlib.Core.Bool.{and-eq-true_iff}
use mathlib.Core.Path.{subst}
use rt_test.Core.Identity.{test_identity_key}
use rt_test.Query.Records.{DiscoveredTest}
use rt_test.Daemon.Standings.{DefectState, invalid_definition, never_verified}
use rt_test.Defects.Records.{
  DefinitionMutation, ResolvedDefinition, Verdict, StoredJudgement, StoredEvidence,
  EvidenceFreshness, current_evidence,
}
use rt_test.Defects.Freshness.{Rated, evidence_freshness}
use rt_test.Defects.Freshness.Rates.{IsCurrentEvidence, evidence_freshness-current_iff}
use rt_test.Defects.Standing.{
  subject_of, digest_subject, is_invalid, is_never_verified, state_of, judgement_parts,
  reads_current, is_detected, is_verified, definition_digest, not_runnable, evidence_standing,
  runnable, never_verified_standing, standing_of_subject, standing_of,
}
use rt_test.Defects.Index.{StandingIndex, DigestSubject}

-- A definition that is not invalid, with the members that a job needs.
pub record IsSubject (definition : ResolvedDefinition) (subject : DigestSubject) : Type 0 where
  pub valid : definition.state ≢ invalid_definition
  pub id : definition.id ≡ some subject.id
  pub test : definition.resolved ≡ some subject.test
  pub mutation : definition.mutation ≡ some subject.mutation
  pub mutation_path : definition.mutation_path ≡ some subject.mutation_path

is_invalid_iff : (s : DefectState) → (is_invalid s ≡ true) ↔ (s ≡ invalid_definition)
is_invalid_iff s = ground arith

pub is_never_verified_iff : (s : DefectState) → (is_never_verified s ≡ true) ↔ (s ≡ never_verified)
is_never_verified_iff s = ground arith

reads_current_iff : (f : EvidenceFreshness) → (reads_current f ≡ true) ↔ (f ≡ current_evidence)
reads_current_iff f = ground arith

verdict_detected_iff : (v : Verdict) → (is_detected (state_of v) ≡ true) ↔ (v ≡ Verdict.detected)
verdict_detected_iff v = ground arith

subject_of_iff :
    (id : Option Text) (test : Option DiscoveredTest) (mutation : Option DefinitionMutation)
    (path : Option Text) (s : DigestSubject)
    → (subject_of id test mutation path ≡ some s) ↔ (
        (id ≡ some s.id)
        × (test ≡ some s.test)
        × (mutation ≡ some s.mutation)
        × (path ≡ some s.mutation_path))
subject_of_iff none t m p s = ground arith
subject_of_iff (some i) none m p s = ground arith
subject_of_iff (some i) (some t) none p s = ground arith
subject_of_iff (some i) (some t) (some m) none s = ground arith
subject_of_iff (some i) (some t) (some m) (some p) s = ground arith

pub digest_subject_iff :
    (definition : ResolvedDefinition) (s : DigestSubject)
    → (digest_subject definition ≡ some s) ↔ IsSubject definition s
unfolding digest_subject
digest_subject_iff d s =
    let whole = subject_of_iff d.id d.resolved d.mutation d.mutation_path s in
    let invalid = is_invalid_iff d.state in
    elim (Bool-cases (is_invalid d.state)) [
      | inl e ↦ (λ h. absurd (ground arith), λ k. absurd (k.valid (invalid.0 e)))
      | inr e ↦ (
        λ h.
            let is : subject_of d.id d.resolved d.mutation d.mutation_path ≡ some s =
              ground arith in
            let (i, t, m, p) = whole.0 is in
            record {
              valid = λ k. let bad = invalid.1 k in absurd (ground arith);
              id = i;
              test = t;
              mutation = m;
              mutation_path = p;
            },
        λ k. rw e (whole.1 (k.id, k.test, k.mutation, k.mutation_path)),
      )
    ]

module _ (hash : Text → Text) (relative_path : Text → Text → Text) where
  -- What the freshness of a stored record is rated by.
  abbrev pub rated_of : ResolvedDefinition → DigestSubject → StandingIndex → StoredEvidence → Rated
  rated_of definition subject index stored = record {
    record_ = stored;
    digest = definition_digest hash relative_path subject index;
    test = subject.test;
    definition = definition;
    vitest_versions = index.vitest_versions;
    current_fingerprint = index.current_fingerprint;
    discovery_current = index.discovery_current;
  }

  -- A definition that can be falsified holds a stored detection that still describes it.
  pub record IsVerified (definition : ResolvedDefinition) (index : StandingIndex) : Type 0 where
    pub subject : DigestSubject
    pub stored : StoredEvidence
    pub is_subject : IsSubject definition subject
    pub runnable : definition.state ≡ never_verified
    pub found : lookup subject.id index.evidence ≡ some stored
    pub detected : stored.verdict ≡ Verdict.detected
    pub current : IsCurrentEvidence (rated_of definition subject index stored)

  not_runnable-is_verified :
      (d : ResolvedDefinition) (s : Option DigestSubject) (index : StandingIndex)
      → is_verified (not_runnable hash relative_path d s index) ≡ false
  unfolding is_verified not_runnable
  not_runnable-is_verified d s index = ground arith

  never_verified-is_verified :
      (d : ResolvedDefinition) (eligible : Bool) (digest : Text) (refusal : Option Text)
      → is_verified (never_verified_standing d eligible digest refusal) ≡ false
  unfolding is_verified never_verified_standing
  never_verified-is_verified d eligible digest refusal = ground arith

  judgement_parts-freshness :
      (f : EvidenceFreshness) (j : Option StoredJudgement) → (judgement_parts f j).freshness ≡ f
  unfolding judgement_parts
  judgement_parts-freshness f none = refl
  judgement_parts-freshness f (some j) = refl

  evidence_standing-is_verified_iff :
      (d : ResolvedDefinition) (s : DigestSubject) (eligible : Bool) (index : StandingIndex)
      (stored : StoredEvidence)
      → (is_verified (
            evidence_standing hash relative_path d s
              (definition_digest hash relative_path s index)
              eligible
              index
              stored)
          ≡ true)
        ↔ ((stored.verdict ≡ Verdict.detected) × IsCurrentEvidence (rated_of d s index stored))
  unfolding is_verified evidence_standing
  evidence_standing-is_verified_iff d s eligible index stored =
      let f = evidence_freshness (rated_of d s index stored) in
      let is : reads_current (judgement_parts f stored.judgement).freshness ≡ reads_current f =
        ap reads_current (judgement_parts-freshness f stored.judgement) in
      let reads = reads_current_iff f in
      let rates = evidence_freshness-current_iff (rated_of d s index stored) in
      let verdict = verdict_detected_iff stored.verdict in
      rw is (
        λ h. let (a, b) = (and-eq-true_iff _ _).0 h in (verdict.0 a, rates.0 (reads.0 b)),
        λ (v, c). (and-eq-true_iff _ _).1 (verdict.1 v, reads.1 (rates.1 c)),
      )

  runnable-is_verified_iff :
      (d : ResolvedDefinition) (s : DigestSubject) (index : StandingIndex)
      → (is_verified (runnable hash relative_path d s index) ≡ true) ↔ (
          (stored : StoredEvidence) × (lookup s.id index.evidence ≡ some stored)
          × (stored.verdict ≡ Verdict.detected)
          × IsCurrentEvidence (rated_of d s index stored))
  unfolding runnable
  runnable-is_verified_iff d s index =
      let eligible = includes (test_identity_key s.test.identity) index.current_passes in
      elim (Option-cases (lookup s.id index.evidence)) [
        | inl n ↦ (
          λ h.
              let bad =
                never_verified-is_verified d eligible (definition_digest hash relative_path s index)
                  (lookup s.id index.refusals) in
              absurd (ground arith),
          λ (stored, found, _, _). absurd (ground arith),
        )
        | inr (stored, found) ↦
            let reads = evidence_standing-is_verified_iff d s eligible index stored in
            let is : runnable hash relative_path d s index
                ≡ evidence_standing hash relative_path d s
                    (definition_digest hash relative_path s index) eligible index stored =
              rw (found, runnable) in
            (
              λ h. let (v, c) = reads.0 (ap is_verified (sym is) ∙ h) in (stored, found, v, c),
              λ (stored', found', v, c).
                  let same : stored' ≡ stored = cc in
                  ap is_verified is
                  ∙ reads.1 (
                      subst
                        (λ x.
                          (x.verdict ≡ Verdict.detected) × IsCurrentEvidence (rated_of d s index x))
                        same (v, c)),
            )
      ]

  -- A defect reads verified exactly when its definition is valid and anchored, and the evidence
  -- stored for its id is a detection of which everything it was decided from still holds.
  pub standing_of-is_verified_iff :
      (definition : ResolvedDefinition) (index : StandingIndex)
      → (is_verified (standing_of hash relative_path definition index) ≡ true)
        ↔ IsVerified definition index
  unfolding standing_of standing_of_subject
  standing_of-is_verified_iff d index = elim (Option-cases (digest_subject d)) [
    | inl n ↦ (
      λ h. let bad = not_runnable-is_verified d none index in absurd (ground arith),
      λ k. let is = (digest_subject_iff d k.subject).1 k.is_subject in absurd (ground arith),
    )
    | inr (s, is) ↦
        let valid = (digest_subject_iff d s).0 is in
        let verified = is_never_verified_iff d.state in
        elim (Bool-cases (is_never_verified d.state)) [
          | inl e ↦
              let reads = runnable-is_verified_iff d s index in
              let same : standing_of hash relative_path d index
                  ≡ runnable hash relative_path d s index =
                rw (is, e) in
              (
                λ h.
                    let (stored, found, v, c) = reads.0 (ap is_verified (sym same) ∙ h) in
                    record {
                      subject = s;
                      stored = stored;
                      is_subject = valid;
                      runnable = verified.0 e;
                      found = found;
                      detected = v;
                      current = c;
                    },
                λ k.
                    let is' = (digest_subject_iff d k.subject).1 k.is_subject in
                    let subject_same : k.subject ≡ s = cc in
                    let (stored, found, v, c) =
                      subst
                        (λ x.
                          (stored : StoredEvidence) × (lookup x.id index.evidence ≡ some stored)
                          × (stored.verdict ≡ Verdict.detected)
                          × IsCurrentEvidence (rated_of d x index stored))
                        subject_same (k.stored, k.found, k.detected, k.current) in
                    ap is_verified same ∙ reads.1 (stored, found, v, c),
              )
          | inr e ↦ (
            λ h.
                let bad = not_runnable-is_verified d (some s) index in
                let same : standing_of hash relative_path d index
                    ≡ not_runnable hash relative_path d (some s) index =
                  rw (is, e) in
                absurd (ground arith),
            λ k. let bad = verified.1 k.runnable in absurd (ground arith),
          )
        ]
  ]

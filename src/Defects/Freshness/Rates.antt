-- ===== src/Defects/Freshness/Rates.antt =====
-- What makes stored evidence stale and what makes it current
-- (packages/daemon/src/defects/defect-standings.ts).
use rt_test.Base.{
  Bool-cases, inl, inr, Bool, true, false, not, some, List, [], ◌∷◌, Text, lookup, filter, ◌==◌,
  eq_iff, nat_eq, list_eq, ◌≡◌, ◌≢◌, ◌↔◌, refl, sym, ap, ◌∙◌, All, Exists, Exists-filter,
  filter-nil_iff, not_iff, arith,
}
use mathlib.Core.Path.{subst}
use rt_test.Core.Evidence.{Freshness, current, stale, unknown}
use rt_test.Core.Evidence.Laws.{assess_freshness-Rates, same_text_iff}
use rt_test.Query.States.{is_current_adapter_version}
use rt_test.Defects.Records.{
  StaleCause, definition_changed, mutation_file_changed, another_adapter_version,
  another_falsifier_version, another_vitest_version, inputs_changed, UnknownReason,
  current_evidence,
}
use rt_test.Defects.Freshness.{
  Rated, fingerprint_of, is_stale, is_unknown, stale_causes, holding, unknown_reasons, rated,
  evidence_freshness, stale_causes_of,
}

-- What a record was decided from no longer holds.
abbrev pub Holds : Rated → StaleCause → Type 0
Holds r definition_changed = r.record_.definition_digest ≢ r.digest
Holds r mutation_file_changed =
    r.definition.mutation_file_digest ≢ some r.record_.mutation_file_digest
Holds r another_adapter_version = r.record_.adapter_version ≢ 4
Holds r another_falsifier_version = r.record_.falsifier_version ≢ 4
Holds r another_vitest_version =
    lookup r.test.identity.workspace_path r.vitest_versions ≢ some r.record_.vitest_version
Holds r inputs_changed =
    (now : Text) × (now ≢ [])
    × (r.record_.input_fingerprint_digest ≢ [])
    × (r.current_fingerprint r.test.identity.workspace_path ≡ some now)
    × (r.record_.input_fingerprint_digest ≢ now)

is_stale_iff : (f : Freshness) → (is_stale f ≡ true) ↔ (f ≡ stale)
is_stale_iff current = ground arith
is_stale_iff stale = ground arith
is_stale_iff unknown = ground arith

holding_iff : (r : Rated) (cause : StaleCause) → (holding r cause ≡ true) ↔ Holds r cause
unfolding holding is_current_adapter_version
holding_iff r definition_changed =
    not_iff (r.record_.definition_digest == r.digest) (eq_iff r.record_.definition_digest r.digest)
holding_iff r mutation_file_changed =
    let same =
      same_text_iff (some r.record_.mutation_file_digest) r.definition.mutation_file_digest in
    not_iff _ (λ h. sym (same.0 h), λ h. same.1 (sym h))
holding_iff r another_adapter_version = ground arith
holding_iff r another_falsifier_version = ground arith
holding_iff r another_vitest_version =
    let here = lookup r.test.identity.workspace_path r.vitest_versions in
    let same = same_text_iff (some r.record_.vitest_version) here in
    not_iff _ (λ h. sym (same.0 h), λ h. same.1 (sym h))
holding_iff r inputs_changed =
    let here = r.current_fingerprint r.test.identity.workspace_path in
    let rates = assess_freshness-Rates (some r.record_.input_fingerprint_digest) here in
    let reads = is_stale_iff (fingerprint_of r) in
    (
      λ h.
          let (d, now, ne, ne', same, is, differ) = rates.stale_iff.0 (reads.0 h) in
          let recorded : r.record_.input_fingerprint_digest ≡ d = cc in
          (now, ne', λ e. ne (sym recorded ∙ e), is, λ e. differ (sym recorded ∙ e)),
      λ (now, ne, ne', is, differ).
          reads.1 (
            rates.stale_iff.1 (r.record_.input_fingerprint_digest, now, ne', ne, refl, is, differ)),
    )

all_listed : (cause : StaleCause) → Exists (λ c. c ≡ cause) stale_causes
all_listed definition_changed = inl refl
all_listed mutation_file_changed = inr (inl refl)
all_listed another_adapter_version = inr (inr (inl refl))
all_listed another_falsifier_version = inr (inr (inr (inl refl)))
all_listed another_vitest_version = inr (inr (inr (inr (inl refl))))
all_listed inputs_changed = inr (inr (inr (inr (inr (inl refl)))))

stale_causes_of-rated :
    (causes : List StaleCause) (reasons : List UnknownReason)
    → stale_causes_of (rated causes reasons) ≡ causes
unfolding stale_causes_of
stale_causes_of-rated (cause ∷ causes) reasons = refl
stale_causes_of-rated [] (reason ∷ reasons) = refl
stale_causes_of-rated [] [] = refl

module _ {A : Type 0} where
  Exists-of_holding :
      (p : A → Bool) (a : A) (xs : List A) → Exists (λ x. (p x ≡ true) × (x ≡ a)) xs → p a ≡ true
  Exists-of_holding p a [] h = absurd h
  Exists-of_holding p a (x ∷ xs) (inl (h, e)) = ap p (sym e) ∙ h
  Exists-of_holding p a (x ∷ xs) (inr h) = Exists-of_holding p a xs h

  Exists-with_holding :
      (p : A → Bool) (a : A)
      → p a ≡ true
      → (xs : List A) → Exists (λ x. x ≡ a) xs
      → Exists (λ x. (p x ≡ true) × (x ≡ a)) xs
  Exists-with_holding p a h [] m = absurd m
  Exists-with_holding p a h (x ∷ xs) (inl e) = inl (ap p e ∙ h, e)
  Exists-with_holding p a h (x ∷ xs) (inr m) = inr (Exists-with_holding p a h xs m)

-- Stored evidence reads stale under exactly the causes that hold: its definition, its mutation file
-- or its Vitest version is another than recorded, it was stored under another version than 4 of the
-- adapter or of the falsifier, or both input fingerprints are known and differ.
pub stale_causes_of-evidence_freshness :
    (r : Rated) (cause : StaleCause)
    → Exists (λ c. c ≡ cause) (stale_causes_of (evidence_freshness r)) ↔ Holds r cause
unfolding evidence_freshness
stale_causes_of-evidence_freshness r cause =
    let is = stale_causes_of-rated (filter (holding r) stale_causes) (unknown_reasons r) in
    let held = Exists-filter (λ c. c ≡ cause) (holding r) stale_causes in
    (
      λ h. (holding_iff r cause).0 (
          Exists-of_holding (holding r) cause stale_causes
            (held.0 (subst (Exists (λ c. c ≡ cause)) is h))),
      λ h. subst (Exists (λ c. c ≡ cause)) (sym is) (
          held.1 (
            Exists-with_holding (holding r) cause ((holding_iff r cause).1 h) stale_causes
              (all_listed cause))),
    )

-- What a record was decided from still holds.
pub record IsCurrentEvidence (r : Rated) : Type 0 where
  pub same_definition : r.record_.definition_digest ≡ r.digest
  pub same_file : r.definition.mutation_file_digest ≡ some r.record_.mutation_file_digest
  pub same_adapter : r.record_.adapter_version ≡ 4
  pub same_falsifier : r.record_.falsifier_version ≡ 4
  pub same_vitest :
      lookup r.test.identity.workspace_path r.vitest_versions ≡ some r.record_.vitest_version
  pub fingerprinted : r.record_.input_fingerprint_digest ≢ []
  pub same_inputs :
      r.current_fingerprint r.test.identity.workspace_path ≡ some r.record_.input_fingerprint_digest
  pub placed : r.test.is_duplicate ≡ true → r.discovery_current ≡ true

rated-current_iff :
    (causes : List StaleCause) (reasons : List UnknownReason)
    → (rated causes reasons ≡ current_evidence) ↔ ((causes ≡ []) × (reasons ≡ []))
rated-current_iff (cause ∷ causes) reasons = ground arith
rated-current_iff [] (reason ∷ reasons) = ground arith
rated-current_iff [] [] = ground arith

unknown_reasons-nil_iff :
    (r : Rated)
    → (unknown_reasons r ≡ []) ↔ (
        (is_unknown (fingerprint_of r) ≡ false)
        × (r.test.is_duplicate ≡ true → r.discovery_current ≡ true))
unfolding unknown_reasons
unknown_reasons-nil_iff r = ground arith

-- Neither stale nor unknown.
settled_current : (f : Freshness) → (f ≡ current) ↔ ((is_stale f ≡ false) × (is_unknown f ≡ false))
settled_current current = ground arith
settled_current stale = ground arith
settled_current unknown = ground arith

not-eq-false : (b : Bool) → not b ≡ false → b ≡ true
not-eq-false b h = ground arith

module _ (r : Rated) where
  none_hold :
      All (λ c. holding r c ≡ false) stale_causes
      → is_unknown (fingerprint_of r) ≡ false
      → (r.test.is_duplicate ≡ true → r.discovery_current ≡ true)
      → IsCurrentEvidence r
  unfolding holding is_current_adapter_version
  none_hold (definition, (file, (adapter, (falsifier, (vitest, (inputs, _)))))) known placed =
      let here = r.current_fingerprint r.test.identity.workspace_path in
      let (d, ne, same, is) =
        (assess_freshness-Rates (some r.record_.input_fingerprint_digest) here).current_iff.0
          ((settled_current (fingerprint_of r)).1 (inputs, known)) in
      let recorded : r.record_.input_fingerprint_digest ≡ d = cc in
      record {
        same_definition =
            (eq_iff r.record_.definition_digest r.digest).0 (not-eq-false _ definition);
        same_file = sym ((same_text_iff _ _).0 (not-eq-false _ file));
        same_adapter = ground arith;
        same_falsifier = ground arith;
        same_vitest = sym ((same_text_iff _ _).0 (not-eq-false _ vitest));
        fingerprinted = λ e. ne (sym recorded ∙ e);
        same_inputs = is ∙ ap some (sym recorded);
        placed = placed;
      }

  not_holding : (c : StaleCause) → ¬ Holds r c → holding r c ≡ false
  not_holding c n = elim (Bool-cases (holding r c)) [
    | inl e ↦ absurd (n ((holding_iff r c).0 e))
    | inr e ↦ e
  ]

  current_settled : IsCurrentEvidence r → fingerprint_of r ≡ current
  current_settled h =
      let here = r.current_fingerprint r.test.identity.workspace_path in
      (assess_freshness-Rates (some r.record_.input_fingerprint_digest) here).current_iff.1
        (r.record_.input_fingerprint_digest, h.fingerprinted, refl, h.same_inputs)

  current_not_held : IsCurrentEvidence r → All (λ c. holding r c ≡ false) stale_causes
  current_not_held h = (
    not_holding definition_changed (λ n. n h.same_definition),
    (
      not_holding mutation_file_changed (λ n. n h.same_file),
      (
        not_holding another_adapter_version (λ n. n h.same_adapter),
        (
          not_holding another_falsifier_version (λ n. n h.same_falsifier),
          (
            not_holding another_vitest_version (λ n. n h.same_vitest),
            (
              not_holding inputs_changed
                  (λ (now, ne, ne', is, differ). let same = h.same_inputs in differ (cc)),
              tt,
            ),
          ),
        ),
      ),
    ),
  )

-- Stored evidence reads current exactly when everything it was decided from still holds: its
-- definition, its mutation file, its Vitest version, version 4 of the adapter and of the falsifier,
-- the input fingerprint of its workspace, which is not empty, and, for a test that only its
-- position tells apart, a current discovery.
pub evidence_freshness-current_iff :
    (r : Rated) → (evidence_freshness r ≡ current_evidence) ↔ IsCurrentEvidence r
unfolding evidence_freshness
evidence_freshness-current_iff r =
    let settled = settled_current (fingerprint_of r) in
    let nil = rated-current_iff (filter (holding r) stale_causes) (unknown_reasons r) in
    (
      λ h.
          let (causes, reasons) = nil.0 h in
          let (known, placed) = (unknown_reasons-nil_iff r).0 reasons in
          none_hold r ((filter-nil_iff (holding r) stale_causes).0 causes) known placed,
      λ h. nil.1 (
        (filter-nil_iff (holding r) stale_causes).1 (current_not_held r h),
        (unknown_reasons-nil_iff r).1 ((settled.0 (current_settled r h)).1, h.placed),
      ),
    )

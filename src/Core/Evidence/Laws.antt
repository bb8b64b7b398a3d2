-- ===== src/Core/Evidence/Laws.antt =====
-- What a freshness and a current pass mean (packages/core/src/evidence.ts).
use rt_test.Base.{
  ℕ, Bool-cases, inl, inr, ap, sym, ◌==◌, nat_eq, list_eq, true, false, Option, none, some, [], ◌∷◌,
  Text, ◌≡◌, refl, ◌≢◌, ◌↔◌, ◌||◌, eq_iff, arith,
}
use mathlib.Core.Bool.{and-eq-true_iff}
use rt_test.Core.Evidence.{
  TestOutcome, passed, Freshness, current, stale, unknown, TestEvidence, finished, is_falsy,
  same_text, assess_freshness, is_current, is_passed, assess_evidence,
}

-- A record is current exactly when both fingerprints are one text that is not empty, stale exactly
-- when both are texts that are not empty and differ.
pub record Rates (f c : Option Text) (r : Freshness) : Type 0 where
  pub current_iff : (r ≡ current) ↔ ((d : Text) × (d ≢ []) × (f ≡ some d) × (c ≡ some d))
  pub stale_iff :
      (r ≡ stale) ↔ ((d d' : Text) × (d ≢ []) × (d' ≢ []) × (f ≡ some d) × (c ≡ some d') × (d ≢ d'))

module _ (a b : ℕ) (d d' : Text) (r : Freshness) where
  same-Rates : a ∷ d ≡ b ∷ d' → r ≡ current → Rates (some (a ∷ d)) (some (b ∷ d')) r
  same-Rates e h = record {
    current_iff = (λ _. (a ∷ d, cc, refl, ap some (sym e)), λ _. h);
    stale_iff = (λ g. cc, λ (x, y, _, _, p, q, ne). absurd (ne (cc)));
  }

  differ-Rates : a ∷ d ≢ b ∷ d' → r ≡ stale → Rates (some (a ∷ d)) (some (b ∷ d')) r
  differ-Rates ne h = record {
    current_iff = (λ g. cc, λ (x, _, p, q). absurd (ne (cc)));
    stale_iff = (λ _. (a ∷ d, b ∷ d', cc, cc, refl, refl, ne), λ _. h);
  }

kept_of_ne_nil : (x : Text) → x ≢ [] → is_falsy (some x) ≡ false
kept_of_ne_nil [] ne = absurd (ne refl)
kept_of_ne_nil (_ ∷ _) ne = refl

no-falsy :
    (f c : Option Text) (x y : Text)
    → x ≢ []
    → y ≢ []
    → f ≡ some x
    → c ≡ some y
    → is_falsy f || is_falsy c ≡ false
no-falsy f c x y ne ne' p q = rw (p, q, kept_of_ne_nil x ne, kept_of_ne_nil y ne')

missing-Rates :
    (f c : Option Text) (r : Freshness)
    → is_falsy f || is_falsy c ≡ true
    → r ≡ unknown
    → Rates f c r
missing-Rates f c r m u = record {
  current_iff = (λ g. cc, λ (x, ne, p, q). cc (no-falsy f c x x ne ne p q));
  stale_iff = (λ g. cc, λ (x, y, ne, ne', p, q, _). cc (no-falsy f c x y ne ne' p q));
}

-- A record reads current exactly when both fingerprints are one text that is not empty, and stale
-- exactly when they are two texts that are not empty and differ; so it is unknown when either is
-- undefined or empty.
pub assess_freshness-Rates : (f c : Option Text) → Rates f c (assess_freshness f c)
unfolding assess_freshness
assess_freshness-Rates none c = missing-Rates none c _ refl (ground arith)
assess_freshness-Rates (some []) c = missing-Rates (some []) c _ refl (ground arith)
assess_freshness-Rates (some (a ∷ d)) none = missing-Rates (some (a ∷ d)) none _ refl refl
assess_freshness-Rates (some (a ∷ d)) (some []) = missing-Rates (some (a ∷ d)) (some []) _ refl refl
assess_freshness-Rates (some (a ∷ d)) (some (b ∷ d')) = elim (Bool-cases ((a ∷ d) == (b ∷ d'))) [
  | inl same ↦ same-Rates a b d d' _ ((eq_iff _ _).0 same) (rw same)
  | inr other ↦ differ-Rates a b d d' _ (λ e. cc (rw ((eq_iff _ _).1 e) at other)) (rw other)
]

eq-current_of_is_current : (r : Freshness) → is_current r ≡ true → r ≡ current
eq-current_of_is_current r h = ground arith

eq-passed_of_is_passed : (o : TestOutcome) → is_passed (finished o) ≡ true → o ≡ passed
eq-passed_of_is_passed o h = ground arith

-- A result is a current pass exactly when there is evidence of a pass whose fingerprint is the
-- current one and is not empty.
pub current_pass_iff :
    (e : Option TestEvidence) (c : Option Text)
    → ((assess_evidence e c).is_current_pass ≡ true) ↔ (
        (d : Text) × (d ≢ [])
        × (e ≡ some (record { fingerprint = d; outcome = passed }))
        × (c ≡ some d))
unfolding assess_evidence
current_pass_iff none c = (λ h. ground arith, λ (d, _, p, _). cc)
current_pass_iff (some e) c = (
  λ h.
      let (is_now, is_pass) = (and-eq-true_iff _ _).0 h in
      let rates = assess_freshness-Rates (some e.fingerprint) c in
      let (d, ne, p, q) = rates.current_iff.0 (eq-current_of_is_current _ is_now) in
      let pass = eq-passed_of_is_passed e.outcome is_pass in (d, ne, ground arith, q),
  λ (d, ne, p, q).
      let rates = assess_freshness-Rates (some e.fingerprint) c in
      let now = rates.current_iff.1 (d, ne, ground arith, q) in ground (arith, now),
)

-- The test of two fingerprints is their equality.
pub same_text_iff : (a b : Option Text) → (same_text a b ≡ true) ↔ (a ≡ b)
same_text_iff none none = (λ _. refl, λ _. refl)
same_text_iff none (some b) = (λ h. absurd (ground arith), λ h. absurd (ground arith))
same_text_iff (some a) none = (λ h. absurd (ground arith), λ h. absurd (ground arith))
same_text_iff (some a) (some b) = (λ h. ap some ((eq_iff a b).0 h), λ h. (eq_iff a b).1 (cc h))

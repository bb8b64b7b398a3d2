-- ===== src/Core/Evidence.antt =====
-- packages/core/src/evidence.ts. A fingerprint is a text or `undefined`; `undefined` and the empty
-- text are the falsy ones.
pub mod Laws
use rt_test.Base.{
  Bool, true, false, ◌||◌, ◌&&◌, Option, none, some, [], ◌∷◌, Text, ◌==◌, nat_eq, list_eq,
  if◌then◌else◌, Eq, discrete_eq,
}

pub data TestOutcome : Type 0 where
  passed failed skipped error : TestOutcome

pub data Freshness : Type 0 where
  current stale unknown : Freshness

unfoldable pub Freshness_discrete : Discrete Freshness
Freshness_discrete = hlevel

instance abbrev pub freshness_eq : Eq Freshness
freshness_eq = discrete_eq Freshness_discrete

pub record TestEvidence : Type 0 where
  pub fingerprint : Text
  pub outcome : TestOutcome

-- `TestOutcome | "never-run"`.
pub data AssessedOutcome : Type 0 where
  finished : TestOutcome → AssessedOutcome
  never_run : AssessedOutcome

pub record EvidenceAssessment : Type 0 where
  pub outcome : AssessedOutcome
  pub freshness : Freshness
  pub is_current_pass : Bool

-- `!fingerprint`.
abbrev pub is_falsy : Option Text → Bool
is_falsy none = true
is_falsy (some []) = true
is_falsy (some (_ ∷ _)) = false

-- `fingerprint === currentFingerprint`.
abbrev pub same_text : Option Text → Option Text → Bool
same_text none none = true
same_text none (some _) = false
same_text (some _) none = false
same_text (some a) (some b) = a == b

unfoldable pub assess_freshness : Option Text → Option Text → Freshness
assess_freshness fingerprint current_fingerprint =
    if is_falsy current_fingerprint || is_falsy fingerprint
    then unknown
    else (if same_text fingerprint current_fingerprint then current else stale)

abbrev pub is_current : Freshness → Bool
is_current current = true
is_current _ = false

abbrev is_passed : AssessedOutcome → Bool
is_passed (finished passed) = true
is_passed _ = false

abbrev evidence_outcome : Option TestEvidence → AssessedOutcome
evidence_outcome none = never_run
evidence_outcome (some e) = finished e.outcome

abbrev evidence_fingerprint : Option TestEvidence → Option Text
evidence_fingerprint none = none
evidence_fingerprint (some e) = some e.fingerprint

unfoldable pub assess_evidence : Option TestEvidence → Option Text → EvidenceAssessment
unfolding assess_freshness
assess_evidence evidence current_fingerprint =
    let outcome = evidence_outcome evidence in
    let freshness = assess_freshness (evidence_fingerprint evidence) current_fingerprint in
    record {
      outcome = outcome;
      freshness = freshness;
      is_current_pass = is_current freshness && is_passed outcome;
    }

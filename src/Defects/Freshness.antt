-- ===== src/Defects/Freshness.antt =====
-- `evidenceFreshness` of packages/daemon/src/defects/defect-standings.ts: whether a stored record
-- still describes what it was decided from.
pub mod Rates
use rt_test.Base.{
  ℕ, Bool, true, false, not, ◌&&◌, Option, none, some, List, [], ◌∷◌, ◌++◌, Text, Dict, lookup,
  filter, ◌==◌, nat_eq, list_eq, if◌then◌else◌,
}
use rt_test.Core.Evidence.{Freshness, current, stale, unknown, assess_freshness, same_text}
use rt_test.Query.Records.{DiscoveredTest}
use rt_test.Query.States.{is_current_adapter_version}
use rt_test.Defects.Records.{
  ResolvedDefinition, StoredEvidence, StaleCause, definition_changed, mutation_file_changed,
  another_adapter_version, another_falsifier_version, another_vitest_version, inputs_changed,
  UnknownReason, no_current_fingerprint, duplicate_test, EvidenceFreshness, current_evidence,
  stale_evidence, unknown_evidence,
}

abbrev pub falsifier_version : ℕ
falsifier_version = 4

-- `STALE_CAUSES`, in its order.
abbrev pub stale_causes : List StaleCause
stale_causes =
    definition_changed ∷ mutation_file_changed ∷ another_adapter_version ∷ another_falsifier_version
    ∷ another_vitest_version ∷ inputs_changed ∷ []

-- What a record's freshness is rated by.
pub record Rated : Type 0 where
  pub record_ : StoredEvidence
  pub digest : Text
  pub test : DiscoveredTest
  pub definition : ResolvedDefinition
  pub vitest_versions : Dict Text Text
  pub current_fingerprint : Text → Option Text
  pub discovery_current : Bool

abbrev pub fingerprint_of : Rated → Freshness
fingerprint_of r =
    assess_freshness (some r.record_.input_fingerprint_digest)
      (r.current_fingerprint r.test.identity.workspace_path)

abbrev pub is_stale : Freshness → Bool
is_stale stale = true
is_stale _ = false

abbrev pub is_unknown : Freshness → Bool
is_unknown unknown = true
is_unknown _ = false

-- `holding[cause]`.
unfoldable pub holding : Rated → StaleCause → Bool
unfolding is_current_adapter_version assess_freshness lookup
holding r definition_changed = not (r.record_.definition_digest == r.digest)
holding r mutation_file_changed =
    not (same_text (some r.record_.mutation_file_digest) r.definition.mutation_file_digest)
holding r another_adapter_version = not (is_current_adapter_version r.record_.adapter_version)
holding r another_falsifier_version = not (r.record_.falsifier_version == falsifier_version)
holding r another_vitest_version = not (
    same_text (some r.record_.vitest_version)
      (lookup r.test.identity.workspace_path r.vitest_versions))
holding r inputs_changed = is_stale (fingerprint_of r)

-- `unknownReasons`.
unfoldable pub unknown_reasons : Rated → List UnknownReason
unfolding assess_freshness
unknown_reasons r =
    (if is_unknown (fingerprint_of r) then no_current_fingerprint ∷ [] else [])
    ++ (if r.test.is_duplicate && not r.discovery_current then duplicate_test ∷ [] else [])

-- The freshness from the causes and the reasons.
abbrev pub rated : List StaleCause → List UnknownReason → EvidenceFreshness
rated (cause ∷ causes) reasons = stale_evidence (cause ∷ causes)
rated [] (reason ∷ reasons) = unknown_evidence (reason ∷ reasons)
rated [] [] = current_evidence

unfoldable pub evidence_freshness : Rated → EvidenceFreshness
unfolding holding unknown_reasons
evidence_freshness r = rated (filter (holding r) stale_causes) (unknown_reasons r)

unfoldable pub stale_causes_of : EvidenceFreshness → List StaleCause
stale_causes_of (stale_evidence causes) = causes
stale_causes_of _ = []

unfoldable pub unknown_reasons_of : EvidenceFreshness → List UnknownReason
unknown_reasons_of (unknown_evidence reasons) = reasons
unknown_reasons_of _ = []

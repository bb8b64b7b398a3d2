-- ===== src/Defects/Records.antt =====
-- The records that packages/daemon/src/defects/defect-standings.ts reads: a resolved definition
-- (definitions.ts and resolve-definitions.ts) and a stored evidence record (store/defect-evidence.ts
-- and store/evidence-facts.ts). A field that may be absent is an option.
use rt_test.Base.{ℕ, Option, List, Text}
use rt_test.Query.Records.{DiscoveredTest}
use rt_test.Falsify.Facts.{ExperimentFacts}
use rt_test.Falsify.Verdict.Types.{Judgement}
use rt_test.Daemon.Standings.{DefectState}

pub record DefinitionMutation : Type 0 where
  pub file : Text
  pub old_text : Text
  pub new_text : Text

-- The members that a standing reads.
pub record ResolvedDefinition : Type 0 where
  pub file : Text
  pub position : ℕ
  pub id : Option Text
  pub resolved : Option DiscoveredTest
  pub mutation : Option DefinitionMutation
  pub mutation_path : Option Text
  pub state : DefectState
  pub reason : Option Text
  pub mutation_file_digest : Option Text

-- `Verdict`.
pub data Verdict : Type 0 where
  detected survived invalid_experiment unclear : Verdict

-- A judgement with the facts it was decided from.
pub record StoredJudgement : Type 0 where
  pub judgement : Judgement
  pub facts : ExperimentFacts

pub record StoredEvidence : Type 0 where
  pub input_fingerprint_digest : Text
  pub defect_id : Text
  pub definition_digest : Text
  pub mutation_file_digest : Text
  pub vitest_version : Text
  pub falsifier_version : ℕ
  pub adapter_version : ℕ
  pub verdict : Verdict
  pub judgement : Option StoredJudgement

pub record EvidenceRefusal : Type 0 where
  pub defect_id : Text
  pub reason : Text

pub record LatestEvidence : Type 0 where
  pub evidence : List StoredEvidence
  pub evidence_refusals : List EvidenceRefusal

-- Every cause for which evidence is stale.
pub data StaleCause : Type 0 where
  definition_changed mutation_file_changed another_adapter_version : StaleCause
  another_falsifier_version another_vitest_version inputs_changed : StaleCause

pub data UnknownReason : Type 0 where
  no_current_fingerprint duplicate_test : UnknownReason

pub data EvidenceFreshness : Type 0 where
  current_evidence : EvidenceFreshness
  stale_evidence : (stale_causes : List StaleCause) → EvidenceFreshness
  unknown_evidence : (unknown_reasons : List UnknownReason) → EvidenceFreshness

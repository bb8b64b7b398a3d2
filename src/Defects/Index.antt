-- ===== src/Defects/Index.antt =====
-- What a standing holds, and the maps from which defectStandings reads its facts
-- (packages/daemon/src/defects/defect-standings.ts).
use rt_test.Base.{
  distinct, ℕ, Bool, true, false, ◌&&◌, Option, List, [], ◌∷◌, map, Text, codes, Dict, filter,
  nat_eq, list_eq,
}
use rt_test.Core.Evidence.{TestOutcome, is_current}
use rt_test.Core.Identity.{test_identity_key}
use rt_test.Query.Records.{DiscoveredTest, WorkspaceDiscovery, discovered}
use rt_test.Query.States.{TestState, finished_with, TestStanding, map_of, flat_map}
use rt_test.Falsify.Facts.{ErrorFact}
use rt_test.Falsify.Verdict.Types.{Judgement}
use rt_test.Daemon.Standings.{DefectState, sort, text_le}
use rt_test.Defects.Records.{
  DefinitionMutation, ResolvedDefinition, StoredEvidence, EvidenceRefusal, LatestEvidence,
  EvidenceFreshness,
}

abbrev pub max_listed_errors : ℕ
max_listed_errors = 3

abbrev pub unreadable_evidence : Text
unreadable_evidence = codes "its stored evidence was refused as unreadable, so it reads as none"

pub record ListedErrors : Type 0 where
  pub listed : List ErrorFact
  pub not_listed : ℕ

-- A reason and its detail are one judgement.
pub record EvidenceStanding : Type 0 where
  pub freshness : EvidenceFreshness
  pub reason : Option Judgement
  pub errors : Option ListedErrors

pub record DefectStanding : Type 0 where
  pub definition : ResolvedDefinition
  pub state : DefectState
  pub reason : Option Text
  pub evidence_unreadable : Bool
  pub eligible : Bool
  pub definition_digest : Option Text
  pub evidence : Option EvidenceStanding

-- Of the discovery, its workspaces.
pub record StandingFacts : Type 0 where
  pub consumer_root : Text
  pub assertion_errors : List Text
  pub evidence : LatestEvidence
  pub discovery : List WorkspaceDiscovery
  pub discovery_current : Bool
  pub current_fingerprint : Text → Option Text
  pub test_standings : List TestStanding

pub record DigestSubject : Type 0 where
  pub id : Text
  pub test : DiscoveredTest
  pub mutation : DefinitionMutation
  pub mutation_path : Text

pub record StandingIndex : Type 0 where
  pub consumer_root : Text
  pub assertion_errors : List Text
  pub evidence : Dict Text StoredEvidence
  pub refusals : Dict Text Text
  pub vitest_versions : Dict Text Text
  pub current_passes : List Text
  pub current_fingerprint : Text → Option Text
  pub discovery_current : Bool

abbrev pub is_passed : TestState → Bool
is_passed (finished_with TestOutcome.passed) = true
is_passed _ = false

abbrev pub is_current_pass : TestStanding → Bool
is_current_pass s = is_passed s.state && is_current s.freshness

abbrev pub pass_key : TestStanding → Text
pass_key s = test_identity_key s.test.identity

abbrev pub by_defect : StoredEvidence → Text × StoredEvidence
by_defect record_ = (record_.defect_id, record_)

abbrev pub refusal_by_defect : EvidenceRefusal → Text × Text
refusal_by_defect refusal = (refusal.defect_id, refusal.reason)

abbrev version_of : WorkspaceDiscovery → Dict Text Text
version_of (discovered entry) = (entry.path, entry.vitest_version) ∷ []
version_of _ = []

unfoldable pub standing_index : StandingFacts → StandingIndex
unfolding map_of flat_map sort
standing_index facts = record {
  consumer_root = facts.consumer_root;
  assertion_errors = sort text_le (distinct facts.assertion_errors);
  evidence = map_of [] (map by_defect facts.evidence.evidence);
  refusals = map_of [] (map refusal_by_defect facts.evidence.evidence_refusals);
  vitest_versions = map_of [] (flat_map version_of facts.discovery);
  current_passes = map pass_key (filter is_current_pass facts.test_standings);
  current_fingerprint = facts.current_fingerprint;
  discovery_current = facts.discovery_current;
}

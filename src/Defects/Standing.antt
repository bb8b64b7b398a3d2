-- ===== src/Defects/Standing.antt =====
-- `defectStandings` of packages/daemon/src/defects/defect-standings.ts: a definition's one state,
-- with what its stored evidence says of it. The hash of `wholeDigest` and the relative path of
-- `relativePosixPath` are Node's, so they are parameters.
pub mod Verified
pub mod Eligible
use rt_test.Base.{
  distinct, ℕ, ◌-◌, Bool, true, false, not, ◌&&◌, Option, none, some, List, [], ◌∷◌, ◌++◌, map,
  Text, codes, Dict, lookup, includes, ◌==◌, filter, length, take, nat_eq, list_eq, is_some,
  if◌then◌else◌,
}
use rt_test.Base.Json.{quote, quote_list}
use rt_test.Core.Evidence.{TestOutcome, Freshness, current, stale, unknown, is_current}
use rt_test.Core.Identity.{test_identity_key}
use rt_test.Query.Records.{DiscoveredTest, WorkspaceDiscovery, discovered}
use rt_test.Query.States.{TestState, finished_with, TestStanding, map_of, flat_map}
use rt_test.Falsify.Facts.{
  ErrorFact, assertion, other_error, TestFacts, ExperimentFacts, not_run, ran,
}
use rt_test.Falsify.Verdict.Types.{Judgement, in_run, not_an_assertion, UnclearRun, Unclear}
use rt_test.Daemon.Standings.{
  DefectState, invalid_definition, anchor_missing, survived, invalid_experiment, unclear,
  never_verified, detected, sort, text_le,
}
use rt_test.Defects.Records.{
  DefinitionMutation, ResolvedDefinition, Verdict, StoredJudgement, StoredEvidence, EvidenceRefusal,
  LatestEvidence, EvidenceFreshness, current_evidence,
}
use rt_test.Defects.Freshness.{evidence_freshness}
use rt_test.Defects.Index.{
  max_listed_errors, unreadable_evidence, ListedErrors, EvidenceStanding, DefectStanding,
  StandingFacts, DigestSubject, StandingIndex, standing_index,
}

abbrev pub is_invalid : DefectState → Bool
is_invalid invalid_definition = true
is_invalid _ = false

abbrev pub is_never_verified : DefectState → Bool
is_never_verified never_verified = true
is_never_verified _ = false

-- The four members, when each is there.
abbrev pub subject_of :
    Option Text
    → Option DiscoveredTest
    → Option DefinitionMutation
    → Option Text
    → Option DigestSubject
subject_of (some id) (some test) (some mutation) (some mutation_path) =
    some (record { id = id; test = test; mutation = mutation; mutation_path = mutation_path })
subject_of _ _ _ _ = none

unfoldable pub digest_subject : ResolvedDefinition → Option DigestSubject
digest_subject definition =
    if is_invalid definition.state
    then none
    else subject_of definition.id definition.resolved definition.mutation definition.mutation_path

-- A verdict is the state of its name.
abbrev pub state_of : Verdict → DefectState
state_of Verdict.detected = detected
state_of Verdict.survived = survived
state_of Verdict.invalid_experiment = invalid_experiment
state_of Verdict.unclear = unclear

unfoldable pub never_verified_standing :
    ResolvedDefinition → Bool → Text → Option Text → DefectStanding
never_verified_standing definition eligible digest refusal = record {
  definition = definition;
  state = never_verified;
  reason = elim refusal [
    | none ↦ none
    | some refused ↦ some (unreadable_evidence ++ (codes ": " ++ refused))
  ];
  evidence_unreadable = is_some refusal;
  eligible = eligible;
  definition_digest = some digest;
  evidence = none;
}

abbrev is_assertion : ErrorFact → Bool
is_assertion (assertion _ _) = true
is_assertion (other_error _) = false

abbrev pub run_errors : ExperimentFacts → List ErrorFact
run_errors (not_run _ _) = []
run_errors (ran facts) = elim facts.run.facts.test [ none ↦ [] | some test ↦ test.errors ]

-- The errors that are not assertions first.
abbrev pub ordered_errors : List ErrorFact → List ErrorFact
ordered_errors errors =
    filter (λ (e : ErrorFact). not (is_assertion e)) errors ++ filter is_assertion errors

unfoldable pub list_errors : ExperimentFacts → ListedErrors
list_errors facts =
    let ordered = ordered_errors (run_errors facts) in
    record {
      listed = take max_listed_errors ordered;
      not_listed = length ordered - max_listed_errors;
    }

unfoldable pub not_assertion_errors : StoredJudgement → Option ListedErrors
unfolding list_errors
not_assertion_errors judgement = elim judgement.judgement [
  | Judgement.unclear (in_run not_an_assertion) ↦ some (list_errors judgement.facts)
  | _ ↦ none
]

abbrev has_reason : Judgement → Option Judgement
has_reason Judgement.detected = none
has_reason Judgement.survived = none
has_reason judgement = some judgement

unfoldable pub judgement_parts : EvidenceFreshness → Option StoredJudgement → EvidenceStanding
unfolding not_assertion_errors
judgement_parts freshness none = record { freshness = freshness; reason = none; errors = none }
judgement_parts freshness (some judgement) = record {
  freshness = freshness;
  reason = has_reason judgement.judgement;
  errors = not_assertion_errors judgement;
}

-- `evidence?.freshness === CURRENT`.
abbrev pub reads_current : EvidenceFreshness → Bool
reads_current current_evidence = true
reads_current _ = false

abbrev pub evidence_current : Option EvidenceStanding → Bool
evidence_current none = false
evidence_current (some evidence) = reads_current evidence.freshness

abbrev pub is_detected : DefectState → Bool
is_detected detected = true
is_detected _ = false

unfoldable pub is_verified : DefectStanding → Bool
is_verified standing = is_detected standing.state && evidence_current standing.evidence

module _ (hash : Text → Text) (relative_path : Text → Text → Text) where
  -- `JSON.stringify` of the six members.
  unfoldable pub definition_digest : DigestSubject → StandingIndex → Text
  definition_digest subject index = hash (
      b'[' ∷ quote subject.id
      ++ (b',' ∷ quote (test_identity_key subject.test.identity)
          ++ (b',' ∷ quote (relative_path index.consumer_root subject.mutation_path)
              ++ (b',' ∷ quote subject.mutation.old_text
                  ++ (b',' ∷ quote subject.mutation.new_text
                      ++ (b',' ∷ quote_list index.assertion_errors ++ b']' ∷ []))))))

  unfoldable pub not_runnable :
      ResolvedDefinition → Option DigestSubject → StandingIndex → DefectStanding
  unfolding definition_digest
  not_runnable definition subject index = record {
    definition = definition;
    state = definition.state;
    reason = definition.reason;
    evidence_unreadable = false;
    eligible = false;
    definition_digest = elim subject [
      | none ↦ none
      | some covered ↦ some (definition_digest covered index)
    ];
    evidence = none;
  }

  -- The standing that a stored record gives.
  unfoldable pub evidence_standing :
      ResolvedDefinition
      → DigestSubject
      → Text
      → Bool
      → StandingIndex
      → StoredEvidence
      → DefectStanding
  unfolding evidence_freshness judgement_parts
  evidence_standing definition subject digest eligible index stored = record {
    definition = definition;
    state = state_of stored.verdict;
    reason = none;
    evidence_unreadable = false;
    eligible = eligible;
    definition_digest = some digest;
    evidence = some (
        judgement_parts
          (evidence_freshness (record {
            record_ = stored;
            digest = digest;
            test = subject.test;
            definition = definition;
            vitest_versions = index.vitest_versions;
            current_fingerprint = index.current_fingerprint;
            discovery_current = index.discovery_current;
          }))
          stored.judgement);
  }

  -- The standing of a definition that can be falsified.
  unfoldable pub runnable : ResolvedDefinition → DigestSubject → StandingIndex → DefectStanding
  unfolding definition_digest evidence_standing never_verified_standing lookup
  runnable definition subject index =
      let digest = definition_digest subject index in
      let eligible = includes (test_identity_key subject.test.identity) index.current_passes in
      elim (lookup subject.id index.evidence) [
        | none ↦
            never_verified_standing definition eligible digest (lookup subject.id index.refusals)
        | some stored ↦ evidence_standing definition subject digest eligible index stored
      ]

  unfoldable pub standing_of_subject :
      ResolvedDefinition → Option DigestSubject → StandingIndex → DefectStanding
  unfolding not_runnable runnable
  standing_of_subject definition none index = not_runnable definition none index
  standing_of_subject definition (some subject) index =
      if is_never_verified definition.state
      then runnable definition subject index
      else not_runnable definition (some subject) index

  unfoldable pub standing_of : ResolvedDefinition → StandingIndex → DefectStanding
  unfolding digest_subject standing_of_subject
  standing_of definition index = standing_of_subject definition (digest_subject definition) index

  unfoldable pub defect_standings : List ResolvedDefinition → StandingFacts → List DefectStanding
  unfolding standing_of standing_index
  defect_standings definitions facts =
      let index = standing_index facts in
      map (λ (definition : ResolvedDefinition). standing_of definition index) definitions

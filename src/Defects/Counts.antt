-- ===== src/Defects/Counts.antt =====
-- `countDefectStandings` of packages/daemon/src/defects/defect-standings.ts. A tally is a function:
-- a key that `zeroTally` was not given is never counted.
pub mod Tallied
pub mod Sums
use rt_test.Base.{
  ℕ, ◌+◌, Bool, true, false, ◌&&◌, Option, none, some, List, [], ◌∷◌, length, filter, ◌==◌, Eq,
  discrete_eq, if◌then◌else◌,
}
use rt_test.Core.Evidence.{Freshness, freshness_eq, current, stale, unknown}
use rt_test.Daemon.Standings.{DefectState}
use rt_test.Defects.Records.{
  StaleCause, UnknownReason, EvidenceFreshness, current_evidence, stale_evidence, unknown_evidence,
}
use rt_test.Defects.Freshness.{stale_causes_of, unknown_reasons_of}
use rt_test.Defects.Standing.{is_verified}
use rt_test.Defects.Index.{EvidenceStanding, DefectStanding}

unfoldable pub DefectState_discrete : Discrete DefectState
DefectState_discrete = hlevel

unfoldable pub StaleCause_discrete : Discrete StaleCause
StaleCause_discrete = hlevel

unfoldable pub UnknownReason_discrete : Discrete UnknownReason
UnknownReason_discrete = hlevel

instance abbrev pub defect_state_eq : Eq DefectState
defect_state_eq = discrete_eq DefectState_discrete

instance abbrev pub stale_cause_eq : Eq StaleCause
stale_cause_eq = discrete_eq StaleCause_discrete

instance abbrev pub unknown_reason_eq : Eq UnknownReason
unknown_reason_eq = discrete_eq UnknownReason_discrete

abbrev pub Tally : Type 0 → Type 0
Tally K = K → ℕ

abbrev pub zero_tally : {K : Type 0} → Tally K
zero_tally k = 0

-- `tally[key] += 1`.
unfoldable pub count : {K : Type 0} ⦃e : Eq K⦄ → K → Tally K → Tally K
count key tally k = if k == key then tally k + 1 else tally k

unfoldable pub count_all : {K : Type 0} ⦃e : Eq K⦄ → List K → Tally K → Tally K
unfolding count
count_all [] tally = tally
count_all (key ∷ keys) tally = count_all keys (count key tally)

pub record DefectStandingCounts : Type 0 where
  pub states : Tally DefectState
  pub freshness : Tally Freshness
  pub stale_causes : Tally StaleCause
  pub unknown_reasons : Tally UnknownReason
  pub unreadable_evidence : ℕ
  pub eligible : ℕ
  pub verified : ℕ

-- The four tallies of the loop.
pub record Tallies : Type 0 where
  pub states : Tally DefectState
  pub freshness : Tally Freshness
  pub stale_causes : Tally StaleCause
  pub unknown_reasons : Tally UnknownReason

-- `evidence.freshness`.
abbrev pub freshness_of : EvidenceFreshness → Freshness
freshness_of current_evidence = current
freshness_of (stale_evidence _) = stale
freshness_of (unknown_evidence _) = unknown

unfoldable pub tally_evidence : Option EvidenceStanding → Tallies → Tallies
unfolding count count_all stale_causes_of unknown_reasons_of
tally_evidence none t = t
tally_evidence (some evidence) t = record t {
  freshness = count (freshness_of evidence.freshness) t.freshness;
  stale_causes = count_all (stale_causes_of evidence.freshness) t.stale_causes;
  unknown_reasons = count_all (unknown_reasons_of evidence.freshness) t.unknown_reasons;
}

unfoldable pub tally_standings : List DefectStanding → Tallies → Tallies
unfolding count tally_evidence
tally_standings [] t = t
tally_standings (standing ∷ standings) t =
    tally_standings standings
      (tally_evidence standing.evidence (record t { states = count standing.state t.states }))

unfoldable pub count_defect_standings : List DefectStanding → DefectStandingCounts
unfolding tally_standings is_verified
count_defect_standings standings =
    let tallies = tally_standings standings (record {
      states = zero_tally;
      freshness = zero_tally;
      stale_causes = zero_tally;
      unknown_reasons = zero_tally;
    }) in
    record {
      states = tallies.states;
      freshness = tallies.freshness;
      stale_causes = tallies.stale_causes;
      unknown_reasons = tallies.unknown_reasons;
      unreadable_evidence =
          length (filter (λ (s : DefectStanding). s.evidence_unreadable) standings);
      eligible = length (filter (λ (s : DefectStanding). s.eligible) standings);
      verified = length (filter is_verified standings);
    }

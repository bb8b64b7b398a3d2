-- ===== src/Defects/Counts/Tallied.antt =====
-- What countDefectStandings adds for each standing
-- (packages/daemon/src/defects/defect-standings.ts).
use rt_test.Base.{
  ℕ, suc, ◌+◌, Option, none, some, List, [], ◌∷◌, ◌++◌, map, ◌==◌, Eq, if◌then◌else◌, ◌≡◌, refl,
  arith,
}
use rt_test.Core.Evidence.{Freshness, freshness_eq}
use rt_test.Query.States.{flat_map}
use rt_test.Daemon.Standings.{DefectState}
use rt_test.Defects.Records.{StaleCause, UnknownReason}
use rt_test.Defects.Freshness.{stale_causes_of, unknown_reasons_of}
use rt_test.Defects.Index.{EvidenceStanding, DefectStanding}
use rt_test.Defects.Counts.{
  defect_state_eq, stale_cause_eq, unknown_reason_eq, Tally, count, count_all, Tallies,
  freshness_of, tally_evidence, tally_standings,
}

-- How often a key stands in a list.
unfoldable pub occurrences : {K : Type 0} ⦃e : Eq K⦄ → K → List K → ℕ
occurrences k [] = 0
occurrences k (x ∷ xs) = if k == x then suc (occurrences k xs) else occurrences k xs

abbrev pub freshness_read : Option EvidenceStanding → List Freshness
freshness_read none = []
freshness_read (some e) = freshness_of e.freshness ∷ []

abbrev pub causes_read : Option EvidenceStanding → List StaleCause
causes_read none = []
causes_read (some e) = stale_causes_of e.freshness

abbrev pub reasons_read : Option EvidenceStanding → List UnknownReason
reasons_read none = []
reasons_read (some e) = unknown_reasons_of e.freshness

-- What the evidence of each standing reads, in their order.
abbrev pub all_read :
    {K : Type 0} → (Option EvidenceStanding → List K) → List DefectStanding → List K
all_read read = flat_map (λ (s : DefectStanding). read s.evidence)

pub occurrences-append :
    {K : Type 0} ⦃e : Eq K⦄ (k : K) (xs ys : List K)
    → occurrences k (xs ++ ys) ≡ occurrences k xs + occurrences k ys
unfolding occurrences
occurrences-append k [] ys = omega arith
occurrences-append k (x ∷ xs) ys = ground (arith, occurrences-append k xs ys)

count_all-occurrences :
    {K : Type 0} ⦃e : Eq K⦄ (k : K) (keys : List K) (t : Tally K)
    → count_all keys t k ≡ t k + occurrences k keys
unfolding count_all occurrences
count_all-occurrences k [] t = omega arith
count_all-occurrences k (x ∷ keys) t =
    let rest = count_all-occurrences k keys (count x t) in
    let step : count x t k ≡ (if k == x then t k + 1 else t k) = unfold count in refl in
    ground arith

count-occurrences :
    {K : Type 0} ⦃e : Eq K⦄ (k x : K) (t : Tally K) → count x t k ≡ t k + occurrences k (x ∷ [])
unfolding count occurrences
count-occurrences k x t = ground arith

-- Each tally of the loop is the one before it with what the evidence reads.
record Adds (t r : Tallies) (e : Option EvidenceStanding) : Type 0 where
  states : (k : DefectState) → r.states k ≡ t.states k
  freshness : (k : Freshness) → r.freshness k ≡ t.freshness k + occurrences k (freshness_read e)
  causes : (k : StaleCause) → r.stale_causes k ≡ t.stale_causes k + occurrences k (causes_read e)
  reasons :
      (k : UnknownReason)
      → r.unknown_reasons k ≡ t.unknown_reasons k + occurrences k (reasons_read e)

tally_evidence-Adds : (e : Option EvidenceStanding) (t : Tallies) → Adds t (tally_evidence e t) e
unfolding tally_evidence occurrences
tally_evidence-Adds none t = record {
  states = λ k. refl;
  freshness = λ k. omega arith;
  causes = λ k. omega arith;
  reasons = λ k. omega arith;
}
tally_evidence-Adds (some e) t = record {
  states = λ k. refl;
  freshness = λ k. count-occurrences k (freshness_of e.freshness) t.freshness;
  causes = λ k. count_all-occurrences k (stale_causes_of e.freshness) t.stale_causes;
  reasons = λ k. count_all-occurrences k (unknown_reasons_of e.freshness) t.unknown_reasons;
}

-- Each tally is the one that the loop began with and what the standings read.
pub record Tallied (t r : Tallies) (ss : List DefectStanding) : Type 0 where
  pub states :
      (k : DefectState)
      → r.states k ≡ t.states k + occurrences k (map (λ (s : DefectStanding). s.state) ss)
  pub freshness :
      (k : Freshness) → r.freshness k ≡ t.freshness k + occurrences k (all_read freshness_read ss)
  pub causes :
      (k : StaleCause)
      → r.stale_causes k ≡ t.stale_causes k + occurrences k (all_read causes_read ss)
  pub reasons :
      (k : UnknownReason)
      → r.unknown_reasons k ≡ t.unknown_reasons k + occurrences k (all_read reasons_read ss)

pub tally_standings-Tallied :
    (ss : List DefectStanding) (t : Tallies) → Tallied t (tally_standings ss t) ss
unfolding tally_standings occurrences flat_map
tally_standings-Tallied [] t = record {
  states = λ k. omega arith;
  freshness = λ k. omega arith;
  causes = λ k. omega arith;
  reasons = λ k. omega arith;
}
tally_standings-Tallied (s ∷ ss) t =
    let counted = record t { states = count s.state t.states } in
    let first = tally_evidence-Adds s.evidence counted in
    let rest = tally_standings-Tallied ss (tally_evidence s.evidence counted) in
    record {
      states = λ k.
          let now = count-occurrences k s.state t.states in
          ground (arith, rest.states k, first.states k);
      freshness = λ k. omega (
        arith,
        rest.freshness k,
        first.freshness k,
        occurrences-append k (freshness_read s.evidence) (all_read freshness_read ss),
      );
      causes = λ k. omega (
        arith,
        rest.causes k,
        first.causes k,
        occurrences-append k (causes_read s.evidence) (all_read causes_read ss),
      );
      reasons = λ k. omega (
        arith,
        rest.reasons k,
        first.reasons k,
        occurrences-append k (reasons_read s.evidence) (all_read reasons_read ss),
      );
    }

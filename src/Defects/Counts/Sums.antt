-- ===== src/Defects/Counts/Sums.antt =====
-- That the counts of a listing of standings are those of its standings
-- (packages/daemon/src/defects/defect-standings.ts).
use rt_test.Base.{
  ℕ, suc, ◌+◌, ◌≤◌, Bool, true, ◌&&◌, Bool-cases, inl, inr, Option, none, some, List, [], ◌∷◌, map,
  length, filter, eq_iff, ◌≡◌, ◌↔◌, refl, sym, ap, ◌∙◌, arith,
}
use mathlib.Core.Bool.{and-eq-true_iff}
use rt_test.Core.Evidence.{Freshness, Freshness_discrete, freshness_eq, current}
use rt_test.Query.States.{flat_map}
use rt_test.Daemon.Standings.{
  DefectState, invalid_definition, anchor_missing, survived, invalid_experiment, unclear,
  never_verified, detected,
}
use rt_test.Defects.Records.{StaleCause, UnknownReason, EvidenceFreshness, current_evidence}
use rt_test.Defects.Standing.{is_verified, is_detected, reads_current, evidence_current}
use rt_test.Defects.Index.{EvidenceStanding, DefectStanding}
use rt_test.Defects.Counts.{
  DefectState_discrete, defect_state_eq, stale_cause_eq, unknown_reason_eq, Tally, zero_tally,
  DefectStandingCounts, count_defect_standings,
}
use rt_test.Defects.Counts.Tallied.{
  occurrences, freshness_read, causes_read, reasons_read, all_read, occurrences-append,
  tally_standings-Tallied,
}

-- The seven states together.
abbrev pub sum_of_states : Tally DefectState → ℕ
sum_of_states t =
    t invalid_definition
    + t anchor_missing
    + t survived
    + t invalid_experiment
    + t unclear
    + t never_verified
    + t detected

length-map : {A B : Type 0} (f : A → B) (xs : List A) → length (map f xs) ≡ length xs
length-map f [] = refl
length-map f (x ∷ xs) = omega (arith, length-map f xs)

occurrences-sum :
    (states : List DefectState) → sum_of_states (λ k. occurrences k states) ≡ length states
unfolding occurrences DefectState_discrete
occurrences-sum [] = omega arith
occurrences-sum (invalid_definition ∷ states) = omega (arith, occurrences-sum states)
occurrences-sum (anchor_missing ∷ states) = omega (arith, occurrences-sum states)
occurrences-sum (survived ∷ states) = omega (arith, occurrences-sum states)
occurrences-sum (invalid_experiment ∷ states) = omega (arith, occurrences-sum states)
occurrences-sum (unclear ∷ states) = omega (arith, occurrences-sum states)
occurrences-sum (never_verified ∷ states) = omega (arith, occurrences-sum states)
occurrences-sum (detected ∷ states) = omega (arith, occurrences-sum states)

is_detected_iff : (state : DefectState) → is_detected state ≡ true → state ≡ detected
is_detected_iff state h = ground arith

verified-detected :
    (ss : List DefectStanding)
    → length (filter is_verified ss)
      ≤ occurrences detected (map (λ (s : DefectStanding). s.state) ss)
unfolding occurrences is_verified
verified-detected [] = omega arith
verified-detected (s ∷ ss) =
    let same = eq_iff detected s.state in
    ground (arith, verified-detected ss, is_detected_iff s.state)

evidence_current-occurrences :
    (e : Option EvidenceStanding)
    → evidence_current e ≡ true
    → 1 ≤ occurrences current (freshness_read e)
unfolding occurrences Freshness_discrete
evidence_current-occurrences none h = absurd (ground arith)
evidence_current-occurrences (some e) h = ground arith

verified-current :
    (ss : List DefectStanding)
    → length (filter is_verified ss) ≤ occurrences current (all_read freshness_read ss)
unfolding occurrences is_verified flat_map
verified-current [] = omega arith
verified-current (s ∷ ss) =
    let rest = verified-current ss in
    let split =
      occurrences-append current (freshness_read s.evidence) (all_read freshness_read ss) in
    elim (Bool-cases (is_detected s.state && evidence_current s.evidence)) [
      | inl e ↦
          let here : 1 ≤ occurrences current (freshness_read s.evidence) =
            evidence_current-occurrences s.evidence ((and-eq-true_iff _ _).0 e).1 in
          rw e (omega arith)
      | inr e ↦ rw e (omega arith)
    ]

-- How many of the standings satisfy a predicate.
pub data CountOf (P : DefectStanding → Type 0) : List DefectStanding → ℕ → Type 0 where
  none_left : CountOf P [] 0
  one_more :
      {s : DefectStanding} {ss : List DefectStanding} {n : ℕ}
      → P s
      → CountOf P ss n
      → CountOf P (s ∷ ss) (suc n)
  passed_over :
      {s : DefectStanding} {ss : List DefectStanding} {n : ℕ}
      → (¬ P s)
      → CountOf P ss n
      → CountOf P (s ∷ ss) n

filter-CountOf :
    (P : DefectStanding → Type 0) (p : DefectStanding → Bool)
    → ((s : DefectStanding) → (p s ≡ true) ↔ P s)
    → (ss : List DefectStanding) → CountOf P ss (length (filter p ss))
filter-CountOf P p f [] = none_left
filter-CountOf P p f (s ∷ ss) = elim (Bool-cases (p s)) [
  | inl e ↦ rw e (one_more ((f s).0 e) (filter-CountOf P p f ss))
  | inr e ↦
      rw e
        (passed_over (λ h. let bad = (f s).1 h in absurd (ground arith)) (filter-CountOf P p f ss))
]

-- A standing that is detected on evidence that is current.
abbrev pub IsVerified : DefectStanding → Type 0
IsVerified s =
    (s.state ≡ detected)
    × ((e : EvidenceStanding) × (s.evidence ≡ some e) × (e.freshness ≡ current_evidence))

reads_current_iff : (f : EvidenceFreshness) → (reads_current f ≡ true) ↔ (f ≡ current_evidence)
reads_current_iff f = ground arith

current_iff :
    (evidence : Option EvidenceStanding)
    → (evidence_current evidence ≡ true)
      ↔ ((e : EvidenceStanding) × (evidence ≡ some e) × (e.freshness ≡ current_evidence))
current_iff none = (λ h. absurd (ground arith), λ (_, e, _). absurd (ground arith))
current_iff (some e) = (
  λ h. (e, refl, (reads_current_iff e.freshness).0 h),
  λ (e', is, h).
      let same : e' ≡ e = cc (is) in
      (reads_current_iff e.freshness).1 (ap (λ (x : EvidenceStanding). x.freshness) (sym same) ∙ h),
)

is_verified_iff : (s : DefectStanding) → (is_verified s ≡ true) ↔ IsVerified s
unfolding is_verified
is_verified_iff s =
    let both = and-eq-true_iff (is_detected s.state) (evidence_current s.evidence) in
    (
      λ h. let (a, b) = both.0 h in (is_detected_iff s.state a, (current_iff s.evidence).0 b),
      λ (e, h). both.1 (rw e refl, (current_iff s.evidence).1 h),
    )

-- The counts are those of the standings: each state, freshness, cause and reason is counted as
-- often as a standing reads it, and the eligible, the unreadable and the verified are counted.
pub record IsCounted (ss : List DefectStanding) (c : DefectStandingCounts) : Type 0 where
  pub each_state :
      (k : DefectState) → c.states k ≡ occurrences k (map (λ (s : DefectStanding). s.state) ss)
  pub each_freshness : (k : Freshness) → c.freshness k ≡ occurrences k (all_read freshness_read ss)
  pub each_cause : (k : StaleCause) → c.stale_causes k ≡ occurrences k (all_read causes_read ss)
  pub each_reason :
      (k : UnknownReason) → c.unknown_reasons k ≡ occurrences k (all_read reasons_read ss)
  pub all_states : sum_of_states c.states ≡ length ss
  pub each_unreadable :
      CountOf (λ (s : DefectStanding). s.evidence_unreadable ≡ true) ss c.unreadable_evidence
  pub each_eligible : CountOf (λ (s : DefectStanding). s.eligible ≡ true) ss c.eligible
  pub each_verified : CountOf IsVerified ss c.verified
  pub verified_detected : c.verified ≤ c.states detected
  pub verified_current : c.verified ≤ c.freshness current

-- The counts of a listing are those of its standings: each state, freshness, stale cause and
-- unknown reason is counted as often as a standing reads it, and the seven states add up to the
-- number of standings. Counted are exactly the standings whose evidence is unreadable, those that are
-- eligible, and those that are detected on current evidence, of which there are no more than are
-- detected or than are current.
pub count_defect_standings-IsCounted :
    (standings : List DefectStanding) → IsCounted standings (count_defect_standings standings)
unfolding count_defect_standings
count_defect_standings-IsCounted ss =
    let t = tally_standings-Tallied ss (record {
      states = zero_tally;
      freshness = zero_tally;
      stale_causes = zero_tally;
      unknown_reasons = zero_tally;
    }) in
    let states = λ (k : DefectState). t.states k in
    record {
      each_state = λ k. omega (arith, t.states k);
      each_freshness = λ k. omega (arith, t.freshness k);
      each_cause = λ k. omega (arith, t.causes k);
      each_reason = λ k. omega (arith, t.reasons k);
      all_states = omega (
        arith,
        occurrences-sum (map (λ (s : DefectStanding). s.state) ss),
        length-map (λ (s : DefectStanding). s.state) ss,
        t.states invalid_definition,
        t.states anchor_missing,
        t.states survived,
        t.states invalid_experiment,
        t.states unclear,
        t.states never_verified,
        t.states detected,
      );
      each_unreadable = filter-CountOf _ _ (λ s. (λ h. h, λ h. h)) ss;
      each_eligible = filter-CountOf _ _ (λ s. (λ h. h, λ h. h)) ss;
      each_verified = filter-CountOf _ is_verified is_verified_iff ss;
      verified_detected = omega (arith, verified-detected ss, t.states detected);
      verified_current = omega (arith, verified-current ss, t.freshness current);
    }

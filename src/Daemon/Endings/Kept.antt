-- ===== src/Daemon/Endings/Kept.antt =====
-- What a job that ran to its end is no longer given (packages/daemon/src/daemon/falsification-plan.ts).
use rt_test.Base.{
  ℕ, Bool-cases, inl, inr, true, false, List, [], ◌∷◌, Text, Dict, lookup, lookup-insert, All,
  All-map, nat_eq, list_eq, ◌==◌, eq_iff, eq_refl, ◌≡◌, refl, ap, ◌∙◌, arith, ◌⊎◌,
}
use rt_test.Daemon.Plan.{
  JobDefinition, PlannedJob, Candidate, FalsificationPlan, DefinitionMark, may_take, held_by, is_at,
}
use rt_test.Daemon.Endings.{with_mark, ran_from, ran_to_end}

-- A definition is held at a revision by its mark.
abbrev pub IsHeld : FalsificationPlan → ℕ → Text → Type 0
IsHeld plan revision digest = held_by (lookup digest plan.definitions) revision ≡ true

IsHeld-with_mark :
    (key digest : Text) (m : DefinitionMark) (plan : FalsificationPlan) (revision : ℕ)
    → is_at m.held_at revision ≡ true
    → IsHeld plan revision digest ⊎ (key ≡ digest)
    → IsHeld (with_mark key m plan) revision digest
IsHeld-with_mark key digest m plan revision at h =
    ap (λ o. held_by o revision) (lookup-insert key digest m plan.definitions)
    ∙ elim (Bool-cases (key == digest)) [
      | inl e ↦ rw (e, at)
      | inr e ↦ elim h [
        | inl held ↦ rw (e, held)
        | inr same ↦ let yes' = (eq_iff key digest).1 same in absurd (ground arith)
      ]
    ]

ran_from-keeps :
    (planned : PlannedJob) (ds : List JobDefinition) (revision : ℕ) (left : Dict Text Text)
    (plan : FalsificationPlan) (digest : Text)
    → IsHeld plan revision digest
    → IsHeld (ran_from planned ds revision left plan) revision digest
unfolding ran_from
ran_from-keeps planned [] revision left plan digest h = h
ran_from-keeps planned (d ∷ ds) revision left plan digest h =
    ran_from-keeps planned ds revision left _ digest
      (IsHeld-with_mark d.digest digest _ plan revision (eq_refl revision) (inl h))

ran_from-IsHeld :
    (planned : PlannedJob) (ds : List JobDefinition) (revision : ℕ) (left : Dict Text Text)
    (plan : FalsificationPlan)
    → All
        (λ (d : JobDefinition). IsHeld (ran_from planned ds revision left plan) revision d.digest)
        ds
unfolding ran_from
ran_from-IsHeld planned [] revision left plan = tt
ran_from-IsHeld planned (d ∷ ds) revision left plan = (
  ran_from-keeps planned ds revision left _ d.digest
      (IsHeld-with_mark d.digest d.digest _ plan revision (eq_refl revision) (inr refl)),
  ran_from-IsHeld planned ds revision left _,
)

-- Once a job ran to its end at a revision, no candidate with the digest of one of its definitions
-- may be taken at that revision.
pub ran_to_end-may_take :
    (planned : PlannedJob) (revision : ℕ) (left : Dict Text Text) (plan : FalsificationPlan)
    → All
        (λ (d : JobDefinition).
          (w : Candidate)
          → w.definition.digest ≡ d.digest
          → may_take (ran_to_end planned revision left plan) revision w ≡ false)
        planned.definitions
unfolding ran_to_end may_take
ran_to_end-may_take planned revision left plan =
    All-map _ _
      (λ d h w e.
        let held =
          ap
            (λ x.
              held_by
                (lookup x (ran_from planned planned.definitions revision left plan).definitions)
                revision)
            e
          ∙ h in
        ground (arith, held))
      planned.definitions (ran_from-IsHeld planned planned.definitions revision left plan)

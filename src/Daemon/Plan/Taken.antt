-- ===== src/Daemon/Plan/Taken.antt =====
-- Which definitions a look takes, and which it no longer takes
-- (packages/daemon/src/daemon/falsification-plan.ts).
use rt_test.Base.{
  ℕ, zero, suc, ◌≤◌, Bool, Bool-cases, inl, inr, true, false, List, [], ◌∷◌, Text, length,
  length-take-le, filter, take, map, All, All-map, Exists, nat_eq, list_eq, ◌==◌, eq_iff, eq_refl,
  ◌≡◌, refl, sym, ap, arith,
}
use mathlib.Core.Path.{subst}
use rt_test.Daemon.Plan.Waiting.{
  Waits, IsWaiting, IsFree, may_take-forget-IsFree, candidates-IsWaiting,
}
use rt_test.Daemon.Plan.{
  JobDefinition, PlannedJob, Candidate, job, FalsificationPlan, candidates, forget, may_take,
  comes_first, job_of, next_of, next_waiting, next, none_taken_look, max_job_definitions,
}
use rt_test.Daemon.Standings.{DefectStanding, sort_insert, sort}

-- A definition is of a waiting standing, and no mark holds it or its workspace.
abbrev pub IsTakeable : List DefectStanding → FalsificationPlan → ℕ → Text → JobDefinition → Type 0
IsTakeable standings plan revision workspace_path d =
    Exists (λ (s : DefectStanding). Waits s workspace_path d) standings
    × IsFree plan revision workspace_path d.digest

module _ (P : Candidate → Type 0) where
  All-filter_of : (p : Candidate → Bool) (xs : List Candidate) → All P xs → All P (filter p xs)
  All-filter_of p [] h = tt
  All-filter_of p (x ∷ xs) h = elim (Bool-cases (p x)) [
    | inl e ↦ subst (All P) (sym (kept e)) (h.0, All-filter_of p xs h.1)
    | inr e ↦ subst (All P) (sym (dropped e)) (All-filter_of p xs h.1)
  ]
    where
      kept : p x ≡ true → filter p (x ∷ xs) ≡ x ∷ filter p xs
      kept e = rw e

      dropped : p x ≡ false → filter p (x ∷ xs) ≡ filter p xs
      dropped e = rw e

  All-take : (n : ℕ) (xs : List Candidate) → All P xs → All P (take n xs)
  All-take zero xs h = tt
  All-take (suc n) [] h = tt
  All-take (suc n) (x ∷ xs) h = (h.0, All-take n xs h.1)

  All-sort_insert :
      (le : Candidate → Candidate → Bool) (x : Candidate) (xs : List Candidate)
      → P x
      → All P xs
      → All P (sort_insert le x xs)
  unfolding sort_insert
  All-sort_insert le x [] p h = (p, tt)
  All-sort_insert le x (y ∷ ys) p h = elim (Bool-cases (le x y)) [
    | inl e ↦ subst (All P) (sym (before e)) (p, h)
    | inr e ↦ subst (All P) (sym (after e)) (h.0, All-sort_insert le x ys p h.1)
  ]
    where
      before : le x y ≡ true → sort_insert le x (y ∷ ys) ≡ x ∷ y ∷ ys
      before e = rw e

      after : le x y ≡ false → sort_insert le x (y ∷ ys) ≡ y ∷ sort_insert le x ys
      after e = rw e

  All-sort :
      (le : Candidate → Candidate → Bool) (xs : List Candidate) → All P xs → All P (sort le xs)
  unfolding sort
  All-sort le [] h = tt
  All-sort le (x ∷ xs) h = All-sort_insert le x (sort le xs) h.0 (All-sort le xs h.1)

-- Every candidate that passes a filter is one of the list, and passes.
All-filter-Exists :
    (p : Candidate → Bool) (xs : List Candidate)
    → All (λ w. Exists (λ v. (v ≡ w) × (p v ≡ true)) xs) (filter p xs)
All-filter-Exists p [] = tt
All-filter-Exists p (x ∷ xs) =
    let later =
      All-map _ (λ w. Exists (λ v. (v ≡ w) × (p v ≡ true)) (x ∷ xs)) (λ w e. inr e) (filter p xs)
        (All-filter-Exists p xs) in
    elim (Bool-cases (p x)) [
      | inl e ↦
          let is : filter p (x ∷ xs) ≡ x ∷ filter p xs = rw e in
          subst (All (λ w. Exists (λ v. (v ≡ w) × (p v ≡ true)) (x ∷ xs))) (sym is)
            (inl (refl, e), later)
      | inr e ↦
          let is : filter p (x ∷ xs) ≡ filter p xs = rw e in
          subst (All (λ w. Exists (λ v. (v ≡ w) × (p v ≡ true)) (x ∷ xs))) (sym is) later
    ]

All-filter-both :
    (Q : Candidate → Type 0) (p : Candidate → Bool) (xs : List Candidate)
    → All Q xs
    → All (λ w. Q w × (p w ≡ true)) (filter p xs)
All-filter-both Q p [] h = tt
All-filter-both Q p (x ∷ xs) h = elim (Bool-cases (p x)) [
  | inl e ↦
      let is : filter p (x ∷ xs) ≡ x ∷ filter p xs = rw e in
      subst (All (λ w. Q w × (p w ≡ true))) (sym is) ((h.0, e), All-filter-both Q p xs h.1)
  | inr e ↦
      let is : filter p (x ∷ xs) ≡ filter p xs = rw e in
      subst (All (λ w. Q w × (p w ≡ true))) (sym is) (All-filter-both Q p xs h.1)
]

Exists-any :
    (R P : Candidate → Type 0) (Q : Type 0)
    → ((w : Candidate) → R w → P w → Q)
    → (xs : List Candidate) → All R xs
    → Exists P xs
    → Q
Exists-any R P Q f [] h e = absurd e
Exists-any R P Q f (x ∷ xs) h (inl e) = f x h.0 e
Exists-any R P Q f (x ∷ xs) h (inr e) = Exists-any R P Q f xs h.1 e

All-definitions :
    (P : Candidate → Type 0) (Q : JobDefinition → Type 0)
    → ((w : Candidate) → P w → Q w.definition)
    → (xs : List Candidate) → All P xs
    → All Q (map (λ (w : Candidate). w.definition) xs)
All-definitions P Q f [] h = tt
All-definitions P Q f (x ∷ xs) h = (f x h.0, All-definitions P Q f xs h.1)

length-definitions :
    (xs : List Candidate) → length (map (λ (w : Candidate). w.definition) xs) ≡ length xs
length-definitions [] = refl
length-definitions (x ∷ xs) = omega (arith, length-definitions xs)

-- What a look promises of the job it gives.
pub record IsPlanned (standings : List DefectStanding) (plan : FalsificationPlan) (revision : ℕ)
    (j : PlannedJob) : Type 0 where
  pub some_taken : length j.definitions ≡ 0 → ⊥
  pub at_most : length j.definitions ≤ 25
  pub takeable : All (IsTakeable standings plan revision j.workspace_path) j.definitions

-- What a candidate that may be taken satisfies.
abbrev May : List Candidate → FalsificationPlan → ℕ → Candidate → Type 0
May waiting plan revision w = Exists (λ v. (v ≡ w) × (may_take plan revision v ≡ true)) waiting

module _ (standings : List DefectStanding) (plan : FalsificationPlan) (revision : ℕ) where
  -- The plan as the look reads it.
  abbrev left : FalsificationPlan
  left = forget standings revision plan

  May-IsTakeable :
      (waiting : List Candidate)
      → All (IsWaiting standings) waiting
      → (w : Candidate) → May waiting left revision w
      → IsTakeable standings plan revision w.workspace_path w.definition
  May-IsTakeable waiting wait w may =
      Exists-any (IsWaiting standings) _ _
        (λ v waits (is, ok).
          subst (λ c. IsTakeable standings plan revision c.workspace_path c.definition) is
            (waits, may_take-forget-IsFree standings plan revision v waits ok))
        waiting wait may

  job_of-IsPlanned :
      (first : Candidate) (others waiting : List Candidate)
      → All (IsWaiting standings) waiting
      → All (May waiting left revision) (first ∷ others)
      → IsPlanned standings plan revision (job_of first (first ∷ others))
  unfolding job_of
  job_of-IsPlanned first others waiting wait h =
      let same : Candidate → Bool = λ w. w.workspace_path == first.workspace_path in
      let members = filter same (first ∷ others) in
      let here : members ≡ first ∷ filter same others = rw (eq_refl first.workspace_path) in
      let taken = take max_job_definitions members in
      record {
        some_taken = λ e.
            let count =
              ap
                (λ ms. length (map (λ (w : Candidate). w.definition) (take max_job_definitions ms)))
                here in
            absurd (omega arith);
        at_most =
            omega (arith, length-definitions taken, length-take-le max_job_definitions members);
        takeable =
            All-definitions _ _
              (λ w (may, at_first).
                subst (λ p. IsTakeable standings plan revision p w.definition)
                  ((eq_iff _ _).0 at_first) (May-IsTakeable waiting wait w may))
              taken
              (All-take _ max_job_definitions members
                (All-filter-both (May waiting left revision) same (first ∷ others) h));
      }

  next_of-IsPlanned :
      (sorted waiting : List Candidate) (plan' : FalsificationPlan) (j : PlannedJob)
      → All (IsWaiting standings) waiting
      → All (May waiting left revision) sorted
      → next_of sorted waiting revision left ≡ (job j, plan')
      → IsPlanned standings plan revision j
  unfolding next_of none_taken_look
  next_of-IsPlanned [] waiting plan' j wait h e = absurd (ground arith)
  next_of-IsPlanned (first ∷ others) waiting plan' j wait h e =
      let is : job_of first (first ∷ others) ≡ j = cc (e) in
      subst (IsPlanned standings plan revision) is (job_of-IsPlanned first others waiting wait h)

  next_waiting-IsPlanned :
      (waiting : List Candidate) (plan' : FalsificationPlan) (j : PlannedJob)
      → All (IsWaiting standings) waiting
      → next_waiting waiting revision left ≡ (job j, plan')
      → IsPlanned standings plan revision j
  unfolding next_waiting
  next_waiting-IsPlanned [] plan' j wait e = absurd (ground arith)
  next_waiting-IsPlanned (w ∷ ws) plan' j wait e =
      next_of-IsPlanned _ (w ∷ ws) plan' j wait
        (All-sort (May (w ∷ ws) left revision) (comes_first left) _
          (All-filter-Exists (may_take left revision) (w ∷ ws)))
        e

-- A job that a look gives holds between 1 and 25 definitions of one workspace, each with the id and
-- the digest of a standing that is eligible, holds no current evidence and has its test there. No
-- mark of the plan that was looked at holds the workspace or the definition at the revision.
pub next-IsPlanned :
    (standings : List DefectStanding) (revision : ℕ) (plan plan' : FalsificationPlan)
    (j : PlannedJob)
    → next standings revision plan ≡ (job j, plan')
    → IsPlanned standings plan revision j
unfolding next
next-IsPlanned standings revision plan plan' j e =
    next_waiting-IsPlanned standings plan revision (candidates standings) plan' j
      (candidates-IsWaiting standings) e

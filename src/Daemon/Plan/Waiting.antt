-- ===== src/Daemon/Plan/Waiting.antt =====
-- Which candidates wait and which of them may be taken
-- (packages/daemon/src/daemon/falsification-plan.ts).
use rt_test.Base.{
  ℕ, Bool-cases, inl, inr, true, false, not, ◌||◌, Option, none, some, List, [], ◌∷◌, ◌++◌, Text,
  Bool, Dict, lookup, lookup-filter, includes, filter, Exists, All-map, All, nat_eq, list_eq,
  eq_refl, eq_iff, ◌==◌, ◌≡◌, ◌≢◌, refl, sym, ap, ◌∙◌, arith,
}
use mathlib.Core.Path.{subst}
use rt_test.Core.Evidence.{Freshness, current}
use rt_test.Core.Identity.{TestIdentity}
use rt_test.Query.States.{flat_map}
use rt_test.Query.Due.Order.{All-append}
use rt_test.Daemon.Plan.{
  Candidate, DefinitionMark, WorkspaceMark, FalsificationPlan, candidate_of, candidate, candidates,
  may_take, waits_at, held_by, is_at, JobDefinition, digest_of, forget,
}
use rt_test.Daemon.Standings.{DefectStanding, is_current_evidence}

-- No mark of a workspace or of a definition holds it at a revision.
abbrev pub IsFree : FalsificationPlan → ℕ → Text → Text → Type 0
IsFree plan revision workspace_path digest =
    ((m : WorkspaceMark) → lookup workspace_path plan.workspaces ≡ some m → m.revision ≢ revision)
    × ((m : DefinitionMark) → lookup digest plan.definitions ≡ some m → m.held_at ≢ some revision)

waits_at-free :
    (o : Option WorkspaceMark) (revision : ℕ)
    → waits_at o revision ≡ false
    → (m : WorkspaceMark) → o ≡ some m
    → m.revision ≢ revision
waits_at-free none revision h m e same = absurd (ground arith)
waits_at-free (some x) revision h m e same =
    let one : x ≡ m = cc (e) in
    let at : x.revision ≡ revision = ap (λ (r : WorkspaceMark). r.revision) one ∙ same in
    let held : x.revision == revision ≡ true = (eq_iff x.revision revision).1 at in
    absurd (ground arith)

held_by-free :
    (o : Option DefinitionMark) (revision : ℕ)
    → held_by o revision ≡ false
    → (m : DefinitionMark) → o ≡ some m
    → m.held_at ≢ some revision
held_by-free none revision h m e same = absurd (ground arith)
held_by-free (some x) revision h m e same =
    let one : x ≡ m = cc (e) in
    let at : x.held_at ≡ some revision = ap (λ (r : DefinitionMark). r.held_at) one ∙ same in
    let held : is_at x.held_at revision ≡ true = ap (λ o. is_at o revision) at ∙ eq_refl revision in
    absurd (ground arith)

may_take-IsFree :
    (plan : FalsificationPlan) (revision : ℕ) (w : Candidate)
    → may_take plan revision w ≡ true
    → IsFree plan revision w.workspace_path w.definition.digest
unfolding may_take
may_take-IsFree plan revision w h = (
  waits_at-free (lookup w.workspace_path plan.workspaces) revision (ground arith),
  held_by-free (lookup w.definition.digest plan.definitions) revision (ground arith),
)

-- A standing that is eligible and holds no current evidence has the definition's id and digest, and
-- its test is of the workspace.
abbrev pub Waits : DefectStanding → Text → JobDefinition → Type 0
Waits s workspace_path d =
    (s.eligible ≡ true)
    × (s.evidence_freshness ≢ some current)
    × (s.id ≡ some d.id)
    × (s.definition_digest ≡ some d.digest)
    × ((test : TestIdentity) × (s.resolved ≡ some test) × (test.workspace_path ≡ workspace_path))

-- A candidate is of one of the standings.
abbrev pub IsWaiting : List DefectStanding → Candidate → Type 0
IsWaiting standings w =
    Exists (λ (s : DefectStanding). Waits s w.workspace_path w.definition) standings

abbrev WaitsFor : DefectStanding → Candidate → Type 0
WaitsFor s w = Waits s w.workspace_path w.definition

candidate_of-Waits :
    (s : DefectStanding) (d i : Option Text) (r : Option TestIdentity) (m : Option (Text × Text))
    (p : Option Text)
    → s.eligible ≡ true
    → s.evidence_freshness ≢ some current
    → s.id ≡ i
    → s.definition_digest ≡ d
    → s.resolved ≡ r
    → All (WaitsFor s) (candidate_of s d i r m p)
unfolding candidate_of
candidate_of-Waits s (some d) (some i) (some r) (some m) (some p) h n e e' f =
    ((h, n, e, e', (r, f, refl)), tt)
candidate_of-Waits s none i r m p h n e e' f = tt
candidate_of-Waits s (some d) none r m p h n e e' f = tt
candidate_of-Waits s (some d) (some i) none m p h n e e' f = tt
candidate_of-Waits s (some d) (some i) (some r) none p h n e e' f = tt
candidate_of-Waits s (some d) (some i) (some r) (some m) none h n e e' f = tt

not_current_evidence : (o : Option Freshness) → is_current_evidence o ≡ false → o ≢ some current
not_current_evidence o h e = absurd (ground arith)

candidate-Waits : (s : DefectStanding) → All (WaitsFor s) (candidate s)
unfolding candidate
candidate-Waits s = elim (Bool-cases (not s.eligible || is_current_evidence s.evidence_freshness)) [
  | inl e ↦ let is : candidate s ≡ [] = rw e in subst (All (WaitsFor s)) (sym is) tt
  | inr e ↦
      let is : candidate s
          ≡ candidate_of s s.definition_digest s.id s.resolved s.mutation s.mutation_path =
        rw e in
      subst (All (WaitsFor s)) (sym is) (
        candidate_of-Waits s s.definition_digest s.id s.resolved s.mutation s.mutation_path
          (ground arith) (not_current_evidence s.evidence_freshness (ground arith)) refl refl refl)
]

pub candidates-IsWaiting :
    (standings : List DefectStanding) → All (IsWaiting standings) (candidates standings)
unfolding candidates flat_map
candidates-IsWaiting [] = tt
candidates-IsWaiting (s ∷ standings) =
    All-append (IsWaiting (s ∷ standings)) (candidate s) _
      (All-map (WaitsFor s) _ (λ w h. inl h) _ (candidate-Waits s))
      (All-map (IsWaiting standings) _ (λ w h. inr h) _ (candidates-IsWaiting standings))

includes-append_left :
    (x : Text) (xs ys : List Text) → includes x xs ≡ true → includes x (xs ++ ys) ≡ true
includes-append_left x [] ys h = absurd (ground arith)
includes-append_left x (y ∷ xs) ys h = ground (arith, includes-append_left x xs ys)

includes-append_right :
    (x : Text) (xs ys : List Text) → includes x ys ≡ true → includes x (xs ++ ys) ≡ true
includes-append_right x [] ys h = h
includes-append_right x (y ∷ xs) ys h = ground (arith, includes-append_right x xs ys)

-- The digest of a waiting candidate is one of the standings'.
includes-digest_of :
    (standings : List DefectStanding) (w : Candidate)
    → IsWaiting standings w
    → includes w.definition.digest (flat_map digest_of standings) ≡ true
unfolding flat_map
includes-digest_of [] w h = absurd h
includes-digest_of (s ∷ standings) w (inl (_, _, _, e, _)) =
    let own = eq_refl w.definition.digest in
    let is : digest_of s ≡ w.definition.digest ∷ [] = rw (e, digest_of) in
    includes-append_left w.definition.digest (digest_of s) _
      (ap (includes w.definition.digest) is ∙ (ground arith))
includes-digest_of (s ∷ standings) w (inr h) =
    includes-append_right w.definition.digest (digest_of s) _ (includes-digest_of standings w h)

-- An entry that passes a filter is found after it as before it.
lookup-filter_kept :
    (p : Text × WorkspaceMark → Bool) (k : Text) (m : Dict Text WorkspaceMark)
    (mark : WorkspaceMark)
    → lookup k m ≡ some mark
    → p (k, mark) ≡ true
    → lookup k (filter p m) ≡ some mark
unfolding lookup
lookup-filter_kept p k [] mark h e = absurd (ground arith)
lookup-filter_kept p k ((key, first) ∷ m) mark h e = elim (Bool-cases (key == k)) [
  | inl same ↦
      let one : first ≡ mark = ground arith in
      let at : key ≡ k = (eq_iff key k).0 same in
      let passes : p (key, first) ≡ true = ap p (λ i. (at i, one i)) ∙ e in
      rw passes (rw same (ap some one))
  | inr other ↦
      let rest = lookup-filter_kept p k m mark (ground arith) e in
      elim (Bool-cases (p (key, first))) [
        | inl kept ↦ rw kept (rw other rest)
        | inr gone ↦ rw gone rest
      ]
]

-- A candidate that may be taken once marks are forgotten is held by no mark of the plan before.
pub may_take-forget-IsFree :
    (standings : List DefectStanding) (plan : FalsificationPlan) (revision : ℕ) (w : Candidate)
    → IsWaiting standings w
    → may_take (forget standings revision plan) revision w ≡ true
    → IsFree plan revision w.workspace_path w.definition.digest
unfolding forget
may_take-forget-IsFree standings plan revision w waits h =
    let left = forget standings revision plan in
    let (unmarked, unheld) = may_take-IsFree left revision w h in
    (
      λ m e same.
          unmarked m
            (lookup-filter_kept _ w.workspace_path plan.workspaces m e
              ((eq_iff m.revision revision).1 same))
            same,
      λ m e same.
          unheld m
            (lookup-filter (λ (k : Text). includes k (flat_map digest_of standings))
                w.definition.digest plan.definitions
              ∙ rw (includes-digest_of standings w waits) e)
            same,
    )

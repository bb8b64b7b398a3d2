-- ===== src/Daemon/Explained/Given.antt =====
-- That the reasons named for a workspace are ones that the selection gives, and that all are counted
-- (packages/daemon/src/daemon/workspace-schedule.ts).
use rt_test.Base.{
  ℕ, ◌+◌, Bool, ◌&&◌, Bool-cases, inl, inr, true, List, [], ◌∷◌, map, Text, Dict, lookup, insert,
  length, take, distinct, without, includes, All, All-map, Exists, ltb, ◌==◌, eq_iff, eq_refl,
  nat_eq, list_eq, ◌≡◌, refl, sym, ◌∙◌, arith,
}
use mathlib.Core.Path.{subst}
use rt_test.Query.States.{flat_map}
use rt_test.Query.Due.Order.{All-append}
use rt_test.Query.Answer.{NamedList, ChoosingReason}
use rt_test.Selection.Records.{
  TriggerKind, trigger_eq, FallbackScope, BroadFallback, PathSelection, ChangedPathReport,
  SelectionCounts,
}
use rt_test.Daemon.Explained.{
  made, Index, add_choice, is_nameable, index_reasons, index_paths, choosing_reasons,
  choosing_index, choice, chosen_by_selection, trigger_of, scopes_of, key_of_fallback,
  max_explained,
}
use rt_test.Daemon.Explained.Chosen.{
  entry_of, entry_of-insert, Counts, reasons_of, choosing_index-Counts,
}

-- A selection of the workspace on a changed path has a trigger.
abbrev pub IsTriggered : Text → Text → TriggerKind → ChangedPathReport → Type 0
IsTriggered workspace path trigger report =
    (path ≡ report.path)
    × Exists
        (λ (s : PathSelection).
          (s.workspace ≡ workspace) × (includes trigger (map trigger_of s.reasons) ≡ true))
        report.selected

-- A reason is one that a changed path gives for the workspace.
abbrev pub IsGiven : Text → List ChangedPathReport → ChoosingReason → Type 0
IsGiven workspace paths reason = Exists (IsTriggered workspace reason.path reason.trigger) paths

includes-without :
    (t x : TriggerKind) (xs : List TriggerKind)
    → includes t (without x xs) ≡ true
    → includes t xs ≡ true
includes-without t x [] h = h
includes-without t x (y ∷ xs) h = ground (arith, includes-without t x xs)

includes-distinct :
    (t : TriggerKind) (xs : List TriggerKind)
    → includes t (distinct xs) ≡ true
    → includes t xs ≡ true
includes-distinct t [] h = h
includes-distinct t (x ∷ xs) h =
    ground (arith, includes-without t x (distinct xs), includes-distinct t xs)

-- What holds of the reasons chosen for a workspace.
abbrev OfWorkspace : Text → (ChoosingReason → Type 0) → Text × ChoosingReason → Type 0
OfWorkspace workspace P chosen = chosen.0 ≡ workspace → P chosen.1

module _ (workspace : Text) (P : ChoosingReason → Type 0) where
  abbrev AllNamed : Index → Type 0
  AllNamed index = All P (entry_of workspace index).named

  add_choice-AllNamed :
      (nameable : Bool) (reason : ChoosingReason) (entry : NamedList ChoosingReason)
      → P reason
      → All P entry.named
      → All P (add_choice nameable reason entry).named
  unfolding add_choice
  add_choice-AllNamed nameable reason entry p h =
      elim (Bool-cases (nameable && ltb (length entry.named) 3)) [
        | inl e ↦ rw e (All-append P entry.named (reason ∷ []) h (p, tt))
        | inr e ↦ rw e h
      ]

  index_reasons-AllNamed :
      (named : List Text) (position : ℕ) (chosen : List (Text × ChoosingReason)) (index : Index)
      → All (OfWorkspace workspace P) chosen
      → AllNamed index
      → AllNamed (index_reasons named position chosen index)
  unfolding index_reasons
  index_reasons-AllNamed named position [] index p h = h
  index_reasons-AllNamed named position ((w, reason) ∷ chosen) index (p, ps) h =
      let nameable = is_nameable named position reason in
      let entry = add_choice nameable reason (entry_of w index) in
      let is = entry_of-insert w workspace entry index in
      index_reasons-AllNamed named position chosen (insert w entry index) ps
        (elim (Bool-cases (w == workspace)) [
          | inl e ↦
              let same = (eq_iff w workspace).0 e in
              let now : entry_of workspace (insert w entry index) ≡ entry = is ∙ rw e refl in
              subst (λ x. All P x.named) (sym now)
                (add_choice-AllNamed nameable reason (entry_of w index) (p same)
                  (subst (λ k. All P (entry_of k index).named) (sym same) h))
          | inr e ↦
              let now : entry_of workspace (insert w entry index) ≡ entry_of workspace index =
                is ∙ rw e refl in
              subst (λ x. All P x.named) (sym now) h
        ])

  index_paths-AllNamed :
      (named : List Text) (scopes : Dict Text FallbackScope) (position : ℕ)
      (paths : List ChangedPathReport) (index : Index)
      → All
          (λ (report : ChangedPathReport).
            All (OfWorkspace workspace P) (choosing_reasons report scopes))
          paths
      → AllNamed index
      → AllNamed (index_paths named scopes position paths index)
  unfolding index_paths
  index_paths-AllNamed named scopes position [] index p h = h
  index_paths-AllNamed named scopes position (report ∷ paths) index (p, ps) h =
      index_paths-AllNamed named scopes (position + 1) paths _ ps
        (index_reasons-AllNamed named position (choosing_reasons report scopes) index p h)

module _ (workspace path : Text) (scopes : Dict Text FallbackScope) where
  -- A reason names the path, and a selection of the workspace has its trigger.
  abbrev BySelection : List PathSelection → ChoosingReason → Type 0
  BySelection selected reason =
      (reason.path ≡ path)
      × Exists
          (λ (s : PathSelection).
            (s.workspace ≡ workspace) × (includes reason.trigger (map trigger_of s.reasons) ≡ true))
          selected

  choice-BySelection :
      (s : PathSelection) (selected : List PathSelection) (triggers : List TriggerKind)
      → ((t : TriggerKind)
          → includes t triggers ≡ true
          → includes t (map trigger_of s.reasons) ≡ true)
      → All
          (OfWorkspace workspace (BySelection (s ∷ selected)))
          (map (choice path scopes s.workspace) triggers)
  unfolding choice
  choice-BySelection s selected [] f = tt
  choice-BySelection s selected (t ∷ triggers) f =
      let own = eq_refl t in
      (
        λ same. (refl, inl (same, f t (ground arith))),
        choice-BySelection s selected triggers (λ u h. f u (ground arith)),
      )

  selected-BySelection :
      (selected : List PathSelection)
      → All
          (OfWorkspace workspace (BySelection selected))
          (flat_map (chosen_by_selection path scopes) selected)
  unfolding flat_map
  selected-BySelection [] = tt
  selected-BySelection (s ∷ selected) =
      All-append _ (chosen_by_selection path scopes s) _
        (choice-BySelection s selected (distinct (map trigger_of s.reasons))
          (λ t. includes-distinct t (map trigger_of s.reasons)))
        (All-map (OfWorkspace workspace (BySelection selected)) _
          (λ chosen h same. let (at, later) = h same in (at, inr later)) _
          (selected-BySelection selected))

choosing_reasons-IsGiven :
    (workspace : Text) (scopes : Dict Text FallbackScope) (paths : List ChangedPathReport)
    → All
        (λ (report : ChangedPathReport).
          All (OfWorkspace workspace (IsGiven workspace paths)) (choosing_reasons report scopes))
        paths
unfolding choosing_reasons
choosing_reasons-IsGiven workspace scopes [] = tt
choosing_reasons-IsGiven workspace scopes (report ∷ paths) = (
  All-map (OfWorkspace workspace (BySelection workspace report.path scopes report.selected)) _
      (λ chosen h same. inl (h same)) _
      (selected-BySelection workspace report.path scopes report.selected),
  All-map _ _
      (λ (other : ChangedPathReport) every.
        All-map (OfWorkspace workspace (IsGiven workspace paths)) _ (λ chosen h same. inr (h same))
          _ every)
      paths (choosing_reasons-IsGiven workspace scopes paths),
)

-- For each workspace, every reason that the selection gives for it, which is one for each changed
-- path, each selection of the workspace there and each of that selection's triggers once, is named or
-- counted. No more than 3 are named, and each that is names a changed path and a trigger by which the
-- workspace was selected there.
pub choosing_index-IsGiven :
    (revision : ℕ) (paths : List ChangedPathReport) (fallbacks : List BroadFallback)
    (counts : SelectionCounts) (workspace : Text)
    → Counts workspace
        (reasons_of workspace paths)
        (choosing_index (made revision paths fallbacks counts))
      × All
          (IsGiven workspace paths)
          (entry_of workspace (choosing_index (made revision paths fallbacks counts))).named
unfolding choosing_index lookup
choosing_index-IsGiven revision paths fallbacks counts workspace = (
  choosing_index-Counts revision paths fallbacks counts workspace,
  index_paths-AllNamed workspace (IsGiven workspace paths)
      (map key_of_fallback (take max_explained fallbacks)) (scopes_of fallbacks) 0 paths []
      (choosing_reasons-IsGiven workspace (scopes_of fallbacks) paths) tt,
)

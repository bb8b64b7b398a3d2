-- ===== src/Daemon/Explained/Chosen.antt =====
-- That the reasons a selection chose a workspace for are all counted
-- (packages/daemon/src/daemon/workspace-schedule.ts).
use rt_test.Base.{
  ℕ, suc, ◌+◌, ◌≤◌, Bool, ◌&&◌, Bool-cases, inl, inr, List, [], ◌∷◌, ◌++◌, map, Text, Dict, lookup,
  insert, lookup-insert, length, length-append, distinct, take, ltb, or_default, ◌==◌, eq_iff,
  nat_eq, list_eq, if◌then◌else◌, ◌≡◌, refl, sym, ap, ◌∙◌, arith,
}
use mathlib.Core.Path.{subst}
use rt_test.Query.States.{flat_map}
use rt_test.Query.Answer.{NamedList, ChoosingReason}
use rt_test.Selection.Records.{
  TriggerKind, trigger_eq, FallbackScope, BroadFallback, PathSelection, ChangedPathReport,
  SelectionCounts,
}
use rt_test.Daemon.Explained.{
  made, Index, no_choices, add_choice, is_nameable, index_reasons, index_paths, choosing_reasons,
  choosing_index, choice, chosen_by_selection, trigger_of, scopes_of, key_of_fallback,
  max_explained,
}

-- How many of the chosen name a workspace.
unfoldable pub choices_of : Text → List (Text × ChoosingReason) → ℕ
choices_of workspace [] = 0
choices_of workspace ((w, _) ∷ chosen) =
    if w == workspace then suc (choices_of workspace chosen) else choices_of workspace chosen

-- What an index holds of a workspace.
abbrev pub entry_of : Text → Index → NamedList ChoosingReason
entry_of workspace index = or_default (lookup workspace index) no_choices

abbrev pub total : NamedList ChoosingReason → ℕ
total entry = length entry.named + entry.more

-- No more are named than the bound, and each is named or counted.
pub record Counts (workspace : Text) (n : ℕ) (index : Index) : Type 0 where
  pub all_counted : total (entry_of workspace index) ≡ n
  pub few_named : length (entry_of workspace index).named ≤ 3

add_choice-total :
    (nameable : Bool) (reason : ChoosingReason) (entry : NamedList ChoosingReason)
    → (total (add_choice nameable reason entry) ≡ total entry + 1)
      × (length entry.named ≤ 3 → length (add_choice nameable reason entry).named ≤ 3)
unfolding add_choice
add_choice-total nameable reason entry =
    let added = length-append entry.named (reason ∷ []) in
    elim (Bool-cases (nameable && ltb (length entry.named) 3)) [
      | inl e ↦ (rw e (omega arith), λ h. rw e (ground arith))
      | inr e ↦ (rw e (omega arith), λ h. rw e h)
    ]

pub entry_of-insert :
    (set workspace : Text) (entry : NamedList ChoosingReason) (index : Index)
    → entry_of workspace (insert set entry index)
      ≡ (if set == workspace then entry else entry_of workspace index)
entry_of-insert set workspace entry index = elim (Bool-cases (set == workspace)) [
  | inl e ↦
      let is = lookup-insert set workspace entry index in
      ap (λ o. or_default o no_choices) is ∙ rw e
  | inr e ↦
      let is = lookup-insert set workspace entry index in
      ap (λ o. or_default o no_choices) is ∙ rw e
]

insert-Counts :
    (workspace w : Text) (nameable : Bool) (reason : ChoosingReason) (n : ℕ) (index : Index)
    → Counts workspace n index
    → Counts workspace
        (if w == workspace then n + 1 else n)
        (insert w (add_choice nameable reason (entry_of w index)) index)
insert-Counts workspace w nameable reason n index h =
    let is = entry_of-insert w workspace (add_choice nameable reason (entry_of w index)) index in
    let counted = h.all_counted in
    elim (Bool-cases (w == workspace)) [
      | inl e ↦
          let here : entry_of w index ≡ entry_of workspace index =
            ap (λ x. entry_of x index) ((eq_iff w workspace).0 e) in
          let (more, few) = add_choice-total nameable reason (entry_of w index) in
          let now : entry_of workspace
                (insert w (add_choice nameable reason (entry_of w index)) index)
              ≡ add_choice nameable reason (entry_of w index) =
            is ∙ rw e refl in
          record {
            all_counted = ap total now ∙ more ∙ ap (λ x. total x + 1) here ∙ rw e (omega arith);
            few_named =
                subst (λ x. length x.named ≤ 3) (sym now)
                  (few (subst (λ x. length x.named ≤ 3) (sym here) h.few_named));
          }
      | inr e ↦
          let now : entry_of workspace
                (insert w (add_choice nameable reason (entry_of w index)) index)
              ≡ entry_of workspace index =
            is ∙ rw e refl in
          record {
            all_counted = ap total now ∙ rw e counted;
            few_named = subst (λ x. length x.named ≤ 3) (sym now) h.few_named;
          }
    ]

index_reasons-Counts :
    (workspace : Text) (named : List Text) (position : ℕ) (chosen : List (Text × ChoosingReason))
    (n : ℕ) (index : Index)
    → Counts workspace n index
    → Counts workspace (n + choices_of workspace chosen) (index_reasons named position chosen index)
unfolding index_reasons choices_of
index_reasons-Counts workspace named position [] n index h = record {
  all_counted = let is = h.all_counted in omega arith;
  few_named = h.few_named;
}
index_reasons-Counts workspace named position ((w, reason) ∷ chosen) n index h =
    let nameable = is_nameable named position reason in
    let entered = insert w (add_choice nameable reason (entry_of w index)) index in
    let rest =
      index_reasons-Counts workspace named position chosen (if w == workspace then n + 1 else n)
        entered (insert-Counts workspace w nameable reason n index h) in
    subst (λ m. Counts workspace m (index_reasons named position chosen entered)) (ground arith)
      rest

-- Every reason that the changed paths chose workspaces for, in their order.
abbrev pub all_choices :
    Dict Text FallbackScope → List ChangedPathReport → List (Text × ChoosingReason)
all_choices scopes = flat_map (λ (report : ChangedPathReport). choosing_reasons report scopes)

choices_of-append :
    (workspace : Text) (xs ys : List (Text × ChoosingReason))
    → choices_of workspace (xs ++ ys) ≡ choices_of workspace xs + choices_of workspace ys
unfolding choices_of
choices_of-append workspace [] ys = omega arith
choices_of-append workspace ((w, r) ∷ xs) ys = ground (arith, choices_of-append workspace xs ys)

index_paths-Counts :
    (workspace : Text) (named : List Text) (scopes : Dict Text FallbackScope) (position : ℕ)
    (paths : List ChangedPathReport) (n : ℕ) (index : Index)
    → Counts workspace n index
    → Counts workspace
        (n + choices_of workspace (all_choices scopes paths))
        (index_paths named scopes position paths index)
unfolding index_paths flat_map choices_of
index_paths-Counts workspace named scopes position [] n index h = record {
  all_counted = let is = h.all_counted in omega arith;
  few_named = h.few_named;
}
index_paths-Counts workspace named scopes position (report ∷ reports) n index h =
    let chosen = choosing_reasons report scopes in
    let first = index_reasons-Counts workspace named position chosen n index h in
    let rest =
      index_paths-Counts workspace named scopes (position + 1) reports _
        (index_reasons named position chosen index) first in
    let split = choices_of-append workspace chosen (all_choices scopes reports) in
    subst
      (λ m. Counts workspace m (
        index_paths named scopes (position + 1) reports
          (index_reasons named position chosen index)))
      (omega arith) rest

-- How many reasons a changed path gives for a workspace: the triggers of each selection of it, each
-- trigger once.
unfoldable pub triggers_of : Text → List PathSelection → ℕ
triggers_of workspace [] = 0
triggers_of workspace (s ∷ selected) =
    let others = triggers_of workspace selected in
    if s.workspace == workspace
    then length (distinct (map trigger_of s.reasons)) + others
    else others

-- How many reasons the changed paths give for a workspace.
unfoldable pub reasons_of : Text → List ChangedPathReport → ℕ
reasons_of workspace [] = 0
reasons_of workspace (report ∷ reports) =
    triggers_of workspace report.selected + reasons_of workspace reports

choices_of-map :
    (workspace path w : Text) (scopes : Dict Text FallbackScope) (triggers : List TriggerKind)
    → choices_of workspace (map (choice path scopes w) triggers)
      ≡ (if w == workspace then length triggers else 0)
unfolding choices_of choice
choices_of-map workspace path w scopes [] = ground arith
choices_of-map workspace path w scopes (t ∷ triggers) =
    ground (arith, choices_of-map workspace path w scopes triggers)

choices_of-selected :
    (workspace path : Text) (scopes : Dict Text FallbackScope) (selected : List PathSelection)
    → choices_of workspace (flat_map (chosen_by_selection path scopes) selected)
      ≡ triggers_of workspace selected
unfolding choices_of triggers_of flat_map
choices_of-selected workspace path scopes [] = refl
choices_of-selected workspace path scopes (s ∷ selected) =
    let first =
      choices_of-map workspace path s.workspace scopes (distinct (map trigger_of s.reasons)) in
    let split =
      choices_of-append workspace (chosen_by_selection path scopes s)
        (flat_map (chosen_by_selection path scopes) selected) in
    ground (arith, first, split, choices_of-selected workspace path scopes selected)

all_choices-reasons_of :
    (workspace : Text) (scopes : Dict Text FallbackScope) (reports : List ChangedPathReport)
    → choices_of workspace (all_choices scopes reports) ≡ reasons_of workspace reports
unfolding choices_of reasons_of flat_map choosing_reasons
all_choices-reasons_of workspace scopes [] = refl
all_choices-reasons_of workspace scopes (report ∷ reports) =
    let split =
      choices_of-append workspace (choosing_reasons report scopes) (all_choices scopes reports) in
    let first = choices_of-selected workspace report.path scopes report.selected in
    omega (arith, split, first, all_choices-reasons_of workspace scopes reports)

-- For each workspace, every reason that the selection gives for it, which is one for each changed
-- path, each selection of the workspace there and each of that selection's triggers once, is named or
-- counted, and no more than 3 are named.
pub choosing_index-Counts :
    (revision : ℕ) (paths : List ChangedPathReport) (fallbacks : List BroadFallback)
    (counts : SelectionCounts) (workspace : Text)
    → Counts workspace
        (reasons_of workspace paths)
        (choosing_index (made revision paths fallbacks counts))
unfolding choosing_index lookup
choosing_index-Counts revision paths fallbacks counts workspace =
    let named = map key_of_fallback (take max_explained fallbacks) in
    let none_yet : Counts workspace 0 [] = record { all_counted = refl; few_named = omega arith } in
    let counted = index_paths-Counts workspace named (scopes_of fallbacks) 0 paths 0 [] none_yet in
    subst (λ m. Counts workspace m (index_paths named (scopes_of fallbacks) 0 paths []))
      (omega (arith, all_choices-reasons_of workspace (scopes_of fallbacks) paths)) counted

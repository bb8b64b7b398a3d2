-- ===== src/Daemon/Changes/Kept.antt =====
-- That no edit is lost (packages/daemon/src/daemon/change-record.ts).
use rt_test.Base.{
  Bool-cases, inl, inr, ◌⊎◌, Bool, true, false, List, [], ◌∷◌, ◌++◌, Text, includes, nat_eq,
  list_eq, eq_iff, ◌==◌, ◌≡◌, sym, ap, ◌∙◌, arith,
}
use mathlib.Core.Path.{subst}
use rt_test.Daemon.Changes.{
  ChangeSets, add_text, counts, add_edit, add_edits, edited_everywhere, with_edits,
}
use rt_test.Daemon.Changes.Held.{includes-append}
use rt_test.Daemon.Changes.Bound.{counts-by_jobs}

-- A path counts as an edit: by itself, or since an edit reaches every input.
abbrev pub IsEdit : Text → ChangeSets → Type 0
IsEdit q sets = (sets.everywhere ≡ true) ⊎ (includes q sets.edits ≡ true)

counts-full :
    (path : Text) (sets : ChangeSets)
    → (counts path sets).0 ≡ false
    → (counts path sets).1.everywhere ≡ true
unfolding counts edited_everywhere
counts-full path sets h = ground arith

counts-everywhere :
    (path : Text) (sets : ChangeSets) → sets.everywhere ≡ true → counts path sets ≡ (false, sets)
unfolding counts
counts-everywhere path sets h = rw h

includes-add_text :
    (q path : Text) (edits : List Text)
    → (includes q edits ≡ true) ⊎ (q ≡ path)
    → includes q (add_text path edits) ≡ true
includes-add_text q path edits h = elim (Bool-cases (includes path edits)) [
  | inl e ↦
      let is : add_text path edits ≡ edits = rw e in
      ap (includes q) is ∙ elim h [ inl k ↦ k | inr same ↦ ap (λ x. includes x edits) same ∙ e ]
  | inr e ↦
      let is : add_text path edits ≡ edits ++ path ∷ [] = rw e in
      ap (includes q) is ∙ includes-append q edits (path ∷ []) ∙ elim h [
        | inl k ↦ ground (arith, k)
        | inr same ↦ let t = (eq_iff q path).1 same in ground (arith, t)
      ]
]

add_edit-IsEdit :
    (path q : Text) (sets : ChangeSets) → IsEdit q sets ⊎ (q ≡ path) → IsEdit q (add_edit path sets)
unfolding add_edit
add_edit-IsEdit path q sets h = elim (Bool-cases (includes path sets.edits)) [
  | inl e ↦
      let is : add_edit path sets ≡ sets = rw e in
      subst (IsEdit q) (sym is)
        (elim h [ inl k ↦ k | inr same ↦ inr (ap (λ x. includes x sets.edits) same ∙ e) ])
  | inr e ↦ elim (Bool-cases (counts path sets).0) [
    | inr full ↦
        let is : add_edit path sets ≡ (counts path sets).1 = rw (e, full) in
        subst (IsEdit q) (sym is) (inl (counts-full path sets full))
    | inl ok ↦
        let sets' = (counts path sets).1 in
        let is : add_edit path sets ≡ with_edits (add_text path sets'.edits) sets' = rw (e, ok) in
        let same_edits : sets'.edits ≡ sets.edits = (counts-by_jobs path sets ok).1 in
        subst (IsEdit q) (sym is) (elim h [
          | inl (inl every) ↦
              let full = ap (λ (r : Bool × ChangeSets). r.0) (counts-everywhere path sets every) in
              absurd (ground (arith, full))
          | inl (inr k) ↦
              inr (includes-add_text q path sets'.edits (inl (ap (includes q) same_edits ∙ k)))
          | inr same ↦ inr (includes-add_text q path sets'.edits (inr same))
        ])
  ]
]

-- No edit is lost: each path that was an edit, and each that is added, counts as an edit after,
-- though adding stops once an edit counts as reaching every input.
pub add_edits-IsEdit :
    (paths : List Text) (q : Text) (sets : ChangeSets)
    → IsEdit q sets ⊎ (includes q paths ≡ true)
    → IsEdit q (add_edits paths sets)
unfolding add_edits
add_edits-IsEdit [] q sets (inl k) = k
add_edits-IsEdit [] q sets (inr k) = absurd (ground arith)
add_edits-IsEdit (path ∷ paths) q sets h = elim (Bool-cases (add_edit path sets).everywhere) [
  | inl e ↦
      let is : add_edits (path ∷ paths) sets ≡ add_edit path sets = rw e in
      subst (IsEdit q) (sym is) (inl e)
  | inr e ↦
      let is : add_edits (path ∷ paths) sets ≡ add_edits paths (add_edit path sets) = rw e in
      subst (IsEdit q) (sym is) (add_edits-IsEdit paths q (add_edit path sets) (next_case h))
]
  where
    next_case :
        IsEdit q sets ⊎ (includes q (path ∷ paths) ≡ true)
        → IsEdit q (add_edit path sets) ⊎ (includes q paths ≡ true)
    next_case (inl k) = inl (add_edit-IsEdit path q sets (inl k))
    next_case (inr k) = elim (Bool-cases (q == path)) [
      | inl same ↦ inl (add_edit-IsEdit path q sets (inr ((eq_iff q path).0 same)))
      | inr other ↦ inr (ground (arith, other))
    ]

-- ===== src/Daemon/Waits/Changed.antt =====
-- Which paths `changedSince` names (packages/daemon/src/daemon/waits.ts).
use rt_test.Base.{
  Bool, true, ◌||◌, Option, none, some, List, [], ◌∷◌, Text, includes, lookup, eq_refl, nat_eq,
  list_eq, ◌≡◌, ◌≢◌, ◌↔◌, refl, sym, ◌∙◌, arith,
}
use rt_test.Daemon.Record.{InputDigests, keys, add_texts}
use rt_test.Daemon.Waits.{
  Coverage, Bound, Change, differing, differing_since, is_uncovered, change_of, changed_since,
}
use rt_test.Daemon.Waits.Differing.{
  includes-differing, watches, includes-differing_inputs, differs-keyed, any_iff, includes-both,
  differs_iff,
}

-- A path is an input of a workspace covering the files at either revision. Every path counts while
-- the bound revision's coverage is not known, and none while the later one's is not.
abbrev pub Watched : Option Coverage → Option Coverage → Text → Type 0
Watched none now path = Unit
Watched (some covered) none path = ⊥
Watched (some covered) (some now) path =
    (workspace : Text) × ((includes workspace covered.workspaces
        || includes workspace now.workspaces)
      ≡ true)
    × ((includes path (covered.input_paths workspace) || includes path (now.input_paths workspace))
        ≡ true)

abbrev pub Names : Option Change → Text → Type 0
Names none path = ⊥
Names (some change) path = includes path change.paths ≡ true

module _ (bound : Bound) (snapshot : InputDigests) where
  -- A watched path that the two snapshots hold differently.
  abbrev pub Changed : Option Coverage → Option Coverage → Text → Type 0
  Changed covered now path =
      (lookup path bound.snapshot ≢ lookup path snapshot) × Watched covered now path

  differing_since-includes_iff :
      (covered now : Option Coverage) (path : Text)
      → (includes path (differing_since bound.snapshot snapshot covered now) ≡ true)
        ↔ Changed covered now path
  unfolding differing_since
  differing_since-includes_iff none now path =
      let before = bound.snapshot in
      let first = includes-differing before snapshot path (keys before) [] in
      let last =
        includes-differing before snapshot path (keys snapshot)
          (differing before snapshot (keys before) []) in
      (
        λ h. ((differs_iff before snapshot path).0 (ground arith), tt),
        λ (apart, _).
            let d = (differs_iff before snapshot path).1 apart in
            let keyed = differs-keyed before snapshot path d in ground arith,
      )
  differing_since-includes_iff (some covered) none path =
      (λ h. absurd (ground arith), λ (_, h). absurd h)
  differing_since-includes_iff (some covered) (some now) path =
      let before = bound.snapshot in
      let workspaces = add_texts now.workspaces (add_texts covered.workspaces []) in
      let is = includes-differing_inputs before snapshot path covered now workspaces [] in
      let watching = watches before snapshot path covered now in
      (
        λ h.
            let (workspace, among, seen) = (any_iff watching workspaces).0 (ground arith) in
            (
              (differs_iff before snapshot path).0 (ground arith),
              (
                workspace,
                sym (includes-both workspace covered.workspaces now.workspaces) ∙ among,
                seen,
              ),
            ),
        λ (apart, (workspace, among, seen)).
            let d = (differs_iff before snapshot path).1 apart in
            let some_watches = (any_iff watching workspaces).1 (
              workspace,
              includes-both workspace covered.workspaces now.workspaces ∙ among,
              seen,
            ) in
            ground arith,
      )

change_of-Names_iff :
    (paths : List Text) (every_workspace : Bool) (path : Text)
    → Names (change_of paths every_workspace) path ↔ (includes path paths ≡ true)
change_of-Names_iff [] every_workspace path = (λ h. absurd h, λ h. absurd (ground arith))
change_of-Names_iff (_ ∷ _) every_workspace path = (λ h. h, λ h. h)

change_of-none_iff :
    (paths : List Text) (every_workspace : Bool)
    → (change_of paths every_workspace ≡ none)
      ↔ ((path : Text) → ¬ Names (change_of paths every_workspace) path)
change_of-none_iff [] every_workspace = (λ _ _ h. h, λ _. refl)
change_of-none_iff (first ∷ paths) every_workspace =
    (λ h. absurd (ground arith), λ h. let here = eq_refl first in absurd (h first (ground arith)))

-- What changed since the bound revision names exactly the watched paths that one of the two
-- snapshots alone holds or that they hold with different digests, and it is undefined exactly when
-- there is no such path.
pub changed_since-Names :
    (covered now : Option Coverage) (bound : Bound) (snapshot : InputDigests)
    → ((path : Text)
        → Names (changed_since covered bound snapshot now) path
          ↔ Changed bound snapshot covered now path)
      × ((changed_since covered bound snapshot now ≡ none)
          ↔ ((path : Text) → ¬ Changed bound snapshot covered now path))
unfolding changed_since
changed_since-Names covered now bound snapshot =
    let paths = differing_since bound.snapshot snapshot covered now in
    let named : (path : Text)
        → Names (change_of paths (is_uncovered covered)) path
          ↔ Changed bound snapshot covered now path =
      λ path.
        let (out, back) = change_of-Names_iff paths (is_uncovered covered) path in
        let (to, from) = differing_since-includes_iff bound snapshot covered now path in
        (λ h. to (out h), λ h. back (from h)) in
    let (empty, nothing) = change_of-none_iff paths (is_uncovered covered) in
    (
      named,
      (
        λ e path h. empty e path ((named path).1 h),
        λ h. nothing (λ path n. h path ((named path).0 n)),
      ),
    )

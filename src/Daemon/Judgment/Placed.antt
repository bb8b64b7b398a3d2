-- ===== src/Daemon/Judgment/Placed.antt =====
-- Which changed paths lie outside a workspace's inputs (packages/daemon/src/daemon/run-judgment.ts).
use rt_test.Base.{
  Bool, true, false, ◌&&◌, Bool-cases, Option-cases, inl, inr, Option, none, some, List, [], ◌∷◌,
  ◌++◌, filter, filter-nil_iff, Text, includes, ◌==◌, eq_iff, eq_refl, nat_eq, list_eq, All, ◌≡◌,
  ◌↔◌, refl, sym, ap, ◌∙◌, arith,
}
use mathlib.Core.Path.{subst}
use rt_test.Daemon.Record.{add_texts}
use rt_test.Daemon.Judgment.{
  PathPlacement, ChangePlacement, narrowed_placement, widened_placement, PathsInside, add_placed,
  place_all, keep_placed, listed_among, place_for,
}
use rt_test.Daemon.Record.Added.{includes-append_iff, includes-add_texts_iff}

abbrev inside_of : Option PathsInside → List Text
inside_of none = []
inside_of (some sets) = sets.inside

module _ (paths : List Text) (workspace_path : Text) where
  -- A placement that answers for the changed paths.
  abbrev pub Answers : ChangePlacement → Type 0
  Answers widened_placement = Unit
  Answers (narrowed_placement build) =
      (placed : PathPlacement) × (build.place paths workspace_path ≡ some placed)

  -- A placement that leaves a path outside the workspace's inputs.
  abbrev pub LeavesOut : Text → ChangePlacement → Type 0
  LeavesOut path widened_placement = ⊥
  LeavesOut path (narrowed_placement build) =
      (placed : PathPlacement) × (build.place paths workspace_path ≡ some placed)
      × (includes path placed.inside ≡ false)
      × (includes path placed.widened ≡ false)

  pub place_all-Answers :
      (listed : List Text) (placements : List ChangePlacement) (sets result : PathsInside)
      → place_all paths workspace_path listed placements sets ≡ some result
      → All Answers placements
  unfolding place_all
  place_all-Answers listed [] sets result h = tt
  place_all-Answers listed (widened_placement ∷ placements) sets result h =
      (tt, place_all-Answers listed placements _ result h)
  place_all-Answers listed (narrowed_placement build ∷ placements) sets result h =
      elim (Option-cases (build.place paths workspace_path)) [
        | inl n ↦ absurd (ground arith)
        | inr (placed, n) ↦ (
          (placed, n),
          place_all-Answers listed placements (add_placed listed placed sets) result
              (sym (rw (n, place_all) refl) ∙ h),
        )
      ]

  pub place_all-some :
      (listed : List Text) (placements : List ChangePlacement) (sets : PathsInside)
      → All Answers placements
      → (result : PathsInside) × (place_all paths workspace_path listed placements sets
          ≡ some result)
  unfolding place_all
  place_all-some listed [] sets h = (sets, refl)
  place_all-some listed (widened_placement ∷ placements) sets (_, h) =
      place_all-some listed placements _ h
  place_all-some listed (narrowed_placement build ∷ placements) sets ((placed, n), h) =
      let (result, e) = place_all-some listed placements (add_placed listed placed sets) h in
      (result, rw (n, place_all) e)

  pub place_all-inside_iff :
      (path : Text) (listed : List Text) (placements : List ChangePlacement)
      (sets result : PathsInside)
      → includes path paths ≡ true
      → includes path listed ≡ false
      → place_all paths workspace_path listed placements sets ≡ some result
      → (includes path result.inside ≡ false)
        ↔ ((includes path sets.inside ≡ false) × All (LeavesOut path) placements)
  unfolding place_all
  place_all-inside_iff path listed [] sets result m l h =
      let same : sets.inside ≡ result.inside = ap (λ o. inside_of o) h in
      (λ k. (ap (includes path) same ∙ k, tt), λ (k, _). ap (includes path) (sym same) ∙ k)
  place_all-inside_iff path listed (widened_placement ∷ placements) sets result m l h =
      let rest =
        place_all-inside_iff path listed placements
          (record sets { inside = add_texts paths sets.inside }) result m l h in
      (
        λ k.
            let all_of = ((includes-add_texts_iff path paths sets.inside).0 (rest.0 k).0).1 in
            absurd (ground arith),
        λ (_, (never, _)). absurd never,
      )
  place_all-inside_iff path listed (narrowed_placement build ∷ placements) sets result m l h =
      elim (Option-cases (build.place paths workspace_path)) [
        | inl n ↦ absurd (ground arith)
        | inr (placed, n) ↦
            let rest =
              place_all-inside_iff path listed placements (add_placed listed placed sets) result m l
                (sym (rw (n, place_all) refl) ∙ h) in
            let with_widened =
              includes-add_texts_iff path placed.widened
                (add_texts (placed.inside ++ listed) sets.inside) in
            let with_inside = includes-add_texts_iff path (placed.inside ++ listed) sets.inside in
            let split = includes-append_iff path placed.inside listed in
            (
              λ k.
                  let (first, others) = rest.0 k in
                  let (more, widened) = with_widened.0 first in
                  let (left, both) = with_inside.0 more in
                  (left, ((placed, n, (split.0 both).0, widened), others)),
              λ (left, ((other, n', inside, widened), others)).
                  let one : other ≡ placed = cc in
                  let (inside', widened') =
                    subst
                      (λ (x : PathPlacement).
                        (includes path x.inside ≡ false) × (includes path x.widened ≡ false))
                      one (inside, widened) in
                  rest.1
                    (with_widened.1 (with_inside.1 (left, split.1 (inside', l)), widened'), others),
            )
      ]

  -- What is inside stays inside.
  pub place_all-grows :
      (path : Text) (listed : List Text) (placements : List ChangePlacement)
      (sets result : PathsInside)
      → place_all paths workspace_path listed placements sets ≡ some result
      → includes path result.inside ≡ false
      → includes path sets.inside ≡ false
  unfolding place_all
  place_all-grows path listed [] sets result h k = ap (λ o. includes path (inside_of o)) h ∙ k
  place_all-grows path listed (widened_placement ∷ placements) sets result h k =
      ((includes-add_texts_iff path paths sets.inside).0
        (place_all-grows path listed placements _ result h k)).0
  place_all-grows path listed (narrowed_placement build ∷ placements) sets result h k =
      elim (Option-cases (build.place paths workspace_path)) [
        | inl n ↦ absurd (ground arith)
        | inr (placed, n) ↦
            let more =
              place_all-grows path listed placements (add_placed listed placed sets) result
                (sym (rw (n, place_all) refl) ∙ h) k in
            ((includes-add_texts_iff path (placed.inside ++ listed) sets.inside).0
              ((includes-add_texts_iff path placed.widened
                  (add_texts (placed.inside ++ listed) sets.inside)).0
                more).0).0
      ]

includes-filter :
    (p : Text) (q : Text → Bool) (xs : List Text)
    → includes p (filter q xs) ≡ (includes p xs && q p)
includes-filter p q [] = refl
includes-filter p q (x ∷ xs) =
    let rest = includes-filter p q xs in
    elim (Bool-cases (p == x)) [
      | inl e ↦ let same = ap q ((eq_iff p x).0 e) in ground arith
      | inr e ↦ ground arith
    ]

All-map_in {κ μ} :
    (P : Text → Type κ) (Q : Text → Type μ) (xs : List Text)
    → ((p : Text) → includes p xs ≡ true → P p → Q p)
    → All P xs
    → All Q xs
All-map_in P Q [] f h = tt
All-map_in P Q (x ∷ xs) f (h, hs) =
    (f x (let same = eq_refl x in ground arith) h, All-map_in P Q xs (λ p m. f p (ground arith)) hs)

module _ (comparable : Text → Text) (workspace_path : Text) (listed_files : List Text) where
  -- A changed path that the discovery does not list and every placement leaves out.
  abbrev pub IsOutside : List Text → List ChangePlacement → Text → Type 0
  IsOutside paths placements path =
      (includes (comparable path) listed_files ≡ false)
      × All (LeavesOut paths workspace_path path) placements

  -- No changed path is inside exactly when every placement answers and every path is outside.
  pub place_for-nil_iff :
      (paths : List Text) (placements : List ChangePlacement)
      → ((placed : PathsInside) × (place_for comparable paths workspace_path listed_files placements
            ≡ some placed)
          × (placed.inside ≡ []))
        ↔ (All (Answers paths workspace_path) placements × All (IsOutside paths placements) paths)
  unfolding place_for
  place_for-nil_iff paths placements =
      let listed = listed_among comparable listed_files paths in
      let start : PathsInside = record { inside = add_texts listed []; narrowed = [] } in
      let run = place_all paths workspace_path listed placements start in
      let is_listed =
        λ (p : Text). includes-filter p (λ q. includes (comparable q) listed_files) paths in
      elim (Option-cases run) [
        | inl n ↦ (
          λ (placed, e, _). absurd (ground arith),
          λ (answers, _).
              let (result, e) =
                place_all-some paths workspace_path listed placements start answers in
              absurd (ground arith),
        )
        | inr (sets, n) ↦
            let is : place_for comparable paths workspace_path listed_files placements
                ≡ some (keep_placed paths sets) =
              rw (n, place_for) in
            let empty = filter-nil_iff (λ (p : Text). includes p sets.inside) paths in
            (
              λ (placed, e, none_in).
                  let same : keep_placed paths sets ≡ placed = cc in
                  let none_of = empty.0 (ap (λ (x : PathsInside). x.inside) same ∙ none_in) in
                  (
                    place_all-Answers paths workspace_path listed placements start sets n,
                    All-map_in _ (IsOutside paths placements) paths
                        (λ p m k.
                          let grown =
                            place_all-grows paths workspace_path p listed placements start sets n
                              k in
                          let unlisted : includes p listed ≡ false =
                            ((includes-add_texts_iff p listed []).0 grown).1 in
                          let is_in = is_listed p in
                          (
                            ground (arith, is_in, unlisted, m),
                            ((place_all-inside_iff paths workspace_path p listed placements start
                                  sets m unlisted n).0
                                k).1,
                          ))
                        none_of,
                  ),
              λ (_, outside). (
                keep_placed paths sets,
                is,
                empty.1 (
                    All-map_in _ _ paths
                      (λ p m (l, leaves).
                        let is_in = is_listed p in
                        let unlisted : includes p listed ≡ false = ground (arith, is_in, l, m) in
                        (place_all-inside_iff paths workspace_path p listed placements start sets m
                            unlisted n).1
                          ((includes-add_texts_iff p listed []).1 (refl, unlisted), leaves))
                      outside),
              ),
            )
      ]

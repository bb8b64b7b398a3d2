-- ===== src/Query/Lists/Modules.antt =====
-- Which modules of a list a run vouches for (packages/daemon/src/vitest/test-lists.ts).
use rt_test.Base.{
  ◌≤◌, Bool, true, Option, none, some, List, [], ◌∷◌, map, filter, Text, lookup, length, eq_iff,
  nat_eq, list_eq, All, ◌≡◌, ◌↔◌, refl, ap, arith,
}
use mathlib.Core.Path.{subst}
use rt_test.Core.Evidence.{Freshness, current, is_current}
use rt_test.Query.Records.{
  RecordedModule, WorkspaceRun, ran_run, unsupported_run, failed_run, interrupted_before_load_run,
  crashed_run, DiscoveredWorkspace,
}
use rt_test.Query.States.{map_of, flat_map, module_key}
use rt_test.Query.Lists.{
  ModuleTests, listed_modules, identities, discovered_identity, recorded_list, same_list, vouches,
  vouched_modules,
}

-- The run recorded the module as ran, with the identities that the list holds.
abbrev pub IsVouched : WorkspaceRun → ModuleTests → Type 0
IsVouched run listed =
    (modules : List RecordedModule) × (run ≡ ran_run modules)
    × (lookup (module_key listed.report) (map_of [] (flat_map recorded_list modules))
        ≡ some (identities (map discovered_identity listed.tests)))

module _ {A : Type 0} (p : A → Bool) where
  length-filter-le : (xs : List A) → length (filter p xs) ≤ length xs
  length-filter-le [] = omega arith
  length-filter-le (x ∷ xs) = ground (arith, length-filter-le xs)

  length-filter_iff : (xs : List A) → (length (filter p xs) ≡ length xs) ↔ All (λ x. p x ≡ true) xs
  length-filter_iff [] = ground arith
  length-filter_iff (x ∷ xs) = ground (arith, length-filter_iff xs, length-filter-le xs)

same_list_iff :
    (recorded : Option Text) (list : Text)
    → (same_list recorded list ≡ true) ↔ (recorded ≡ some list)
same_list_iff none list = ground arith
same_list_iff (some recorded) list =
    (λ h. ap some ((eq_iff recorded list).0 h), λ h. (eq_iff recorded list).1 (cc h))

pub All_iff {κ μ} :
    {A : Type 0} (P : A → Type κ) (Q : A → Type μ)
    → ((x : A) → P x ↔ Q x)
    → (xs : List A) → All P xs ↔ All Q xs
All_iff P Q f [] = (λ _. tt, λ _. tt)
All_iff P Q f (x ∷ xs) =
    let rest = All_iff P Q f xs in
    (λ (h, hs). ((f x).0 h, rest.0 hs), λ (h, hs). ((f x).1 h, rest.1 hs))

none_listed :
    (listed : List ModuleTests) (run : WorkspaceRun)
    → ((modules : List RecordedModule) → run ≡ ran_run modules → ⊥)
    → (0 ≡ length listed) ↔ All (IsVouched run) listed
none_listed [] run n = ground arith
none_listed (m ∷ ms) run n =
    (λ h. absurd (ground arith), λ ((modules, e, _), _). absurd (n modules e))

pub vouched_modules-length_iff :
    (entry : DiscoveredWorkspace) (run : WorkspaceRun)
    → (length (vouched_modules entry run) ≡ length (listed_modules entry))
      ↔ All (IsVouched run) (listed_modules entry)
unfolding vouched_modules
vouched_modules-length_iff entry (ran_run modules) =
    let recorded = map_of [] (flat_map recorded_list modules) in
    let kept = length-filter_iff (vouches recorded) (listed_modules entry) in
    let each =
      All_iff (λ m. vouches recorded m ≡ true) (IsVouched (ran_run modules))
        (λ m.
          let same =
            same_list_iff (lookup (module_key m.report) recorded)
              (identities (map discovered_identity m.tests)) in
          (
            λ h. (modules, refl, same.0 h),
            λ (others, e, found).
                let one : others ≡ modules = cc e in
                same.1 (
                  subst
                    (λ x.
                      lookup (module_key m.report) (map_of [] (flat_map recorded_list x))
                      ≡ some (identities (map discovered_identity m.tests)))
                    one found),
          ))
        (listed_modules entry) in
    (λ h. each.0 (kept.0 h), λ h. kept.1 (each.1 h))
vouched_modules-length_iff entry unsupported_run =
    none_listed (listed_modules entry) unsupported_run (λ modules e. absurd (ground arith))
vouched_modules-length_iff entry failed_run =
    none_listed (listed_modules entry) failed_run (λ modules e. absurd (ground arith))
vouched_modules-length_iff entry interrupted_before_load_run =
    none_listed (listed_modules entry) interrupted_before_load_run
      (λ modules e. absurd (ground arith))
vouched_modules-length_iff entry crashed_run =
    none_listed (listed_modules entry) crashed_run (λ modules e. absurd (ground arith))

pub is_current_iff : (f : Freshness) → (is_current f ≡ true) ↔ (f ≡ current)
is_current_iff f = ground arith

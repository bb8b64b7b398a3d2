-- ===== src/Query/Lists/Listed.antt =====
-- Which modules a workspace lists, by its tests (packages/daemon/src/vitest/test-lists.ts).
use rt_test.Base.{
  Bool, Bool-cases, inl, inr, true, false, not, ◌&&◌, some, List, [], ◌∷◌, ◌++◌, map, filter, Text,
  Dict, All, All-map, Exists, includes, ◌==◌, eq_iff, nat_eq, list_eq, ◌≡◌, ◌↔◌, refl, sym, ap, ◌∙◌,
  arith,
}
use mathlib.Core.Path.{subst}
use rt_test.Base.Json.{quote_list_inj}
use rt_test.Query.Records.{ModuleReport, DiscoveredTest, DiscoveredWorkspace}
use rt_test.Query.States.{module_key, module_of}
use rt_test.Query.Lists.{ModuleTests, tests_by_module, listed_modules}
use rt_test.Query.Lists.Grouped.{
  key_of, has_key, group_of, Finds, lookup-Exists, tests_by_module-Groups, tests_by_module-Finds,
}

-- A module is told by its project's name and its path.
abbrev pub same_report : ModuleReport → ModuleReport → Bool
same_report a b = a.project_name == b.project_name && a.module_path == b.module_path

pub module_key_iff : (a b : ModuleReport) → (module_key a ≡ module_key b) ↔ (same_report a b ≡ true)
unfolding module_key
module_key_iff a b =
    let projects = eq_iff a.project_name b.project_name in
    let paths = eq_iff a.module_path b.module_path in
    (
      λ e.
          let (same, _) =
            quote_list_inj (a.project_name ∷ a.module_path ∷ [])
              (b.project_name ∷ b.module_path ∷ []) [] [] (ap (λ t. t ++ []) e) in
          let project : a.project_name ≡ b.project_name = cc (same) in
          let path : a.module_path ≡ b.module_path = cc (same) in
          ground (arith, projects.1 project, paths.1 path),
      λ h.
          let project = projects.0 (ground arith) in
          let path = paths.0 (ground arith) in cc (project, path),
    )

pub module_key-same : (a b : ModuleReport) → module_key a == module_key b ≡ same_report a b
module_key-same a b =
    let same = module_key_iff a b in
    let keys = eq_iff (module_key a) (module_key b) in
    elim (Bool-cases (same_report a b)) [
      | inl e ↦ keys.1 (same.1 e) ∙ sym e
      | inr e ↦ elim (Bool-cases (module_key a == module_key b)) [
        | inl k ↦ let bad = same.0 (keys.0 k) in absurd (ground arith)
        | inr k ↦ k ∙ sym e
      ]
    ]

-- The tests of a list that are of a module.
abbrev pub tests_in : ModuleReport → List DiscoveredTest → List DiscoveredTest
tests_in report tests =
    filter (λ (test : DiscoveredTest). same_report (module_of test.identity) report) tests

pub filter-has_key :
    (report : ModuleReport) (tests : List DiscoveredTest)
    → filter (has_key (module_key report)) tests ≡ tests_in report tests
filter-has_key report [] = refl
filter-has_key report (test ∷ tests) =
    ground (arith, module_key-same (module_of test.identity) report, filter-has_key report tests)

module _ (failed : List Text) (Q : ModuleTests → Type 0) where
  abbrev is_kept : Text × ModuleTests → Bool
  is_kept held = not (includes held.0 failed)

  abbrev kept_lists : Dict Text ModuleTests → List ModuleTests
  kept_lists modules = map (λ (held : Text × ModuleTests). held.1) (filter is_kept modules)

  kept_lists-at :
      (modules : Dict Text ModuleTests) (k : Text) (listed : ModuleTests)
      → includes k failed ≡ false
      → All Q (kept_lists modules)
      → Exists (λ (e : Text × ModuleTests). (e.0 ≡ k) × (e.1 ≡ listed)) modules
      → Q listed
  kept_lists-at [] k listed n h e = absurd e
  kept_lists-at ((first, held) ∷ modules) k listed n h e =
      elim (Bool-cases (includes first failed)) [
        | inl gone ↦
            let is : kept_lists ((first, held) ∷ modules) ≡ kept_lists modules = rw gone in
            elim e [
              | inl (same, _) ↦ let bad = ap (λ x. includes x failed) same in absurd (ground arith)
              | inr later ↦ kept_lists-at modules k listed n (subst (All Q) is h) later
            ]
        | inr kept ↦
            let is : kept_lists ((first, held) ∷ modules) ≡ held ∷ kept_lists modules = rw kept in
            let (here, others) = subst (All Q) is h in
            elim e [
              | inl (_, same) ↦ subst Q same here
              | inr later ↦ kept_lists-at modules k listed n others later
            ]
      ]

  All-kept_lists :
      (modules : Dict Text ModuleTests)
      → All (λ (e : Text × ModuleTests). includes e.0 failed ≡ false → Q e.1) modules
      → All Q (kept_lists modules)
  All-kept_lists [] h = tt
  All-kept_lists ((first, held) ∷ modules) (h, hs) = elim (Bool-cases (includes first failed)) [
    | inl gone ↦
        let is : kept_lists ((first, held) ∷ modules) ≡ kept_lists modules = rw gone in
        subst (All Q) (sym is) (All-kept_lists modules hs)
    | inr kept ↦
        let is : kept_lists ((first, held) ∷ modules) ≡ held ∷ kept_lists modules = rw kept in
        subst (All Q) (sym is) (h kept, All-kept_lists modules hs)
  ]

-- The first element that a filter keeps is of the list, and passes.
pub first-filter :
    (R : DiscoveredTest → Type 0) (p : DiscoveredTest → Bool) (xs rest : List DiscoveredTest)
    (x : DiscoveredTest)
    → All R xs
    → filter p xs ≡ x ∷ rest
    → R x × (p x ≡ true)
first-filter R p [] rest x h e = absurd (ground arith)
first-filter R p (y ∷ xs) rest x (h, hs) e = elim (Bool-cases (p y)) [
  | inl k ↦
      let is : filter p (y ∷ xs) ≡ y ∷ filter p xs = rw k in
      let one : y ≡ x = cc (sym is ∙ e) in (subst R one h, ap p (sym one) ∙ k)
  | inr k ↦
      let is : filter p (y ∷ xs) ≡ filter p xs = rw k in first-filter R p xs rest x hs (sym is ∙ e)
]

-- What holds of the list of a test's module, unless the module failed.
abbrev pub OfModule : DiscoveredWorkspace → (ModuleTests → Type 0) → DiscoveredTest → Type 0
OfModule entry Q test =
    includes (key_of test) (map module_key entry.failed_modules) ≡ false
    → (listed : ModuleTests) → group_of (filter (has_key (key_of test)) entry.tests) ≡ some listed
    → Q listed

pub All-every : {A : Type 0} (P : A → Type 0) → ((x : A) → P x) → (xs : List A) → All P xs
All-every P f [] = tt
All-every P f (x ∷ xs) = (f x, All-every P f xs)

pub group_of-first :
    (tests : List DiscoveredTest) (listed : ModuleTests)
    → group_of tests ≡ some listed
    → (first : DiscoveredTest) × (rest : List DiscoveredTest) × (tests ≡ first ∷ rest)
group_of-first [] listed e = absurd (ground arith)
group_of-first (first ∷ rest) listed e = (first, rest, refl)

-- The lists of a workspace are those of its tests' modules, less the modules that failed.
pub listed_modules-OfModule_iff :
    (entry : DiscoveredWorkspace) (Q : ModuleTests → Type 0)
    → All Q (listed_modules entry) ↔ All (OfModule entry Q) entry.tests
unfolding listed_modules
listed_modules-OfModule_iff entry Q =
    let failed = map module_key entry.failed_modules in
    let modules = tests_by_module entry.tests in
    (
      λ h.
          All-every (OfModule entry Q)
            (λ test n listed e. kept_lists-at failed Q modules (key_of test) listed n h (
              lookup-Exists (key_of test) modules listed
                (tests_by_module-Groups entry.tests (key_of test) ∙ e)))
            entry.tests,
      λ h. All-kept_lists failed Q modules (
          All-map (Finds modules) _
            (λ held found n.
              let e = sym (tests_by_module-Groups entry.tests held.0) ∙ found in
              let (first, rest, is) = group_of-first _ held.1 e in
              let (each, own) = first-filter (OfModule entry Q) _ entry.tests rest first h is in
              let at : key_of first ≡ held.0 = (eq_iff (key_of first) held.0).0 own in
              each (ap (λ k. includes k failed) at ∙ n) held.1
                (ap (λ k. group_of (filter (has_key k) entry.tests)) at ∙ e))
            modules (tests_by_module-Finds entry.tests)),
    )

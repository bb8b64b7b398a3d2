-- ===== src/Query/Lists/Recorded.antt =====
-- Which run vouches for the list of a module (packages/daemon/src/vitest/test-lists.ts).
use rt_test.Base.{
  Bool, Bool-cases, Option-cases, inl, inr, ◌⊎◌, true, false, Option, none, some, List, [], ◌∷◌,
  ◌++◌, ◌<|>◌, map, filter, Text, lookup, All, All-map, Exists, includes, ◌==◌, eq_iff, eq_comm,
  eq_refl, nat_eq, list_eq, if◌then◌else◌, ◌≡◌, ◌↔◌, refl, sym, ap, ◌∙◌, arith,
}
use mathlib.Core.Path.{subst}
use rt_test.Base.Json.{quote_list, quote_list_inj}
use rt_test.Core.Identity.{TestIdentity, test_identity_key}
use rt_test.Query.Records.{
  ModuleReport, DiscoveredTest, RecordedTest, RecordedModule, ModuleRunState, ran_module,
  WorkspaceRun, ran_run, DiscoveredWorkspace,
}
use rt_test.Query.States.{map_of, flat_map, module_key, module_of}
use rt_test.Query.States.Answers.{last_value, lookup-map_of}
use rt_test.Daemon.Standings.{sort, text_le}
use rt_test.Query.Lists.{
  ModuleTests, identities, discovered_identity, recorded_identity, recorded_list, listed_modules,
}
use rt_test.Query.Lists.Grouped.{key_of, has_key, group_of}
use rt_test.Query.Lists.Listed.{
  same_report, module_key_iff, module_key-same, tests_in, filter-has_key, group_of-first,
  first-filter, All-every, OfModule, listed_modules-OfModule_iff,
}
use rt_test.Query.Lists.Modules.{IsVouched}

-- The keys of identities, in one order.
abbrev pub sorted_keys : List TestIdentity → List Text
sorted_keys identities = sort text_le (map test_identity_key identities)

abbrev pub ran_tests : ModuleRunState → Option (List RecordedTest)
ran_tests (ran_module tests _) = some tests
ran_tests _ = none

-- The tests of the last module of a run with a report that ran.
unfoldable pub last_ran : ModuleReport → List RecordedModule → Option (List RecordedTest)
last_ran report [] = none
last_ran report (m ∷ modules) =
    last_ran report modules <|> (if same_report m.report report then ran_tests m.state else none)

-- A run of the workspace recorded the module as ran with the tests that are discovered of it.
abbrev pub Vouches : WorkspaceRun → ModuleReport → List DiscoveredTest → Type 0
Vouches run report tests =
    (modules : List RecordedModule) × (recorded : List RecordedTest) × (run ≡ ran_run modules)
    × (last_ran report modules ≡ some recorded)
    × (sorted_keys (map (λ (test : RecordedTest). test.identity) recorded)
        ≡ sorted_keys (map (λ (test : DiscoveredTest). test.identity) (tests_in report tests)))

-- Loading the module failed when the workspace was discovered.
abbrev pub HasFailed : DiscoveredWorkspace → ModuleReport → Type 0
HasFailed entry report =
    Exists (λ (failed : ModuleReport). same_report failed report ≡ true) entry.failed_modules

identities_iff :
    (xs ys : List TestIdentity)
    → (identities xs ≡ identities ys) ↔ (sorted_keys xs ≡ sorted_keys ys)
unfolding identities
identities_iff xs ys = (
  λ e. (quote_list_inj (sorted_keys xs) (sorted_keys ys) [] [] (ap (λ t. t ++ []) e)).0,
  λ e. ap quote_list e,
)

abbrev identities_of : Option (List RecordedTest) → Option Text
identities_of none = none
identities_of (some tests) = some (identities (map recorded_identity tests))

recorded_list-none : (m : RecordedModule) → ran_tests m.state ≡ none → recorded_list m ≡ []
recorded_list-none m e = ground arith

recorded_list-some :
    (m : RecordedModule) (tests : List RecordedTest)
    → ran_tests m.state ≡ some tests
    → recorded_list m ≡ (module_key m.report, identities (map recorded_identity tests)) ∷ []
recorded_list-some m tests e = ground arith

passed_over :
    (o : Option (List RecordedTest)) (same : Bool)
    → identities_of o ≡ identities_of (o <|> (if same then none else none))
passed_over none true = refl
passed_over none false = refl
passed_over (some tests) same = refl

joined :
    (o : Option (List RecordedTest)) (same : Bool) (tests : List RecordedTest)
    → (identities_of o <|> (if same then identities_of (some tests) else none))
      ≡ identities_of (o <|> (if same then some tests else none))
joined none true tests = refl
joined none false tests = refl
joined (some held) same tests = refl

last_value-last_ran :
    (report : ModuleReport) (modules : List RecordedModule)
    → last_value (module_key report) (flat_map recorded_list modules)
      ≡ identities_of (last_ran report modules)
unfolding last_value last_ran flat_map
last_value-last_ran report [] = refl
last_value-last_ran report (m ∷ modules) =
    let later = last_value-last_ran report modules in
    let rest = flat_map recorded_list modules in
    elim (Option-cases (ran_tests m.state)) [
      | inl e ↦
          ap (λ l. last_value (module_key report) (l ++ rest)) (recorded_list-none m e)
          ∙ later
          ∙ rw e (passed_over (last_ran report modules) (same_report m.report report))
      | inr (tests, e) ↦
          ap (λ l. last_value (module_key report) (l ++ rest)) (recorded_list-some m tests e)
          ∙ rw (later, module_key-same m.report report, e)
              (joined (last_ran report modules) (same_report m.report report) tests)
    ]

HasFailed_iff :
    (report : ModuleReport) (failed : List ModuleReport)
    → (includes (module_key report) (map module_key failed) ≡ true)
      ↔ Exists (λ (f : ModuleReport). same_report f report ≡ true) failed
HasFailed_iff report [] = (λ e. absurd (ground arith), λ h. absurd h)
HasFailed_iff report (f ∷ failed) =
    let rest = HasFailed_iff report failed in
    let same = module_key_iff f report in
    let keys = eq_iff (module_key report) (module_key f) in
    (
      λ h. elim (Bool-cases (same_report f report)) [
        | inl e ↦ inl e
        | inr e ↦ inr (
            rest.0 (
              let other : module_key report == module_key f ≡ false =
                eq_comm (module_key report) (module_key f) ∙ module_key-same f report ∙ e in
              ground arith))
      ],
      λ h. elim h [
        | inl e ↦ let here = keys.1 (sym (same.1 e)) in ground arith
        | inr later ↦ let held = rest.1 later in ground arith
      ],
    )

identities_of-some :
    (o : Option (List RecordedTest)) (keys : List TestIdentity)
    → (identities_of o ≡ some (identities keys)) ↔ (
        (recorded : List RecordedTest) × (o ≡ some recorded)
        × (sorted_keys (map recorded_identity recorded) ≡ sorted_keys keys))
identities_of-some none keys = (λ e. absurd (ground arith), λ (_, e, _). absurd (ground arith))
identities_of-some (some tests) keys =
    let same = identities_iff (map recorded_identity tests) keys in
    (
      λ e. (tests, refl, same.0 (cc (e))),
      λ (recorded, is, e).
          let one : recorded ≡ tests = cc (is) in
          ap some
            (same.1 (subst (λ r. sorted_keys (map recorded_identity r) ≡ sorted_keys keys) one e)),
    )

or_nothing : (o : Option Text) → (o <|> none) ≡ o
or_nothing none = refl
or_nothing (some x) = refl

-- A run vouches for the list of a module as the code compares it exactly when it recorded its tests.
IsVouched-Vouches_iff :
    (run : WorkspaceRun) (report : ModuleReport) (tests : List DiscoveredTest)
    (listed : ModuleTests)
    → same_report listed.report report ≡ true
    → listed.tests ≡ tests_in report tests
    → IsVouched run listed ↔ Vouches run report tests
unfolding lookup
IsVouched-Vouches_iff run report tests listed same of_module =
    let key : module_key listed.report ≡ module_key report = (module_key_iff _ _).1 same in
    let read = λ (modules : List RecordedModule).
      let entries = flat_map recorded_list modules in
      ap (λ k. lookup k (map_of [] entries)) key
      ∙ lookup-map_of (module_key report) [] entries
      ∙ or_nothing (last_value (module_key report) entries)
      ∙ last_value-last_ran report modules in
    let keys = map discovered_identity (tests_in report tests) in
    let own = ap (λ ts. some (identities (map discovered_identity ts))) of_module in
    (
      λ (modules, is, found).
          let (recorded, ran, e) =
            (identities_of-some (last_ran report modules) keys).0
              (sym (read modules) ∙ found ∙ own) in
          (modules, recorded, is, ran, e),
      λ (modules, recorded, is, ran, e). (
        modules,
        is,
        read modules
            ∙ (identities_of-some (last_ran report modules) keys).1 (recorded, ran, e)
            ∙ sym own,
      ),
    )

group_of-tests :
    (tests : List DiscoveredTest) (listed : ModuleTests)
    → group_of tests ≡ some listed
    → listed.tests ≡ tests
group_of-tests [] listed e = absurd (ground arith)
group_of-tests (first ∷ tests) listed e =
    let one : record { report = module_of first.identity; tests = first ∷ tests } ≡ listed =
      cc (e) in
    ap (λ (l : ModuleTests). l.tests) (sym one)

group_of-report :
    (tests : List DiscoveredTest) (listed : ModuleTests) (report : ModuleReport)
    → group_of (filter (has_key (module_key report)) tests) ≡ some listed
    → (same_report listed.report report ≡ true) × (listed.tests ≡ tests_in report tests)
group_of-report tests listed report e =
    let (first, rest, is) = group_of-first (filter (has_key (module_key report)) tests) listed e in
    let (_, own) =
      first-filter (λ _. Unit) (has_key (module_key report)) tests rest first
        (All-every (λ _. Unit) (λ _. tt) tests) is in
    let one : record { report = module_of first.identity; tests = first ∷ rest } ≡ listed =
      cc (sym (ap group_of is) ∙ e) in
    (
      ap (λ (l : ModuleTests). same_report l.report report) (sym one)
          ∙ (module_key_iff (module_of first.identity) report).0 ((eq_iff _ _).0 own),
      group_of-tests _ listed e ∙ filter-has_key report tests,
    )

-- The module of a listed test has a list.
filter-Exists :
    (p : DiscoveredTest → Bool) (xs : List DiscoveredTest)
    → Exists (λ x. p x ≡ true) xs
    → (listed : ModuleTests) × (group_of (filter p xs) ≡ some listed)
filter-Exists p [] h = absurd h
filter-Exists p (x ∷ xs) h = elim (Bool-cases (p x)) [
  | inl e ↦ (record { report = module_of x.identity; tests = x ∷ filter p xs }, rw e)
  | inr e ↦ elim h [
    | inl own ↦ absurd (ground arith)
    | inr later ↦ let (listed, is) = filter-Exists p xs later in (listed, rw e is)
  ]
]

All-itself : (xs : List DiscoveredTest) → All (λ t. Exists (λ x. has_key (key_of t) x ≡ true) xs) xs
All-itself [] = tt
All-itself (x ∷ xs) = (
  inl (eq_refl (key_of x)),
  All-map _ (λ t. Exists (λ y. has_key (key_of t) y ≡ true) (x ∷ xs)) (λ t h. inr h) xs
      (All-itself xs),
)

All-map_both :
    (P R Q : DiscoveredTest → Type 0)
    → ((x : DiscoveredTest) → P x → R x → Q x)
    → (xs : List DiscoveredTest) → All P xs
    → All R xs
    → All Q xs
All-map_both P R Q f [] h k = tt
All-map_both P R Q f (x ∷ xs) (h, hs) (k, ks) = (f x h k, All-map_both P R Q f xs hs ks)

-- The module of a discovered test failed to load, or the run vouches for its tests.
abbrev pub StandsFor : DiscoveredWorkspace → WorkspaceRun → DiscoveredTest → Type 0
StandsFor entry run test =
    HasFailed entry (module_of test.identity) ⊎ Vouches run (module_of test.identity) entry.tests

OfModule-StandsFor_iff :
    (entry : DiscoveredWorkspace) (run : WorkspaceRun) (test : DiscoveredTest)
    → Exists (λ x. has_key (key_of test) x ≡ true) entry.tests
    → OfModule entry (IsVouched run) test ↔ StandsFor entry run test
OfModule-StandsFor_iff entry run test member =
    let report = module_of test.identity in
    let failed = HasFailed_iff report entry.failed_modules in
    let same =
      λ (listed : ModuleTests)
          (e : group_of (filter (has_key (module_key report)) entry.tests) ≡ some listed).
        let (of_report, tests) = group_of-report entry.tests listed report e in
        IsVouched-Vouches_iff run report entry.tests listed of_report tests in
    (
      λ h. elim (Bool-cases (includes (module_key report) (map module_key entry.failed_modules))) [
        | inl e ↦ inl (failed.0 e)
        | inr e ↦
            let (listed, is) = filter-Exists (has_key (key_of test)) entry.tests member in
            inr ((same listed is).0 (h e listed is))
      ],
      λ h n listed e. elim h [
        | inl bad ↦ let held = failed.1 bad in absurd (ground arith)
        | inr vouches ↦ (same listed e).1 vouches
      ],
    )

-- A run vouches for every list of a workspace exactly when it does so for the module of each
-- discovered test, unless the module failed.
pub listed_modules-StandsFor_iff :
    (entry : DiscoveredWorkspace) (run : WorkspaceRun)
    → All (IsVouched run) (listed_modules entry) ↔ All (StandsFor entry run) entry.tests
listed_modules-StandsFor_iff entry run =
    let every = listed_modules-OfModule_iff entry (IsVouched run) in
    (
      λ h.
          All-map_both _ (OfModule entry (IsVouched run)) _
            (λ test member. (OfModule-StandsFor_iff entry run test member).0) entry.tests
            (All-itself entry.tests) (every.0 h),
      λ h. every.1 (
          All-map_both _ (StandsFor entry run) _
            (λ test member. (OfModule-StandsFor_iff entry run test member).1) entry.tests
            (All-itself entry.tests) h),
    )

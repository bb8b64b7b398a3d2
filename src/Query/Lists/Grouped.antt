-- ===== src/Query/Lists/Grouped.antt =====
-- What the grouping of a workspace's tests by their module holds
-- (packages/daemon/src/vitest/test-lists.ts).
use rt_test.Base.{
  Bool, Bool-cases, inl, inr, Option, none, some, List, [], ◌∷◌, ◌++◌, filter, append_assoc,
  append-nil, Text, Dict, lookup, insert, lookup-insert, All, All-insert, Pairs, Exists, ◌==◌,
  eq_iff, eq_refl, nat_eq, list_eq, ◌≡◌, ◌≢◌, refl, sym, ap, ◌∙◌, arith,
}
use mathlib.Core.Path.{subst}
use rt_test.Query.Due.Order.{filter-append}
use rt_test.Query.Records.{DiscoveredTest}
use rt_test.Query.States.{module_key, module_of}
use rt_test.Query.Lists.{ModuleTests, with_test, tests_by_module_from, tests_by_module}

abbrev pub key_of : DiscoveredTest → Text
key_of test = module_key (module_of test.identity)

abbrev pub has_key : Text → DiscoveredTest → Bool
has_key k test = key_of test == k

-- The list of a module, from its tests.
abbrev pub group_of : List DiscoveredTest → Option ModuleTests
group_of [] = none
group_of (test ∷ tests) = some (record { report = module_of test.identity; tests = test ∷ tests })

group_of-append :
    (tests : List DiscoveredTest) (test : DiscoveredTest)
    → group_of (tests ++ test ∷ []) ≡ some (with_test (group_of tests) test)
group_of-append [] test = refl
group_of-append (first ∷ tests) test = refl

-- Each key finds the list of its tests among those read so far.
abbrev pub Groups : List DiscoveredTest → Dict Text ModuleTests → Type 0
Groups tests modules = (k : Text) → lookup k modules ≡ group_of (filter (has_key k) tests)

insert-Groups :
    (read : List DiscoveredTest) (test : DiscoveredTest) (modules : Dict Text ModuleTests)
    → Groups read modules
    → Groups
        (read ++ test ∷ [])
        (insert (key_of test) (with_test (lookup (key_of test) modules) test) modules)
insert-Groups read test modules h k =
    let entered = with_test (lookup (key_of test) modules) test in
    let split = filter-append (has_key k) read (test ∷ []) in
    lookup-insert (key_of test) k entered modules ∙ elim (Bool-cases (key_of test == k)) [
      | inl e ↦
          let own : filter (has_key k) (test ∷ []) ≡ test ∷ [] = rw e in
          let at : key_of test ≡ k = (eq_iff (key_of test) k).0 e in
          let held : lookup (key_of test) modules ≡ group_of (filter (has_key k) read) =
            ap (λ key. lookup key modules) at ∙ h k in
          rw e (ap (λ o. some (with_test o test)) held)
          ∙ sym (
              ap group_of (split ∙ ap (λ ts. filter (has_key k) read ++ ts) own)
              ∙ group_of-append (filter (has_key k) read) test)
      | inr e ↦
          let own : filter (has_key k) (test ∷ []) ≡ [] = rw e in
          rw e (h k)
          ∙ sym (
              ap group_of (
                split
                ∙ ap (λ ts. filter (has_key k) read ++ ts) own
                ∙ append-nil (filter (has_key k) read)))
    ]

tests_by_module_from-Groups :
    (tests read : List DiscoveredTest) (modules : Dict Text ModuleTests)
    → Groups read modules
    → Groups (read ++ tests) (tests_by_module_from tests modules)
unfolding tests_by_module_from
tests_by_module_from-Groups [] read modules h =
    subst (λ ts. Groups ts modules) (sym (append-nil read)) h
tests_by_module_from-Groups (test ∷ tests) read modules h =
    let entered = insert (key_of test) (with_test (lookup (key_of test) modules) test) modules in
    subst (λ ts. Groups ts (tests_by_module_from tests entered))
      (append_assoc read (test ∷ []) tests)
      (tests_by_module_from-Groups tests (read ++ test ∷ []) entered
        (insert-Groups read test modules h))

-- No two entries of the map have one key.
abbrev Distinct : Dict Text ModuleTests → Type 0
Distinct modules = Pairs (λ (a b : Text × ModuleTests). a.0 ≢ b.0) modules

insert-Distinct :
    (key : Text) (value : ModuleTests) (modules : Dict Text ModuleTests)
    → Distinct modules
    → Distinct (insert key value modules)
unfolding insert
insert-Distinct key value [] h = (tt, tt)
insert-Distinct key value ((first, old) ∷ modules) (apart, h) = elim (Bool-cases (first == key)) [
  | inl e ↦
      let is : insert key value ((first, old) ∷ modules) ≡ (first, value) ∷ modules = rw e in
      subst Distinct (sym is) (apart, h)
  | inr e ↦
      let is : insert key value ((first, old) ∷ modules) ≡ (first, old) ∷ insert key value modules =
        rw e in
      subst Distinct (sym is) (
        All-insert (λ (b : Text × ModuleTests). first ≢ b.0) key value modules apart
            (λ k same at. let here = (eq_iff first key).1 (at ∙ same) in absurd (ground arith)),
        insert-Distinct key value modules h,
      )
]

tests_by_module_from-Distinct :
    (tests : List DiscoveredTest) (modules : Dict Text ModuleTests)
    → Distinct modules
    → Distinct (tests_by_module_from tests modules)
unfolding tests_by_module_from
tests_by_module_from-Distinct [] modules h = h
tests_by_module_from-Distinct (test ∷ tests) modules h =
    tests_by_module_from-Distinct tests _ (insert-Distinct (key_of test) _ modules h)

abbrev pub Finds : Dict Text ModuleTests → Text × ModuleTests → Type 0
Finds modules entry = lookup entry.0 modules ≡ some entry.1

later-Finds :
    (first : Text) (old : ModuleTests) (modules entries : Dict Text ModuleTests)
    → All (λ (b : Text × ModuleTests). first ≢ b.0) entries
    → All (Finds modules) entries
    → All (Finds ((first, old) ∷ modules)) entries
unfolding lookup
later-Finds first old modules [] apart h = tt
later-Finds first old modules ((k, v) ∷ entries) (ne, apart) (found, h) = (
  elim (Bool-cases (first == k)) [
    | inl e ↦ absurd (ne ((eq_iff first k).0 e))
    | inr e ↦ rw e found
  ],
  later-Finds first old modules entries apart h,
)

Distinct-Finds : (modules : Dict Text ModuleTests) → Distinct modules → All (Finds modules) modules
unfolding lookup
Distinct-Finds [] h = tt
Distinct-Finds ((first, old) ∷ modules) (apart, h) =
    let own = eq_refl first in
    (rw own, later-Finds first old modules modules apart (Distinct-Finds modules h))

pub lookup-Exists :
    (k : Text) (modules : Dict Text ModuleTests) (listed : ModuleTests)
    → lookup k modules ≡ some listed
    → Exists (λ (e : Text × ModuleTests). (e.0 ≡ k) × (e.1 ≡ listed)) modules
unfolding lookup
lookup-Exists k [] listed h = absurd (ground arith)
lookup-Exists k ((first, old) ∷ modules) listed h = elim (Bool-cases (first == k)) [
  | inl e ↦
      let is : lookup k ((first, old) ∷ modules) ≡ some old = rw e in
      inl ((eq_iff first k).0 e, cc (sym is ∙ h))
  | inr e ↦
      let is : lookup k ((first, old) ∷ modules) ≡ lookup k modules = rw e in
      inr (lookup-Exists k modules listed (sym is ∙ h))
]

pub tests_by_module-Groups : (tests : List DiscoveredTest) → Groups tests (tests_by_module tests)
unfolding tests_by_module
tests_by_module-Groups tests = tests_by_module_from-Groups tests [] [] (λ k. unfold lookup in refl)

pub tests_by_module-Finds :
    (tests : List DiscoveredTest) → All (Finds (tests_by_module tests)) (tests_by_module tests)
unfolding tests_by_module
tests_by_module-Finds tests =
    Distinct-Finds (tests_by_module_from tests []) (tests_by_module_from-Distinct tests [] tt)

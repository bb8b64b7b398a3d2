-- ===== src/Core/Identity/Occurrences.antt =====
-- What `identifyModuleTests` gives each test (packages/core/src/test-identity.ts): a description
-- by counting name paths, with no dictionary and no key.
use rt_test.Base.{
  ℕ, ◌+◌, ◌<◌, Bool, List, [], ◌∷◌, ◌++◌, map, Text, list_eq, nat_eq, Dict, lookup, ◌==◌, insert,
  ltb, lookup-insert, eq_iff, if◌then◌else◌, ◌≡◌, ◌≢◌, refl, sym, ap, ◌∙◌, arith, All, Pairs,
  Pairs-map, eq_refl,
}
use rt_test.Core.Identity.{
  TestIdentity, TestModuleLocation, IdentifiedTest, name_path_key, test_identity_key, count_of,
  count_from, count_by, identify_from, identify_module_tests,
}
use rt_test.Core.Identity.Keys.{name_path_key_iff, test_identity_key_iff}

-- How often a name path stands in a list.
unfoldable pub occurrences : List Text → List (List Text) → ℕ
occurrences p [] = 0
occurrences p (q ∷ qs) = if q == p then occurrences p qs + 1 else occurrences p qs

abbrev identified : TestModuleLocation → List Text → ℕ → Bool → IdentifiedTest
identified location name_path occurrence is_duplicate = record {
  identity = record {
    workspace_path = location.workspace_path;
    project_name = location.project_name;
    module_path = location.module_path;
    name_path = name_path;
    occurrence = occurrence;
  };
  is_duplicate = is_duplicate;
}

-- Each test with the number of equal name paths before it, a duplicate when its name path stands
-- more than once in the module.
unfoldable pub described :
    TestModuleLocation
    → List (List Text)
    → List (List Text)
    → List (List Text)
    → List IdentifiedTest
described location every before [] = []
described location every before (p ∷ rest) =
    identified location p (occurrences p before) (ltb 1 (occurrences p every))
    ∷ described location every (before ++ p ∷ []) rest

count_of-insert :
    (j k : Text) (n : ℕ) (m : Dict Text ℕ)
    → count_of j (insert k n m) ≡ (if k == j then n else count_of j m)
unfolding count_of
count_of-insert j k n m = ground (arith, lookup-insert k j n m)

key_test : (p q : List Text) → (name_path_key p == name_path_key q) ≡ (p == q)
key_test p q =
    ground (arith, eq_iff (name_path_key p) (name_path_key q), eq_iff p q, name_path_key_iff p q)

count_of-count_from :
    (p : List Text) (qs : List (List Text)) (m : Dict Text ℕ)
    → count_of (name_path_key p) (count_from m (map name_path_key qs))
      ≡ count_of (name_path_key p) m + occurrences p qs
unfolding count_from occurrences
count_of-count_from p [] m = omega arith
count_of-count_from p (q ∷ qs) m =
    count_of-count_from p qs (insert (name_path_key q) (count_of (name_path_key q) m + 1) m)
    ∙ ground (
      arith,
      count_of-insert (name_path_key p) (name_path_key q) (count_of (name_path_key q) m + 1) m,
      key_test q p,
      eq_iff q p,
    )

occurrences-concat :
    (p q : List Text) (qs : List (List Text))
    → occurrences p (qs ++ q ∷ []) ≡ (if q == p then occurrences p qs + 1 else occurrences p qs)
unfolding occurrences
occurrences-concat p q [] = refl
occurrences-concat p q (r ∷ qs) = ground (arith, occurrences-concat p q qs)

identify_from-described :
    (location : TestModuleLocation) (every before rest : List (List Text))
    (totals seen : Dict Text ℕ)
    → ((p : List Text) → count_of (name_path_key p) totals ≡ occurrences p every)
    → ((p : List Text) → count_of (name_path_key p) seen ≡ occurrences p before)
    → identify_from location totals seen rest ≡ described location every before rest
unfolding identify_from described
identify_from-described location every before [] totals seen ht hs = refl
identify_from-described location every before (p ∷ rest) totals seen ht hs = ground (
  arith,
  ht p,
  hs p,
  identify_from-described location every (before ++ p ∷ []) rest totals
      (insert (name_path_key p) (count_of (name_path_key p) seen + 1) seen) ht
      (λ q.
        count_of-insert (name_path_key q) (name_path_key p) (count_of (name_path_key p) seen + 1)
          seen
        ∙ ground (arith, hs q, key_test p q, eq_iff p q, occurrences-concat q p before)),
)

-- Each test of a module is given the number of equal name paths before it as its occurrence, and
-- is marked a duplicate exactly when its name path stands more than once in the module.
pub identify_module_tests-described :
    (location : TestModuleLocation) (name_paths : List (List Text))
    → identify_module_tests location name_paths ≡ described location name_paths [] name_paths
unfolding identify_module_tests count_by count_of lookup occurrences
identify_module_tests-described location name_paths =
    identify_from-described location name_paths [] name_paths _ []
      (λ p. count_of-count_from p name_paths [] ∙ omega arith) (λ p. refl)

module _ (location : TestModuleLocation) (every : List (List Text)) where
  -- What holds a number below the count so far is no later identity of that name path.
  later-differ :
      (a : TestIdentity) (before rest : List (List Text))
      → a.occurrence < occurrences a.name_path before
      → All (λ (t : IdentifiedTest). a ≢ t.identity) (described location every before rest)
  unfolding described
  later-differ a before [] h = tt
  later-differ a before (p ∷ rest) h = (
    λ e.
        let occurs : a.occurrence ≡ occurrences a.name_path before =
          ap (λ (i : TestIdentity). i.occurrence) e
          ∙ ap (λ q. occurrences q before) (sym (ap (λ (i : TestIdentity). i.name_path) e)) in
        omega arith,
    later-differ a (before ++ p ∷ []) rest
        (ground (arith, occurrences-concat a.name_path p before)),
  )

  described-Pairs :
      (before rest : List (List Text))
      → Pairs
          (λ (s t : IdentifiedTest). s.identity ≢ t.identity)
          (described location every before rest)
  unfolding described
  described-Pairs before [] = tt
  described-Pairs before (p ∷ rest) = (
    later-differ _ (before ++ p ∷ []) rest
        (ground (arith, occurrences-concat p p before, eq_refl p)),
    described-Pairs (before ++ p ∷ []) rest,
  )

-- No two tests of one module are given one identity, whatever name paths repeat, so no two have
-- one key.
pub identify_module_tests-distinct :
    (location : TestModuleLocation) (name_paths : List (List Text))
    → Pairs
        (λ s t. test_identity_key s.identity ≢ test_identity_key t.identity)
        (identify_module_tests location name_paths)
identify_module_tests-distinct location name_paths =
    rw (identify_module_tests-described location name_paths) (
      Pairs-map _ _ (λ s t ne e. ne ((test_identity_key_iff _ _).0 e)) _
        (described-Pairs location name_paths [] name_paths))

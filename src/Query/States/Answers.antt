-- ===== src/Query/States/Answers.antt =====
-- Which recorded test answers for a discovered one, and that each listed test has one standing
-- (packages/daemon/src/query/test-states.ts).
use rt_test.Base.{
  Bool-cases, inl, inr, Option-cases, Bool, Option, none, some, List, [], ◌∷◌, ◌++◌, map, Text,
  Dict, lookup, insert, lookup-insert, ◌==◌, nat_eq, list_eq, eq_iff, if◌then◌else◌, ◌<|>◌, ◌≡◌,
  ◌≢◌, ◌∙◌, refl, sym, ap, All, arith,
}
use mathlib.Core.List.{map-append}
use rt_test.Core.Identity.{TestIdentity, test_identity_key}
use rt_test.Core.Identity.Keys.{test_identity_key_iff}
use rt_test.Query.Records.{
  DiscoveredTest, RecordedTest, StoredRun, WorkspaceDiscovery, discovered, unsupported_workspace,
  failed_workspace, not_confirmed_workspace, StoredDiscovery,
}
use rt_test.Query.States.{
  TestStanding, NoOutcome, never_run, run_refused, RunAnswer, answer_outcome, answer_state, map_of,
  flat_map, by_test_key, run_answerer, unanswered, answered_standing, test_standing,
  workspace_standings, entry_standings, test_standings,
}

-- The value of the last entry with a key.
unfoldable pub last_value {ℓ} : {V : Type ℓ} → Text → Dict Text V → Option V
last_value k [] = none
last_value k ((j, v) ∷ m) = last_value k m <|> (if j == k then some v else none)

pub lookup-map_of {ℓ} :
    {V : Type ℓ} (k : Text) (held entries : Dict Text V)
    → lookup k (map_of held entries) ≡ (last_value k entries <|> lookup k held)
unfolding map_of last_value
lookup-map_of k held [] = refl
lookup-map_of k held ((j, v) ∷ m) = elim (Option-cases (last_value k m)) [
  | inl e ↦ ground (arith, lookup-map_of k (insert j v held) m, lookup-insert j k v held, e)
  | inr (w, e) ↦ ground (arith, lookup-map_of k (insert j v held) m, e)
]

-- A test is the last of a list with its identity.
abbrev pub IsLastNamed : TestIdentity → List RecordedTest → RecordedTest → Type 0
IsLastNamed identity tests test =
    (before after : List RecordedTest) × (tests ≡ before ++ test ∷ after)
    × (test.identity ≡ identity)
    × All (λ (later : RecordedTest). later.identity ≢ identity) after

last_value-none :
    (identity : TestIdentity) (tests : List RecordedTest)
    → last_value (test_identity_key identity) (map by_test_key tests) ≡ none
    → All (λ (later : RecordedTest). later.identity ≢ identity) tests
unfolding last_value
last_value-none identity [] h = tt
last_value-none identity (t ∷ ts) h =
    elim (Option-cases (last_value (test_identity_key identity) (map by_test_key ts))) [
      | inl e ↦ (
        λ same.
            let key =
              (eq_iff (test_identity_key t.identity) (test_identity_key identity)).1
                (ap test_identity_key same) in
            ground (arith, e, key),
        last_value-none identity ts e,
      )
      | inr (w, e) ↦ absurd (ground (arith, e))
    ]

last_value_of_none :
    (identity : TestIdentity) (tests : List RecordedTest)
    → All (λ (later : RecordedTest). later.identity ≢ identity) tests
    → last_value (test_identity_key identity) (map by_test_key tests) ≡ none
unfolding last_value
last_value_of_none identity [] h = refl
last_value_of_none identity (t ∷ ts) h =
    elim (Bool-cases (test_identity_key t.identity == test_identity_key identity)) [
      | inl same ↦
          absurd (h.0 ((test_identity_key_iff t.identity identity).0 ((eq_iff _ _).0 same)))
      | inr other ↦ ground (arith, last_value_of_none identity ts h.1)
    ]

pub last_value_of_last :
    (identity : TestIdentity) (before after : List RecordedTest) (test : RecordedTest)
    → test.identity ≡ identity
    → All (λ (later : RecordedTest). later.identity ≢ identity) after
    → last_value (test_identity_key identity) (map by_test_key (before ++ test ∷ after)) ≡ some test
unfolding last_value
last_value_of_last identity [] after test e h =
    let same =
      (eq_iff (test_identity_key test.identity) (test_identity_key identity)).1
        (ap test_identity_key e) in
    ground (arith, last_value_of_none identity after h)
last_value_of_last identity (t ∷ before) after test e h =
    ground (arith, last_value_of_last identity before after test e h)

pub last_value-some :
    (identity : TestIdentity) (tests : List RecordedTest) (test : RecordedTest)
    → last_value (test_identity_key identity) (map by_test_key tests) ≡ some test
    → IsLastNamed identity tests test
unfolding last_value
last_value-some identity [] test e = absurd (ground arith)
last_value-some identity (t ∷ ts) test e =
    elim (Option-cases (last_value (test_identity_key identity) (map by_test_key ts))) [
      | inl n ↦ elim (Bool-cases (test_identity_key t.identity == test_identity_key identity)) [
        | inl same ↦
            let first : t ≡ test = ground (arith, n) in
            (
              [],
              ts,
              ap (λ r. r ∷ ts) first,
              ap (λ (r : RecordedTest). r.identity) (sym first)
                  ∙ (test_identity_key_iff t.identity identity).0 ((eq_iff _ _).0 same),
              last_value-none identity ts n,
            )
        | inr other ↦ absurd (ground (arith, n))
      ]
      | inr (w, n) ↦
          let (before, after, split, name, later) =
            last_value-some identity ts test (ground (arith, n)) in
          (t ∷ before, after, ap (λ r. t ∷ r) split, name, later)
    ]

-- The tests that a discovery lists for an entry.
abbrev pub listed_tests : WorkspaceDiscovery → List DiscoveredTest
listed_tests (discovered entry) = entry.tests
listed_tests _ = []

abbrev tested : TestStanding → DiscoveredTest
tested s = s.test

unanswered-tests :
    (tests : List DiscoveredTest) (state : NoOutcome) → map tested (unanswered tests state) ≡ tests
unfolding unanswered
unanswered-tests [] state = refl
unanswered-tests (t ∷ ts) state = ap (λ r. t ∷ r) (unanswered-tests ts state)

answered_standing-test :
    (stored : StoredRun) (c : Option Text) (dc : Bool) (test : DiscoveredTest) (answer : RunAnswer)
    → (answered_standing stored c dc test answer).test ≡ test
unfolding answered_standing
answered_standing-test stored c dc test (answer_outcome o p) = refl
answered_standing-test stored c dc test (answer_state s) = refl

answered-tests :
    (tests : List DiscoveredTest) (stored : StoredRun) (c : Option Text) (dc : Bool)
    → map tested (map (test_standing stored c dc) tests) ≡ tests
unfolding test_standing
answered-tests [] stored c dc = refl
answered-tests (t ∷ ts) stored c dc = ground (
  arith,
  answered_standing-test stored c dc t (run_answerer stored t.identity),
  answered-tests ts stored c dc,
)

entry_standings-tests :
    (latest : Dict Text StoredRun) (refused : Dict Text Text) (current_of : Text → Option Text)
    (dc : Bool) (entry : WorkspaceDiscovery)
    → map tested (entry_standings latest refused current_of dc entry) ≡ listed_tests entry
unfolding entry_standings workspace_standings
entry_standings-tests latest refused current_of dc (discovered entry) =
    elim (Option-cases (lookup entry.path refused)) [
      | inr (why, e) ↦ ground (arith, unanswered-tests entry.tests run_refused)
      | inl e ↦ elim (Option-cases (lookup entry.path latest)) [
        | inl n ↦ rw (e, n, unanswered-tests entry.tests never_run)
        | inr (stored, n) ↦ rw (e, n, answered-tests entry.tests stored (current_of entry.path) dc)
      ]
    ]
entry_standings-tests latest refused current_of dc (unsupported_workspace _) = refl
entry_standings-tests latest refused current_of dc (failed_workspace _) = refl
entry_standings-tests latest refused current_of dc (not_confirmed_workspace _) = refl

flat_map-tests :
    (latest : Dict Text StoredRun) (refused : Dict Text Text) (current_of : Text → Option Text)
    (dc : Bool) (entries : List WorkspaceDiscovery)
    → map tested (flat_map (entry_standings latest refused current_of dc) entries)
      ≡ flat_map listed_tests entries
unfolding flat_map
flat_map-tests latest refused current_of dc [] = refl
flat_map-tests latest refused current_of dc (entry ∷ entries) =
    simp (map-append, entry_standings-tests, flat_map-tests latest refused current_of dc entries)

-- Each test that the discovery lists has exactly one standing, in the order of the list.
pub test_standings-tests :
    (discovery : StoredDiscovery) (latest : Dict Text StoredRun) (refused : Dict Text Text)
    (current_of : Text → Option Text) (discovery_is_current : Bool)
    → map tested (test_standings discovery latest refused current_of discovery_is_current)
      ≡ flat_map listed_tests discovery.workspaces
unfolding test_standings
test_standings-tests discovery latest refused current_of discovery_is_current =
    flat_map-tests latest refused current_of discovery_is_current discovery.workspaces

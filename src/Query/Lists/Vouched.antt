-- ===== src/Query/Lists/Vouched.antt =====
-- When the lists of a discovery read current (packages/daemon/src/query/list-freshness.ts and
-- vitest/test-lists.ts).
use rt_test.Base.{
  Bool-cases, Option-cases, inl, inr, ◌⊎◌, Option, none, some, List, [], ◌∷◌, Text, Dict, lookup,
  length, ◌==◌, eq_iff, nat_eq, list_eq, All, ◌≡◌, ◌↔◌, refl, sym, ap, ◌∙◌, arith,
}
use mathlib.Core.Path.{subst}
use rt_test.Core.Evidence.{Freshness, current, unknown, is_current}
use rt_test.Query.Records.{
  StoredRun, DiscoveredWorkspace, WorkspaceDiscovery, discovered, unsupported_workspace,
  failed_workspace, not_confirmed_workspace,
}
use rt_test.Query.States.{record_freshness}
use rt_test.Query.Lists.{
  listed_modules, vouched_modules, vouched_freshness, entry_freshness, rate_entries, list_freshness,
}
use rt_test.Query.Due.Reasons.{IsBound, record_freshness-current_iff}
use rt_test.Query.Lists.Recorded.{StandsFor, listed_modules-StandsFor_iff}
use rt_test.Query.Lists.Modules.{All_iff, vouched_modules-length_iff, is_current_iff}

-- A run is bound to the workspace's fingerprint, and recorded the tests of each discovered test's
-- module, unless that module failed.
abbrev pub VouchedBy : DiscoveredWorkspace → Option Text → StoredRun → Type 0
VouchedBy entry now run = IsBound run now × All (StandsFor entry run.run) entry.tests

vouched_freshness-current_iff :
    (entry : DiscoveredWorkspace) (run : StoredRun) (now : Option Text)
    → (vouched_freshness entry run now ≡ current) ↔ VouchedBy entry now run
unfolding vouched_freshness
vouched_freshness-current_iff entry run now =
    let reads = is_current_iff (record_freshness run now) in
    let lists = vouched_modules-length_iff entry run.run in
    let every = listed_modules-StandsFor_iff entry run.run in
    let bound = record_freshness-current_iff run now in
    let same = eq_iff (length (vouched_modules entry run.run)) (length (listed_modules entry)) in
    elim (Bool-cases (is_current (record_freshness run now))) [
      | inr e ↦
          let is : vouched_freshness entry run now ≡ record_freshness run now = rw e in
          (λ h. let bad = reads.1 (sym is ∙ h) in absurd (ground arith), λ (c, _). is ∙ bound.1 c)
      | inl e ↦
          elim (Bool-cases
            (length (vouched_modules entry run.run) == length (listed_modules entry))) [
              | inl k ↦ (λ _. (bound.0 (reads.0 e), every.0 (lists.0 (same.0 k))), λ _. rw (e, k))
              | inr k ↦
                  let is : vouched_freshness entry run now ≡ unknown = rw (e, k) in
                  (
                    λ h. let bad = sym is ∙ h in absurd (ground arith),
                    λ (_, v). let here = same.1 (lists.1 (every.1 v)) in absurd (ground arith),
                  )
            ]
    ]

-- A workspace's list stands: no run of it is stored or was refused, or its latest run vouches for it.
abbrev pub Stands :
    Dict Text StoredRun → Dict Text Text → (Text → Option Text) → DiscoveredWorkspace → Type 0
Stands latest_runs refused_runs current_of entry =
    ((lookup entry.path latest_runs ≡ none) × (lookup entry.path refused_runs ≡ none))
    ⊎ ((run : StoredRun) × (lookup entry.path latest_runs ≡ some run)
        × VouchedBy entry (current_of entry.path) run)

-- A rating that leaves the discovery current.
abbrev Fine : Option Freshness → Type 0
Fine o = (o ≡ none) ⊎ (o ≡ some current)

entry_freshness_iff :
    (latest_runs : Dict Text StoredRun) (refused_runs : Dict Text Text)
    (current_of : Text → Option Text) (entry : DiscoveredWorkspace)
    → Fine (entry_freshness latest_runs refused_runs current_of entry)
      ↔ Stands latest_runs refused_runs current_of entry
unfolding entry_freshness
entry_freshness_iff latest_runs refused_runs current_of entry =
    let rated = entry_freshness latest_runs refused_runs current_of entry in
    elim (Option-cases (lookup entry.path latest_runs)) [
      | inl n ↦ elim (Option-cases (lookup entry.path refused_runs)) [
        | inl r ↦ (λ _. inl (n, r), λ _. inl (rw (n, r, entry_freshness)))
        | inr (why, r) ↦
            let is : rated ≡ some unknown = rw (n, r, entry_freshness) in
            (
              λ h. elim h [
                | inl a ↦ let bad = sym is ∙ a in absurd (ground arith)
                | inr a ↦ let bad = sym is ∙ a in absurd (ground arith)
              ],
              λ h. elim h [
                | inl (_, m) ↦ absurd (ground arith)
                | inr (run, m, _) ↦ absurd (ground arith)
              ],
            )
      ]
      | inr (run, n) ↦
          let reads = vouched_freshness-current_iff entry run (current_of entry.path) in
          let is : rated ≡ some (vouched_freshness entry run (current_of entry.path)) =
            rw (n, entry_freshness) in
          (
            λ h. elim h [
              | inl a ↦ let bad = sym is ∙ a in absurd (ground arith)
              | inr a ↦ inr (run, n, reads.0 (cc (sym is ∙ a)))
            ],
            λ h. elim h [
              | inl (m, _) ↦ absurd (ground arith)
              | inr (other, m, v) ↦
                  let one : other ≡ run = cc in
                  inr
                    (is ∙ ap some (reads.1 (subst (VouchedBy entry (current_of entry.path)) one v)))
            ],
          )
    ]

-- What holds of each discovered workspace.
abbrev pub Discovered : (DiscoveredWorkspace → Type 0) → WorkspaceDiscovery → Type 0
Discovered P (discovered entry) = P entry
Discovered P _ = Unit

rate_entries-current_iff :
    (freshness_of : DiscoveredWorkspace → Option Freshness) (entries : List WorkspaceDiscovery)
    (rated : Freshness)
    → (rate_entries freshness_of entries rated ≡ current)
      ↔ ((rated ≡ current) × All (Discovered (λ entry. Fine (freshness_of entry))) entries)
unfolding rate_entries
rate_entries-current_iff f [] rated = (λ h. (h, tt), λ (h, _). h)
rate_entries-current_iff f (discovered entry ∷ entries) rated =
    ground
      (arith, rate_entries-current_iff f entries rated, rate_entries-current_iff f entries unknown)
rate_entries-current_iff f (unsupported_workspace _ ∷ entries) rated =
    let rest = rate_entries-current_iff f entries rated in
    (λ h. let (a, b) = rest.0 h in (a, (tt, b)), λ (a, (_, b)). rest.1 (a, b))
rate_entries-current_iff f (failed_workspace _ ∷ entries) rated =
    let rest = rate_entries-current_iff f entries rated in
    (λ h. let (a, b) = rest.0 h in (a, (tt, b)), λ (a, (_, b)). rest.1 (a, b))
rate_entries-current_iff f (not_confirmed_workspace _ ∷ entries) rated =
    let rest = rate_entries-current_iff f entries rated in
    (λ h. let (a, b) = rest.0 h in (a, (tt, b)), λ (a, (_, b)). rest.1 (a, b))

Discovered-iff :
    (P Q : DiscoveredWorkspace → Type 0)
    → ((entry : DiscoveredWorkspace) → P entry ↔ Q entry)
    → (entry : WorkspaceDiscovery) → Discovered P entry ↔ Discovered Q entry
Discovered-iff P Q f (discovered entry) = f entry
Discovered-iff P Q f (unsupported_workspace _) = (λ h. h, λ h. h)
Discovered-iff P Q f (failed_workspace _) = (λ h. h, λ h. h)
Discovered-iff P Q f (not_confirmed_workspace _) = (λ h. h, λ h. h)

-- The lists of a discovery read current exactly when the discovery does and each discovered
-- workspace stands: no run of it is stored or was refused, or its latest run is bound to the current
-- fingerprint, and for the module of each discovered test, unless that module failed to load, the last
-- record of it that ran holds the identities that are discovered of it, in any order.
pub list_freshness-current_iff :
    (own : Freshness) (workspaces : List WorkspaceDiscovery) (latest_runs : Dict Text StoredRun)
    (refused_runs : Dict Text Text) (current_of : Text → Option Text)
    → (list_freshness own workspaces latest_runs refused_runs current_of ≡ current)
      ↔ ((own ≡ current) × All (Discovered (Stands latest_runs refused_runs current_of)) workspaces)
unfolding list_freshness
list_freshness-current_iff own workspaces latest_runs refused_runs current_of =
    let rates =
      rate_entries-current_iff (entry_freshness latest_runs refused_runs current_of) workspaces
        current in
    let stands =
      All_iff _ _
        (Discovered-iff (λ entry. Fine (entry_freshness latest_runs refused_runs current_of entry))
          (Stands latest_runs refused_runs current_of)
          (entry_freshness_iff latest_runs refused_runs current_of))
        workspaces in
    let reads = is_current_iff own in
    elim (Bool-cases (is_current own)) [
      | inl e ↦
          let is : list_freshness own workspaces latest_runs refused_runs current_of
              ≡ rate_entries (entry_freshness latest_runs refused_runs current_of) workspaces
                  current =
            rw e in
          (
            λ h. (reads.0 e, stands.0 (rates.0 (sym is ∙ h)).1),
            λ (_, v). is ∙ rates.1 (refl, stands.1 v),
          )
      | inr e ↦
          let is : list_freshness own workspaces latest_runs refused_runs current_of ≡ own = rw e in
          (
            λ h. let bad = reads.1 (sym is ∙ h) in absurd (ground arith),
            λ (c, _). let bad = reads.1 c in absurd (ground arith),
          )
    ]

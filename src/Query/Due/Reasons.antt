-- ===== src/Query/Due/Reasons.antt =====
-- Why a workspace is due (packages/daemon/src/daemon/due-workspaces.ts).
use rt_test.Base.{
  Bool-cases, Option-cases, ◌⊎◌, inl, inr, true, false, Bool, Option, none, some, [], Text, nat_eq,
  list_eq, ◌==◌, eq_iff, ◌≡◌, refl, ◌≢◌, ◌↔◌, arith, sym, ap, ◌∙◌,
}
use mathlib.Core.Path.{subst}
use rt_test.Core.Evidence.{Freshness, current, is_current}
use rt_test.Core.Evidence.Laws.{assess_freshness-Rates}
use rt_test.Query.Records.{InputFingerprint, digest, not_fingerprinted, StoredRun}
use rt_test.Query.States.{
  vitest_adapter_version, is_current_adapter_version, stored_freshness, stored_digest,
  record_freshness,
}
use rt_test.Query.Due.{inputs_changed, stale_reason}

stored_digest-digest :
    (f : InputFingerprint) (d : Text) → d ≢ [] → stored_digest f ≡ d → f ≡ digest d
stored_digest-digest not_fingerprinted d ne e = absurd (ne (cc))
stored_digest-digest (digest x) d ne e = ap digest e

-- A stored run is bound to the current fingerprint.
abbrev pub IsBound : StoredRun → Option Text → Type 0
IsBound stored current_fingerprint =
    (d : Text) × (d ≢ [])
    × (stored.adapter_version ≡ vitest_adapter_version)
    × (stored.input_fingerprint ≡ digest d)
    × (current_fingerprint ≡ some d)

-- A stored run reads current exactly when the present adapter version stored it under a digest that
-- is not empty and is the current fingerprint.
pub record_freshness-current_iff :
    (stored : StoredRun) (c : Option Text)
    → (record_freshness stored c ≡ current) ↔ IsBound stored c
unfolding record_freshness stored_freshness is_current_adapter_version
record_freshness-current_iff stored c =
    elim (Bool-cases (stored.adapter_version == vitest_adapter_version)) [
      | inl same ↦
          let rates = assess_freshness-Rates (some (stored_digest stored.input_fingerprint)) c in
          let version = (eq_iff stored.adapter_version vitest_adapter_version).0 same in
          (
            λ e.
                let (d, ne, p, q) = rates.current_iff.0 (ground arith) in
                (d, ne, version, stored_digest-digest _ d ne (cc), q),
            λ (d, ne, _, f, q).
                let now = rates.current_iff.1 (d, ne, ground arith, q) in ground (arith, now),
          )
      | inr other ↦ (
        λ e. absurd (ground arith),
        λ (d, ne, v, _, _).
            let same = (eq_iff stored.adapter_version vitest_adapter_version).1 v in
            absurd (ground arith),
      )
    ]

is_current_iff : (r : Freshness) → (is_current r ≡ true) ↔ (r ≡ current)
is_current_iff r = (λ h. ground arith, λ h. ground arith)

-- No reason is given exactly when a latest run is stored, under the present adapter version and a
-- digest that is not empty and is the current fingerprint.
pub stale_reason-none_iff :
    (latest : Option StoredRun) (c : Option Text) (refused : Bool)
    → (stale_reason latest c refused ≡ none)
      ↔ ((stored : StoredRun) × (latest ≡ some stored) × IsBound stored c)
unfolding stale_reason
stale_reason-none_iff none c refused =
    (λ e. absurd (ground arith), λ (s, e, _). absurd (ground arith))
stale_reason-none_iff (some s) c refused = elim (Bool-cases (is_current (record_freshness s c))) [
  | inl now ↦
      (λ _. (s, refl, (record_freshness-current_iff s c).0 ((is_current_iff _).0 now)), λ _. rw now)
  | inr other ↦ (
    λ e. absurd (ground arith),
    λ (s', e, b).
        let same : s' ≡ s = cc (e) in
        let bound : IsBound s c = subst (λ t. IsBound t c) same b in
        let now = (is_current_iff _).1 ((record_freshness-current_iff s c).1 bound) in
        absurd (ground arith),
  )
]

fingerprint-cases : (f : InputFingerprint) → (f ≡ not_fingerprinted) ⊎ ((d : Text) × (f ≡ digest d))
fingerprint-cases not_fingerprinted = inl refl
fingerprint-cases (digest d) = inr (d, refl)

-- A run under a digest that does not read current is under another digest than the current one.
unbound :
    (s : StoredRun) (c : Option Text) (d now : Text)
    → s.adapter_version ≡ vitest_adapter_version
    → s.input_fingerprint ≡ digest d
    → c ≡ some now
    → is_current (record_freshness s c) ≡ false
    → (d ≢ now) ⊎ (d ≡ [])
unbound s c d now version f n other = elim (Bool-cases (d == [])) [
  | inl e ↦ inr ((eq_iff d []).0 e)
  | inr e ↦ inl (λ same.
      let some_digest : d ≢ [] = λ bad. let here = (eq_iff d []).1 bad in absurd (ground arith) in
      let bound : IsBound s c = (d, some_digest, version, f, n ∙ ap some (sym same)) in
      let reads = (is_current_iff _).1 ((record_freshness-current_iff s c).1 bound) in
      absurd (ground arith))
]

apart-unbound :
    (s : StoredRun) (c : Option Text) (d now : Text)
    → s.input_fingerprint ≡ digest d
    → c ≡ some now
    → (d ≢ now) ⊎ (d ≡ [])
    → ¬ IsBound s c
apart-unbound s c d now f n apart (held, some_digest, _, g, m) =
    let stored : d ≡ held = cc (f, g) in
    let current_digest : now ≡ held = cc (n, m) in
    elim apart [ inl ne ↦ ne (stored ∙ sym current_digest) | inr e ↦ some_digest (sym stored ∙ e) ]

-- A workspace is due because its inputs changed exactly when its latest run was stored under the
-- present adapter version and a digest, and a current fingerprint can be computed that is another than
-- that digest. A stored digest that is empty counts as another.
pub stale_reason-inputs_changed_iff :
    (latest : Option StoredRun) (c : Option Text) (refused : Bool)
    → (stale_reason latest c refused ≡ some inputs_changed) ↔ (
        (stored : StoredRun) × (d : Text) × (now : Text) × (latest ≡ some stored)
        × (stored.adapter_version ≡ vitest_adapter_version)
        × (stored.input_fingerprint ≡ digest d)
        × (c ≡ some now)
        × ((d ≢ now) ⊎ (d ≡ [])))
unfolding stale_reason is_current_adapter_version
stale_reason-inputs_changed_iff none c true =
    (λ e. absurd (ground arith), λ (_, _, _, e, _, _, _, _). absurd (ground arith))
stale_reason-inputs_changed_iff none c false =
    (λ e. absurd (ground arith), λ (_, _, _, e, _, _, _, _). absurd (ground arith))
stale_reason-inputs_changed_iff (some s) c refused = (
  λ e. elim (Bool-cases (is_current (record_freshness s c))) [
    | inl now ↦ absurd (ground arith)
    | inr other ↦ elim (fingerprint-cases s.input_fingerprint) [
      | inl f ↦ absurd (ground arith)
      | inr (d, f) ↦ elim (Option-cases c) [
        | inl n ↦ absurd (ground arith)
        | inr (now, n) ↦
            let version : s.adapter_version ≡ vitest_adapter_version = ground arith in
            (s, d, now, refl, version, f, n, unbound s c d now version f n other)
      ]
    ]
  ],
  λ (s', d, now, e, v, f, n, apart).
      let same : s' ≡ s = cc (e) in
      let version : s.adapter_version ≡ vitest_adapter_version =
        ap (λ (r : StoredRun). r.adapter_version) (sym same) ∙ v in
      let print : s.input_fingerprint ≡ digest d =
        ap (λ (r : StoredRun). r.input_fingerprint) (sym same) ∙ f in
      elim (Bool-cases (is_current (record_freshness s c))) [
        | inl reads ↦ absurd (
            apart-unbound s c d now print n apart
              ((record_freshness-current_iff s c).0 ((is_current_iff _).0 reads)))
        | inr reads ↦ ground arith
      ],
)

-- ===== src/Daemon/Waits/Differing.antt =====
-- What `differing` adds (packages/daemon/src/daemon/waits.ts).
use rt_test.Base.{
  Bool, true, false, not, ◌&&◌, ◌||◌, any, Bool-cases, inl, inr, Option, none, some, if◌then◌else◌,
  List, [], ◌∷◌, Text, includes, lookup, ◌==◌, eq_iff, eq_refl, nat_eq, list_eq, ◌≡◌, ◌≢◌, ◌↔◌,
  refl, sym, ap, ◌∙◌, arith,
}
use rt_test.Daemon.Changes.{add_text}
use rt_test.Daemon.Record.{InputDigests, keys, add_texts, same_digest}
use rt_test.Daemon.Record.Added.{includes-add_text_iff, includes-add_texts_iff}
use rt_test.Daemon.Waits.{Coverage, differing, differing_inputs}

-- Whether two snapshots hold a path with different digests, or one of them alone holds it.
abbrev pub differs : InputDigests → InputDigests → Text → Bool
differs before after path = not (same_digest (lookup path before) (lookup path after))

includes-added :
    (path first : Text) (into : List Text) (added : Bool)
    → includes path (if added then add_text first into else into)
      ≡ (includes path into || (path == first && added))
includes-added path first into true = ground (arith, includes-add_text_iff path first into)
includes-added path first into false = ground arith

joined : (i q r d : Bool) → ((i || (q && d)) || (r && d)) ≡ (i || ((q || r) && d))
joined i q r d = ground arith

module _ (before after : InputDigests) (path : Text) where
  pub includes-differing :
      (paths into : List Text)
      → includes path (differing before after paths into)
        ≡ (includes path into || (includes path paths && differs before after path))
  unfolding differing
  includes-differing [] into = ground arith
  includes-differing (first ∷ paths) into =
      let rest =
        includes-differing paths
          (if differs before after first then add_text first into else into) in
      let here = includes-added path first into (differs before after first) in
      let is = λ (first_is : Bool).
        joined (includes path into) first_is (includes path paths) (differs before after path) in
      elim (Bool-cases (path == first)) [
        | inl e ↦
            let same = ap (differs before after) ((eq_iff path first).0 e) in
            rest ∙ rw (here, sym same, e) (is true)
        | inr e ↦ rest ∙ rw (here, e) (is false)
      ]

  -- Whether a workspace has the path among its inputs at either revision.
  abbrev pub watches : Coverage → Coverage → Text → Bool
  watches covered now workspace =
      includes path (covered.input_paths workspace) || includes path (now.input_paths workspace)

  pub includes-differing_inputs :
      (covered now : Coverage) (workspaces into : List Text)
      → includes path (differing_inputs before after covered now workspaces into) ≡ (
          includes path into || (any (watches covered now) workspaces && differs before after path))
  unfolding differing_inputs
  includes-differing_inputs covered now [] into = ground arith
  includes-differing_inputs covered now (workspace ∷ workspaces) into =
      let bound = differing before after (covered.input_paths workspace) into in
      let d = differs before after path in
      includes-differing_inputs covered now workspaces
        (differing before after (now.input_paths workspace) bound)
      ∙ rw
          (
            includes-differing (now.input_paths workspace) bound,
            includes-differing (covered.input_paths workspace) into,
            joined (includes path into) (includes path (covered.input_paths workspace))
                (includes path (now.input_paths workspace)) d,
          )
          (joined (includes path into) (watches covered now workspace)
            (any (watches covered now) workspaces) d)

  unkeyed : (m : InputDigests) → includes path (keys m) ≡ false → lookup path m ≡ none
  unfolding lookup
  unkeyed [] h = refl
  unkeyed ((first, digest) ∷ m) h = ground (arith, unkeyed m, eq_iff first path, eq_iff path first)

  -- A path that differs stands in one of the snapshots.
  pub differs-keyed :
      differs before after path ≡ true
      → (includes path (keys before) || includes path (keys after)) ≡ true
  differs-keyed h = elim (Bool-cases (includes path (keys before))) [
    | inl e ↦ ground arith
    | inr e ↦ elim (Bool-cases (includes path (keys after))) [
      | inl e' ↦ ground arith
      | inr e' ↦
          let same : differs before after path ≡ false = rw (unkeyed before e, unkeyed after e') in
          absurd (ground arith)
    ]
  ]

pub any_iff :
    (test : Text → Bool) (xs : List Text)
    → (any test xs ≡ true) ↔ ((x : Text) × (includes x xs ≡ true) × (test x ≡ true))
any_iff test [] = (λ e. absurd (ground arith), λ (x, h, _). absurd (ground arith))
any_iff test (first ∷ xs) = (
  λ holds. elim (Bool-cases (test first)) [
    | inl here ↦ let own = eq_refl first in (first, ground arith, here)
    | inr e ↦
        let rest : any test xs ≡ true = ground arith in
        let (x, h, passes) = (any_iff test xs).0 rest in (x, ground arith, passes)
  ],
  λ (x, h, passes). elim (Bool-cases (x == first)) [
    | inl e ↦ let here = ap test (sym ((eq_iff x first).0 e)) ∙ passes in ground arith
    | inr e ↦
        let rest : includes x xs ≡ true = ground arith in
        let found = (any_iff test xs).1 (x, rest, passes) in ground arith
  ],
)

pub includes-both :
    (x : Text) (xs ys : List Text)
    → includes x (add_texts ys (add_texts xs [])) ≡ (includes x xs || includes x ys)
includes-both x xs ys =
    ground (arith, includes-add_texts_iff x ys (add_texts xs []), includes-add_texts_iff x xs [])

same_digest_refl : (digest : Option Text) → same_digest digest digest ≡ true
same_digest_refl none = refl
same_digest_refl (some digest) = eq_refl digest

same_digest-eq : (a b : Option Text) → same_digest a b ≡ true → a ≡ b
same_digest-eq none none h = refl
same_digest-eq none (some b) h = absurd (ground arith)
same_digest-eq (some a) none h = absurd (ground arith)
same_digest-eq (some a) (some b) h = ap some ((eq_iff a b).0 h)

pub differs_iff :
    (before after : InputDigests) (path : Text)
    → (differs before after path ≡ true) ↔ (lookup path before ≢ lookup path after)
differs_iff before after path = (
  λ h e.
      let same = ap (λ d. same_digest d (lookup path after)) e ∙ same_digest_refl _ in
      absurd (ground arith),
  λ h. elim (Bool-cases (same_digest (lookup path before) (lookup path after))) [
    | inl e ↦ absurd (h (same_digest-eq (lookup path before) (lookup path after) e))
    | inr e ↦ ground arith
  ],
)

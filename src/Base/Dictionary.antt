-- ===== src/Base/Dictionary.antt =====
-- `Map` with its insertion order: `set` keeps the place of a key that is held, and appends a new one.
use mathlib.Core.Path.{◌≡◌, ap, refl, sym, ◌∙◌, subst}
use mathlib.Core.Bool.{Bool}
use mathlib.Core.Logic.{inl, inr}
use mathlib.Core.Option.{Option, none, some}
use mathlib.Core.List.{List, [], ◌∷◌}
use native.Mathlib.Omega.{arith}
use rt_test.Base.Tests.{if◌then◌else◌, Bool-cases}
use rt_test.Base.Equality.{Eq, ◌==◌, eq_iff}
use rt_test.Base.Lists.{filter, All, All-map}

abbrev pub Dict {ℓ κ} : Type ℓ → Type κ → Type (ℓ ⊔ κ)
Dict K V = List (K × V)

module _ {ℓ κ} {K : Type ℓ} {V : Type κ} ⦃e : Eq K⦄ where
  -- `get`.
  unfoldable pub lookup : K → Dict K V → Option V
  lookup key [] = none
  lookup key ((first, value) ∷ others) = if first == key then some value else lookup key others

  -- `set`.
  unfoldable pub insert : K → V → Dict K V → Dict K V
  insert key value [] = (key, value) ∷ []
  insert key value ((first, old) ∷ others) =
      if first == key then (first, value) ∷ others else (first, old) ∷ insert key value others

  -- `delete`.
  unfoldable pub delete : K → Dict K V → Dict K V
  delete key [] = []
  delete key ((first, old) ∷ others) =
      if first == key then delete key others else (first, old) ∷ delete key others

  pub lookup-insert :
      (set key : K) (value : V) (m : Dict K V)
      → lookup key (insert set value m) ≡ (if set == key then some value else lookup key m)
  unfolding lookup insert
  lookup-insert set key value [] = ground arith
  lookup-insert set key value ((first, old) ∷ m) =
      ground
        (arith, lookup-insert set key value m, eq_iff set key, eq_iff first set, eq_iff first key)

  pub lookup-delete :
      (gone key : K) (m : Dict K V)
      → lookup key (delete gone m) ≡ (if gone == key then none else lookup key m)
  unfolding lookup delete
  lookup-delete gone key [] = ground arith
  lookup-delete gone key ((first, old) ∷ m) =
      ground (arith, lookup-delete gone key m, eq_iff gone key, eq_iff first gone, eq_iff first key)

  -- What holds of each entry of a map that gains or changes one.
  pub All-insert {μ} :
      (P : K × V → Type μ) (set : K) (value : V) (m : Dict K V)
      → All P m
      → ((key : K) → key ≡ set → P (key, value))
      → All P (insert set value m)
  unfolding insert
  All-insert P set value [] h f = (f set refl, tt)
  All-insert P set value ((first, old) ∷ m) (h, hs) f = elim (Bool-cases (first == set)) [
    | inl e ↦
        let is : insert set value ((first, old) ∷ m) ≡ (first, value) ∷ m = rw e in
        subst (All P) (sym is) (f first ((eq_iff first set).0 e), hs)
    | inr e ↦
        let is : insert set value ((first, old) ∷ m) ≡ (first, old) ∷ insert set value m = rw e in
        subst (All P) (sym is) (h, All-insert P set value m hs f)
  ]

  -- Each entry is the one that its key finds.
  abbrev pub IsMap : Dict K V → Type κ
  IsMap m = All (λ (entry : K × V). lookup entry.0 m ≡ some entry.1) m

  pub insert-IsMap :
      (set : K) (value : V) (m : Dict K V)
      → lookup set m ≡ none
      → IsMap m
      → IsMap (insert set value m)
  insert-IsMap set value m fresh h =
      All-insert _ set value m
        (All-map _ _
          (λ (entry : K × V) found.
            lookup-insert set entry.0 value m ∙ elim (Bool-cases (set == entry.0)) [
              | inl e ↦
                  let lost = ap (λ x. lookup x m) ((eq_iff set entry.0).0 e) in
                  absurd (ground arith)
              | inr e ↦ rw e found
            ])
          m h)
        (λ key e. lookup-insert set key value m ∙ rw ((eq_iff set key).1 (sym e)))

  -- Keeping the entries whose key passes a test.
  pub lookup-filter :
      (p : K → Bool) (k : K) (m : Dict K V)
      → lookup k (filter (λ (entry : K × V). p entry.0) m) ≡ (if p k then lookup k m else none)
  unfolding lookup
  lookup-filter p k [] = ground arith
  lookup-filter p k ((i, w) ∷ m) = elim (Bool-cases (i == k)) [
    | inl same ↦
        let e' : i ≡ k = (eq_iff i k).0 same in ground (arith, ap p e', lookup-filter p k m)
    | inr other ↦ ground (arith, lookup-filter p k m)
  ]

-- ===== src/Base/Lists.antt =====
-- Lists over the native numbers, and the array methods that the source calls.
use Prim.Native.Nat.{ℕ, zero, suc, ◌+◌, ◌≤◌, ◌<◌}
use native.Mathlib.Numerals.{towards_suc}
use mathlib.Core.Path.{◌≡◌, refl, ap, ◌∙◌}
use mathlib.Core.Logic.{◌⊎◌, ◌↔◌, inl, inr}
use mathlib.Core.Bool.{Bool, true, false, ◌&&◌, ◌||◌}
use mathlib.Core.Option.{Option, none, some}
use mathlib.Core.List.{List, [], ◌∷◌, ◌++◌}
use native.Mathlib.Omega.{arith}
use rt_test.Base.Tests.{if◌then◌else◌}

module _ {ℓ} {A : Type ℓ} where
  abbrev pub length : List A → ℕ
  length [] = 0
  length (x ∷ xs) = suc (length xs)

  abbrev pub get_elem? : List A → ℕ → Option A
  get_elem? [] i = none
  get_elem? (x ∷ xs) zero = some x
  get_elem? (x ∷ xs) (suc i) = get_elem? xs i

  -- `slice(0, n)` and `slice(n)`.
  abbrev pub take : ℕ → List A → List A
  take zero xs = []
  take (suc n) [] = []
  take (suc n) (x ∷ xs) = x ∷ take n xs

  abbrev pub drop : ℕ → List A → List A
  drop zero xs = xs
  drop (suc n) [] = []
  drop (suc n) (x ∷ xs) = drop n xs

  -- `some`, `every`, `filter` and `find`.
  abbrev pub any : (A → Bool) → List A → Bool
  any p [] = false
  any p (x ∷ xs) = p x || any p xs

  abbrev pub all : (A → Bool) → List A → Bool
  all p [] = true
  all p (x ∷ xs) = p x && all p xs

  abbrev pub filter : (A → Bool) → List A → List A
  filter p [] = []
  filter p (x ∷ xs) = if p x then x ∷ filter p xs else filter p xs

  abbrev pub find? : (A → Bool) → List A → Option A
  find? p [] = none
  find? p (x ∷ xs) = if p x then some x else find? p xs

  abbrev pub head? : List A → Option A
  head? [] = none
  head? (x ∷ _) = some x

  pub length-append : (xs ys : List A) → length (xs ++ ys) ≡ length xs + length ys
  length-append [] ys = omega arith
  length-append (x ∷ xs) ys = omega (arith, length-append xs ys)

  pub length-take-le : (n : ℕ) (xs : List A) → length (take n xs) ≤ n
  length-take-le zero xs = omega arith
  length-take-le (suc n) [] = omega arith
  length-take-le (suc n) (x ∷ xs) = omega (arith, length-take-le n xs)

-- What holds of every element.
abbrev pub All {ℓ μ} : {A : Type ℓ} (P : A → Type μ) (xs : List A) → Type μ
All P [] = Unit
All P (first ∷ others) = P first × All P others

-- What holds of some element, with the element.
abbrev pub Exists {ℓ} : {A : Type ℓ} → (A → Type 0) → List A → Type 0
Exists P [] = ⊥
Exists P (x ∷ xs) = P x ⊎ Exists P xs

-- What holds between each element and every later one.
abbrev pub Pairs {ℓ κ} : {A : Type ℓ} → (A → A → Type κ) → List A → Type κ
Pairs R [] = Unit
Pairs R (x ∷ xs) = All (R x) xs × Pairs R xs

pub All-map {ℓ κ μ} :
    {A : Type ℓ} (P : A → Type κ) (Q : A → Type μ)
    → ((x : A) → P x → Q x)
    → (xs : List A) → All P xs
    → All Q xs
All-map P Q f [] h = tt
All-map P Q f (x ∷ xs) h = (f x h.0, All-map P Q f xs h.1)

pub Pairs-map {ℓ κ μ} :
    {A : Type ℓ} (R : A → A → Type κ) (S : A → A → Type μ)
    → ((x y : A) → R x y → S x y)
    → (xs : List A) → Pairs R xs
    → Pairs S xs
Pairs-map R S f [] h = tt
Pairs-map R S f (x ∷ xs) h = (All-map (R x) (S x) (f x) xs h.0, Pairs-map R S f xs h.1)

module _ {ℓ} {A : Type ℓ} where
  -- Reading a list at an index, with what is left from there on.
  pub get_elem?-cases :
      (i : ℕ) (xs : List A)
      → ((get_elem? xs i ≡ none) × (drop i xs ≡ []) × (length xs ≤ i))
        ⊎ ((x : A) × (get_elem? xs i ≡ some x)
            × (drop i xs ≡ x ∷ drop (i + 1) xs)
            × (i < length xs))
  get_elem?-cases i [] = inl (refl, drop-nil i, omega arith)
    where
      drop-nil : (j : ℕ) → drop {A = A} j [] ≡ []
      drop-nil zero = refl
      drop-nil (suc j) = refl
  get_elem?-cases zero (x ∷ xs) = inr (x, refl, ground arith, omega arith)
  get_elem?-cases (suc i) (x ∷ xs) = elim (get_elem?-cases i xs) [
    | inl (e, d, h) ↦ inl (e, d, omega arith)
    | inr (y, e, d, h) ↦ inr (y, e, d ∙ ap (λ r. y ∷ r) (simp towards_suc), omega arith)
  ]

  -- A test over a list fails exactly when it fails of each element.
  pub any-eq-false_iff :
      (p : A → Bool) (xs : List A) → (any p xs ≡ false) ↔ All (λ x. p x ≡ false) xs
  any-eq-false_iff p [] = (λ _. tt, λ _. refl)
  any-eq-false_iff p (x ∷ xs) = ground (arith, any-eq-false_iff p xs)

  pub find?-eq-none_iff :
      (p : A → Bool) (xs : List A) → (find? p xs ≡ none) ↔ All (λ x. p x ≡ false) xs
  find?-eq-none_iff p [] = (λ _. tt, λ _. refl)
  find?-eq-none_iff p (x ∷ xs) = ground (arith, find?-eq-none_iff p xs)

  pub all-eq-true_iff : (p : A → Bool) (xs : List A) → (all p xs ≡ true) ↔ All (λ x. p x ≡ true) xs
  all-eq-true_iff p [] = (λ _. tt, λ _. refl)
  all-eq-true_iff p (x ∷ xs) = ground (arith, all-eq-true_iff p xs)

  -- The elements of a list for which a test holds.
  pub Exists-filter :
      (P : A → Type 0) (p : A → Bool) (xs : List A)
      → Exists P (filter p xs) ↔ Exists (λ x. (p x ≡ true) × P x) xs
  Exists-filter P p [] = ground arith
  Exists-filter P p (x ∷ xs) = ground (arith, Exists-filter P p xs)

  -- Nothing is kept exactly when the test fails of each element.
  pub filter-nil_iff : (p : A → Bool) (xs : List A) → (filter p xs ≡ []) ↔ All (λ x. p x ≡ false) xs
  filter-nil_iff p [] = ground arith
  filter-nil_iff p (x ∷ xs) = ground (arith, filter-nil_iff p xs)

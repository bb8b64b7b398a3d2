-- ===== src/Base/Equality.antt =====
-- `===` as an interface, with instances for numbers and for lists: a text is the list of its code
-- points, as `Array.from` gives them.
use Prim.Native.Nat.{ℕ}
use Prim.Native.Char.{code}
use Prim.Native.String.{String}
use mathlib.Core.Path.{◌≡◌, refl, sym}
use mathlib.Core.Logic.{◌↔◌}
use mathlib.Core.Bool.{Bool, true, false, ◌&&◌, ◌||◌}
use mathlib.Core.List.{List, [], ◌∷◌}
use native.Mathlib.Omega.{arith}
use rt_test.Base.Tests.{nat_beq, nat_beq_iff, Bool-eq_of_iff, if◌then◌else◌}

pub record Eq {ℓ} (T : Type ℓ) : Type ℓ where
  pub beq : (x y : T) → Bool
  pub beq_iff : (x y : T) → (beq x y ≡ true) ↔ (x ≡ y)

-- `===`.
abbrev pub ◌==◌ {ℓ} : {T : Type ℓ} ⦃test : Eq T⦄ (x y : T) → Bool
◌==◌ ⦃test⦄ = test.beq

infix 50 ◌==◌
pub eq_iff {ℓ} : {A : Type ℓ} ⦃e : Eq A⦄ (a b : A) → (a == b ≡ true) ↔ (a ≡ b)
eq_iff ⦃e⦄ a b = e.beq_iff a b

pub eq_refl {ℓ} : {A : Type ℓ} ⦃e : Eq A⦄ (a : A) → a == a ≡ true
eq_refl a = (eq_iff a a).1 refl

pub eq_comm {ℓ} : {A : Type ℓ} ⦃e : Eq A⦄ (a b : A) → a == b ≡ b == a
eq_comm a b =
    Bool-eq_of_iff (a == b) (b == a) (λ e. (eq_iff b a).1 (sym ((eq_iff a b).0 e)))
      (λ e. (eq_iff a b).1 (sym ((eq_iff b a).0 e)))

instance abbrev pub nat_eq : Eq ℕ
nat_eq = record { beq = nat_beq; beq_iff = nat_beq_iff }

module _ {ℓ} {A : Type ℓ} ⦃e : Eq A⦄ where
  unfoldable pub list_beq : List A → List A → Bool
  list_beq [] [] = true
  list_beq [] (_ ∷ _) = false
  list_beq (_ ∷ _) [] = false
  list_beq (x ∷ xs) (y ∷ ys) = x == y && list_beq xs ys

  pub list_beq_iff : (xs ys : List A) → (list_beq xs ys ≡ true) ↔ (xs ≡ ys)
  unfolding list_beq
  list_beq_iff [] [] = (λ _. refl, λ _. refl)
  list_beq_iff [] (y ∷ ys) = ground arith
  list_beq_iff (x ∷ xs) [] = ground arith
  list_beq_iff (x ∷ xs) (y ∷ ys) = ground (arith, eq_iff x y, list_beq_iff xs ys)

  abbrev pub without : A → List A → List A
  without a [] = []
  without a (x ∷ xs) = if x == a then without a xs else x ∷ without a xs

  -- `[...new Set(xs)]`: each element once, where it stands first.
  abbrev pub distinct : List A → List A
  distinct [] = []
  distinct (x ∷ xs) = x ∷ without x (distinct xs)

  -- `includes`.
  abbrev pub includes : A → List A → Bool
  includes a [] = false
  includes a (x ∷ xs) = a == x || includes a xs

instance abbrev pub list_eq {ℓ} : {A : Type ℓ} ⦃e : Eq A⦄ → Eq (List A)
list_eq = record { beq = list_beq; beq_iff = list_beq_iff }

abbrev pub Text : Type 0
Text = List ℕ

-- A text written out in the source.
abbrev pub codes : String → Text
codes String.[] = []
codes (String.◌∷◌ c s) = code c ∷ codes s

-- `===` on a type of constructors, by its decision.
abbrev pub decision {ℓ} : {P : Type ℓ} → Dec P → Bool
decision (yes _) = true
decision (no _) = false

pub decision_iff {ℓ} : {P : Type ℓ} (d : Dec P) → (decision d ≡ true) ↔ P
decision_iff (yes p) = (λ _. p, λ _. refl)
decision_iff (no n) = (λ e. absurd (ground arith), λ p. absurd (n p))

abbrev pub discrete_eq {ℓ} : {A : Type ℓ} → Discrete A → Eq A
discrete_eq d = record { beq = λ a b. decision (d a b); beq_iff = λ a b. decision_iff (d a b) }

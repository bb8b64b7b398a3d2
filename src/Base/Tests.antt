-- ===== src/Base/Tests.antt =====
-- Tests on Booleans, numbers and options, and the case splits that keep their equations.
use Prim.Native.Nat.{ℕ, compare, Ordering}
use mathlib.Core.Path.{◌≡◌, refl}
use mathlib.Core.Logic.{◌⊎◌, inl, inr, ◌↔◌}
use mathlib.Core.Bool.{Bool, true, false, not}
use mathlib.Core.Option.{Option, none, some}
use native.Mathlib.Omega.{arith}

abbrev pub ltb : ℕ → ℕ → Bool
ltb a b = elim (compare a b) [ Ordering.lt ↦ true | _ ↦ false ]

abbrev pub leb : ℕ → ℕ → Bool
leb a b = elim (compare a b) [ Ordering.gt ↦ false | _ ↦ true ]

abbrev pub nat_beq : ℕ → ℕ → Bool
nat_beq a b = elim (compare a b) [ Ordering.eq ↦ true | _ ↦ false ]

pub nat_beq_iff : (a b : ℕ) → (nat_beq a b ≡ true) ↔ (a ≡ b)
nat_beq_iff a b = (ground arith, ground arith)

infix 1 if◌then◌else◌
abbrev pub if◌then◌else◌ {ℓ} : {A : Type ℓ} → Bool → A → A → A
if true then x else y = x
if false then x else y = y

pub Bool-cases : (b : Bool) → (b ≡ true) ⊎ (b ≡ false)
Bool-cases true = inl refl
Bool-cases false = inr refl

-- Two tests that hold together are one.
pub Bool-eq_of_iff : (a b : Bool) → (a ≡ true → b ≡ true) → (b ≡ true → a ≡ true) → a ≡ b
Bool-eq_of_iff true b f g = ground (arith, f refl)
Bool-eq_of_iff false true f g = ground (arith, g refl)
Bool-eq_of_iff false false f g = refl

pub Option-cases {ℓ} : {A : Type ℓ} (o : Option A) → (o ≡ none) ⊎ ((a : A) × (o ≡ some a))
Option-cases none = inl refl
Option-cases (some a) = inr (a, refl)

-- `a ?? b`, where `a` may be undefined.
abbrev pub or_default {ℓ} : {A : Type ℓ} → Option A → A → A
or_default none b = b
or_default (some a) b = a

-- `a ?? b` where both may be undefined.
infixr 20 ◌<|>◌
abbrev pub ◌<|>◌ {ℓ} : {A : Type ℓ} → Option A → Option A → Option A
none <|> b = b
some a <|> b = some a

abbrev pub is_some {ℓ} : {A : Type ℓ} → Option A → Bool
is_some none = false
is_some (some _) = true

-- A test that is negated.
pub not_iff {ℓ} : {P : Type ℓ} (b : Bool) → (b ≡ true) ↔ P → (not b ≡ true) ↔ ¬ P
not_iff b f = (
  λ h p. let e = f.1 p in absurd (ground arith),
  λ n. elim (Bool-cases b) [ inl e ↦ absurd (n (f.0 e)) | inr e ↦ rw e ],
)

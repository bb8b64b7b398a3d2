-- ===== src/Base/Json/Digits.antt =====
-- The decimal digits of a number, which no two numbers share.
use Prim.Native.Nat.{ℕ, zero, suc, ◌+◌, ◌-◌, ◌*◌, ◌/◌, ◌%◌, ◌<◌, ◌≤◌}
use mathlib.Core.Path.{◌≡◌, refl, ap, ◌∙◌, sym}
use mathlib.Core.Logic.{inl, inr}
use mathlib.Core.List.{[], ◌∷◌, ◌++◌}
use native.Mathlib.Omega.{arith}
use rt_test.Base.Tests.{ltb, if◌then◌else◌, Bool-cases}
use rt_test.Base.Equality.{Text}

-- At most as many digits as the fuel.
unfoldable pub digits : ℕ → ℕ → Text
digits zero n = []
digits (suc f) n =
    let more = digits f (n / 10) in
    if ltb n 10 then (n + b'0') ∷ [] else more ++ (n % 10 + b'0') ∷ []

unfoldable pub print_nat : ℕ → Text
unfolding digits
print_nat n = digits (suc n) n

unfoldable pub value : ℕ → Text → ℕ
value acc [] = acc
value acc (c ∷ cs) = value (10 * acc + (c - b'0')) cs

-- More digits never make a number less.
pub value-le : (acc : ℕ) (cs : Text) → acc ≤ value acc cs
unfolding value
value-le acc [] = omega arith
value-le acc (c ∷ cs) = omega (arith, value-le (10 * acc + (c - b'0')) cs)

value-append : (acc c : ℕ) (cs : Text) → value acc (cs ++ c ∷ []) ≡ 10 * value acc cs + (c - b'0')
unfolding value
value-append acc c [] = refl
value-append acc c (d ∷ cs) = value-append (10 * acc + (d - b'0')) c cs

value-digits : (f n : ℕ) → n < f → value 0 (digits f n) ≡ n
unfolding digits
value-digits zero n h = elim h [ ]
value-digits (suc f) n h = elim (Bool-cases (ltb n 10)) [
  | inl short ↦ rw short (unfold value in omega arith)
  | inr long ↦ rw long (
      value-append 0 (n % 10 + b'0') (digits f (n / 10))
      ∙ (ground (arith, value-digits f (n / 10))))
]

-- Reading what was printed.
pub value-print_nat : (n : ℕ) → value 0 (print_nat n) ≡ n
unfolding print_nat
value-print_nat n = value-digits (suc n) n (omega arith)

pub print_nat_inj : (m n : ℕ) → print_nat m ≡ print_nat n → m ≡ n
print_nat_inj m n e = sym (value-print_nat m) ∙ ap (value 0) e ∙ value-print_nat n

-- ===== src/Base/Json/Reading.antt =====
-- A quoted text can be read back whatever follows it, so two texts or arrays with one quoted form
-- are equal.
use Prim.Native.Nat.{ℕ, ◌+◌, ◌-◌, ◌*◌, ◌/◌, ◌%◌, ◌<◌}
use mathlib.Core.Path.{◌≡◌, refl, ap, ◌∙◌, sym}
use mathlib.Core.Logic.{inl, inr, ◌≢◌}
use mathlib.Core.Bool.{◌&&◌, ◌||◌}
use mathlib.Core.Option.{Option, none, some}
use mathlib.Core.List.{List, [], ◌∷◌, ◌++◌, append_assoc}
use native.Mathlib.Omega.{arith}
use rt_test.Base.Tests.{ltb, leb, nat_beq, if◌then◌else◌, Bool-cases}
use rt_test.Base.Equality.{Text}
use rt_test.Base.Json.Quoting.{
  hex, unicode_escape, short_escape, escape, escape_all, quote, quote_rest, quote_list,
}

hex_value : ℕ → ℕ
hex_value c = if ltb c 58 then c - b'0' else c - 87

hex_value-hex : (d : ℕ) → hex_value (hex d) ≡ d
unfolding hex_value hex
hex_value-hex d = ground arith

-- The character that a two-character escape stands for.
long_form : ℕ → ℕ
long_form k =
    if nat_beq k b'b'
    then 8
    else (if nat_beq k b't'
        then 9
        else (if nat_beq k b'n'
            then 10
            else (if nat_beq k b'f' then 12 else (if nat_beq k b'r' then 13 else k))))

read_hex : Text → Option (ℕ × Text)
read_hex (a ∷ b ∷ c ∷ d ∷ r) =
    some (4096 * hex_value a + 256 * hex_value b + 16 * hex_value c + hex_value d, r)
read_hex _ = none

read_escape : Text → Option (ℕ × Text)
read_escape [] = none
read_escape (k ∷ r) = if nat_beq k b'u' then read_hex r else some (long_form k, r)

read_one : Text → Option (ℕ × Text)
read_one [] = none
read_one (c ∷ r) = if nat_beq c b'\\' then read_escape r else some (c, r)

read-unicode_escape :
    (c : ℕ) (r : Text) → c < 65536 → read_one (unicode_escape c ++ r) ≡ some (c, r)
unfolding read_one read_escape read_hex unicode_escape
read-unicode_escape c r h = ground (
  arith,
  hex_value-hex (c / 4096),
  hex_value-hex (c / 256 % 16),
  hex_value-hex (c / 16 % 16),
  hex_value-hex (c % 16),
)

read-short :
    (c : ℕ) (r : Text) → 0 < short_escape c → read_one (b'\\' ∷ short_escape c ∷ r) ≡ some (c, r)
unfolding read_one read_escape short_escape long_form
read-short c r h = ground arith

read-escape : (c : ℕ) (r : Text) → read_one (escape c ++ r) ≡ some (c, r)
unfolding escape
read-escape c r = elim (Bool-cases (nat_beq c b'"' || nat_beq c b'\\')) [
  | inl plain ↦ rw plain (unfold read_one read_escape long_form in ground arith)
  | inr e1 ↦ rw e1 (elim (Bool-cases (ltb 0 (short_escape c))) [
    | inl short ↦ rw short (read-short c r (ground arith))
    | inr e2 ↦ rw e2 (elim (Bool-cases (ltb c 32 || (leb 0xd800 c && leb c 0xdfff))) [
      | inl coded ↦ rw coded (read-unicode_escape c r (ground arith))
      | inr e3 ↦ rw e3 (unfold read_one in ground arith)
    ])
  ])
]

-- No escape begins with the closing quotation mark.
escape_head : (c : ℕ) (r t : Text) → escape c ++ r ≢ b'"' ∷ t
unfolding escape unicode_escape
escape_head c r t e = ground arith

quoted_inj :
    (s t u v : Text) → escape_all s ++ b'"' ∷ u ≡ escape_all t ++ b'"' ∷ v → (s ≡ t) × (u ≡ v)
unfolding escape_all
quoted_inj [] [] u v e = (refl, cc)
quoted_inj [] (d ∷ t) u v e = absurd (
    escape_head d (escape_all t ++ b'"' ∷ v) u
      (sym (e ∙ append_assoc (escape d) (escape_all t) (b'"' ∷ v))))
quoted_inj (c ∷ s) [] u v e = absurd (
    escape_head c (escape_all s ++ b'"' ∷ u) v
      (sym (append_assoc (escape c) (escape_all s) (b'"' ∷ u)) ∙ e))
quoted_inj (c ∷ s) (d ∷ t) u v e =
    let e' =
      sym (read-escape c (escape_all s ++ b'"' ∷ u))
      ∙ ap read_one (
          sym (append_assoc (escape c) (escape_all s) (b'"' ∷ u))
          ∙ e
          ∙ append_assoc (escape d) (escape_all t) (b'"' ∷ v))
      ∙ read-escape d (escape_all t ++ b'"' ∷ v) in
    let (p, q) = quoted_inj s t u v (ground (arith, e')) in (ground (arith, e', p), q)

tail_eq : (c d : ℕ) (s t : Text) → ◌≡◌ {A = Text} (c ∷ s) (d ∷ t) → s ≡ t
tail_eq c d s t e = cc

pub quote_inj : (s t u v : Text) → quote s ++ u ≡ quote t ++ v → (s ≡ t) × (u ≡ v)
unfolding quote
quote_inj s t u v e = quoted_inj s t u v (
    sym (append_assoc (escape_all s) (b'"' ∷ []) u)
    ∙ tail_eq _ _ _ _ e
    ∙ append_assoc (escape_all t) (b'"' ∷ []) v)

pub quote_rest_inj :
    (ss ts : List Text) (u v : Text) → quote_rest ss ++ u ≡ quote_rest ts ++ v → (ss ≡ ts) × (u ≡ v)
unfolding quote_rest
quote_rest_inj [] [] u v e = (refl, cc)
quote_rest_inj [] (t ∷ ts) u v e = absurd (ground arith)
quote_rest_inj (s ∷ ss) [] u v e = absurd (ground arith)
quote_rest_inj (s ∷ ss) (t ∷ ts) u v e =
    let (p, e') = quote_inj s t (quote_rest ss ++ u) (quote_rest ts ++ v) (
      sym (append_assoc (quote s) (quote_rest ss) u)
      ∙ tail_eq _ _ _ _ e
      ∙ append_assoc (quote t) (quote_rest ts) v) in
    let (q, r) = quote_rest_inj ss ts u v e' in (ground (arith, p, q), r)

pub quote_list_inj :
    (ss ts : List Text) (u v : Text) → quote_list ss ++ u ≡ quote_list ts ++ v → (ss ≡ ts) × (u ≡ v)
unfolding quote_list
quote_list_inj [] [] u v e = (refl, cc)
quote_list_inj [] (t ∷ ts) u v e = absurd (unfold quote in ground arith)
quote_list_inj (s ∷ ss) [] u v e = absurd (unfold quote in ground arith)
quote_list_inj (s ∷ ss) (t ∷ ts) u v e =
    let (p, e') = quote_inj s t (quote_rest ss ++ u) (quote_rest ts ++ v) (
      sym (append_assoc (quote s) (quote_rest ss) u)
      ∙ tail_eq _ _ _ _ e
      ∙ append_assoc (quote t) (quote_rest ts) v) in
    let (q, r) = quote_rest_inj ss ts u v e' in (ground (arith, p, q), r)

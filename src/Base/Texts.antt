-- ===== src/Base/Texts.antt =====
-- The methods of `String` that the source calls, over the code points of a text.
use Prim.Native.Nat.{ℕ}
use mathlib.Core.Path.{◌≡◌, refl, sym, ap}
use mathlib.Core.Logic.{inl, inr, ◌≢◌}
use mathlib.Core.Bool.{Bool, true, false, ◌&&◌, ◌||◌}
use mathlib.Core.List.{List, [], ◌∷◌, ◌++◌}
use native.Mathlib.Omega.{arith}
use rt_test.Base.Tests.{if◌then◌else◌, Bool-cases}
use rt_test.Base.Equality.{Text, ◌==◌, nat_eq, eq_iff}

-- `startsWith`.
unfoldable pub starts_with : Text → Text → Bool
starts_with s [] = true
starts_with [] (_ ∷ _) = false
starts_with (c ∷ s) (d ∷ t) = c == d && starts_with s t

-- `includes` of a text.
unfoldable pub includes_text : Text → Text → Bool
includes_text [] t = starts_with [] t
includes_text (c ∷ s) t = starts_with (c ∷ s) t || includes_text s t

-- A character in front of the first segment.
unfoldable pub push_first : ℕ → List Text → List Text
push_first c [] = (c ∷ []) ∷ []
push_first c (first ∷ rest) = (c ∷ first) ∷ rest

-- `split` by a separator of one character: always at least one segment.
unfoldable pub split : ℕ → Text → List Text
unfolding push_first
split separator [] = [] ∷ []
split separator (c ∷ s) =
    let segments = split separator s in
    if c == separator then [] ∷ segments else push_first c segments

-- `join` by a separator of one character.
unfoldable pub join : ℕ → List Text → Text
join separator [] = []
join separator (t ∷ []) = t
join separator (t ∷ (u ∷ us)) = t ++ separator ∷ join separator (u ∷ us)

pub split-ne-nil : (sep : ℕ) (s : Text) → split sep s ≢ []
unfolding split
split-ne-nil sep [] = λ e. cc
split-ne-nil sep (c ∷ s) = λ e. ground (arith, split-ne-nil sep s)

join-separator : (sep : ℕ) (ts : List Text) → ts ≢ [] → join sep ([] ∷ ts) ≡ sep ∷ join sep ts
unfolding join
join-separator sep [] ne = absurd (ne refl)
join-separator sep (t ∷ ts) ne = refl

join-push_first : (sep c : ℕ) (ts : List Text) → join sep (push_first c ts) ≡ c ∷ join sep ts
unfolding join push_first
join-push_first sep c [] = refl
join-push_first sep c (t ∷ []) = refl
join-push_first sep c (t ∷ (u ∷ us)) = refl

-- Joining the segments of a text gives the text back.
pub join-split : (sep : ℕ) (s : Text) → join sep (split sep s) ≡ s
unfolding split
join-split sep [] = unfold join in refl
join-split sep (c ∷ s) = elim (Bool-cases (c == sep)) [
  | inl same ↦
      rw (same, join-separator sep (split sep s) (split-ne-nil sep s), join-split sep s)
        (ap (λ d. d ∷ s) (sym ((eq_iff c sep).0 same)))
  | inr other ↦ rw (other, join-push_first sep c (split sep s), join-split sep s)
]

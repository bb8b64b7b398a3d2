-- ===== src/Daemon/Record/Added.antt =====
-- Which paths a set holds once texts are added (packages/daemon/src/daemon/change-record.ts and
-- run-judgment.ts).
use rt_test.Base.{
  false, Bool-cases, inl, inr, List, [], ◌∷◌, ◌++◌, Text, includes, ◌==◌, eq_iff, nat_eq, list_eq,
  ◌≡◌, ◌↔◌, sym, ap, ◌∙◌, arith,
}
use rt_test.Daemon.Changes.{add_text}
use rt_test.Daemon.Record.{add_texts}

pub includes-append_iff :
    (p : Text) (xs ys : List Text)
    → (includes p (xs ++ ys) ≡ false) ↔ ((includes p xs ≡ false) × (includes p ys ≡ false))
includes-append_iff p [] ys = ground arith
includes-append_iff p (x ∷ xs) ys = ground (arith, includes-append_iff p xs ys)

pub includes-add_text_iff :
    (p x : Text) (held : List Text)
    → (includes p (add_text x held) ≡ false) ↔ ((includes p held ≡ false) × (p == x ≡ false))
includes-add_text_iff p x held = elim (Bool-cases (includes x held)) [
  | inl e ↦
      let is : add_text x held ≡ held = rw e in
      (
        λ h.
            let left = ap (includes p) (sym is) ∙ h in
            (
              left,
              elim (Bool-cases (p == x)) [
                | inl same ↦
                    let here = ap (λ y. includes y held) ((eq_iff p x).0 same) ∙ e in
                    absurd (ground arith)
                | inr other ↦ other
              ],
            ),
        λ (left, _). ap (includes p) is ∙ left,
      )
  | inr e ↦
      let is : add_text x held ≡ held ++ x ∷ [] = rw e in
      let split = includes-append_iff p held (x ∷ []) in
      (
        λ h. let (left, last) = split.0 (ap (includes p) (sym is) ∙ h) in (left, ground arith),
        λ (left, other). ap (includes p) is ∙ split.1 (left, ground arith),
      )
]

pub includes-add_texts_iff :
    (p : Text) (xs held : List Text)
    → (includes p (add_texts xs held) ≡ false)
      ↔ ((includes p held ≡ false) × (includes p xs ≡ false))
unfolding add_texts
includes-add_texts_iff p [] held = ground arith
includes-add_texts_iff p (x ∷ xs) held =
    let rest = includes-add_texts_iff p xs (add_text x held) in
    let one = includes-add_text_iff p x held in
    (
      λ h.
          let (first, others) = rest.0 h in let (left, other) = one.0 first in (left, ground arith),
      λ (left, none_of). rest.1 (one.1 (left, ground arith), ground arith),
    )

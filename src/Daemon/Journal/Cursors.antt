-- ===== src/Daemon/Journal/Cursors.antt =====
-- That a journal reads the cursors it gave, and holds a bounded number of changes
-- (packages/daemon/src/daemon/change-journal.ts).
use rt_test.Base.{
  ℕ, zero, suc, ◌+◌, ◌/◌, ◌%◌, ◌≤◌, ◌<◌, Bool-cases, inl, inr, Bool, true, false, none, some, [],
  ◌∷◌, ◌++◌, Text, ltb, leb, all, length, nat_eq, list_eq, ◌==◌, ◌≡◌, refl, eq_iff, arith,
}
use rt_test.Base.Json.{digits, print_nat, value-print_nat}
use rt_test.Daemon.Journal.{
  record_moment, cursor, split_last, is_digit, is_sequence_form, issued, sequence_of,
}
use rt_test.Daemon.Moments.{ChangeJournal, new_journal, moment, cursor_separator}
use rt_test.Daemon.Journal.Follows.{record_next-length}
use rt_test.Daemon.Journal.Shown.{History}
use rt_test.Daemon.Journal.Since.{Recorded, started, recorded_moment, Recorded-Follows}

all-append :
    (p : ℕ → Bool) (xs ys : Text) → all p xs ≡ true → all p ys ≡ true → all p (xs ++ ys) ≡ true
all-append p [] ys h k = k
all-append p (x ∷ xs) ys h k = ground (arith, all-append p xs ys)

digits-all : (f n : ℕ) → all is_digit (digits f n) ≡ true
unfolding digits
digits-all zero n = refl
digits-all (suc f) n = elim (Bool-cases (ltb n 10)) [
  | inl short ↦ ground arith
  | inr long ↦ rw long (
      all-append is_digit (digits f (n / 10)) ((n % 10 + b'0') ∷ []) (digits-all f (n / 10))
        (ground arith))
]

is_sequence_form-append :
    (xs ys : Text)
    → is_sequence_form xs ≡ true
    → all is_digit ys ≡ true
    → is_sequence_form (xs ++ ys) ≡ true
unfolding is_sequence_form
is_sequence_form-append [] ys h k = absurd (ground arith)
is_sequence_form-append (x ∷ xs) ys h k = ground (arith, all-append is_digit xs ys)

-- A positive number is printed without a leading zero.
digits-is_sequence_form : (f n : ℕ) → 1 ≤ n → n < f → is_sequence_form (digits f n) ≡ true
unfolding digits
digits-is_sequence_form zero n one h = elim h [ ]
digits-is_sequence_form (suc f) n one h = elim (Bool-cases (ltb n 10)) [
  | inl short ↦ rw short (unfold is_sequence_form in ground arith)
  | inr long ↦ rw long (
      is_sequence_form-append (digits f (n / 10)) ((n % 10 + b'0') ∷ [])
        (digits-is_sequence_form f (n / 10) (ground arith) (ground arith)) (ground arith))
]

split_last-digits : (ds : Text) → all is_digit ds ≡ true → split_last cursor_separator ds ≡ none
unfolding split_last
split_last-digits [] h = refl
split_last-digits (d ∷ ds) h =
    let rest = split_last-digits ds (ground arith) in
    let other : d == cursor_separator ≡ false = ground arith in rw (rest, other)

-- The digits of a cursor stand after its last separator, whatever its life holds.
split_last-cursor :
    (life ds : Text)
    → all is_digit ds ≡ true
    → split_last cursor_separator (life ++ cursor_separator ∷ ds) ≡ some (life, ds)
unfolding split_last
split_last-cursor [] ds h = rw (split_last-digits ds h)
split_last-cursor (c ∷ life) ds h = rw (split_last-cursor life ds h)

-- A cursor that a journal gave for a recorded moment names that moment's sequence to every journal
-- of the same life that has recorded at least as many.
pub sequence_of-cursor :
    (given j : ChangeJournal)
    → given.life ≡ j.life
    → 1 ≤ given.sequence
    → given.sequence ≤ j.sequence
    → sequence_of j (cursor given) ≡ some given.sequence
unfolding sequence_of cursor issued
sequence_of-cursor given j same one later =
    let text = print_nat given.sequence in
    let split =
      split_last-cursor given.life text
        (unfold print_nat in digits-all (suc given.sequence) given.sequence) in
    let form : is_sequence_form text ≡ true =
      unfold print_nat in
      digits-is_sequence_form (suc given.sequence) given.sequence one (omega arith) in
    let number = value-print_nat given.sequence in
    let life_kept : given.life == j.life ≡ true = (eq_iff given.life j.life).1 same in
    let reached : leb given.sequence j.sequence ≡ true = ground arith in
    rw (split, life_kept, form, number, reached)

-- A journal never holds as many changes as `MAX_RECORDED_CHANGES` once a moment is recorded in it.
pub record_moment-length :
    (j : ChangeJournal) (history : History) → Recorded j history → length j.changes < 100000
unfolding record_moment new_journal
record_moment-length after now (started life) = omega arith
record_moment-length after now (recorded_moment {j} {history} r standings entries) =
    record_next-length history (moment standings entries) j (Recorded-Follows r)

-- ===== src/Daemon/Journal/Recorded.antt =====
-- What a journal holds of the moments recorded in it (packages/daemon/src/daemon/change-journal.ts).
use rt_test.Base.{
  ℕ, ◌<◌, Bool-cases, Option-cases, inl, inr, true, false, ◌&&◌, Option, none, some, List, [], ◌∷◌,
  ◌++◌, Text, Dict, lookup, includes, ltb, nat_eq, list_eq, ◌==◌, eq_iff, eq_comm, ◌<|>◌,
  or_default, ◌≡◌, refl, sym, ap, ◌∙◌, if◌then◌else◌, arith,
}
use rt_test.Daemon.Changes.Held.{includes-append}
use rt_test.Daemon.Journal.{changed_keys, gone_keys, changes_at}
use rt_test.Daemon.Moments.{RecordedStanding, RecordedChange, ChangeJournal, same}
use rt_test.Daemon.Journal.Same.{shown, same_iff}
use rt_test.Daemon.Journal.Dropped.{AllAtMost, AllAtLeast, IsOrdered}

-- The standing that the first change of a key after a sequence replaced.
unfoldable pub first_before : ℕ → Text → List RecordedChange → Option (Option RecordedStanding)
first_before s k [] = none
first_before s k (c ∷ changes) =
    if ltb s c.sequence && c.key == k then some c.before else first_before s k changes

-- The standing of a key at a sequence, as the journal holds it.
unfoldable pub standing_at : ChangeJournal → ℕ → Text → Option RecordedStanding
unfolding first_before lookup
standing_at j s k = or_default (first_before s k j.changes) (lookup k j.latest)

pub first_before-append :
    (s : ℕ) (k : Text) (xs ys : List RecordedChange)
    → first_before s k (xs ++ ys) ≡ (first_before s k xs <|> first_before s k ys)
unfolding first_before
first_before-append s k [] ys = refl
first_before-append s k (c ∷ xs) ys = ground (arith, first_before-append s k xs ys)

pub first_before-old :
    (s : ℕ) (k : Text) (xs : List RecordedChange) → AllAtMost s xs → first_before s k xs ≡ none
unfolding first_before
first_before-old s k [] h = refl
first_before-old s k (c ∷ xs) (h, hs) = ground (arith, first_before-old s k xs hs)

pub first_before-changes_at :
    (s n : ℕ) (k : Text) (latest : Dict Text RecordedStanding) (keys : List Text)
    → s < n
    → first_before s k (changes_at n latest keys)
      ≡ (if includes k keys then some (lookup k latest) else none)
unfolding first_before changes_at
first_before-changes_at s n k latest [] h = refl
first_before-changes_at s n k latest (key ∷ keys) h = elim (Bool-cases (key == k)) [
  | inl e ↦
      let same_key = (eq_iff key k).0 e in
      let other = (eq_iff k key).1 (sym same_key) in
      ground (arith, ap (λ x. lookup x latest) same_key)
  | inr e ↦
      let other : k == key ≡ false = eq_comm k key ∙ e in
      ground (arith, first_before-changes_at s n k latest keys h)
]

pub changes_at-AllAtMost :
    (n : ℕ) (latest : Dict Text RecordedStanding) (keys : List Text)
    → AllAtMost n (changes_at n latest keys)
unfolding changes_at
changes_at-AllAtMost n latest [] = tt
changes_at-AllAtMost n latest (key ∷ keys) = (omega arith, changes_at-AllAtMost n latest keys)

pub changes_at-AllAtLeast :
    (n : ℕ) (latest : Dict Text RecordedStanding) (keys : List Text)
    → AllAtLeast n (changes_at n latest keys)
unfolding changes_at
changes_at-AllAtLeast n latest [] = tt
changes_at-AllAtLeast n latest (key ∷ keys) = (omega arith, changes_at-AllAtLeast n latest keys)

pub changes_at-IsOrdered :
    (n : ℕ) (latest : Dict Text RecordedStanding) (keys : List Text)
    → IsOrdered (changes_at n latest keys)
unfolding changes_at
changes_at-IsOrdered n latest [] = tt
changes_at-IsOrdered n latest (key ∷ keys) =
    (changes_at-AllAtLeast n latest keys, changes_at-IsOrdered n latest keys)

-- A key whose standing differs is among the changed or the gone keys.
includes-changed_keys :
    (k : Text) (v : RecordedStanding) (latest next : Dict Text RecordedStanding)
    → lookup k next ≡ some v
    → same (lookup k latest) (some v) ≡ false
    → includes k (changed_keys latest next) ≡ true
unfolding changed_keys lookup
includes-changed_keys k v latest [] e h = absurd (ground arith)
includes-changed_keys k v latest ((key, now) ∷ next) e h = elim (Bool-cases (key == k)) [
  | inl f ↦
      let same_key = (eq_iff key k).0 f in
      let found : now ≡ v = ground arith in
      let differs : same (lookup key latest) (some now) ≡ false =
        ap (λ x. same (lookup x latest) (some now)) same_key
        ∙ ap (λ x. same (lookup k latest) (some x)) found
        ∙ h in
      ground (arith, eq_comm k key)
  | inr f ↦ ground (arith, includes-changed_keys k v latest next)
]

includes-gone_keys :
    (k : Text) (v : RecordedStanding) (latest next : Dict Text RecordedStanding)
    → lookup k latest ≡ some v
    → lookup k next ≡ none
    → includes k (gone_keys latest next) ≡ true
unfolding gone_keys lookup
includes-gone_keys k v [] next e h = absurd (ground arith)
includes-gone_keys k v ((key, now) ∷ latest) next e h = elim (Bool-cases (key == k)) [
  | inl f ↦
      let same_key = (eq_iff key k).0 f in
      let absent : lookup key next ≡ none = ap (λ x. lookup x next) same_key ∙ h in
      ground (arith, eq_comm k key)
  | inr f ↦ ground (arith, includes-gone_keys k v latest next)
]

-- A key that is neither shows the same as before.
pub unchanged_key :
    (k : Text) (latest next : Dict Text RecordedStanding)
    → includes k (changed_keys latest next ++ gone_keys latest next) ≡ false
    → shown (lookup k next) ≡ shown (lookup k latest)
unchanged_key k latest next h = elim (Option-cases (lookup k next)) [
  | inr (v, e) ↦ elim (Bool-cases (same (lookup k latest) (some v))) [
    | inl s ↦ ap shown e ∙ sym ((same_iff (lookup k latest) (some v)).0 s)
    | inr d ↦
        let changed = includes-changed_keys k v latest next e d in
        absurd
          (ground (arith, includes-append k (changed_keys latest next) (gone_keys latest next)))
  ]
  | inl e ↦ elim (Option-cases (lookup k latest)) [
    | inl none_held ↦ ap shown e ∙ sym (ap shown none_held)
    | inr (v, held) ↦
        let gone = includes-gone_keys k v latest next held e in
        absurd
          (ground (arith, includes-append k (changed_keys latest next) (gone_keys latest next)))
  ]
]

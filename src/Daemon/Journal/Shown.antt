-- ===== src/Daemon/Journal/Shown.antt =====
-- What a key shows at a recorded moment of the journal
-- (packages/daemon/src/daemon/change-journal.ts).
use rt_test.Base.{
  ℕ, ◌+◌, ◌≤◌, Bool-cases, inl, inr, Option, none, some, List, [], ◌∷◌, ◌++◌, Text, Dict, lookup,
  includes, nat_eq, list_eq, ◌==◌, ◌<|>◌, or_default, ◌≡◌, refl, sym, ap, ◌∙◌, All, All-map, Pairs,
  if◌then◌else◌, arith,
}
use mathlib.Core.Path.{subst}
use rt_test.Daemon.Journal.{changed_keys, gone_keys, changes_at, drop_from, drop_unneeded}
use rt_test.Daemon.Moments.{RecordedStanding, RecordedChange, ChangeJournal}
use rt_test.Daemon.Journal.Same.{Shown, shown}
use rt_test.Daemon.Journal.Dropped.{AllAtMost, AllAtLeast, IsOrdered, drop_from-IsDropped}
use rt_test.Daemon.Journal.Recorded.{
  first_before, standing_at, first_before-append, first_before-old, first_before-changes_at,
  unchanged_key,
}

-- What each key showed at each sequence.
abbrev pub History : Type 0
History = ℕ → Text → Option Shown

-- A history once a moment is recorded at a sequence.
abbrev pub extend : ℕ → Dict Text RecordedStanding → History → History
extend n next history s k = if s == n then shown (lookup k next) else history s k

-- A journal holds what each key showed at each sequence that it has not dropped.
pub record Follows (history : History) (j : ChangeJournal) : Type 0 where
  pub numbered : AllAtMost j.sequence j.changes
  pub ordered : IsOrdered j.changes
  pub kept : AllAtLeast j.dropped j.changes
  pub reached : j.dropped ≤ j.sequence
  pub before_first : j.sequence ≡ 0 → j.changes ≡ []
  pub shows :
      (s : ℕ) (k : Text)
      → 1 ≤ s
      → j.dropped ≤ s
      → s ≤ j.sequence
      → shown (standing_at j s k) ≡ history s k

module _ {ℓ κ} {A : Type ℓ} where
  All-append_right : (P : A → Type κ) (xs ys : List A) → All P (xs ++ ys) → All P ys
  All-append_right P [] ys h = h
  All-append_right P (x ∷ xs) ys h = All-append_right P xs ys h.1

  Pairs-append_right : (R : A → A → Type κ) (xs ys : List A) → Pairs R (xs ++ ys) → Pairs R ys
  Pairs-append_right R [] ys h = h
  Pairs-append_right R (x ∷ xs) ys h = Pairs-append_right R xs ys h.1

nil_of_append : (xs ys : List RecordedChange) → xs ++ ys ≡ [] → ys ≡ []
nil_of_append [] ys h = h
nil_of_append (x ∷ xs) ys h = absurd (ground arith)

-- At the latest sequence a key shows what the latest standing shows.
pub standing_at-latest :
    (j : ChangeJournal) (k : Text)
    → AllAtMost j.sequence j.changes
    → standing_at j j.sequence k ≡ lookup k j.latest
unfolding standing_at
standing_at-latest j k h = rw (first_before-old j.sequence k j.changes h)

pub drop_unneeded-Follows :
    (history : History) (j : ChangeJournal) → Follows history j → Follows history (drop_unneeded j)
unfolding drop_unneeded standing_at
drop_unneeded-Follows history j f =
    let d = drop_from-IsDropped none j.dropped j.changes (inl refl) f.kept f.ordered in
    let left = (drop_from none j.dropped j.changes).0 in
    let dropped = (drop_from none j.dropped j.changes).1 in
    record {
      numbered = All-append_right _ d.gone left (subst (AllAtMost j.sequence) d.split f.numbered);
      ordered = Pairs-append_right _ d.gone left (subst IsOrdered d.split f.ordered);
      kept = d.left_new;
      reached = d.below j.sequence f.reached f.numbered;
      before_first = λ e. nil_of_append d.gone left (sym d.split ∙ f.before_first e);
      shows = λ s k one later last.
          let old =
            All-map _ (λ (c : RecordedChange). c.sequence ≤ s) (λ c h. omega arith) d.gone
              d.gone_old in
          let same : first_before s k j.changes ≡ first_before s k left =
            ap (first_before s k) d.split
            ∙ first_before-append s k d.gone left
            ∙ rw (first_before-old s k d.gone old) in
          let kept_later = d.later in
          ap (λ o. shown (or_default o (lookup k j.latest))) (sym same)
          ∙ f.shows s k one (omega arith) last;
    }

-- What a default shows.
pub shown-or_default :
    (o : Option (Option RecordedStanding)) (a b : Option RecordedStanding)
    → shown a ≡ shown b
    → shown (or_default o a) ≡ shown (or_default o b)
shown-or_default none a b h = h
shown-or_default (some x) a b h = refl

or_default_or {ℓ} :
    {A : Type ℓ} (o : Option A) (x y : A) → or_default (o <|> some x) y ≡ or_default o x
or_default_or none x y = refl
or_default_or (some z) x y = refl

or_none {ℓ} : {A : Type ℓ} (o : Option A) → (o <|> none) ≡ o
or_none none = refl
or_none (some z) = refl

-- A key that was not changed shows the same as before; one that was is read from its change.
pub shown_after :
    (j : ChangeJournal) (next : Dict Text RecordedStanding) (s : ℕ) (k : Text)
    → s ≤ j.sequence
    → shown (
        or_default
          (first_before s k (
            j.changes
            ++ changes_at
                (j.sequence + 1)
                j.latest
                (changed_keys j.latest next ++ gone_keys j.latest next)))
          (lookup k next))
      ≡ shown (standing_at j s k)
unfolding standing_at
shown_after j next s k h =
    let keys = changed_keys j.latest next ++ gone_keys j.latest next in
    let old = first_before s k j.changes in
    let added = first_before-changes_at s (j.sequence + 1) k j.latest keys (omega arith) in
    let split = first_before-append s k j.changes (changes_at (j.sequence + 1) j.latest keys) in
    ap (λ o. shown (or_default o (lookup k next))) split
    ∙ ap (λ o. shown (or_default (old <|> o) (lookup k next))) added
    ∙ elim (Bool-cases (includes k keys)) [
      | inl changed ↦ rw changed (ap shown (or_default_or old (lookup k j.latest) (lookup k next)))
      | inr kept ↦ rw kept (
          ap (λ o. shown (or_default o (lookup k next))) (or_none old)
          ∙ shown-or_default old _ _ (unchanged_key k j.latest next kept))
    ]

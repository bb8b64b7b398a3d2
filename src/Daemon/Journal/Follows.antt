-- ===== src/Daemon/Journal/Follows.antt =====
-- That a journal shows the moments recorded in it (packages/daemon/src/daemon/change-journal.ts).
use rt_test.Base.{
  ◌+◌, ◌≤◌, ◌<◌, Bool-cases, inl, inr, true, false, none, List, [], ◌∷◌, ◌++◌, Text, Dict, lookup,
  includes, length, ltb, nat_eq, list_eq, ◌==◌, eq_iff, or_default, ◌≡◌, refl, sym, ap, ◌∙◌,
  All-map, arith,
}
use mathlib.Core.Path.{subst}
use rt_test.Query.Due.Order.{All-append, Pairs-append}
use rt_test.Daemon.Journal.{
  changed_keys, gone_keys, changes_at, drop_unneeded, sequenced, record_next,
}
use rt_test.Daemon.Moments.{max_recorded_changes, RecordedStanding, RecordedChange, ChangeJournal}
use rt_test.Daemon.Journal.Same.{shown}
use rt_test.Daemon.Journal.Dropped.{AllAtMost, drop_from-IsDropped}
use rt_test.Daemon.Journal.Recorded.{
  first_before, standing_at, first_before-old, changes_at-AllAtMost, changes_at-AllAtLeast,
  changes_at-IsOrdered, unchanged_key,
}
use rt_test.Daemon.Journal.Shown.{
  History, extend, Follows, drop_unneeded-Follows, shown-or_default, shown_after,
}

-- A journal follows a history that a moment extends.
abbrev Extends : History → Dict Text RecordedStanding → ChangeJournal → Type 0
Extends history next after = Follows (extend after.sequence next history) after

first-Extends :
    (history : History) (next : Dict Text RecordedStanding) (j : ChangeJournal)
    → Follows history j
    → j.sequence ≡ 0
    → Extends history next (record j { sequence = 1; latest = next })
unfolding standing_at
first-Extends history next j f e =
    let empty = f.before_first e in
    let reached = f.reached in
    record {
      numbered = subst (AllAtMost 1) (sym empty) tt;
      ordered = f.ordered;
      kept = f.kept;
      reached = omega arith;
      before_first = λ z. absurd (omega arith);
      shows = λ s k one later last.
          let here : s == 1 ≡ true = ground arith in
          ap (λ c. shown (or_default (first_before s k c) (lookup k next))) empty
          ∙ rw (here, first_before);
    }

next-Extends :
    (history : History) (next : Dict Text RecordedStanding) (j : ChangeJournal)
    → Follows history j
    → Extends history next (record j {
      sequence = j.sequence + 1;
      changes =
          j.changes
          ++ changes_at
              (j.sequence + 1)
              j.latest
              (changed_keys j.latest next ++ gone_keys j.latest next);
      latest = next;
    })
unfolding standing_at
next-Extends history next j f =
    let n = j.sequence + 1 in
    let keys = changed_keys j.latest next ++ gone_keys j.latest next in
    let added = changes_at n j.latest keys in
    let reached = f.reached in
    let numbered : AllAtMost n (j.changes ++ added) =
      All-append _ j.changes added
        (All-map _ (λ (c : RecordedChange). c.sequence ≤ n) (λ c h. omega arith) j.changes
          f.numbered)
        (changes_at-AllAtMost n j.latest keys) in
    record {
      numbered = numbered;
      ordered = Pairs-append _ j.changes added f.ordered (changes_at-IsOrdered n j.latest keys) (
          All-map _ _
            (λ c h.
              All-map (λ (d : RecordedChange). n ≤ d.sequence)
                (λ (d : RecordedChange). c.sequence ≤ d.sequence) (λ d k. omega arith) added
                (changes_at-AllAtLeast n j.latest keys))
            j.changes f.numbered);
      kept = All-append _ j.changes added f.kept (
          All-map (λ (d : RecordedChange). n ≤ d.sequence) _ (λ d k. omega arith) added
            (changes_at-AllAtLeast n j.latest keys));
      reached = omega arith;
      before_first = λ z. absurd (omega arith);
      shows = λ s k one later last. elim (Bool-cases (s == n)) [
        | inl here ↦
            let now = first_before-old s k (j.changes ++ added) (
              subst (λ m. AllAtMost m (j.changes ++ added)) (sym ((eq_iff s n).0 here)) numbered) in
            ap (λ o. shown (or_default o (lookup k next))) now ∙ rw here
        | inr before ↦
            shown_after j next s k (ground arith) ∙ f.shows s k one later (ground arith) ∙ rw before
      ];
    }

no_keys : (k : Text) (keys : List Text) → ltb 0 (length keys) ≡ false → includes k keys ≡ false
no_keys k [] h = refl
no_keys k (key ∷ keys) h = absurd (ground arith)

same-Extends :
    (history : History) (next : Dict Text RecordedStanding) (j : ChangeJournal)
    → Follows history j
    → j.sequence == 0 ≡ false
    → ltb 0 (length (changed_keys j.latest next ++ gone_keys j.latest next)) ≡ false
    → Extends history next (record j { latest = next })
unfolding standing_at
same-Extends history next j f e none_changed =
    let like = λ (k : Text). unchanged_key k j.latest next (no_keys k _ none_changed) in
    record {
      numbered = f.numbered;
      ordered = f.ordered;
      kept = f.kept;
      reached = f.reached;
      before_first = f.before_first;
      shows = λ s k one later last. elim (Bool-cases (s == j.sequence)) [
        | inl here ↦
            let now = first_before-old s k j.changes (
              subst (λ m. AllAtMost m j.changes) (sym ((eq_iff s j.sequence).0 here)) f.numbered) in
            ap (λ o. shown (or_default o (lookup k next))) now ∙ rw here
        | inr before ↦
            shown-or_default (first_before s k j.changes) _ _ (like k)
            ∙ f.shows s k one later last
            ∙ rw before
      ];
    }

sequenced-Follows :
    (history : History) (next : Dict Text RecordedStanding) (j : ChangeJournal)
    → Follows history j
    → Extends history next
        (sequenced (changed_keys j.latest next ++ gone_keys j.latest next) next j)
unfolding sequenced
sequenced-Follows history next j f =
    let changed = changed_keys j.latest next ++ gone_keys j.latest next in
    elim (Bool-cases (j.sequence == 0)) [
      | inl e ↦
          let is : sequenced changed next j ≡ record j { sequence = 1; latest = next } = rw e in
          subst (Extends history next) (sym is)
            (first-Extends history next j f ((eq_iff j.sequence 0).0 e))
      | inr e ↦ elim (Bool-cases (ltb 0 (length changed))) [
        | inl some_changed ↦
            let is : sequenced changed next j ≡ record j {
              sequence = j.sequence + 1;
              changes = j.changes ++ changes_at (j.sequence + 1) j.latest changed;
              latest = next;
            } =
              rw (e, some_changed) in
            subst (Extends history next) (sym is) (next-Extends history next j f)
        | inr none_changed ↦
            let is : sequenced changed next j ≡ record j { latest = next } = rw (e, none_changed) in
            subst (Extends history next) (sym is) (same-Extends history next j f e none_changed)
      ]
    ]

-- Recording a moment extends the history that a journal follows.
pub record_next-Follows :
    (history : History) (next : Dict Text RecordedStanding) (j : ChangeJournal)
    → Follows history j
    → Follows (extend (record_next next j).sequence next history) (record_next next j)
unfolding record_next drop_unneeded
record_next-Follows history next j f =
    drop_unneeded-Follows _ _ (sequenced-Follows history next j f)

-- A recorded moment leaves fewer changes than the bound.
pub record_next-length :
    (history : History) (next : Dict Text RecordedStanding) (j : ChangeJournal)
    → Follows history j
    → length (record_next next j).changes < max_recorded_changes
unfolding record_next drop_unneeded
record_next-length history next j f =
    let after = sequenced (changed_keys j.latest next ++ gone_keys j.latest next) next j in
    let g = sequenced-Follows history next j f in
    (drop_from-IsDropped none after.dropped after.changes (inl refl) g.kept g.ordered).within

-- What a moment does to the sequence of the journal in which it is recorded.
pub record Numbers (next : Dict Text RecordedStanding) (before after : ChangeJournal) : Type 0 where
  pub same_life : after.life ≡ before.life
  pub positive : 1 ≤ after.sequence
  pub no_earlier : before.sequence ≤ after.sequence
  pub unchanged :
      1 ≤ before.sequence
      → after.sequence ≡ before.sequence
      → (k : Text) → shown (lookup k next) ≡ shown (lookup k before.latest)

sequenced-Numbers :
    (next : Dict Text RecordedStanding) (j : ChangeJournal)
    → Numbers next j (sequenced (changed_keys j.latest next ++ gone_keys j.latest next) next j)
unfolding sequenced
sequenced-Numbers next j =
    let changed = changed_keys j.latest next ++ gone_keys j.latest next in
    elim (Bool-cases (j.sequence == 0)) [
      | inl e ↦
          let zero_yet = (eq_iff j.sequence 0).0 e in
          rw e (record {
            same_life = refl;
            positive = omega arith;
            no_earlier = omega arith;
            unchanged = λ one. absurd (omega arith);
          })
      | inr e ↦ elim (Bool-cases (ltb 0 (length changed))) [
        | inl c ↦
            rw (e, c)
              (record {
                same_life = refl;
                positive = omega arith;
                no_earlier = omega arith;
                unchanged = λ one same. absurd (omega arith);
              })
        | inr c ↦
            rw (e, c)
              (record {
                same_life = refl;
                positive = ground arith;
                no_earlier = omega arith;
                unchanged = λ one same k. unchanged_key k j.latest next (no_keys k _ c);
              })
      ]
    ]

-- A moment that shows otherwise than the latest is given a new sequence.
pub record_next-Numbers :
    (next : Dict Text RecordedStanding) (j : ChangeJournal) → Numbers next j (record_next next j)
unfolding record_next drop_unneeded
record_next-Numbers next j =
    let n = sequenced-Numbers next j in
    record {
      same_life = n.same_life;
      positive = n.positive;
      no_earlier = n.no_earlier;
      unchanged = n.unchanged;
    }

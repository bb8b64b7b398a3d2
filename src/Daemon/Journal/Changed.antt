-- ===== src/Daemon/Journal/Changed.antt =====
-- What the change journal reads between a sequence and its latest moment
-- (packages/daemon/src/daemon/change-journal.ts).
use rt_test.Base.{
  ℕ, Bool-cases, Option-cases, inl, inr, List, [], Text, Dict, lookup, nat_eq, list_eq, or_default,
  ◌≡◌, ◌≢◌, sym, ap, ◌∙◌, All, All-map, Exists, arith,
}
use rt_test.Daemon.Journal.{at_cursor_from, since_sequence}
use rt_test.Daemon.Moments.{RecordedStanding, ChangeJournal, NetChange, same}
use rt_test.Daemon.Journal.Same.{shown, same_iff}
use rt_test.Daemon.Journal.Recorded.{first_before, standing_at}
use rt_test.Daemon.Journal.Since.{
  IsNetOf, lookup-at_cursor_from, at_cursor_from-IsFirst, net_changes-IsNetOf, net_changes-Exists,
}

-- The changes are those of the keys that show another standing in one moment than in another, each
-- with what it shows in both.
pub record IsNet (before now : Dict Text RecordedStanding) (changes : List NetChange) : Type 0 where
  pub sound :
      All
        (λ (c : NetChange).
          (shown c.at_cursor ≡ shown (lookup c.key before))
          × (shown c.now ≡ shown (lookup c.key now))
          × (shown (lookup c.key before) ≢ shown (lookup c.key now)))
        changes
  pub complete :
      (k : Text)
      → shown (lookup k before) ≢ shown (lookup k now)
      → Exists (λ (c : NetChange). c.key ≡ k) changes

-- A journal at the sequence `s`, as the moments show it that were recorded then and last.
pub record Reads (before now : Dict Text RecordedStanding) (j : ChangeJournal) (s : ℕ)
    : Type 0 where
  pub at_sequence : (k : Text) → shown (standing_at j s k) ≡ shown (lookup k before)
  pub at_latest : (k : Text) → shown (lookup k j.latest) ≡ shown (lookup k now)

module _ (before now : Dict Text RecordedStanding) (j : ChangeJournal) (s : ℕ)
    (r : Reads before now j s) where
  net_sound :
      (c : NetChange)
      → IsNetOf s j c
      → (shown c.at_cursor ≡ shown (lookup c.key before))
        × (shown c.now ≡ shown (lookup c.key now))
        × (shown (lookup c.key before) ≢ shown (lookup c.key now))
  unfolding standing_at
  net_sound c (first, latest, differs) =
      let then_ : shown c.at_cursor ≡ shown (lookup c.key before) =
        ap (λ o. shown (or_default o (lookup c.key j.latest))) (sym first) ∙ r.at_sequence c.key in
      let now_ : shown c.now ≡ shown (lookup c.key now) = ap shown latest ∙ r.at_latest c.key in
      (
        then_,
        now_,
        λ e.
            let like = (same_iff c.at_cursor c.now).1 (then_ ∙ e ∙ sym now_) in
            absurd (ground arith),
      )

  net_complete :
      (k : Text)
      → shown (lookup k before) ≢ shown (lookup k now)
      → Exists (λ (c : NetChange). c.key ≡ k) (since_sequence j s)
  unfolding standing_at since_sequence lookup
  net_complete k ne = elim (Option-cases (first_before s k j.changes)) [
    | inl n ↦ absurd (
        ne (
          sym (r.at_sequence k)
          ∙ ap (λ o. shown (or_default o (lookup k j.latest))) n
          ∙ r.at_latest k))
    | inr (first, e) ↦ elim (Bool-cases (same first (lookup k j.latest))) [
      | inl like ↦ absurd (
          ne (
            sym (r.at_sequence k)
            ∙ ap (λ o. shown (or_default o (lookup k j.latest))) e
            ∙ (same_iff first (lookup k j.latest)).0 like
            ∙ r.at_latest k))
      | inr differs ↦
          net_changes-Exists k first j.latest (at_cursor_from s [] j.changes)
            (lookup-at_cursor_from s k [] j.changes ∙ e) differs
    ]
  ]

  pub since_sequence-IsNet : IsNet before now (since_sequence j s)
  unfolding since_sequence
  since_sequence-IsNet = record {
    sound = All-map (IsNetOf s j) _ net_sound _ (
        net_changes-IsNetOf s j (at_cursor_from s [] j.changes)
          (at_cursor_from-IsFirst s j.changes));
    complete = net_complete;
  }

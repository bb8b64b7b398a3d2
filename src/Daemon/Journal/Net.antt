-- ===== src/Daemon/Journal/Net.antt =====
-- That a cursor reads the net change since its moment
-- (packages/daemon/src/daemon/change-journal.ts).
use rt_test.Base.{
  ℕ, ◌≤◌, Bool-cases, inl, inr, some, false, List, Text, Dict, lookup, ltb, nat_eq, list_eq, ◌==◌,
  eq_iff, eq_refl, ◌≡◌, refl, sym, ap, ◌∙◌, arith,
}
use rt_test.Query.States.{TestStanding}
use rt_test.Daemon.Journal.{
  record_next, record_moment, usable_from, usable_sequence, usable, since_sequence, since,
  sequence_of,
}
use rt_test.Daemon.Moments.{
  changes_since, ChangeJournal, NetChange, NotDiscoveredEntry, RecordedStanding, moment,
}
use rt_test.Daemon.Journal.Same.{shown}
use rt_test.Daemon.Journal.Shown.{History, extend, Follows, standing_at-latest}
use rt_test.Daemon.Journal.Follows.{record_next-Numbers}
use rt_test.Daemon.Journal.Since.{Recorded, recorded_moment, Recorded-Follows}
use rt_test.Daemon.Journal.Cursors.{sequence_of-cursor}
use rt_test.Daemon.Journal.Changed.{IsNet, Reads, since_sequence-IsNet}

-- A journal in which further moments were recorded after one, with the moment recorded last.
pub data RecordsTo (from : ChangeJournal) (first : Dict Text RecordedStanding)
    : ChangeJournal → Dict Text RecordedStanding → Type 0 where
  none_later : RecordsTo from first from first
  one_later :
      {j : ChangeJournal} {latest : Dict Text RecordedStanding}
      → RecordsTo from first j latest
      → (standings : List TestStanding) (entries : List NotDiscoveredEntry)
      → RecordsTo from first (record_moment standings entries j).0 (moment standings entries)

-- What a journal still knows of an earlier moment, and of its last.
record Knows (from : ChangeJournal) (first : Dict Text RecordedStanding) (j : ChangeJournal)
    (latest : Dict Text RecordedStanding) : Type 0 where
  history : History
  recorded : Recorded j history
  same_life : from.life ≡ j.life
  positive : 1 ≤ from.sequence
  no_earlier : from.sequence ≤ j.sequence
  at_first : (k : Text) → history from.sequence k ≡ shown (lookup k first)
  at_last : (k : Text) → history j.sequence k ≡ shown (lookup k latest)

latest_shows :
    (history : History) (j : ChangeJournal) (k : Text)
    → Follows history j
    → 1 ≤ j.sequence
    → shown (lookup k j.latest) ≡ history j.sequence k
latest_shows history j k f one =
    ap shown (sym (standing_at-latest j k f.numbered))
    ∙ f.shows j.sequence k one f.reached (omega arith)

module _ (j : ChangeJournal) (history : History) (r : Recorded j history)
    (standings : List TestStanding) (entries : List NotDiscoveredEntry) where
  first-Knows :
      Knows
        (record_moment standings entries j).0
        (moment standings entries)
        (record_moment standings entries j).0
        (moment standings entries)
  unfolding record_moment
  first-Knows =
      let after = record_next (moment standings entries) j in
      let numbers = record_next-Numbers (moment standings entries) j in
      let own = eq_refl after.sequence in
      record {
        history = extend after.sequence (moment standings entries) history;
        recorded = recorded_moment r standings entries;
        same_life = refl;
        positive = numbers.positive;
        no_earlier = omega arith;
        at_first = λ k. rw own;
        at_last = λ k. rw own;
      }

  next-Knows :
      (from : ChangeJournal) (first latest : Dict Text RecordedStanding)
      (k : Knows from first j latest)
      → k.history ≡ history
      → Knows from first (record_moment standings entries j).0 (moment standings entries)
  unfolding record_moment
  next-Knows from first latest k same =
      let next = moment standings entries in
      let after = record_next next j in
      let numbers = record_next-Numbers next j in
      let own = eq_refl after.sequence in
      let one = k.positive in
      let later = k.no_earlier in
      let latest_later = numbers.no_earlier in
      record {
        history = extend after.sequence next history;
        recorded = recorded_moment r standings entries;
        same_life = k.same_life ∙ sym numbers.same_life;
        positive = k.positive;
        no_earlier = omega arith;
        at_first = λ key.
            let before = ap (λ (h : History). h from.sequence key) (sym same) ∙ k.at_first key in
            elim (Bool-cases (from.sequence == after.sequence)) [
              | inl e ↦
                  let at = (eq_iff from.sequence after.sequence).0 e in
                  let still : after.sequence ≡ j.sequence = omega arith in
                  let shows = numbers.unchanged (omega arith) still key in
                  let here : j.sequence ≡ from.sequence = omega arith in
                  rw e shows
                  ∙ latest_shows history j key (Recorded-Follows r) (omega arith)
                  ∙ ap (λ n. history n key) here
                  ∙ before
              | inr e ↦ rw e before
            ];
        at_last = λ key. rw own;
      }

record-Knows :
    (j : ChangeJournal) (history : History) (standings : List TestStanding)
    (entries : List NotDiscoveredEntry) (later : ChangeJournal)
    (latest : Dict Text RecordedStanding)
    → Recorded j history
    → RecordsTo (record_moment standings entries j).0 (moment standings entries) later latest
    → Knows (record_moment standings entries j).0 (moment standings entries) later latest
record-Knows j history standings entries _ _ r none_later =
    first-Knows j history r standings entries
record-Knows j history standings entries _ _ r (one_later {j = i} {latest} to standings' entries') =
    let k = record-Knows j history standings entries i latest r to in
    next-Knows i k.history k.recorded standings' entries' _ _ latest k refl

Knows-Reads :
    (from j : ChangeJournal) (first latest : Dict Text RecordedStanding)
    → Knows from first j latest
    → j.dropped ≤ from.sequence
    → Reads first latest j from.sequence
Knows-Reads from j first latest k kept =
    let f = Recorded-Follows k.recorded in
    let one = k.positive in
    let later = k.no_earlier in
    record {
      at_sequence = λ key. f.shows from.sequence key k.positive kept k.no_earlier ∙ k.at_first key;
      at_latest = λ key. latest_shows k.history j key f (omega arith) ∙ k.at_last key;
    }

usable-sequence_of :
    (j : ChangeJournal) (text : Text) (s : ℕ)
    → sequence_of j text ≡ some s
    → ltb s j.dropped ≡ false
    → usable j (some text) ≡ usable_from s
unfolding usable usable_sequence
usable-sequence_of j text s named unexpired = ap (usable_sequence j) named ∙ rw unexpired

-- A text that names a sequence that is not dropped is read from that sequence.
since-sequence_of :
    (j : ChangeJournal) (text : Text) (s : ℕ)
    → sequence_of j text ≡ some s
    → ltb s j.dropped ≡ false
    → since j (some text) ≡ changes_since (since_sequence j s)
unfolding since
since-sequence_of j text s named unexpired =
    rw (usable-sequence_of j text s named unexpired, since) refl

-- The cursor given for a recorded moment, read after any number of further moments while its sequence
-- is not dropped, gives the net change since that moment: exactly the keys that show otherwise in the
-- moment recorded last than in the cursor's own moment, each with what it shows in both.
pub since-IsNet :
    (j : ChangeJournal) (history : History) (standings : List TestStanding)
    (entries : List NotDiscoveredEntry) (later : ChangeJournal)
    (latest : Dict Text RecordedStanding)
    → Recorded j history
    → RecordsTo (record_moment standings entries j).0 (moment standings entries) later latest
    → later.dropped ≤ (record_moment standings entries j).0.sequence
    → (changes : List NetChange) × (since later (some (record_moment standings entries j).1)
        ≡ changes_since changes)
      × IsNet (moment standings entries) latest changes
unfolding record_moment
since-IsNet j history standings entries later latest r to kept =
    let given = record_next (moment standings entries) j in
    let k = record-Knows j history standings entries later latest r to in
    let named = sequence_of-cursor given later k.same_life k.positive k.no_earlier in
    let unexpired : ltb given.sequence later.dropped ≡ false = ground arith in
    (
      since_sequence later given.sequence,
      since-sequence_of later _ given.sequence named unexpired,
      since_sequence-IsNet (moment standings entries) latest later given.sequence
          (Knows-Reads given later (moment standings entries) latest k kept),
    )

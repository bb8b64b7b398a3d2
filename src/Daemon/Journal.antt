-- ===== src/Daemon/Journal.antt =====
-- The operations of the class ChangeJournal of packages/daemon/src/daemon/change-journal.ts on a
-- moment's standings, which Daemon.Moments makes.
pub mod Same
pub mod Dropped
pub mod Recorded
pub mod Shown
pub mod Follows
pub mod Since
pub mod Changed
pub mod Net
pub mod Cursors
mod Tests
use rt_test.Base.{
  ℕ, ◌+◌, Bool, true, false, not, ◌&&◌, ◌||◌, Option, none, some, List, [], ◌∷◌, ◌++◌, map, Text,
  codes, Dict, lookup, insert, length, filter, all, ltb, leb, ◌==◌, Eq, discrete_eq, nat_eq,
  list_eq, is_some, if◌then◌else◌,
}
use rt_test.Base.Json.{quote, print_nat, value}
use rt_test.Core.Evidence.{Freshness, freshness_eq}
use rt_test.Core.Identity.{TestIdentity, test_identity_key}
use rt_test.Query.Records.{DiscoveredTest}
use rt_test.Query.States.{TestState, state_eq, TestStanding, map_of}
use rt_test.Daemon.Moments.{
  not_issued, none_given, used, expired, changes_since, no_reading, max_recorded_changes,
  cursor_separator, NotDiscoveredEntry, RecordedStanding, NetChange, CursorUse, CursorReading,
  RecordedChange, ChangeJournal, same, moment,
}

-- The keys of the next moment whose standing differs from the latest, in its order.
unfoldable pub changed_keys : Dict Text RecordedStanding → Dict Text RecordedStanding → List Text
unfolding same lookup
changed_keys latest [] = []
changed_keys latest ((key, now) ∷ next) =
    let others = changed_keys latest next in
    if same (lookup key latest) (some now) then others else key ∷ others

-- The keys of the latest moment that the next does not have.
unfoldable pub gone_keys : Dict Text RecordedStanding → Dict Text RecordedStanding → List Text
unfolding lookup
gone_keys [] next = []
gone_keys ((key, _) ∷ latest) next =
    let others = gone_keys latest next in if is_some (lookup key next) then others else key ∷ others

-- The changes of a new sequence.
unfoldable pub changes_at : ℕ → Dict Text RecordedStanding → List Text → List RecordedChange
unfolding lookup
changes_at sequence latest [] = []
changes_at sequence latest (key ∷ keys) =
    record { sequence = sequence; key = key; before = lookup key latest }
    ∷ changes_at sequence latest keys

abbrev is_sequence : Option ℕ → ℕ → Bool
is_sequence none sequence = false
is_sequence (some oldest) sequence = sequence == oldest

-- The two loops of `dropUnneeded`, the inner one while a sequence is being dropped: what is held
-- then, and the latest sequence that was dropped.
unfoldable pub drop_from : Option ℕ → ℕ → List RecordedChange → List RecordedChange × ℕ
drop_from dropping dropped [] = ([], dropped)
drop_from dropping dropped (c ∷ changes) =
    let inner = drop_from dropping dropped changes in
    let outer = drop_from (some c.sequence) c.sequence changes in
    if is_sequence dropping c.sequence
    then inner
    else (if leb max_recorded_changes (length (c ∷ changes)) then outer else (c ∷ changes, dropped))

unfoldable pub drop_unneeded : ChangeJournal → ChangeJournal
unfolding drop_from
drop_unneeded j =
    let left = drop_from none j.dropped j.changes in record j { changes = left.0; dropped = left.1 }

-- The journal once a moment's sequence is numbered and its changes are added.
unfoldable pub sequenced : List Text → Dict Text RecordedStanding → ChangeJournal → ChangeJournal
unfolding changes_at
sequenced changed next j =
    if j.sequence == 0
    then record j { sequence = 1; latest = next }
    else (if ltb 0 (length changed)
        then record j {
          sequence = j.sequence + 1;
          changes = j.changes ++ changes_at (j.sequence + 1) j.latest changed;
          latest = next;
        }
        else record j { latest = next })

unfoldable pub cursor : ChangeJournal → Text
cursor j = j.life ++ cursor_separator ∷ print_nat j.sequence

unfoldable pub record_next : Dict Text RecordedStanding → ChangeJournal → ChangeJournal
unfolding changed_keys gone_keys sequenced drop_unneeded
record_next next j =
    drop_unneeded (sequenced (changed_keys j.latest next ++ gone_keys j.latest next) next j)

unfoldable pub record_moment :
    List TestStanding → List NotDiscoveredEntry → ChangeJournal → ChangeJournal × Text
unfolding record_next moment cursor
record_moment standings entries j =
    let j' = record_next (moment standings entries) j in (j', cursor j')

unfoldable pub latest_cursor : ChangeJournal → Option Text
unfolding cursor
latest_cursor j = if j.sequence == 0 then none else some (cursor j)

-- A text before and after the last of a character, by `lastIndexOf`.
unfoldable pub split_last : ℕ → Text → Option (Text × Text)
split_last separator [] = none
split_last separator (c ∷ cs) = elim (split_last separator cs) [
  | some (before, after) ↦ some (c ∷ before, after)
  | none ↦ if c == separator then some ([], cs) else none
]

abbrev pub is_digit : ℕ → Bool
is_digit c = leb b'0' c && leb c b'9'

-- `SEQUENCE_FORM`.
unfoldable pub is_sequence_form : Text → Bool
is_sequence_form [] = false
is_sequence_form (c ∷ cs) = leb b'1' c && leb c b'9' && all is_digit cs

-- The sequence of a cursor's two parts.
unfoldable pub issued : ChangeJournal → Option (Text × Text) → Option ℕ
unfolding is_sequence_form value
issued j none = none
issued j (some (life, digits)) =
    if life == j.life && is_sequence_form digits && leb (value 0 digits) j.sequence
    then some (value 0 digits)
    else none

unfoldable pub sequence_of : ChangeJournal → Text → Option ℕ
unfolding issued split_last
sequence_of j given = issued j (split_last cursor_separator given)

pub data Usable : Type 0 where
  usable_from : (sequence : ℕ) → Usable
  unusable : CursorUse → Usable

unfoldable pub usable_sequence : ChangeJournal → Option ℕ → Usable
usable_sequence j none = unusable not_issued
usable_sequence j (some sequence) =
    if ltb sequence j.dropped then unusable expired else usable_from sequence

unfoldable pub usable : ChangeJournal → Option Text → Usable
unfolding usable_sequence sequence_of
usable j none = unusable none_given
usable j (some given) = usable_sequence j (sequence_of j given)

unfoldable pub use_of : ChangeJournal → Option Text → CursorUse
unfolding usable
use_of j given = elim (usable j given) [ usable_from _ ↦ used | unusable why ↦ why ]

-- `atCursor`: the first change of each key after a sequence.
unfoldable pub at_cursor_from :
    ℕ
    → Dict Text (Option RecordedStanding)
    → List RecordedChange
    → Dict Text (Option RecordedStanding)
unfolding lookup insert
at_cursor_from sequence held [] = held
at_cursor_from sequence held (c ∷ changes) =
    at_cursor_from sequence
      (if ltb sequence c.sequence && not (is_some (lookup c.key held))
        then insert c.key c.before held
        else held)
      changes

unfoldable pub net_changes :
    Dict Text RecordedStanding → Dict Text (Option RecordedStanding) → List NetChange
unfolding lookup same
net_changes latest [] = []
net_changes latest ((key, before) ∷ held) =
    let others = net_changes latest held in
    let now = lookup key latest in
    if same before now then others else record { key = key; at_cursor = before; now = now } ∷ others

unfoldable pub since_sequence : ChangeJournal → ℕ → List NetChange
unfolding at_cursor_from net_changes
since_sequence j sequence = net_changes j.latest (at_cursor_from sequence [] j.changes)

unfoldable pub since : ChangeJournal → Option Text → CursorReading
unfolding usable since_sequence
since j given = elim (usable j given) [
  | usable_from sequence ↦ changes_since (since_sequence j sequence)
  | unusable why ↦ no_reading why
]

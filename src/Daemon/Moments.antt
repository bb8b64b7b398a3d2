-- ===== src/Daemon/Moments.antt =====
-- The records of packages/daemon/src/daemon/change-journal.ts and the keys of a moment, with
-- `NotDiscoveredEntry` of query/answer.ts and `CURSOR_USE` of query/changes-answer.ts. The life of
-- the journal, a random UUID, is a text of its state.
use rt_test.Base.{
  ℕ, Bool, true, false, ◌&&◌, Option, none, some, List, [], ◌∷◌, ◌++◌, map, Text, codes, Dict, ◌==◌,
  nat_eq, list_eq,
}
use rt_test.Base.Json.{quote}
use rt_test.Core.Evidence.{Freshness, freshness_eq}
use rt_test.Core.Identity.{TestIdentity, test_identity_key}
use rt_test.Query.States.{TestState, state_eq, TestStanding, map_of}

abbrev pub max_recorded_changes : ℕ
max_recorded_changes = 100000

abbrev pub cursor_separator : ℕ
cursor_separator = b'.'

pub data EntryKind : Type 0 where
  workspace_unsupported_vitest workspace_discovery_failed workspace_not_confirmed : EntryKind
  workspace_not_vitest workspace_unhandled_errors failed_module typecheck_module : EntryKind
  unsupported_project source_not_read : EntryKind

-- A `NotDiscoveredEntry`: a field that its kind does not have is `none`.
pub record NotDiscoveredEntry : Type 0 where
  pub kind : EntryKind
  pub workspace_path : Option Text
  pub project_name : Option Text
  pub module_path : Option Text
  pub source : Option Text
  pub error_count : Option ℕ
  pub reason : Text
  pub omitted_characters : ℕ

-- `RecordedStanding`: a `RecordedTest` or a `RecordedEntry`.
pub data RecordedStanding : Type 0 where
  recorded_test : TestIdentity → TestState → Freshness → RecordedStanding
  recorded_entry : NotDiscoveredEntry → RecordedStanding

pub record NetChange : Type 0 where
  pub key : Text
  pub at_cursor : Option RecordedStanding
  pub now : Option RecordedStanding

pub data CursorUse : Type 0 where
  used none_given not_issued expired : CursorUse

pub data CursorReading : Type 0 where
  changes_since : List NetChange → CursorReading
  no_reading : CursorUse → CursorReading

pub record RecordedChange : Type 0 where
  pub sequence : ℕ
  pub key : Text
  pub before : Option RecordedStanding

pub record ChangeJournal : Type 0 where
  pub life : Text
  pub sequence : ℕ
  pub latest : Dict Text RecordedStanding
  pub changes : List RecordedChange
  pub dropped : ℕ

unfoldable pub new_journal : Text → ChangeJournal
new_journal life = record { life = life; sequence = 0; latest = []; changes = []; dropped = 0 }

-- The name of a kind.
abbrev kind_name : EntryKind → Text
kind_name workspace_unsupported_vitest = codes "workspace-unsupported-vitest"
kind_name workspace_discovery_failed = codes "workspace-discovery-failed"
kind_name workspace_not_confirmed = codes "workspace-not-confirmed"
kind_name workspace_not_vitest = codes "workspace-not-vitest"
kind_name workspace_unhandled_errors = codes "workspace-unhandled-errors"
kind_name failed_module = codes "failed-module"
kind_name typecheck_module = codes "typecheck-module"
kind_name unsupported_project = codes "unsupported-project"
kind_name source_not_read = codes "source-not-read"

-- `JSON.stringify` of a text or `null`.
abbrev quote_nullable : Option Text → Text
quote_nullable none = codes "null"
quote_nullable (some t) = quote t

unfoldable pub test_key : TestIdentity → Text
test_key identity = codes "test:" ++ test_identity_key identity

unfoldable pub entry_key : NotDiscoveredEntry → Text
entry_key entry =
    codes "entry:"
    ++ (b'[' ∷ quote (kind_name entry.kind)
        ++ (b',' ∷ quote_nullable entry.workspace_path
            ++ (b',' ∷ quote_nullable entry.project_name
                ++ (b',' ∷ quote_nullable entry.module_path
                    ++ (b',' ∷ quote_nullable entry.source ++ b']' ∷ [])))))

unfoldable pub same_standing : RecordedStanding → RecordedStanding → Bool
same_standing (recorded_entry _) (recorded_entry _) = true
same_standing (recorded_entry _) (recorded_test _ _ _) = false
same_standing (recorded_test _ _ _) (recorded_entry _) = false
same_standing (recorded_test _ state freshness) (recorded_test _ state' freshness') =
    state == state' && freshness == freshness'

unfoldable pub same : Option RecordedStanding → Option RecordedStanding → Bool
unfolding same_standing
same none none = true
same none (some _) = false
same (some _) none = false
same (some before) (some now) = same_standing before now

abbrev pub record_test : TestStanding → Text × RecordedStanding
record_test s = (test_key s.test.identity, recorded_test s.test.identity s.state s.freshness)

abbrev pub record_entry : NotDiscoveredEntry → Text × RecordedStanding
record_entry entry = (entry_key entry, recorded_entry entry)

-- `next`: the standings and the entries of a moment, by their keys.
unfoldable pub moment : List TestStanding → List NotDiscoveredEntry → Dict Text RecordedStanding
unfolding map_of test_key entry_key
moment standings entries = map_of (map_of [] (map record_test standings)) (map record_entry entries)

-- ===== src/Daemon/Journal/Tests.antt =====
-- Examples on one journal with two moments.
use rt_test.Base.{
  false, none, some, List, [], ◌∷◌, codes, length, ◌<◌, ◌≡◌, refl, arith, list_beq, insert,
}
use rt_test.Base.Json.{quote, quote_list, print_nat}
use rt_test.Core.Evidence.{passed, failed, current}
use rt_test.Core.Identity.{TestIdentity, test_identity_key}
use rt_test.Query.States.{TestState, TestState_discrete, TestStanding, finished_with}
use rt_test.Daemon.Journal.{record_moment, cursor, since, sequence_of}
use rt_test.Daemon.Moments.{changes_since, NetChange, ChangeJournal, new_journal, moment}
use rt_test.Daemon.Journal.Shown.{History, extend}
use rt_test.Daemon.Journal.Since.{Recorded, started, recorded_moment}
use rt_test.Daemon.Journal.Net.{none_later, one_later, since-IsNet}
use rt_test.Daemon.Journal.Changed.{IsNet}
use rt_test.Daemon.Journal.Cursors.{sequence_of-cursor, record_moment-length}

abbrev identity : TestIdentity
identity = record {
  workspace_path = codes "/w";
  project_name = codes "p";
  module_path = codes "a.test.ts";
  name_path = codes "t" ∷ [];
  occurrence = 0;
}

abbrev standing : TestState → TestStanding
standing state = record {
  test = record { identity = identity; is_duplicate = false; mode = codes "run" };
  state = state;
  freshness = current;
}

abbrev first : ChangeJournal
first = (record_moment (standing (finished_with passed) ∷ []) [] (new_journal (codes "life"))).0

abbrev second : ChangeJournal
second = (record_moment (standing (finished_with failed) ∷ []) [] first).0

abbrev start : History
start = λ _ _. none

abbrev history : History
history =
    extend second.sequence (moment (standing (finished_with failed) ∷ []) [])
      (extend first.sequence (moment (standing (finished_with passed) ∷ []) []) start)

recorded : Recorded second history
recorded =
    recorded_moment
      (recorded_moment (started (codes "life")) (standing (finished_with passed) ∷ []) [])
      (standing (finished_with failed) ∷ []) []

since-IsNet_example :
    (changes : List NetChange) × (since second (some (cursor first)) ≡ changes_since changes)
    × IsNet
        (moment (standing (finished_with passed) ∷ []) [])
        (moment (standing (finished_with failed) ∷ []) [])
        changes
unfolding record_moment new_journal list_beq insert test_identity_key quote quote_list print_nat
    TestState_discrete
since-IsNet_example =
    since-IsNet (new_journal (codes "life")) start (standing (finished_with passed) ∷ []) [] second
      (moment (standing (finished_with failed) ∷ []) []) (started (codes "life"))
      (one_later none_later (standing (finished_with failed) ∷ []) []) (omega arith)

sequence_of-cursor_example : sequence_of second (cursor first) ≡ some first.sequence
unfolding record_moment new_journal list_beq insert test_identity_key quote quote_list print_nat
    TestState_discrete
sequence_of-cursor_example = sequence_of-cursor first second refl (omega arith) (omega arith)

record_moment-length_example : length second.changes < 100000
record_moment-length_example = record_moment-length second history recorded

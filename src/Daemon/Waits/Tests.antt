-- ===== src/Daemon/Waits/Tests.antt =====
-- A wait bound at revision 3, one of whose inputs was edited and another removed by revision 5, beside
-- an edited path that no workspace covering its files reads.
use rt_test.Base.{false, none, some, [], ◌∷◌, Text, codes, ◌≡◌, ◌↔◌, refl}
use rt_test.Daemon.Record.{InputDigests}
use rt_test.Daemon.Waits.{Coverage, Bound, changed_since}
use rt_test.Daemon.Waits.Changed.{Names, Changed, changed_since-Names}

abbrev coverage : Coverage
coverage = record {
  workspaces = codes "a" ∷ [];
  input_paths = λ _. codes "a.ts" ∷ codes "b.ts" ∷ [];
}

abbrev bound : Bound
bound = record {
  revision = 3;
  snapshot = (codes "a.ts", codes "1") ∷ (codes "b.ts", codes "1") ∷ (codes "c.ts", codes "1") ∷ [];
}

abbrev later_digests : InputDigests
later_digests = (codes "a.ts", codes "2") ∷ (codes "c.ts", codes "2") ∷ []

changed_since_named :
    changed_since (some coverage) bound later_digests (some coverage)
    ≡ some (record { paths = codes "a.ts" ∷ codes "b.ts" ∷ []; every_workspace = false })
unfolding changed_since rt_test.Base.list_beq
changed_since_named = refl

changed_since-Names_example :
    ((path : Text)
      → Names (changed_since (some coverage) bound later_digests (some coverage)) path
        ↔ Changed bound later_digests (some coverage) (some coverage) path)
    × ((changed_since (some coverage) bound later_digests (some coverage) ≡ none)
        ↔ ((path : Text) → ¬ Changed bound later_digests (some coverage) (some coverage) path))
changed_since-Names_example =
    changed_since-Names (some coverage) (some coverage) bound later_digests

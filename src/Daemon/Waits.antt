-- ===== src/Daemon/Waits.antt =====
-- `changedSince` and `differing` of packages/daemon/src/daemon/waits.ts: what changed for a wait since
-- the revision it is bound to. A snapshot is its compared digests.
pub mod Differing
pub mod Changed
mod Tests
use rt_test.Base.{
  ℕ, Bool, true, false, not, Option, none, some, List, [], ◌∷◌, Text, lookup, nat_eq, list_eq,
  if◌then◌else◌,
}
use rt_test.Daemon.Changes.{add_text}
use rt_test.Daemon.Record.{InputDigests, keys, add_texts, same_digest}

-- Of query/wait-answer.ts, the workspaces covering a wait's files at one revision, with their inputs.
pub record Coverage : Type 0 where
  pub workspaces : List Text
  pub input_paths : Text → List Text

-- The input revision a wait is bound to.
pub record Bound : Type 0 where
  pub revision : ℕ
  pub snapshot : InputDigests

pub record Change : Type 0 where
  pub paths : List Text
  pub every_workspace : Bool

module _ (before after : InputDigests) where
  unfoldable pub differing : List Text → List Text → List Text
  unfolding lookup
  differing [] into = into
  differing (path ∷ paths) into = differing paths (
      if not (same_digest (lookup path before) (lookup path after))
      then add_text path into
      else into)

  -- The loop over the covering workspaces.
  unfoldable pub differing_inputs : Coverage → Coverage → List Text → List Text → List Text
  unfolding differing
  differing_inputs covered now [] into = into
  differing_inputs covered now (workspace ∷ workspaces) into =
      differing_inputs covered now workspaces
        (differing (now.input_paths workspace) (differing (covered.input_paths workspace) into))

  -- The set that the branches fill.
  unfoldable pub differing_since : Option Coverage → Option Coverage → List Text
  unfolding differing_inputs add_texts
  differing_since none now = differing (keys after) (differing (keys before) [])
  differing_since (some covered) none = []
  differing_since (some covered) (some now) =
      differing_inputs covered now (add_texts now.workspaces (add_texts covered.workspaces [])) []

abbrev pub is_uncovered : Option Coverage → Bool
is_uncovered none = true
is_uncovered (some _) = false

abbrev pub change_of : List Text → Bool → Option Change
change_of [] every_workspace = none
change_of (path ∷ paths) every_workspace =
    some (record { paths = path ∷ paths; every_workspace = every_workspace })

unfoldable pub changed_since :
    Option Coverage → Bound → InputDigests → Option Coverage → Option Change
unfolding differing_since
changed_since covered bound snapshot now =
    change_of (differing_since bound.snapshot snapshot covered now) (is_uncovered covered)

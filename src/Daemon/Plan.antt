-- ===== src/Daemon/Plan.antt =====
-- packages/daemon/src/daemon/falsification-plan.ts, with the part of a `DefectStanding`
-- (defects/defect-standings.ts) that it reads. The mark of a definition is replaced in its `Map` where
-- the source writes to the mark it holds.
pub mod Waiting
pub mod Taken
use rt_test.Base.{
  ℕ, Bool, true, false, not, ◌&&◌, ◌||◌, Option, none, some, List, [], ◌∷◌, ◌++◌, Text, codes, Dict,
  lookup, insert, delete, length, includes, filter, find?, take, map, nat_eq, list_eq, ◌==◌,
  is_some, or_default, ltb, leb, ◌+◌, ◌-◌, ◌/◌, ◌%◌, if◌then◌else◌,
}
use rt_test.Core.Evidence.{Freshness, is_current}
use rt_test.Core.Identity.{TestIdentity}
use rt_test.Query.States.{flat_map}
use rt_test.Daemon.Standings.{
  Mutation, DefectExperiment, DefectState, DefectStanding, state_rank, current_rank, code_units,
  then_by, units_then_by, compare_standings, sort_insert, sort, is_current_evidence,
  invalid_definition, anchor_missing, survived, invalid_experiment, unclear, never_verified,
  detected,
}

abbrev pub max_job_definitions : ℕ
max_job_definitions = 25

-- `LEFT_REASON`.
abbrev pub time_bound : Text
time_bound = codes "time-bound"

abbrev pub repeated_input_change : Text
repeated_input_change = codes "repeated-input-change"

pub record JobDefinition : Type 0 where
  pub id : Text
  pub digest : Text
  pub state : DefectState
  pub experiment : DefectExperiment

pub record PlannedJob : Type 0 where
  pub workspace_path : Text
  pub definitions : List JobDefinition

pub record Candidate : Type 0 where
  pub definition : JobDefinition
  pub standing : DefectStanding
  pub workspace_path : Text

pub data Look : Type 0 where
  job : PlannedJob → Look
  nothing_waiting : Look
  none_taken : (waiting in_waiting_workspace : ℕ) → (first_at_revision : Bool) → Look

pub record DefinitionMark : Type 0 where
  pub id : Text
  pub workspace_path : Text
  pub held_at : Option ℕ
  pub reason : Option Text
  pub taken_last : Bool
  pub ended_running : Bool

pub record WorkspaceMark : Type 0 where
  pub revision : ℕ
  pub reason : Text

-- `FalsificationPlan`.
pub record FalsificationPlan : Type 0 where
  pub definitions : Dict Text DefinitionMark
  pub workspaces : Dict Text WorkspaceMark
  pub reported_at : Option ℕ

-- `heldAt !== revision`.
abbrev pub is_at : Option ℕ → ℕ → Bool
is_at none revision = false
is_at (some r) revision = r == revision

-- A candidate from the parts of a standing that an experiment is built from.
unfoldable pub candidate_of :
    DefectStanding
    → Option Text
    → Option Text
    → Option TestIdentity
    → Option (Text × Text)
    → Option Text
    → List Candidate
candidate_of s (some digest) (some id) (some resolved) (some mutation) (some mutation_path) =
    record {
      definition = record {
        id = id;
        digest = digest;
        state = s.state;
        experiment = record {
          defect_id = id;
          test = resolved;
          mutation = record { file = mutation_path; old_text = mutation.0; new_text = mutation.1 };
        };
      };
      standing = s;
      workspace_path = resolved.workspace_path;
    }
    ∷ []
candidate_of s _ _ _ _ _ = []

unfoldable pub candidate : DefectStanding → List Candidate
unfolding candidate_of
candidate s =
    if not s.eligible || is_current_evidence s.evidence_freshness
    then []
    else candidate_of s s.definition_digest s.id s.resolved s.mutation s.mutation_path

unfoldable pub candidates : List DefectStanding → List Candidate
unfolding flat_map candidate
candidates standings = flat_map candidate standings

-- The digest of a standing that holds one.
abbrev pub digest_of : DefectStanding → List Text
digest_of s = elim s.definition_digest [ some digest ↦ digest ∷ [] | none ↦ [] ]

unfoldable pub forget : List DefectStanding → ℕ → FalsificationPlan → FalsificationPlan
unfolding flat_map
forget standings revision plan = record {
  definitions =
      filter (λ (entry : Text × DefinitionMark). includes entry.0 (flat_map digest_of standings))
        plan.definitions;
  workspaces =
      filter (λ (entry : Text × WorkspaceMark). entry.1.revision == revision) plan.workspaces;
  reported_at = plan.reported_at;
}

-- Whether a workspace's mark is at a revision.
abbrev pub waits_at : Option WorkspaceMark → ℕ → Bool
waits_at none revision = false
waits_at (some mark) revision = mark.revision == revision

abbrev pub held_by : Option DefinitionMark → ℕ → Bool
held_by none revision = false
held_by (some mark) revision = is_at mark.held_at revision

abbrev pub marked_last : Option DefinitionMark → Bool
marked_last none = false
marked_last (some mark) = mark.taken_last

unfoldable pub may_take : FalsificationPlan → ℕ → Candidate → Bool
unfolding lookup
may_take plan revision waits =
    not (waits_at (lookup waits.workspace_path plan.workspaces) revision)
    && not (held_by (lookup waits.definition.digest plan.definitions) revision)

unfoldable pub taken_last : FalsificationPlan → Candidate → Bool
unfolding lookup
taken_last plan waits = marked_last (lookup waits.definition.digest plan.definitions)

unfoldable pub none_taken_look : List Candidate → ℕ → FalsificationPlan → Look × FalsificationPlan
unfolding lookup
none_taken_look waiting revision plan = (
  none_taken (length waiting)
      (length (
        filter (λ (w : Candidate). waits_at (lookup w.workspace_path plan.workspaces) revision)
          waiting))
      (not (is_at plan.reported_at revision)),
  record {
    definitions = plan.definitions;
    workspaces = plan.workspaces;
    reported_at = some revision;
  },
)

-- The job of the first definition that may be taken, by the candidates in their order.
unfoldable pub job_of : Candidate → List Candidate → PlannedJob
job_of first takeable = record {
  workspace_path = first.workspace_path;
  definitions =
      map (λ (w : Candidate). w.definition)
        (take max_job_definitions
          (filter (λ (w : Candidate). w.workspace_path == first.workspace_path) takeable));
}

abbrev number : Bool → ℕ
number true = 1
number false = 0

unfoldable pub comes_first : FalsificationPlan → Candidate → Candidate → Bool
unfolding taken_last compare_standings
comes_first plan left right =
    then_by (number (taken_last plan left)) (number (taken_last plan right))
      (compare_standings left.standing right.standing)

-- `next`, once there are candidates: by those that may be taken, in their order.
unfoldable pub next_of :
    List Candidate → List Candidate → ℕ → FalsificationPlan → Look × FalsificationPlan
unfolding job_of none_taken_look
next_of (first ∷ others) waiting revision plan = (job (job_of first (first ∷ others)), plan)
next_of [] waiting revision plan = none_taken_look waiting revision plan

unfoldable pub next_waiting : List Candidate → ℕ → FalsificationPlan → Look × FalsificationPlan
unfolding next_of may_take comes_first sort
next_waiting [] revision plan = (nothing_waiting, plan)
next_waiting (w ∷ ws) revision plan =
    next_of (sort (comes_first plan) (filter (may_take plan revision) (w ∷ ws))) (w ∷ ws) revision
      plan

unfoldable pub next : List DefectStanding → ℕ → FalsificationPlan → Look × FalsificationPlan
unfolding forget candidates next_waiting
next standings revision plan =
    next_waiting (candidates standings) revision (forget standings revision plan)

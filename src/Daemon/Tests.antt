-- ===== src/Daemon/Tests.antt =====
-- Examples on one change record and one falsification plan.
use rt_test.Base.{inr, true, false, none, some, [], ◌∷◌, codes, All, ◌≡◌, refl, list_beq, lookup}
use rt_test.Core.Identity.{TestIdentity}
use rt_test.Query.States.{flat_map}
use rt_test.Daemon.Changes.Bound.{new_change_sets-IsBounded}
use rt_test.Daemon.Changes.{new_change_sets, add_edits}
use rt_test.Daemon.Changes.Kept.{IsEdit, add_edits-IsEdit}
use rt_test.Daemon.Record.{ChangeRecord, report_edits}
use rt_test.Daemon.Record.Steps.{Step, AllBounded, Step-AllBounded}
use rt_test.Daemon.Plan.{
  JobDefinition, PlannedJob, Candidate, job, FalsificationPlan, candidates, forget, may_take, next,
  candidate, candidate_of, next_waiting, next_of, comes_first, job_of, taken_last,
}
use rt_test.Daemon.Standings.{DefectStanding, never_verified, sort, sort_insert}
use rt_test.Daemon.Endings.{ran_to_end}
use rt_test.Daemon.Plan.Taken.{IsPlanned, next-IsPlanned}
use rt_test.Daemon.Endings.Kept.{ran_to_end-may_take}

abbrev change_record : ChangeRecord
change_record = record {
  subjects = (some (codes "a"), new_change_sets) ∷ [];
  last = none;
  running = [];
  unread = [];
  next_report = 0;
}

Step-AllBounded_example : AllBounded (report_edits (codes "p" ∷ []) change_record).subjects
Step-AllBounded_example =
    Step-AllBounded (Step.reported {r = change_record} (codes "p" ∷ []))
      (new_change_sets-IsBounded, tt)

add_edits-IsEdit_example :
    IsEdit (codes "b") (add_edits (codes "a" ∷ codes "b" ∷ []) new_change_sets)
unfolding list_beq
add_edits-IsEdit_example =
    add_edits-IsEdit (codes "a" ∷ codes "b" ∷ []) (codes "b") new_change_sets (inr refl)

abbrev identity : TestIdentity
identity = record {
  workspace_path = codes ".";
  project_name = codes "unit";
  module_path = codes "a.test.ts";
  name_path = codes "adds" ∷ [];
  occurrence = 0;
}

abbrev standing : DefectStanding
standing = record {
  id = some (codes "x");
  resolved = some identity;
  mutation = some (codes "a", codes "b");
  mutation_path = some (codes "a.ts");
  file = codes "a.defects.json";
  position = 0;
  state = never_verified;
  eligible = true;
  definition_digest = some (codes "d");
  evidence_freshness = none;
}

abbrev plan : FalsificationPlan
plan = record { definitions = []; workspaces = []; reported_at = none }

abbrev planned_job : PlannedJob
planned_job = record {
  workspace_path = codes ".";
  definitions =
      record {
        id = codes "x";
        digest = codes "d";
        state = never_verified;
        experiment = record {
          defect_id = codes "x";
          test = identity;
          mutation = record { file = codes "a.ts"; old_text = codes "a"; new_text = codes "b" };
        };
      }
      ∷ [];
}

next_is_planned : next (standing ∷ []) 7 plan ≡ (job planned_job, plan)
unfolding next next_waiting next_of comes_first sort sort_insert job_of taken_last candidates
    candidate candidate_of flat_map forget may_take lookup list_beq
next_is_planned = refl

next-IsPlanned_example : IsPlanned (standing ∷ []) plan 7 planned_job
next-IsPlanned_example = next-IsPlanned (standing ∷ []) 7 plan plan planned_job next_is_planned

ran_to_end-may_take_example :
    All
      (λ (d : JobDefinition).
        (w : Candidate)
        → w.definition.digest ≡ d.digest
        → may_take (ran_to_end planned_job 7 [] plan) 7 w ≡ false)
      planned_job.definitions
ran_to_end-may_take_example = ran_to_end-may_take planned_job 7 [] plan

-- ===== src/Daemon/Standings.antt =====
-- What the falsification plan reads of a `DefectStanding`, and the order of compareStandings
-- (packages/daemon/src/defects/defect-standings.ts and defect-states.ts), with the mutation and the
-- experiment of packages/daemon/src/falsify/mutation-transform.ts and experiment-record.ts.
use rt_test.Base.{
  ℕ, Bool, true, false, Option, none, some, List, [], ◌∷◌, Text, nat_eq, list_eq, ltb, leb, ◌+◌,
  ◌-◌, ◌/◌, ◌%◌, if◌then◌else◌,
}
use rt_test.Core.Evidence.{Freshness, is_current}
use rt_test.Core.Identity.{TestIdentity}

pub record Mutation : Type 0 where
  pub file : Text
  pub old_text : Text
  pub new_text : Text

pub record DefectExperiment : Type 0 where
  pub defect_id : Text
  pub test : TestIdentity
  pub mutation : Mutation

-- `DEFECT_STATES`, in its order.
pub data DefectState : Type 0 where
  invalid_definition anchor_missing survived invalid_experiment unclear : DefectState
  never_verified detected : DefectState

-- A standing with the parts of its definition that the plan reads.
pub record DefectStanding : Type 0 where
  pub id : Option Text
  pub resolved : Option TestIdentity
  pub mutation : Option (Text × Text)
  pub mutation_path : Option Text
  pub file : Text
  pub position : ℕ
  pub state : DefectState
  pub eligible : Bool
  pub definition_digest : Option Text
  pub evidence_freshness : Option Freshness

abbrev pub is_current_evidence : Option Freshness → Bool
is_current_evidence none = false
is_current_evidence (some freshness) = is_current freshness

-- The place of a state in `DEFECT_STATES`.
abbrev pub state_rank : DefectState → ℕ
state_rank invalid_definition = 0
state_rank anchor_missing = 1
state_rank survived = 2
state_rank invalid_experiment = 3
state_rank unclear = 4
state_rank never_verified = 5
state_rank detected = 6

abbrev pub current_rank : DefectStanding → ℕ
current_rank s = if is_current_evidence s.evidence_freshness then 1 else 0

-- The code units of a text, by which texts are compared.
unfoldable pub code_units : Text → List ℕ
code_units [] = []
code_units (c ∷ cs) =
    if ltb c 65536
    then c ∷ code_units cs
    else (55296 + (c - 65536) / 1024) ∷ (56320 + (c - 65536) % 1024) ∷ code_units cs

-- `left < right`, then `left === right` gives way to the next comparison.
abbrev pub then_by : ℕ → ℕ → Bool → Bool
then_by a b rest = if ltb a b then true else (if ltb b a then false else rest)

unfoldable pub units_then_by : List ℕ → List ℕ → Bool → Bool
units_then_by [] [] rest = rest
units_then_by [] (_ ∷ _) rest = true
units_then_by (_ ∷ _) [] rest = false
units_then_by (a ∷ xs) (b ∷ ys) rest = then_by a b (units_then_by xs ys rest)

-- `compareStandings(left, right) <= 0`.
unfoldable pub compare_standings : DefectStanding → DefectStanding → Bool
unfolding units_then_by code_units
compare_standings left right = then_by (state_rank left.state) (state_rank right.state) (
    then_by (current_rank left) (current_rank right) (
      units_then_by (code_units left.file) (code_units right.file)
        (leb left.position right.position)))

-- The array method `sort`, which is stable.
unfoldable pub sort_insert {ℓ} : {A : Type ℓ} → (A → A → Bool) → A → List A → List A
sort_insert le x [] = x ∷ []
sort_insert le x (y ∷ ys) = if le x y then x ∷ y ∷ ys else y ∷ sort_insert le x ys

unfoldable pub sort {ℓ} : {A : Type ℓ} → (A → A → Bool) → List A → List A
unfolding sort_insert
sort le [] = []
sort le (x ∷ xs) = sort_insert le x (sort le xs)

-- The order by which `sort` with no argument puts texts.
unfoldable pub text_le : Text → Text → Bool
unfolding units_then_by code_units
text_le a b = units_then_by (code_units a) (code_units b) true

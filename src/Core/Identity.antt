-- ===== src/Core/Identity.antt =====
-- packages/core/src/test-identity.ts. A `Map` from keys to counts is a dictionary on the keys.
pub mod Keys
pub mod Occurrences
use rt_test.Base.{
  ℕ, ◌+◌, Bool, Option, none, some, List, [], ◌∷◌, ◌++◌, map, Text, list_eq, nat_eq, Dict, lookup,
  insert, ltb, or_default,
}
use rt_test.Base.Json.{quote, quote_list, print_nat}

pub record TestIdentity : Type 0 where
  pub workspace_path : Text
  pub project_name : Text
  pub module_path : Text
  pub name_path : List Text
  pub occurrence : ℕ

pub record TestModuleLocation : Type 0 where
  pub workspace_path : Text
  pub project_name : Text
  pub module_path : Text

pub record IdentifiedTest : Type 0 where
  pub identity : TestIdentity
  pub is_duplicate : Bool

unfoldable pub test_identity_key : TestIdentity → Text
test_identity_key identity =
    b'[' ∷ quote identity.workspace_path
    ++ (b',' ∷ quote identity.project_name
        ++ (b',' ∷ quote identity.module_path
            ++ (b',' ∷ quote_list identity.name_path
                ++ (b',' ∷ print_nat identity.occurrence ++ b']' ∷ []))))

unfoldable pub name_path_key : List Text → Text
name_path_key name_path = quote_list name_path

-- `counts.get(key) ?? 0`.
unfoldable pub count_of : Text → Dict Text ℕ → ℕ
count_of key counts = or_default (lookup key counts) 0

-- The loop of `countBy`.
unfoldable pub count_from : Dict Text ℕ → List Text → Dict Text ℕ
count_from counts [] = counts
count_from counts (key ∷ keys) = count_from (insert key (count_of key counts + 1) counts) keys

unfoldable pub count_by : List Text → Dict Text ℕ
unfolding count_from
count_by keys = count_from [] keys

-- The `map` of `identifyModuleTests`, which carries `seen`.
unfoldable pub identify_from :
    TestModuleLocation → Dict Text ℕ → Dict Text ℕ → List (List Text) → List IdentifiedTest
identify_from location totals seen [] = []
identify_from location totals seen (name_path ∷ rest) =
    let key = name_path_key name_path in
    let occurrence = count_of key seen in
    record {
      identity = record {
        workspace_path = location.workspace_path;
        project_name = location.project_name;
        module_path = location.module_path;
        name_path = name_path;
        occurrence = occurrence;
      };
      is_duplicate = ltb 1 (count_of key totals);
    }
    ∷ identify_from location totals (insert key (occurrence + 1) seen) rest

unfoldable pub identify_module_tests : TestModuleLocation → List (List Text) → List IdentifiedTest
unfolding identify_from
identify_module_tests location name_paths =
    identify_from location (count_by (map name_path_key name_paths)) [] name_paths

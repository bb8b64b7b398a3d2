-- ===== src/Core/Identity/Keys.antt =====
-- The keys of packages/core/src/test-identity.ts tell identities and name paths apart.
use rt_test.Base.{ℕ, List, [], ◌∷◌, ◌++◌, Text, ◌≡◌, ap, ◌↔◌, arith}
use rt_test.Base.Json.{quote_inj, quote_list, quote_list_inj, print_nat_inj}
use mathlib.Core.List.{append_cancel_right}
use rt_test.Core.Identity.{TestIdentity, test_identity_key, name_path_key}

-- Two name paths have one key exactly when they are equal.
pub name_path_key_iff : (p q : List Text) → (name_path_key p ≡ name_path_key q) ↔ (p ≡ q)
unfolding name_path_key
name_path_key_iff p q = (λ e. (quote_list_inj p q [] [] (ap (λ t. t ++ []) e)).0, ap quote_list)

rest_eq : (c : ℕ) (s t : Text) → ◌≡◌ {A = Text} (c ∷ s) (c ∷ t) → s ≡ t
rest_eq c s t e = cc

-- The key is equal for two identities exactly when every field is equal.
pub test_identity_key_iff :
    (a b : TestIdentity) → (test_identity_key a ≡ test_identity_key b) ↔ (a ≡ b)
unfolding test_identity_key
test_identity_key_iff a b = (
  λ e.
      let (workspace, e1) = quote_inj _ _ _ _ (rest_eq _ _ _ e) in
      let (project, e2) = quote_inj _ _ _ _ (rest_eq _ _ _ e1) in
      let (module_, e3) = quote_inj _ _ _ _ (rest_eq _ _ _ e2) in
      let (names, e4) = quote_list_inj _ _ _ _ (rest_eq _ _ _ e3) in
      let occurrence = print_nat_inj _ _ (append_cancel_right _ _ _ (rest_eq _ _ _ e4)) in
      ground (arith, workspace, project, module_, names, occurrence),
  ap test_identity_key,
)

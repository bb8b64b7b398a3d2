-- ===== src/Query/Due/Order.antt =====
-- The order of a round (packages/daemon/src/daemon/due-workspaces.ts).
use rt_test.Base.{
  ℕ, ◌≤◌, Bool, true, List, [], ◌∷◌, ◌++◌, ◌≡◌, refl, ap, sym, ◌∙◌, filter, All, All-map, Pairs,
  append-nil, if◌then◌else◌, arith,
}
use mathlib.Core.Path.{subst}
use rt_test.Query.States.{flat_map}
use rt_test.Query.Due.{
  QueueGroup, direct_target, prior_failure, rest, QueuedWorkspace, same_group, order_queue,
}

-- The place of a group in a round.
abbrev pub rank : QueueGroup → ℕ
rank direct_target = 0
rank prior_failure = 1
rank rest = 2

abbrev pub in_group : QueueGroup → QueuedWorkspace → Bool
in_group g q = same_group q.group g

rank_of_same : (g h : QueueGroup) → same_group g h ≡ true → rank g ≡ rank h
rank_of_same g h e = ground arith

module _ {ℓ} {A : Type ℓ} where
  pub filter-append :
      (p : A → Bool) (xs ys : List A) → filter p (xs ++ ys) ≡ filter p xs ++ filter p ys
  filter-append p [] ys = refl
  filter-append p (x ∷ xs) ys = ground (arith, filter-append p xs ys)

  pub All-append {κ} :
      (P : A → Type κ) (front back : List A) → All P front → All P back → All P (front ++ back)
  All-append P [] back h k = k
  All-append P (x ∷ front) back (p, h) k = (p, All-append P front back h k)

  All-filter : (p : A → Bool) (xs : List A) → All (λ x. p x ≡ true) (filter p xs)
  All-filter p [] = tt
  All-filter p (x ∷ xs) = ground (arith, All-filter p xs)

-- Filters of two groups: the same filter, or nothing.
filter-filter :
    (g h : QueueGroup) (q : List QueuedWorkspace)
    → filter (in_group g) (filter (in_group h) q)
      ≡ (if same_group g h then filter (in_group h) q else [])
filter-filter g h [] = ground arith
filter-filter g h (x ∷ q) = ground (arith, filter-filter g h q)

-- The queued workspaces of each of a list of groups, in turn.
abbrev of_groups : List QueueGroup → List QueuedWorkspace → List QueuedWorkspace
of_groups [] q = []
of_groups (g ∷ gs) q = filter (in_group g) q ++ of_groups gs q

order_queue-of_groups :
    (q : List QueuedWorkspace)
    → order_queue q ≡ of_groups (direct_target ∷ prior_failure ∷ rest ∷ []) q
unfolding order_queue flat_map
order_queue-of_groups q = refl

filter-of_groups :
    (g : QueueGroup) (q : List QueuedWorkspace)
    → filter (in_group g) (of_groups (direct_target ∷ prior_failure ∷ rest ∷ []) q)
      ≡ filter (in_group g) q
filter-of_groups direct_target q = simp (filter-append, filter-filter, append-nil)
filter-of_groups prior_failure q = simp (filter-append, filter-filter, append-nil)
filter-of_groups rest q = simp (filter-append, filter-filter, append-nil)

module _ {ℓ κ} {A : Type ℓ} (R : A → A → Type κ) where
  pub Pairs-append :
      (xs ys : List A) → Pairs R xs → Pairs R ys → All (λ x. All (R x) ys) xs → Pairs R (xs ++ ys)
  Pairs-append [] ys h k m = k
  Pairs-append (x ∷ xs) ys h k m = (All-append (R x) xs ys h.0 m.0, Pairs-append xs ys h.1 k m.1)

  Pairs-of_All {μ} :
      (P : A → Type μ) → ((x y : A) → P x → P y → R x y) → (xs : List A) → All P xs → Pairs R xs
  Pairs-of_All P f [] h = tt
  Pairs-of_All P f (x ∷ xs) h = (All-map P (R x) (λ y. f x y h.0) xs h.1, Pairs-of_All P f xs h.1)

-- No workspace comes before one of an earlier group.
abbrev pub IsGrouped : List QueuedWorkspace → Type 0
IsGrouped q = Pairs (λ (x y : QueuedWorkspace). rank x.group ≤ rank y.group) q

abbrev IsAtLeast : ℕ → List QueuedWorkspace → Type 0
IsAtLeast n q = All (λ (y : QueuedWorkspace). n ≤ rank y.group) q

filter-IsAtLeast :
    (n : ℕ) (g : QueueGroup) (q : List QueuedWorkspace)
    → n ≤ rank g
    → IsAtLeast n (filter (in_group g) q)
filter-IsAtLeast n g q h =
    All-map _ _ (λ y e. ground (arith, rank_of_same y.group g e)) (filter (in_group g) q)
      (All-filter (in_group g) q)

prepend-IsGrouped :
    (g : QueueGroup) (q rest_ : List QueuedWorkspace)
    → IsGrouped rest_
    → IsAtLeast (rank g) rest_
    → IsGrouped (filter (in_group g) q ++ rest_)
prepend-IsGrouped g q rest_ h k =
    let members = All-filter (in_group g) q in
    Pairs-append _ (filter (in_group g) q) rest_
      (Pairs-of_All _ _
        (λ x y e e'. ground (arith, rank_of_same x.group g e, rank_of_same y.group g e')) _ members)
      h
      (All-map _ _
        (λ x e.
          All-map (λ (y : QueuedWorkspace). rank g ≤ rank y.group) _
            (λ y m. ground (arith, rank_of_same x.group g e)) rest_ k)
        _ members)

-- A round runs the direct targets first, then the workspaces with a prior failure, then the rest,
-- and holds each group's workspaces as the queue does, in the queue's order.
pub order_queue-IsGrouped :
    (q : List QueuedWorkspace)
    → IsGrouped (order_queue q)
      × ((g : QueueGroup) → filter (in_group g) (order_queue q) ≡ filter (in_group g) q)
order_queue-IsGrouped q =
    let grouped =
      prepend-IsGrouped direct_target q _
        (prepend-IsGrouped prior_failure q _ (prepend-IsGrouped rest q [] tt tt)
          (All-append _ (filter (in_group rest) q) [] (filter-IsAtLeast 1 rest q (omega arith)) tt))
        (All-append _ (filter (in_group prior_failure) q) _
          (filter-IsAtLeast 0 prior_failure q (omega arith))
          (All-append _ (filter (in_group rest) q) [] (filter-IsAtLeast 0 rest q (omega arith))
            tt)) in
    (
      subst IsGrouped (sym (order_queue-of_groups q)) grouped,
      λ g. ap (filter (in_group g)) (order_queue-of_groups q) ∙ filter-of_groups g q,
    )

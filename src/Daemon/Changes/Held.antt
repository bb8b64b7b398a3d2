-- ===== src/Daemon/Changes/Held.antt =====
-- How many of the paths that jobs changed are no edits, as a subject's changes grow and move
-- (packages/daemon/src/daemon/change-record.ts).
use rt_test.Base.{
  ℕ, ◌+◌, ◌≤◌, Bool-cases, inl, inr, true, false, some, List, [], ◌∷◌, ◌++◌, Text, Dict, lookup,
  insert, delete, includes, nat_eq, list_eq, eq_iff, ◌==◌, ◌≡◌, refl, ap, ◌∙◌, ◌||◌, if◌then◌else◌,
  arith,
}
use rt_test.Daemon.Changes.{Job}

-- How many of the paths that jobs changed are no edits.
unfoldable pub unedited : List Text → Dict Text (List Job) → ℕ
unedited edits [] = 0
unedited edits ((path, _) ∷ m) = (if includes path edits then 0 else 1) + unedited edits m

pub includes-append :
    (x : Text) (xs ys : List Text) → includes x (xs ++ ys) ≡ (includes x xs || includes x ys)
includes-append x [] ys = refl
includes-append x (y ∷ xs) ys = ground (arith, includes-append x xs ys)

pub unedited-append :
    (edits : List Text) (path : Text) (m : Dict Text (List Job))
    → unedited (edits ++ path ∷ []) m ≤ unedited edits m
unfolding unedited
unedited-append edits path [] = omega arith
unedited-append edits path ((j, v) ∷ m) =
    ground (arith, includes-append j edits (path ∷ []), unedited-append edits path m)

-- Editing a path that a job changed counts it among the edits instead.
pub unedited-held :
    (edits : List Text) (path : Text) (m : Dict Text (List Job)) (jobs : List Job)
    → includes path edits ≡ false
    → lookup path m ≡ some jobs
    → unedited (edits ++ path ∷ []) m + 1 ≤ unedited edits m
unfolding unedited lookup
unedited-held edits path [] jobs h e = absurd (ground arith)
unedited-held edits path ((j, v) ∷ m) jobs h e = elim (Bool-cases (j == path)) [
  | inl same ↦
      let at : includes j edits ≡ false = ap (λ x. includes x edits) ((eq_iff j path).0 same) ∙ h in
      ground (arith, at, includes-append j edits (path ∷ []), unedited-append edits path m)
  | inr other ↦
      ground (arith, includes-append j edits (path ∷ []), unedited-held edits path m jobs h)
]

pub unedited-insert-new :
    (edits : List Text) (path : Text) (jobs : List Job) (m : Dict Text (List Job))
    → unedited edits (insert path jobs m) ≤ unedited edits m + 1
unfolding unedited insert
unedited-insert-new edits path jobs [] = ground arith
unedited-insert-new edits path jobs ((j, v) ∷ m) =
    ground (arith, unedited-insert-new edits path jobs m)

pub unedited-insert-held :
    (edits : List Text) (path : Text) (old jobs : List Job) (m : Dict Text (List Job))
    → lookup path m ≡ some old
    → unedited edits (insert path jobs m) ≡ unedited edits m
unfolding unedited insert lookup
unedited-insert-held edits path old jobs [] e = absurd (ground arith)
unedited-insert-held edits path old jobs ((j, v) ∷ m) e =
    ground (arith, unedited-insert-held edits path old jobs m)

pub unedited-insert-edited :
    (edits : List Text) (path : Text) (jobs : List Job) (m : Dict Text (List Job))
    → includes path edits ≡ true
    → unedited edits (insert path jobs m) ≡ unedited edits m
unfolding unedited insert
unedited-insert-edited edits path jobs [] e = ground arith
unedited-insert-edited edits path jobs ((j, v) ∷ m) e =
    ground (arith, unedited-insert-edited edits path jobs m e)

pub unedited-delete :
    (edits : List Text) (path : Text) (m : Dict Text (List Job))
    → unedited edits (delete path m) ≤ unedited edits m
unfolding unedited delete
unedited-delete edits path [] = omega arith
unedited-delete edits path ((j, v) ∷ m) = ground (arith, unedited-delete edits path m)

pub unedited-delete-held :
    (edits : List Text) (path : Text) (m : Dict Text (List Job)) (jobs : List Job)
    → includes path edits ≡ false
    → lookup path m ≡ some jobs
    → unedited edits (delete path m) + 1 ≤ unedited edits m
unfolding unedited delete lookup
unedited-delete-held edits path [] jobs h e = absurd (ground arith)
unedited-delete-held edits path ((j, v) ∷ m) jobs h e = elim (Bool-cases (j == path)) [
  | inl same ↦
      let at : includes j edits ≡ false = ap (λ x. includes x edits) ((eq_iff j path).0 same) ∙ h in
      ground (arith, at, unedited-delete edits path m)
  | inr other ↦ ground (arith, unedited-delete-held edits path m jobs h)
]

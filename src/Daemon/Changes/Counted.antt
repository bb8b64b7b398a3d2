-- ===== src/Daemon/Changes/Counted.antt =====
-- The count of distinct changed paths that the change sets keep
-- (packages/daemon/src/daemon/change-record.ts).
use rt_test.Base.{
  ℕ, ◌+◌, ◌≤◌, Bool-cases, Option-cases, inl, inr, ◌⊎◌, Bool, true, false, Option, none, List, [],
  ◌∷◌, ◌++◌, Text, lookup, insert, length, length-append, includes, nat_eq, list_eq, ◌≡◌, refl, sym,
  leb, is_some, ◌||◌, arith,
}
use mathlib.Core.Path.{subst}
use rt_test.Daemon.Changes.Held.{
  unedited, unedited-append, unedited-held, unedited-insert-new, unedited-insert-edited,
}
use rt_test.Daemon.Changes.{
  Job, ChangeSets, add_text, edited_everywhere, counts, with_edits, with_by_jobs,
}

-- How many paths a subject's changes hold, a path of both sets counted once.
unfoldable pub held_count : ChangeSets → ℕ
unfolding unedited
held_count sets = length sets.edits + unedited sets.edits sets.by_jobs

-- A subject's changes hold no more paths than were counted, nor than the bound, and none once an
-- edit counts as reaching every input.
pub record IsBounded (sets : ChangeSets) : Type 0 where
  pub held_le : sets.everywhere ≡ false → (held_count sets ≤ sets.distinct) × (sets.distinct ≤ 1000)
  pub cleared : sets.everywhere ≡ true → (sets.by_jobs ≡ []) × (sets.edits ≡ [])

-- What holds when a path may be added: there is room for it, unless it is held already.
pub record HasRoom (path : Text) (sets : ChangeSets) : Type 0 where
  inside : sets.everywhere ≡ false
  within : sets.distinct ≤ 1000
  fits : held_count sets ≤ sets.distinct
  room :
      (includes path sets.edits ≡ true)
      ⊎ ((is_some (lookup path sets.by_jobs) ≡ true) ⊎ (held_count sets + 1 ≤ sets.distinct))

pub edited_everywhere-IsBounded : (sets : ChangeSets) → IsBounded (edited_everywhere sets)
unfolding edited_everywhere
edited_everywhere-IsBounded sets = record {
  held_le = λ e. absurd (ground arith);
  cleared = λ e. (refl, refl);
}

-- What `counts` promises of its result.
abbrev pub IsCounted : Text → Bool × ChangeSets → Type 0
IsCounted path result = (result.0 ≡ true → HasRoom path result.1) × IsBounded result.1

-- One more path counted.
abbrev one_more : ChangeSets → ChangeSets
one_more sets = record {
  by_jobs = sets.by_jobs;
  edits = sets.edits;
  everywhere = sets.everywhere;
  distinct = sets.distinct + 1;
}

held_count-IsCounted :
    (path : Text) (sets : ChangeSets)
    → sets.everywhere ≡ false
    → IsBounded sets
    → (is_some (lookup path sets.by_jobs) || includes path sets.edits) ≡ true
    → IsCounted path (true, sets)
held_count-IsCounted path sets e b h =
    let (fits, within) = b.held_le e in
    (
      λ _. record {
        inside = e;
        within = within;
        fits = fits;
        room = elim (Bool-cases (includes path sets.edits)) [
          | inl edited ↦ inl edited
          | inr other ↦ inr (inl (ground arith))
        ];
      },
      b,
    )

new-IsCounted :
    (path : Text) (sets : ChangeSets)
    → sets.everywhere ≡ false
    → IsBounded sets
    → sets.distinct + 1 ≤ 1000
    → IsCounted path (true, one_more sets)
unfolding held_count
new-IsCounted path sets e b h =
    let (fits, within) = b.held_le e in
    let fits' : held_count (one_more sets) ≤ sets.distinct + 1 = omega arith in
    (
      λ _. record { inside = e; within = h; fits = fits'; room = inr (inr (omega arith)) },
      record { held_le = λ _. (fits', h); cleared = λ c. absurd (ground arith) },
    )

pub counts-IsBounded :
    (path : Text) (sets : ChangeSets) → IsBounded sets → IsCounted path (counts path sets)
unfolding counts
counts-IsBounded path sets b = elim (Bool-cases sets.everywhere) [
  | inl e ↦
      let is : counts path sets ≡ (false, sets) = rw e in
      subst (IsCounted path) (sym is) (λ h. absurd (ground arith), b)
  | inr e ↦ elim (Bool-cases (is_some (lookup path sets.by_jobs) || includes path sets.edits)) [
    | inl h ↦
        let is : counts path sets ≡ (true, sets) = rw (e, h) in
        subst (IsCounted path) (sym is) (held_count-IsCounted path sets e b h)
    | inr h ↦ elim (Bool-cases (leb (sets.distinct + 1) 1000)) [
      | inl l ↦
          let is : counts path sets ≡ (true, one_more sets) = rw (e, h, l) in
          subst (IsCounted path) (sym is) (new-IsCounted path sets e b (ground arith))
      | inr l ↦
          let is : counts path sets ≡ (false, edited_everywhere (one_more sets)) = rw (e, h, l) in
          subst (IsCounted path) (sym is)
            (λ t. absurd (ground arith), edited_everywhere-IsBounded (one_more sets))
    ]
  ]
]

pub within-IsBounded :
    (sets : ChangeSets)
    → sets.everywhere ≡ false
    → held_count sets ≤ sets.distinct
    → sets.distinct ≤ 1000
    → IsBounded sets
within-IsBounded sets e h k = record { held_le = λ _. (h, k); cleared = λ c. absurd (ground arith) }

pub lookup_nil : (path : Text) → ◌≡◌ {A = Option (List Job)} (lookup path []) none
unfolding lookup
lookup_nil path = refl

-- Adding a path that there is room for.
pub put_job-IsBounded :
    (path : Text) (job : Job) (sets : ChangeSets)
    → HasRoom path sets
    → lookup path sets.by_jobs ≡ none
    → IsBounded (with_by_jobs (insert path (job ∷ []) sets.by_jobs) sets)
unfolding held_count
put_job-IsBounded path job sets r n =
    let fits = r.fits in
    within-IsBounded _ r.inside
      (elim r.room [
        | inl edited ↦
            omega (arith, unedited-insert-edited sets.edits path (job ∷ []) sets.by_jobs edited)
        | inr (inl known) ↦ absurd (ground arith)
        | inr (inr room) ↦
            omega (arith, unedited-insert-new sets.edits path (job ∷ []) sets.by_jobs)
      ])
      r.within

held_of_edit :
    (path : Text) (sets : ChangeSets)
    → HasRoom path sets
    → includes path sets.edits ≡ false
    → length (sets.edits ++ path ∷ []) + unedited (sets.edits ++ path ∷ []) sets.by_jobs
      ≤ sets.distinct
unfolding held_count
held_of_edit path sets r n =
    let fits = r.fits in
    let longer = length-append sets.edits (path ∷ []) in
    elim r.room [
      | inl edited ↦ absurd (ground arith)
      | inr (inl known) ↦ elim (Option-cases (lookup path sets.by_jobs)) [
        | inl e ↦ absurd (ground arith)
        | inr (jobs, e) ↦ omega (arith, unedited-held sets.edits path sets.by_jobs jobs n e)
      ]
      | inr (inr room) ↦ omega (arith, unedited-append sets.edits path sets.by_jobs)
    ]

pub put_edit-IsBounded :
    (path : Text) (sets : ChangeSets)
    → HasRoom path sets
    → includes path sets.edits ≡ false
    → IsBounded (with_edits (add_text path sets.edits) sets)
unfolding held_count
put_edit-IsBounded path sets r n =
    let is : add_text path sets.edits ≡ sets.edits ++ path ∷ [] = rw n in
    subst (λ e. IsBounded (with_edits e sets)) (sym is)
      (within-IsBounded _ r.inside (held_of_edit path sets r n) r.within)

-- ===== src/Inputs/Glob/Correct.antt =====
-- `matchesSequence` (packages/daemon/src/inputs/non-inputs.ts) ends within its fuel and decides
-- `Matches`, although it only ever resumes the latest run.
use rt_test.Base.{
  ℕ, zero, suc, ◌+◌, ◌*◌, ◌-◌, ◌≤◌, ◌<◌, Bool, true, false, Option, none, some, List, [], ◌∷◌, Eq,
  ◌==◌, eq_iff, length, drop, nat_beq, nat_beq_iff, Bool-cases, ◌≡◌, ◌≢◌, refl, ◌↔◌, inl, inr,
  arith, get_elem?-cases,
}
use rt_test.Inputs.Glob.{
  is_run, is_one, trailing_runs, finish, Rounds, resume, round, rounds, run_sequence,
  matches_sequence,
}
use rt_test.Inputs.Glob.Matching.{
  Matches, done, leave, extend, single, single_inv, single_needs, nothing_left, leave_empty,
  two_runs, after_single, must_extend,
}

-- The run ended with an answer, and the answer is right about `G`.
abbrev Answers : Type 0 → Option Bool → Type 0
Answers G r = (b : Bool) × (r ≡ some b) × ((b ≡ true) ↔ G)

module _ {A : Type 0} ⦃e : Eq A⦄ (run : A) (matches_one : A → A → Bool)
    (pattern subject : List A) where
  -- Only runs are left of the pattern at the end of the subject.
  trailing_lem :
      (f i : ℕ)
      → length pattern < i + f
      → i ≤ length pattern
      → (k : ℕ) × (trailing_runs run pattern f i ≡ some k)
        × ((k ≡ length pattern) ↔ Matches run matches_one (drop i pattern) [])
  unfolding trailing_runs is_run
  trailing_lem zero i h hi = absurd (omega arith)
  trailing_lem (suc f) i h hi = elim (get_elem?-cases i pattern) [
    | inl (out, nothing, past) ↦ (i, rw out, (λ _. rw nothing done, λ _. omega arith))
    | inr (w, at, rest, inside) ↦ elim (Bool-cases (w == run)) [
      | inl same ↦
          let (k, result, correct) = trailing_lem f (i + 1) (omega arith) (omega arith) in
          let is = (eq_iff w run).0 same in
          (
            k,
            rw (at, same, result),
            (λ h. rw rest (leave is (correct.0 h)), λ m. correct.1 (leave_empty is (rw rest at m))),
          )
      | inr other ↦ (
        i,
        rw (at, other),
        (
          λ h. absurd (omega arith),
          λ m. absurd (single_needs (λ is. cc ((eq_iff w run).1 is)) (rw rest at m)),
        ),
      )
    ]
  ]

  finish_lem :
      (i : ℕ)
      → i ≤ length pattern
      → Answers (Matches run matches_one (drop i pattern) []) (finish run pattern i)
  unfolding finish
  finish_lem i hi =
      let (k, result, correct) = trailing_lem (suc (length pattern)) i (omega arith) hi in
      (
        nat_beq k (length pattern),
        rw (result, finish),
        (λ h. correct.0 ((nat_beq_iff _ _).0 h), λ m. (nat_beq_iff _ _).1 (correct.1 m)),
      )

  -- `G` is the question asked at the start.
  module _ (G : Type 0) where
    -- What the saved run means. `m` bounds how often the saved run can still be resumed.
    abbrev Held : ℕ → ℕ → ℕ → Option (ℕ × ℕ) → Type 0
    Held m pi si none = G → Matches run matches_one (drop pi pattern) (drop si subject)
    Held m pi si (some (rp, rs)) =
        (G ↔ Matches run matches_one (run ∷ drop (rp + 1) pattern) (drop rs subject))
        × (Matches run matches_one (drop (rp + 1) pattern) (drop rs subject)
            → Matches run matches_one (drop pi pattern) (drop si subject))
        × (rs ≤ si)
        × (rp < length pattern)
        × (length subject ≤ m + rs)

    record Inv (f m pi si : ℕ) (saved : Option (ℕ × ℕ)) : Type 0 where
      now : Matches run matches_one (drop pi pattern) (drop si subject) → G
      later : G → Matches run matches_one (run ∷ drop pi pattern) (drop si subject)
      held : Held m pi si saved
      pattern_in : pi ≤ length pattern
      subject_in : length subject ≤ m + si
      fuel : m * (length pattern + 1) + (length pattern - pi) < f

    -- At a run: the question becomes whether this run and what follows match here.
    Inv-skip :
        {f m pi si : ℕ} {saved : Option (ℕ × ℕ)} {w : A}
        → Inv (suc f) m pi si saved
        → drop pi pattern ≡ w ∷ drop (pi + 1) pattern
        → w ≡ run
        → pi < length pattern
        → Inv f m (pi + 1) si (some (pi, si))
    Inv-skip {pi} {si} {w} i rest is inside = record {
      now = λ m. i.now (rw rest (leave is m));
      later = λ g. after g;
      held = ((after, λ m. i.now (rw (rest, is) m)), λ m. m, omega arith, inside, i.subject_in);
      pattern_in = omega arith;
      subject_in = i.subject_in;
      fuel = omega arith;
    }
      where
        after : G → Matches run matches_one (run ∷ drop (pi + 1) pattern) (drop si subject)
        after g = rw is at (two_runs is (rw rest at (i.later g)) refl)

    Held-single :
        (m pi si : ℕ) (saved : Option (ℕ × ℕ)) (w x : A)
        → Held m pi si saved
        → drop pi pattern ≡ w ∷ drop (pi + 1) pattern
        → drop si subject ≡ x ∷ drop (si + 1) subject
        → w ≢ run
        → Held m (pi + 1) (si + 1) saved
    Held-single m pi si none w x h p s ne = λ g. (single_inv ne (rw (p, s) at (h g))).1
    Held-single m pi si (some (rp, rs)) w x (e, down, le, lt, b) p s ne =
        (e, λ d. (single_inv ne (rw (p, s) at (down d))).1, omega arith, lt, b)

    -- At a single element that accepts: both indices move on.
    Inv-single :
        {f m pi si : ℕ} {saved : Option (ℕ × ℕ)} {w x : A}
        → Inv (suc f) m pi si saved
        → drop pi pattern ≡ w ∷ drop (pi + 1) pattern
        → drop si subject ≡ x ∷ drop (si + 1) subject
        → w ≢ run
        → matches_one w x ≡ true
        → pi < length pattern
        → Inv f m (pi + 1) (si + 1) saved
    Inv-single {m} {pi} {si} {saved} {w} {x} i p s ne ok inside = record {
      now = λ d. i.now (rw (p, s) (single ne ok d));
      later = λ g. after_single refl ne (rw (p, s) at (i.later g));
      held = Held-single m pi si saved w x i.held p s ne;
      pattern_in = omega arith;
      subject_in = omega arith;
      fuel = omega arith;
    }

    -- At a mismatch the saved run, which could not be left where it was, takes an element.
    Inv-resume :
        (f m pi si rp rs : ℕ) (y : A)
        → Inv (suc f) (suc m) pi si (some (rp, rs))
        → drop rs subject ≡ y ∷ drop (rs + 1) subject
        → si < length subject
        → ¬ Matches run matches_one (drop pi pattern) (drop si subject)
        → Inv f m (rp + 1) (rs + 1) (some (rp, rs + 1))
    Inv-resume f m pi si rp rs y i rest inside no_match =
        let (e, down, le, lt, b) = i.held in
        let after : (G
            → Matches run matches_one (run ∷ drop (rp + 1) pattern) (drop (rs + 1) subject)) =
          λ g. must_extend refl (rw rest at (e.0 g)) (λ d. no_match (down (rw rest d))) in
        let before : (Matches run matches_one (run ∷ drop (rp + 1) pattern) (drop (rs + 1) subject)
            → G) =
          λ d. e.1 (rw rest (extend refl d)) in
        record {
          now = λ d. before (leave refl d);
          later = after;
          held = ((after, before), λ d. d, omega arith, lt, omega arith);
          pattern_in = omega arith;
          subject_in = omega arith;
          fuel = omega arith;
        }

    resume_lem :
        {f pi si : ℕ} (m : ℕ) (saved : Option (ℕ × ℕ)) (next : Rounds)
        → ((m' pi' si' : ℕ) (saved' : Option (ℕ × ℕ))
            → Inv f m' pi' si' saved'
            → Answers G (next pi' si' saved'))
        → Inv (suc f) m pi si saved
        → si < length subject
        → ¬ Matches run matches_one (drop pi pattern) (drop si subject)
        → Answers G (resume next saved)
    unfolding resume
    resume_lem m none next ih i inside no_match =
        (false, refl, (λ h. cc, λ g. absurd (no_match (i.held g))))
    resume_lem zero (some (rp, rs)) next ih i inside no_match = absurd (omega arith)
    resume_lem {f} {pi} {si} (suc m) (some (rp, rs)) next ih i inside no_match =
        elim (get_elem?-cases rs subject) [
          | inl (_, _, past) ↦ absurd (omega arith)
          | inr (y, _, rest, _) ↦
              ih m (rp + 1) (rs + 1) (some (rp, rs + 1))
                (Inv-resume f m pi si rp rs y i rest inside no_match)
        ]

    -- One round, whatever the pattern has at its index.
    round_lem :
        {f : ℕ} (m pi si : ℕ) (saved : Option (ℕ × ℕ)) (next : Rounds)
        → ((m' pi' si' : ℕ) (saved' : Option (ℕ × ℕ))
            → Inv f m' pi' si' saved'
            → Answers G (next pi' si' saved'))
        → Inv (suc f) m pi si saved
        → Answers G (round run matches_one pattern subject next pi si saved)
    unfolding round is_run is_one
    round_lem {f} m pi si saved next ih i = elim (get_elem?-cases si subject) [
      | inl (over, nothing, _) ↦
          let (b, result, correct) = finish_lem pi i.pattern_in in
          (
            b,
            rw (over, round) result,
            (
              λ h. i.now (rw nothing (correct.0 h)),
              λ g. correct.1 (leave_empty refl (rw nothing at (i.later g))),
            ),
          )
      | inr (x, at, rest, inside) ↦ elim (get_elem?-cases pi pattern) [
        | inl (out, none_left, _) ↦
            rw (at, out, round)
              (resume_lem m saved next ih i inside (λ d. nothing_left (rw (none_left, rest) at d)))
        | inr (w, wanted, more, within) ↦ elim (Bool-cases (w == run)) [
          | inl same ↦
              rw (at, wanted, same, round)
                (ih m _ _ _ (Inv-skip i more ((eq_iff w run).0 same) within))
          | inr other ↦ elim (Bool-cases (matches_one w x)) [
            | inl ok ↦
                rw (at, wanted, other, ok, round)
                  (ih m _ _ _ (Inv-single i more rest (λ is. cc ((eq_iff w run).1 is)) ok within))
            | inr bad ↦
                rw (at, wanted, other, bad, round)
                  (resume_lem m saved next ih i inside (λ d.
                    cc (single_inv (λ is. cc ((eq_iff w run).1 is)) (rw (more, rest) at d)).0))
          ]
        ]
      ]
    ]

    rounds_lem :
        (f m pi si : ℕ) (saved : Option (ℕ × ℕ))
        → Inv f m pi si saved
        → Answers G (rounds run matches_one pattern subject f pi si saved)
    unfolding rounds
    rounds_lem zero m pi si saved i = absurd (omega arith)
    rounds_lem (suc f) m pi si saved i =
        round_lem m pi si saved (rounds run matches_one pattern subject f) (rounds_lem f) i

  run_sequence_lem :
      Answers
        (Matches run matches_one pattern subject)
        (run_sequence run matches_one pattern subject)
  unfolding run_sequence
  run_sequence_lem =
      rounds_lem (Matches run matches_one pattern subject) _ (length subject) 0 0 none (record {
        now = λ d. d;
        later = leave refl;
        held = λ d. d;
        pattern_in = omega arith;
        subject_in = omega arith;
        fuel = omega arith;
      })

-- The loops always end: the fuel, the product of the two lengths each counted with its end,
-- suffices for every pattern and subject.
pub run_sequence_ends :
    {A : Type 0} ⦃e : Eq A⦄ (run : A) (matches_one : A → A → Bool) (pattern subject : List A)
    → (b : Bool) × (run_sequence run matches_one pattern subject ≡ some b)
run_sequence_ends run matches_one pattern subject =
    let (b, ends, _) = run_sequence_lem run matches_one pattern subject in (b, ends)

-- `matchesSequence` answers true exactly on the sequences that match, though it resumes only the
-- latest run.
pub matches_sequence_iff :
    {A : Type 0} ⦃e : Eq A⦄ (run : A) (matches_one : A → A → Bool) (pattern subject : List A)
    → (matches_sequence run matches_one pattern subject ≡ true)
      ↔ Matches run matches_one pattern subject
unfolding matches_sequence
matches_sequence_iff run matches_one pattern subject =
    let (b, ends, right) = run_sequence_lem run matches_one pattern subject in rw ends right

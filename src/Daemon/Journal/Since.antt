-- ===== src/Daemon/Journal/Since.antt =====
-- What a cursor reads (packages/daemon/src/daemon/change-journal.ts).
use rt_test.Base.{
  ℕ, Bool-cases, inl, inr, true, false, not, ◌&&◌, Option, none, some, List, [], ◌∷◌, Text, Dict,
  lookup, insert, lookup-insert, insert-IsMap, IsMap, ltb, nat_eq, list_eq, ◌==◌, eq_iff, ◌<|>◌,
  is_some, ◌≡◌, refl, sym, ap, ◌∙◌, All, All-map, Exists, arith,
}
use mathlib.Core.Path.{subst}
use rt_test.Query.States.{TestStanding}
use rt_test.Daemon.Journal.{record_moment, at_cursor_from, net_changes}
use rt_test.Daemon.Moments.{
  NotDiscoveredEntry, RecordedStanding, RecordedChange, ChangeJournal, new_journal, NetChange,
  moment, same,
}
use rt_test.Daemon.Journal.Recorded.{first_before}
use rt_test.Daemon.Journal.Follows.{record_next-Follows}
use rt_test.Daemon.Journal.Shown.{History, extend, Follows}

-- A journal that recorded moments only, with what each key showed at each sequence.
pub data Recorded : ChangeJournal → History → Type 0 where
  started : (life : Text) → Recorded (new_journal life) (λ s k. none)
  recorded_moment :
      {j : ChangeJournal} {history : History}
      → Recorded j history
      → (standings : List TestStanding) (entries : List NotDiscoveredEntry)
      → Recorded
          (record_moment standings entries j).0
          (extend (record_moment standings entries j).0.sequence (moment standings entries) history)

new_journal-Follows : (life : Text) → Follows (λ s k. none) (new_journal life)
unfolding new_journal
new_journal-Follows life = record {
  numbered = tt;
  ordered = tt;
  kept = tt;
  reached = omega arith;
  before_first = λ _. refl;
  shows = λ s k one later last. absurd (omega arith);
}

pub Recorded-Follows :
    {j : ChangeJournal} {history : History} → Recorded j history → Follows history j
unfolding record_moment
Recorded-Follows (started life) = new_journal-Follows life
Recorded-Follows (recorded_moment {j} {history} r standings entries) =
    record_next-Follows history (moment standings entries) j (Recorded-Follows r)

pub or_none {ℓ} : {A : Type ℓ} (o : Option A) → (o <|> none) ≡ o
or_none none = refl
or_none (some z) = refl

pub lookup-at_cursor_from :
    (s : ℕ) (k : Text) (held : Dict Text (Option RecordedStanding)) (changes : List RecordedChange)
    → lookup k (at_cursor_from s held changes) ≡ (lookup k held <|> first_before s k changes)
unfolding at_cursor_from first_before
lookup-at_cursor_from s k held [] = sym (or_none (lookup k held))
lookup-at_cursor_from s k held (c ∷ changes) =
    let same_key = λ (e : c.key == k ≡ true). ap (λ x. lookup x held) ((eq_iff c.key k).0 e) in
    elim (Bool-cases (ltb s c.sequence && not (is_some (lookup c.key held)))) [
      | inl e ↦
          let is : at_cursor_from s held (c ∷ changes)
              ≡ at_cursor_from s (insert c.key c.before held) changes =
            rw e in
          ap (lookup k) is
          ∙ lookup-at_cursor_from s k (insert c.key c.before held) changes
          ∙ elim (Bool-cases (c.key == k)) [
            | inl f ↦ ground (arith, lookup-insert c.key k c.before held, same_key f)
            | inr f ↦ ground (arith, lookup-insert c.key k c.before held)
          ]
      | inr e ↦
          let is : at_cursor_from s held (c ∷ changes) ≡ at_cursor_from s held changes = rw e in
          ap (lookup k) is
          ∙ lookup-at_cursor_from s k held changes
          ∙ elim (Bool-cases (c.key == k)) [
            | inl f ↦ ground (arith, same_key f)
            | inr f ↦ ground arith
          ]
    ]

at_cursor_from-IsMap :
    (s : ℕ) (held : Dict Text (Option RecordedStanding)) (changes : List RecordedChange)
    → IsMap held
    → IsMap (at_cursor_from s held changes)
unfolding at_cursor_from
at_cursor_from-IsMap s held [] h = h
at_cursor_from-IsMap s held (c ∷ changes) h =
    elim (Bool-cases (ltb s c.sequence && not (is_some (lookup c.key held)))) [
      | inl e ↦
          let is : at_cursor_from s held (c ∷ changes)
              ≡ at_cursor_from s (insert c.key c.before held) changes =
            rw e in
          let fresh : lookup c.key held ≡ none = ground arith in
          subst IsMap (sym is) (
            at_cursor_from-IsMap s (insert c.key c.before held) changes
              (insert-IsMap c.key c.before held fresh h))
      | inr e ↦
          let is : at_cursor_from s held (c ∷ changes) ≡ at_cursor_from s held changes = rw e in
          subst IsMap (sym is) (at_cursor_from-IsMap s held changes h)
    ]

-- The first changes of the keys after a sequence.
abbrev pub IsFirst : ℕ → List RecordedChange → Text × Option RecordedStanding → Type 0
IsFirst s changes entry = first_before s entry.0 changes ≡ some entry.1

pub at_cursor_from-IsFirst :
    (s : ℕ) (changes : List RecordedChange) → All (IsFirst s changes) (at_cursor_from s [] changes)
unfolding lookup
at_cursor_from-IsFirst s changes =
    All-map _ _
      (λ (entry : Text × Option RecordedStanding) e.
        sym (lookup-at_cursor_from s entry.0 [] changes) ∙ e)
      (at_cursor_from s [] changes) (at_cursor_from-IsMap s [] changes tt)

-- What a net change of a list of first changes is.
abbrev pub IsNetOf : ℕ → ChangeJournal → NetChange → Type 0
IsNetOf s j c =
    (first_before s c.key j.changes ≡ some c.at_cursor)
    × (c.now ≡ lookup c.key j.latest)
    × (same c.at_cursor c.now ≡ false)

pub net_changes-IsNetOf :
    (s : ℕ) (j : ChangeJournal) (held : Dict Text (Option RecordedStanding))
    → All (IsFirst s j.changes) held
    → All (IsNetOf s j) (net_changes j.latest held)
unfolding net_changes
net_changes-IsNetOf s j [] h = tt
net_changes-IsNetOf s j ((key, before) ∷ held) (h, hs) =
    elim (Bool-cases (same before (lookup key j.latest))) [
      | inl e ↦
          let is : net_changes j.latest ((key, before) ∷ held) ≡ net_changes j.latest held = rw e in
          subst (All (IsNetOf s j)) (sym is) (net_changes-IsNetOf s j held hs)
      | inr e ↦
          let is : net_changes j.latest ((key, before) ∷ held)
              ≡ record { key = key; at_cursor = before; now = lookup key j.latest }
                ∷ net_changes j.latest held =
            rw e in
          subst (All (IsNetOf s j)) (sym is) ((h, refl, e), net_changes-IsNetOf s j held hs)
    ]

pub net_changes-Exists :
    (k : Text) (before : Option RecordedStanding) (latest : Dict Text RecordedStanding)
    (held : Dict Text (Option RecordedStanding))
    → lookup k held ≡ some before
    → same before (lookup k latest) ≡ false
    → Exists (λ (c : NetChange). c.key ≡ k) (net_changes latest held)
unfolding net_changes lookup
net_changes-Exists k before latest [] e d = absurd (ground arith)
net_changes-Exists k before latest ((key, b) ∷ held) e d = elim (Bool-cases (key == k)) [
  | inl f ↦
      let same_key : key ≡ k = (eq_iff key k).0 f in
      let found : b ≡ before = ground arith in
      let differs : same b (lookup key latest) ≡ false =
        ap (λ x. same x (lookup key latest)) found
        ∙ ap (λ x. same before (lookup x latest)) same_key
        ∙ d in
      let is : net_changes latest ((key, b) ∷ held)
          ≡ record { key = key; at_cursor = b; now = lookup key latest } ∷ net_changes latest held =
        rw differs in
      subst (Exists (λ (c : NetChange). c.key ≡ k)) (sym is) (inl same_key)
  | inr f ↦
      let later = net_changes-Exists k before latest held (ground arith) d in
      elim (Bool-cases (same b (lookup key latest))) [
        | inl e' ↦
            let is : net_changes latest ((key, b) ∷ held) ≡ net_changes latest held = rw e' in
            subst (Exists (λ (c : NetChange). c.key ≡ k)) (sym is) later
        | inr e' ↦
            let is : net_changes latest ((key, b) ∷ held)
                ≡ record { key = key; at_cursor = b; now = lookup key latest }
                  ∷ net_changes latest held =
              rw e' in
            subst (Exists (λ (c : NetChange). c.key ≡ k)) (sym is) (inr later)
      ]
]

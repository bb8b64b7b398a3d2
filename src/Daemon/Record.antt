-- ===== src/Daemon/Record.antt =====
-- `ChangeRecord` of packages/daemon/src/daemon/change-record.ts, with `JobWindow` of
-- inputs/input-jobs.ts and `changedPaths` of daemon/round-selection.ts. A report is known by its
-- number where the source knows it by its array.
pub mod Added
pub mod Steps
use rt_test.Base.{
  ℕ, ◌+◌, Bool, true, false, not, ◌&&◌, ◌||◌, Option, none, some, List, [], ◌∷◌, ◌++◌, Text, Dict,
  lookup, insert, delete, length, includes, filter, ltb, ◌==◌, Eq, ◌↔◌, ◌≡◌, ap, refl, nat_eq,
  list_eq, eq_iff, is_some, if◌then◌else◌, map, arith,
}
use rt_test.Query.States.{flat_map}
use rt_test.Daemon.Standings.{sort, text_le}
use rt_test.Daemon.Changes.{
  Job, same_job, add_text, ChangeSets, new_change_sets, edited_everywhere, add_job, add_edits,
  move_to_edits, max_counted_changes,
}

pub same_job_iff : (a b : Job) → (same_job a b ≡ true) ↔ (a ≡ b)
same_job_iff none none = (λ _. refl, λ _. refl)
same_job_iff none (some b) = (λ e. absurd (ground arith), λ e. absurd (ground arith))
same_job_iff (some a) none = (λ e. absurd (ground arith), λ e. absurd (ground arith))
same_job_iff (some a) (some b) = (λ e. ap some ((eq_iff a b).0 e), λ e. (eq_iff a b).1 (cc (e)))

instance abbrev pub job_eq : Eq Job
job_eq = record { beq = same_job; beq_iff = same_job_iff }

abbrev pub InputDigests : Type 0
InputDigests = Dict Text Text

pub record JobWindow : Type 0 where
  pub paths : List Text
  pub causes : List Text
  pub start_digests : Option InputDigests
  pub end_digests : Option InputDigests

-- `ChangeRecord`, with the number of the next report.
pub record ChangeRecord : Type 0 where
  pub subjects : Dict Job ChangeSets
  pub last : Option InputDigests
  pub running : Dict Job (List Text)
  pub unread : Dict ℕ (List Text)
  pub next_report : ℕ

abbrev pub with_subjects : Dict Job ChangeSets → ChangeRecord → ChangeRecord
with_subjects subjects r = record {
  subjects = subjects;
  last = r.last;
  running = r.running;
  unread = r.unread;
  next_report = r.next_report;
}

abbrev pub with_last : Option InputDigests → ChangeRecord → ChangeRecord
with_last last r = record {
  subjects = r.subjects;
  last = last;
  running = r.running;
  unread = r.unread;
  next_report = r.next_report;
}

abbrev pub with_running : Dict Job (List Text) → ChangeRecord → ChangeRecord
with_running running r = record {
  subjects = r.subjects;
  last = r.last;
  running = running;
  unread = r.unread;
  next_report = r.next_report;
}

-- A loop over the values of a map.
unfoldable pub map_values {ℓ κ} : {K : Type ℓ} {V : Type κ} → (V → V) → Dict K V → Dict K V
map_values f [] = []
map_values f ((k, v) ∷ m) = (k, f v) ∷ map_values f m

abbrev pub keys {ℓ κ} : {K : Type ℓ} {V : Type κ} → Dict K V → List K
keys [] = []
keys ((k, _) ∷ m) = k ∷ keys m

-- `new Set(xs)`, added to one that is held.
unfoldable pub add_texts : List Text → List Text → List Text
add_texts [] held = held
add_texts (x ∷ xs) held = add_texts xs (add_text x held)

-- `before.get(path) !== after.get(path)`.
abbrev pub same_digest : Option Text → Option Text → Bool
same_digest none none = true
same_digest none (some _) = false
same_digest (some _) none = false
same_digest (some a) (some b) = a == b

unfoldable pub changed_paths : InputDigests → InputDigests → List Text
unfolding add_texts lookup
changed_paths before after = sort text_le (
    filter (λ path. not (same_digest (lookup path before) (lookup path after)))
      (add_texts (keys before ++ keys after) []))

unfoldable pub all_everywhere : ChangeRecord → ChangeRecord
unfolding map_values edited_everywhere
all_everywhere r = with_subjects (map_values edited_everywhere r.subjects) r

unfoldable pub start_afresh : Job → ChangeRecord → ChangeRecord
unfolding insert new_change_sets
start_afresh subject r = with_subjects (insert subject new_change_sets r.subjects) r

-- `#interval`, from the latest digests.
unfoldable pub interval_between :
    Option InputDigests → Option InputDigests → ChangeRecord → ChangeRecord
unfolding changed_paths map_values
interval_between none to r = all_everywhere r
interval_between (some from) none r = all_everywhere r
interval_between (some from) (some to) r =
    let edits = changed_paths from to in
    if ltb max_counted_changes (length edits)
    then all_everywhere r
    else with_subjects (map_values (add_edits edits) r.subjects) r

unfoldable pub interval : Option InputDigests → ChangeRecord → ChangeRecord
unfolding interval_between
interval to r = interval_between r.last to r

abbrev report_of : ℕ × List Text → List Text
report_of entry = entry.1

unfoldable pub job_began : Job → ChangeRecord → ChangeRecord
unfolding insert add_texts flat_map
job_began subject r =
    with_running (insert subject (add_texts (flat_map report_of r.unread) []) r.running) r

unfoldable pub job_not_begun : Job → ChangeRecord → ChangeRecord
unfolding delete
job_not_begun subject r = with_running (delete subject r.running) r

unfoldable pub job_threw : Job → ChangeRecord → ChangeRecord
unfolding delete start_afresh
job_threw subject r = start_afresh subject (with_running (delete subject r.running) r)

unfoldable pub report_edits : List Text → ChangeRecord → ChangeRecord
unfolding map_values add_texts
report_edits edited r = record {
  subjects = map_values (move_to_edits edited) r.subjects;
  last = r.last;
  running = map_values (add_texts edited) r.running;
  unread = r.unread ++ (r.next_report, edited) ∷ [];
  next_report = r.next_report + 1;
}

-- `EditReport.read`.
unfoldable pub report_read : ℕ → ChangeRecord → ChangeRecord
unfolding delete
report_read report r = record {
  subjects = r.subjects;
  last = r.last;
  running = r.running;
  unread = delete report r.unread;
  next_report = r.next_report;
}

unfoldable pub observed : Option InputDigests → ChangeRecord → ChangeRecord
unfolding interval
observed digests r = with_last digests (interval digests r)

-- `reported?.has(path) === true`.
abbrev pub is_reported : Option (List Text) → Text → Bool
is_reported none path = false
is_reported (some reported) path = includes path reported

-- The part of `jobEnded` between `#startAfresh` and the last line.
unfoldable pub window_placed : JobWindow → Job → Option (List Text) → ChangeRecord → ChangeRecord
unfolding all_everywhere map_values
window_placed window job reported r =
    if ltb 0 (length window.causes) || ltb max_counted_changes (length window.paths)
    then all_everywhere r
    else (let edits = filter (is_reported reported) window.paths in
        let caused = filter (λ path. not (is_reported reported path)) window.paths in
        with_subjects (map_values (λ sets. add_edits edits (add_job caused job sets)) r.subjects) r)

unfoldable pub job_ended : JobWindow → Job → ChangeRecord → ChangeRecord
unfolding delete lookup interval start_afresh window_placed
job_ended window job r = with_last window.end_digests (
    window_placed window job (lookup job r.running)
      (start_afresh job (interval window.start_digests (with_running (delete job r.running) r))))

-- ===== src/Tracker/Exact.antt =====
-- What a native snapshot leaves pending, exactly.
use agentrun.Prelude.{
  ◌∙◌, ◌≤◌, ◌≡◌, refl, Str, Bool, true, false, Option, none, List, [], ◌∷◌, arith, if◌then◌else◌,
  is_empty, length, contains, str_eq_iff, lookup, returns, Returns, Returns-bind,
}
use agentrun.Message.{BackgroundTask}
use agentrun.Tracker.{
  BackgroundTracker, reset_state, enabled, add_new, add, remove_absent, add_task, add_tasks,
  latch_native, apply_snapshot, present_ids,
}
use agentrun.Tracker.Invariant.{IsValid, add_tasks-IsValid, latch_native-IsValid}
use agentrun.Tracker.Snapshot.{
  same_enabled, Pruned, pruned, first_enabled, or_else, Roomy, all_added,
}

-- The set that a snapshot leaves: a declared id that was pending keeps its kind, a declared id that
-- was not takes the kind of its first enabled entry, and nothing else is pending.
pub snapshot_set : BackgroundTracker → List BackgroundTask → Str → Option Str
snapshot_set t tasks j =
    if contains (present_ids tasks) j
    then or_else (if t.native then lookup j t.pending else none) (first_enabled (enabled t) tasks j)
    else none

present_ids-named :
    (tasks : List BackgroundTask) (j : Str)
    → is_empty j ≡ true
    → contains (present_ids tasks) j ≡ false
unfolding present_ids contains
present_ids-named [] j h = refl
present_ids-named (task ∷ tasks) j h =
    ground (arith, present_ids-named tasks j h, str_eq_iff task.id j)

absent-first_enabled :
    (on : Str → Bool) (tasks : List BackgroundTask) (j : Str)
    → is_empty j ≡ false
    → contains (present_ids tasks) j ≡ false
    → first_enabled on tasks j ≡ none
unfolding present_ids contains first_enabled
absent-first_enabled on [] j n h = refl
absent-first_enabled on (task ∷ tasks) j n h =
    ground (arith, absent-first_enabled on tasks j n, str_eq_iff task.id j)

length-present_ids : (tasks : List BackgroundTask) → length (present_ids tasks) ≤ length tasks
unfolding present_ids
length-present_ids [] = omega arith
length-present_ids (task ∷ tasks) = ground (arith, length-present_ids tasks)

native-add_tasks :
    (t : BackgroundTracker) (tasks : List BackgroundTask) → (add_tasks t tasks).native ≡ t.native
unfolding add_tasks add_task add add_new
native-add_tasks t [] = refl
native-add_tasks t (task ∷ tasks) = ground (arith, native-add_tasks (add_task t task) tasks)

-- The latch keeps the options, and the pending set only where native mode was on.
latched :
    (t : BackgroundTracker)
    → ((latch_native t).native ≡ true)
      × ((k : Str) → enabled (latch_native t) k ≡ enabled t k)
      × ((j : Str)
          → lookup j (latch_native t).pending ≡ (if t.native then lookup j t.pending else none))
unfolding latch_native reset_state enabled lookup
latched t = (ground arith, λ k. ground arith, λ j. ground arith)

module _ (t : BackgroundTracker) (tasks : List BackgroundTask) (small : length tasks ≤ 128) where
  roomy :
      (t' : BackgroundTracker)
      → Pruned (present_ids tasks) (latch_native t).pending (latch_native t) t'
      → Roomy (present_ids tasks) (enabled t) (omega (arith, length-present_ids tasks)) t' tasks
  roomy t' p = record {
    valid = p.valid;
    enables = λ k. same_enabled (latch_native t) t' p.config k ∙ (latched t).1 k;
    listed = λ id k found. ground (arith, p.left id);
    coming = λ id h. h;
  }

  replaced :
      (t' : BackgroundTracker)
      → Pruned (present_ids tasks) (latch_native t).pending (latch_native t) t'
      → (j : Str) → lookup j (add_tasks t' tasks).pending ≡ snapshot_set t tasks j
  unfolding snapshot_set
  replaced t' p [] = rw (present_ids-named tasks [] refl) (add_tasks-IsValid t' tasks p.valid).named
  replaced t' p (b ∷ id) = ground (
    arith,
    all_added (present_ids tasks) (enabled t) _ t' tasks (roomy t' p) (b ∷ id) refl,
    p.left (b ∷ id),
    (latched t).2 (b ∷ id),
    absent-first_enabled (enabled t) tasks (b ∷ id) refl,
  )

-- A snapshot of at most 128 tasks replaces the pending set of a valid tracker by exactly what it
-- declares, without a panic: a declared id keeps the kind it was stored with if the tracker was in
-- native mode, otherwise takes the kind of its first enabled entry, and no other id is pending.
pub apply_snapshot-exact :
    (t : BackgroundTracker) (tasks : List BackgroundTask)
    → IsValid t
    → length tasks ≤ 128
    → Returns
        (λ t'. (t'.native ≡ true) × ((j : Str) → lookup j t'.pending ≡ snapshot_set t tasks j))
        (apply_snapshot t tasks)
unfolding apply_snapshot snapshot_set
apply_snapshot-exact t tasks v small =
    Returns-bind (Pruned (present_ids tasks) (latch_native t).pending (latch_native t))
      (λ t'. (t'.native ≡ true) × ((j : Str) → lookup j t'.pending ≡ snapshot_set t tasks j))
      (remove_absent (present_ids tasks) (latch_native t).pending (latch_native t))
      (λ t'. returns (add_tasks t' tasks))
      (pruned (present_ids tasks) (latch_native t).pending (latch_native t)
        (latch_native-IsValid t v))
      λ t' p.
        (native-add_tasks t' tasks ∙ p.config.native ∙ (latched t).0, replaced t tasks small t' p)

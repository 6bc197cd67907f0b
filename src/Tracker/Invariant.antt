-- ===== src/Tracker/Invariant.antt =====
-- The books of the tracker, an invariant that every operation keeps: each kind's counters differ by
-- the number of ids pending under it, no kind passes its cap, and only enabled kinds are tracked.
use agentrun.Prelude.{
  has, not, ◌||◌, suc, ◌+◌, ◌≤◌, ◌≡◌, refl, Str, true, false, none, some, List, [], ◌∷◌, arith,
  is_empty, contains, Option-cases, Bool-cases, inl, inr, str_eq, str_eq_iff, str_eq_refl, Assoc,
  lookup, put, delete, lookup-delete, lookup-put, returns, Returns, Returns-bind,
}
use agentrun.Message.{BackgroundTask, subagent, shell}
use agentrun.Tracker.{
  BackgroundTracker, KindCounts, reset_state, enabled, counts_of, add_new, add, remove,
  remove_absent, add_task, add_tasks, latch_native, apply_snapshot, present_ids,
}
use agentrun.Tracker.Books.{
  IsMap, count_kind, count_kind-put, count_kind-delete, IsMap-delete, IsMap-put,
}

pub record IsValid (t : BackgroundTracker) : Type 0 where
  pub distinct : IsMap t.pending
  pub named : lookup [] t.pending ≡ none
  pub books :
      (k : Str) → (counts_of t k).started ≡ (counts_of t k).finished + count_kind k t.pending
  pub capped : (k : Str) → count_kind k t.pending ≤ 128
  pub enabled_only : (id k : Str) → lookup id t.pending ≡ some k → enabled t k ≡ true
  pub counted : IsMap t.counts
  pub untracked : (k : Str) → enabled t k ≡ false → lookup k t.counts ≡ none
  pub seeded_subagent : (is_empty t.names || has (lookup subagent t.counts)) ≡ true
  pub seeded_shell : (not t.track_shell || has (lookup shell t.counts)) ≡ true

pub reset_state-IsValid : (t : BackgroundTracker) → IsValid (reset_state t)
unfolding reset_state counts_of count_kind lookup put delete enabled str_eq
reset_state-IsValid t = record {
  distinct = tt;
  named = refl;
  books = λ k. ground arith;
  capped = λ k. ground arith;
  enabled_only = λ id k h. cc;
  counted = ground arith;
  untracked =
      λ k off. ground (arith, str_eq_iff subagent k, str_eq_iff k subagent, str_eq_iff shell k);
  seeded_subagent = ground arith;
  seeded_shell = ground arith;
}

abbrev bumped : BackgroundTracker → Str → KindCounts
bumped t kind = record (counts_of t kind) { started = suc (counts_of t kind).started }

add_new-IsValid :
    (t : BackgroundTracker) (id kind : Str)
    → IsValid t
    → is_empty id ≡ false
    → lookup id t.pending ≡ none
    → enabled t kind ≡ true
    → IsValid (add_new t id kind (counts_of t kind))
unfolding add_new counts_of enabled
add_new-IsValid t id kind v ne new on = record {
  distinct = ground (arith, v.distinct, IsMap-put id kind t.pending);
  named = ground (arith, v.named, lookup-put id [] kind t.pending, str_eq_iff id []);
  books = λ k. ground (
    arith,
    v.books k,
    v.books kind,
    str_eq_iff kind k,
    count_kind-put k id kind t.pending new,
    lookup-put kind k (bumped t kind) t.counts,
  );
  capped = λ k.
      ground
        (arith, v.books k, v.capped k, str_eq_iff kind k, count_kind-put k id kind t.pending new);
  enabled_only = λ j k h. ground (arith, v.enabled_only j k, lookup-put id j kind t.pending);
  counted = ground (arith, v.counted, IsMap-put kind (bumped t kind) t.counts);
  untracked = λ k off.
      ground (arith, v.untracked k, str_eq_iff kind k, lookup-put kind k (bumped t kind) t.counts);
  seeded_subagent =
      ground (arith, v.seeded_subagent, lookup-put kind subagent (bumped t kind) t.counts);
  seeded_shell = ground (arith, v.seeded_shell, lookup-put kind shell (bumped t kind) t.counts);
}

pub add-IsValid :
    (t : BackgroundTracker) (id kind : Str)
    → IsValid t
    → enabled t kind ≡ true
    → IsValid (add t id kind)
unfolding add
add-IsValid t [] kind v on = v
add-IsValid t (b ∷ id) kind v on = elim (Option-cases (lookup (b ∷ id) t.pending)) [
  | inl new ↦ rw new (add_new-IsValid t (b ∷ id) kind v refl new on)
  | inr (stored, old) ↦ rw old v
]

-- The kind of a pending id has an entry in the counters, so `remove` does not dereference nil.
pub charged :
    (t : BackgroundTracker) (id kind : Str)
    → IsValid t
    → lookup id t.pending ≡ some kind
    → (kc : KindCounts) × (lookup kind t.counts ≡ some kc)
unfolding counts_of
charged t id kind v h = elim (Option-cases (lookup kind t.counts)) [
  | inl none_there ↦ absurd (
      ground (
        arith,
        v.books kind,
        count_kind-delete kind id kind t.pending v.distinct h,
        str_eq_refl kind,
      ))
  | inr found ↦ found
]

removed-IsValid :
    (t : BackgroundTracker) (id kind : Str) (kc : KindCounts)
    → IsValid t
    → lookup id t.pending ≡ some kind
    → lookup kind t.counts ≡ some kc
    → IsValid (record t {
      pending = delete id t.pending;
      counts = put kind (record kc { finished = suc kc.finished }) t.counts;
    })
unfolding counts_of enabled
removed-IsValid t id kind kc v h c = record {
  distinct = IsMap-delete id t.pending v.distinct;
  named = ground (arith, v.named, lookup-delete id [] t.pending);
  books = λ k. ground (
    arith,
    v.books k,
    v.books kind,
    str_eq_iff kind k,
    count_kind-delete k id kind t.pending v.distinct h,
    lookup-put kind k (record kc { finished = suc kc.finished }) t.counts,
  );
  capped = λ k. ground (arith, v.capped k, count_kind-delete k id kind t.pending v.distinct h);
  enabled_only = λ j k p. ground (arith, v.enabled_only j k, lookup-delete id j t.pending);
  counted = IsMap-put kind (record kc { finished = suc kc.finished }) t.counts v.counted;
  untracked = λ k off. ground (
    arith,
    v.untracked k,
    str_eq_iff kind k,
    lookup-put kind k (record kc { finished = suc kc.finished }) t.counts,
  );
  seeded_subagent = ground (
    arith,
    v.seeded_subagent,
    lookup-put kind subagent (record kc { finished = suc kc.finished }) t.counts,
  );
  seeded_shell = ground (
    arith,
    v.seeded_shell,
    lookup-put kind shell (record kc { finished = suc kc.finished }) t.counts,
  );
}

pub remove-IsValid : (t : BackgroundTracker) (id : Str) → IsValid t → Returns IsValid (remove t id)
unfolding remove
remove-IsValid t [] v = v
remove-IsValid t (b ∷ id) v = elim (Option-cases (lookup (b ∷ id) t.pending)) [
  | inl missing ↦ rw missing v
  | inr (kind, found) ↦
      let (kc, entry) = charged t (b ∷ id) kind v found in
      rw (found, entry) (removed-IsValid t (b ∷ id) kind kc v found entry)
]

pub remove_absent-IsValid :
    (present : List Str) (ids : Assoc Str) (t : BackgroundTracker)
    → IsValid t
    → Returns IsValid (remove_absent present ids t)
unfolding remove_absent
remove_absent-IsValid present [] t v = v
remove_absent-IsValid present ((id, kind) ∷ rest) t v = elim (Bool-cases (contains present id)) [
  | inl kept ↦ rw kept (remove_absent-IsValid present rest t v)
  | inr gone ↦ rw gone (
      Returns-bind IsValid IsValid (remove t id) (remove_absent present rest)
        (remove-IsValid t id v) (remove_absent-IsValid present rest))
]

pub add_task-IsValid :
    (t : BackgroundTracker) (task : BackgroundTask) → IsValid t → IsValid (add_task t task)
unfolding add_task
add_task-IsValid t task v = ground (arith, v, add-IsValid t task.id task.kind v)

pub add_tasks-IsValid :
    (t : BackgroundTracker) (tasks : List BackgroundTask) → IsValid t → IsValid (add_tasks t tasks)
unfolding add_tasks
add_tasks-IsValid t [] v = v
add_tasks-IsValid t (task ∷ tasks) v =
    add_tasks-IsValid (add_task t task) tasks (add_task-IsValid t task v)

pub latch_native-IsValid : (t : BackgroundTracker) → IsValid t → IsValid (latch_native t)
unfolding latch_native
latch_native-IsValid t v = elim (Bool-cases t.native) [
  | inl on ↦ simp on v
  | inr off ↦ simp off (reset_state-IsValid (record t { native = true }))
]

pub apply_snapshot-IsValid :
    (t : BackgroundTracker) (tasks : List BackgroundTask)
    → IsValid t
    → Returns IsValid (apply_snapshot t tasks)
unfolding apply_snapshot
apply_snapshot-IsValid t tasks v =
    let latched = latch_native t in
    Returns-bind IsValid IsValid (remove_absent (present_ids tasks) latched.pending latched)
      (λ t'. returns (add_tasks t' tasks))
      (remove_absent-IsValid (present_ids tasks) latched.pending latched (latch_native-IsValid t v))
      (λ t' v'. add_tasks-IsValid t' tasks v')

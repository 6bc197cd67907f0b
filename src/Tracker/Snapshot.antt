-- ===== src/Tracker/Snapshot.antt =====
-- What the two loops of a native snapshot do to the pending set.
use agentrun.Prelude.{
  ◌∙◌, ◌-◌, ◌≤◌, ◌≡◌, refl, Str, Bool, true, false, ◌&&◌, Option, none, some, List, [], ◌∷◌, arith,
  if◌then◌else◌, is_empty, length, contains, Option-cases, Bool-cases, inl, inr, str_eq, str_eq_iff,
  Assoc, lookup, lookup-delete, lookup-put, Returns, Returns-bind, Returns-mono,
}
use agentrun.Message.{BackgroundTask}
use agentrun.Tracker.{
  BackgroundTracker, enabled, counts_of, add_new, add, remove, remove_absent, add_task, add_tasks,
  present_ids,
}
use agentrun.Tracker.Books.{count_kind-le-length, length-le_of_keys}
use agentrun.Tracker.Invariant.{IsValid, charged, remove-IsValid, add_task-IsValid}

-- The options, and the latch, are the same.
pub record SameConfig (t t' : BackgroundTracker) : Type 0 where
  pub names : t'.names ≡ t.names
  pub track_shell : t'.track_shell ≡ t.track_shell
  pub native : t'.native ≡ t.native

pub same_enabled :
    (t t' : BackgroundTracker) → SameConfig t t' → (k : Str) → enabled t' k ≡ enabled t k
unfolding enabled
same_enabled t t' c k = ground (arith, c)

-- What is left of a map without the keys that `ids` lists and the snapshot does not declare.
pub record Pruned (present : List Str) (ids : Assoc Str) (t t' : BackgroundTracker) : Type 0 where
  pub config : SameConfig t t'
  pub valid : IsValid t'
  pub left :
      (j : Str)
      → lookup j t'.pending ≡ (
          if contains present j
          then lookup j t.pending
          else elim (lookup j ids) [ none ↦ lookup j t.pending | some k ↦ none ])

record Removed (id : Str) (t t' : BackgroundTracker) : Type 0 where
  config : SameConfig t t'
  valid : IsValid t'
  left : (j : Str) → lookup j t'.pending ≡ (if str_eq id j then none else lookup j t.pending)

removed : (t : BackgroundTracker) (id : Str) → IsValid t → Returns (Removed id t) (remove t id)
unfolding remove
removed t [] v = record {
  config = record { names = refl; track_shell = refl; native = refl };
  valid = v;
  left = λ j. ground (arith, v.named, str_eq_iff [] j);
}
removed t (b ∷ id) v = elim (Option-cases (lookup (b ∷ id) t.pending)) [
  | inl missing ↦ rw missing (record {
    config = record { names = refl; track_shell = refl; native = refl };
    valid = v;
    left = λ j. ground (arith, str_eq_iff (b ∷ id) j);
  })
  | inr (kind, found) ↦
      let (kc, entry) = charged t (b ∷ id) kind v found in
      let still = remove-IsValid t (b ∷ id) v in
      rw (found, entry)
        (record {
          config = record { names = refl; track_shell = refl; native = refl };
          valid = rw (remove, found, entry) at still;
          left = λ j. lookup-delete (b ∷ id) j t.pending;
        })
]

pub pruned :
    (present : List Str) (ids : Assoc Str) (t : BackgroundTracker)
    → IsValid t
    → Returns (Pruned present ids t) (remove_absent present ids t)
unfolding remove_absent lookup
pruned present [] t v = record {
  config = record { names = refl; track_shell = refl; native = refl };
  valid = v;
  left = λ j. ground arith;
}
pruned present ((id, kind) ∷ rest) t v = elim (Bool-cases (contains present id)) [
  | inl kept ↦ rw kept (
      Returns-mono (Pruned present rest t) (Pruned present ((id, kind) ∷ rest) t)
        (remove_absent present rest t) (pruned present rest t v)
        λ t' p. record {
          config = p.config;
          valid = p.valid;
          left = λ j. ground (arith, p.left j, str_eq_iff id j);
        })
  | inr gone ↦ rw gone (
      Returns-bind (Removed id t) (Pruned present ((id, kind) ∷ rest) t) (remove t id)
        (remove_absent present rest) (removed t id v)
        λ t₁ r.
          Returns-mono (Pruned present rest t₁) (Pruned present ((id, kind) ∷ rest) t)
            (remove_absent present rest t₁) (pruned present rest t₁ r.valid)
            λ t' p. record {
              config = ground (arith, p.config, r.config);
              valid = p.valid;
              left = λ j. ground (arith, p.left j, r.left j, str_eq_iff id j);
            })
]

-- The kind of the first task with the id whose kind is enabled.
unfoldable pub first_enabled : (Str → Bool) → List BackgroundTask → Str → Option Str
first_enabled on [] j = none
first_enabled on (task ∷ tasks) j =
    let later = first_enabled on tasks j in
    if str_eq task.id j && on task.kind then some task.kind else later

abbrev pub or_else {ℓ} : {A : Type ℓ} → Option A → Option A → Option A
or_else none o = o
or_else (some a) o = some a

enabled-add_task :
    (t : BackgroundTracker) (task : BackgroundTask) (k : Str)
    → enabled (add_task t task) k ≡ enabled t k
unfolding add_task add add_new enabled
enabled-add_task t task k = ground arith

module _ (all : List Str) (on : Str → Bool) (small : length all ≤ 128) where
  -- The pending ids and those still to come stand in `all`, which leaves room below every cap.
  pub record Roomy (t : BackgroundTracker) (tasks : List BackgroundTask) : Type 0 where
    pub valid : IsValid t
    pub enables : (k : Str) → enabled t k ≡ on k
    pub listed : (id k : Str) → lookup id t.pending ≡ some k → contains all id ≡ true
    pub coming : (id : Str) → contains (present_ids tasks) id ≡ true → contains all id ≡ true

  -- An id that is not pending finds room.
  room :
      (t : BackgroundTracker) (task : BackgroundTask) (tasks : List BackgroundTask)
      → Roomy t (task ∷ tasks)
      → is_empty task.id ≡ false
      → lookup task.id t.pending ≡ none
      → (counts_of t task.kind).started - (counts_of t task.kind).finished ≤ 127
  unfolding present_ids contains lookup
  room t task tasks r ne new =
      let more : length ((task.id, task.kind) ∷ t.pending) ≤ length all =
        length-le_of_keys all ((task.id, task.kind) ∷ t.pending) (new, r.valid.distinct)
          (λ id k found. ground (arith, r.listed id k, r.coming id, str_eq_iff task.id id)) in
      omega (arith, r.valid.books task.kind, count_kind-le-length task.kind t.pending, more)

  -- One task of the loop: it is added exactly if it is new and its kind is enabled.
  added :
      (t : BackgroundTracker) (task : BackgroundTask) (tasks : List BackgroundTask)
      → Roomy t (task ∷ tasks)
      → (j : Str) → is_empty j ≡ false
      → lookup j (add_task t task).pending
        ≡ or_else
            (lookup j t.pending)
            (if str_eq task.id j && on task.kind then some task.kind else none)
  unfolding add_task add add_new
  added t task tasks r j nj = ground (
    arith,
    r.enables task.kind,
    room t task tasks r,
    str_eq_iff task.id j,
    lookup-put task.id j task.kind t.pending,
  )

  step :
      (t : BackgroundTracker) (task : BackgroundTask) (tasks : List BackgroundTask)
      → Roomy t (task ∷ tasks)
      → Roomy (add_task t task) tasks
  unfolding present_ids contains
  step t task tasks r = record {
    valid = add_task-IsValid t task r.valid;
    enables = λ k. enabled-add_task t task k ∙ r.enables k;
    listed = λ id k found. elim (Bool-cases (is_empty id)) [
      | inl unnamed ↦ absurd (ground (arith, add_task-IsValid t task r.valid, str_eq_iff id []))
      | inr named ↦
          ground (
            arith,
            added t task tasks r id named,
            r.listed id k,
            r.coming id,
            str_eq_iff task.id id,
          )
    ];
    coming = λ id h. ground (arith, r.coming id);
  }

  -- The whole loop, with room enough.
  pub all_added :
      (t : BackgroundTracker) (tasks : List BackgroundTask)
      → Roomy t tasks
      → (j : Str) → is_empty j ≡ false
      → lookup j (add_tasks t tasks).pending
        ≡ or_else (lookup j t.pending) (first_enabled on tasks j)
  unfolding add_tasks first_enabled
  all_added t [] r j nj = ground arith
  all_added t (task ∷ tasks) r j nj = ground (
    arith,
    all_added (add_task t task) tasks (step t task tasks r) j nj,
    added t task tasks r j nj,
  )

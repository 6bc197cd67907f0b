-- ===== src/Tracker/Stats.antt =====
-- What a stamped BackgroundStats says: the counters of each tracked kind, in the order of the kinds.
use agentrun.Prelude.{
  ap, ◌≡◌, refl, ◌∙◌, Str, true, not, Option, none, some, List, [], ◌∷◌, arith, if◌then◌else◌,
  is_empty, length, length-take, has, min, map, pos, Bool-cases, str_eq, str_eq_iff, str_lt,
  str_lt_total, Assoc, lookup, keep, take,
}
use agentrun.Message.{TaskCounts, subagent, shell, stats_kind, find_kind, pending_count}
use agentrun.Tracker.{
  BackgroundTracker, KindCounts, counts_of, enabled, ids_of, pending_ids, task_counts,
  insert_sorted, sort_by_kind, stats,
}
use agentrun.Tracker.Books.{IsMap, count_kind}
use agentrun.Tracker.Invariant.{IsValid}

-- Strictly increasing kinds.
abbrev pub IsSortedFrom : Str → List TaskCounts → Type 0
IsSortedFrom k [] = Unit
IsSortedFrom k (tc ∷ rest) = (str_lt k tc.kind ≡ true) × IsSortedFrom tc.kind rest

abbrev pub IsSorted : List TaskCounts → Type 0
IsSorted [] = Unit
IsSorted (tc ∷ rest) = IsSortedFrom tc.kind rest

-- An insertion of a new kind, by any kind's lookup.
find_kind-insert_sorted :
    (tc : TaskCounts) (l : List TaskCounts) (k : Str)
    → find_kind l tc.kind ≡ none
    → find_kind (insert_sorted tc l) k ≡ (if str_eq tc.kind k then some tc else find_kind l k)
unfolding find_kind insert_sorted
find_kind-insert_sorted tc [] k new = refl
find_kind-insert_sorted tc (d ∷ ds) k new =
    ground (arith, find_kind-insert_sorted tc ds k, str_eq_iff d.kind tc.kind, str_eq_iff tc.kind k)

insert_sorted-IsSortedFrom :
    (b : Str) (tc : TaskCounts) (l : List TaskCounts)
    → str_lt b tc.kind ≡ true
    → find_kind l tc.kind ≡ none
    → IsSortedFrom b l
    → IsSortedFrom b (insert_sorted tc l)
unfolding find_kind insert_sorted
insert_sorted-IsSortedFrom b tc [] lt new s = (lt, tt)
insert_sorted-IsSortedFrom b tc (d ∷ ds) lt new s = ground (
  arith,
  insert_sorted-IsSortedFrom d.kind tc ds,
  str_lt_total tc.kind d.kind,
  str_eq_iff tc.kind d.kind,
  str_eq_iff d.kind tc.kind,
)

insert_sorted-IsSorted :
    (tc : TaskCounts) (l : List TaskCounts)
    → find_kind l tc.kind ≡ none
    → IsSorted l
    → IsSorted (insert_sorted tc l)
unfolding find_kind insert_sorted
insert_sorted-IsSorted tc [] new s = tt
insert_sorted-IsSorted tc (d ∷ ds) new s = ground (
  arith,
  insert_sorted-IsSortedFrom d.kind tc ds,
  str_lt_total tc.kind d.kind,
  str_eq_iff tc.kind d.kind,
  str_eq_iff d.kind tc.kind,
)

abbrev entry : BackgroundTracker → Str → Option KindCounts → Option TaskCounts
entry t k none = none
entry t k (some kc) = some (task_counts t (k, kc))

module _ (t : BackgroundTracker) where
  find_kind-sort_by_kind :
      (m : List (Str × KindCounts)) (k : Str)
      → IsMap m
      → find_kind (sort_by_kind (map (task_counts t) m)) k ≡ entry t k (lookup k m)
  unfolding sort_by_kind find_kind lookup task_counts
  find_kind-sort_by_kind [] k d = refl
  find_kind-sort_by_kind ((j, kc) ∷ m) k d = ground (
    arith,
    find_kind-sort_by_kind m k,
    find_kind-sort_by_kind m j,
    str_eq_iff j k,
    find_kind-insert_sorted (task_counts t (j, kc)) (sort_by_kind (map (task_counts t) m)) k,
  )

  sort_by_kind-IsSorted :
      (m : List (Str × KindCounts)) → IsMap m → IsSorted (sort_by_kind (map (task_counts t) m))
  unfolding sort_by_kind task_counts
  sort_by_kind-IsSorted [] d = tt
  sort_by_kind-IsSorted ((j, kc) ∷ m) d =
      insert_sorted-IsSorted (task_counts t (j, kc)) (sort_by_kind (map (task_counts t) m))
        (find_kind-sort_by_kind m j d.1 ∙ ap (entry t j) d.0) (sort_by_kind-IsSorted m d.1)

-- The pending ids of one kind, in the order of the tracker.
abbrev pub ids_under : Str → Assoc Str → List Str
ids_under k pending = map (λ e. e.0) (keep (λ e. str_eq e.1 k) pending)

ids_of-ids_under : (k : Str) (m : Assoc Str) → ids_of k m ≡ ids_under k m
unfolding ids_of
ids_of-ids_under k [] = refl
ids_of-ids_under k ((id, kind) ∷ m) = ground (arith, ids_of-ids_under k m)

length-ids_of : (k : Str) (m : Assoc Str) → length (ids_of k m) ≡ count_kind k m
unfolding ids_of count_kind
length-ids_of k [] = refl
length-ids_of k ((id, kind) ∷ m) = ground (arith, length-ids_of k m)

-- The stamped entries of a valid tracker stand in strictly increasing order of kind, so that the
-- order in which Go visits its map does not show.
pub stats-IsSorted : (t : BackgroundTracker) → IsValid t → IsSorted (stats t).kinds
unfolding stats
stats-IsSorted t v = sort_by_kind-IsSorted t t.counts v.counted

stats_kind-stats :
    (t : BackgroundTracker) (k : Str)
    → IsValid t
    → stats_kind (some (stats t)) k ≡ entry t k (lookup k t.counts)
unfolding stats stats_kind
stats_kind-stats t k v = find_kind-sort_by_kind t t.counts k v.counted

-- An entry that a valid tracker stamps for a kind has as its Pending the number of ids pending under
-- that kind, lists as many of them as the stamp's cap of 32 allows, in their order and no other, and is
-- of an enabled kind.
pub stats-agree :
    (t : BackgroundTracker) (k : Str) (tc : TaskCounts)
    → IsValid t
    → stats_kind (some (stats t)) k ≡ some tc
    → (pending_count tc ≡ pos (count_kind k t.pending))
      × (length tc.pending_ids ≡ min 32 (count_kind k t.pending))
      × (tc.pending_ids ≡ take 32 (ids_under k t.pending))
      × (enabled t k ≡ true)
unfolding task_counts pending_count pending_ids counts_of
stats-agree t k tc v h =
    let said = stats_kind-stats t k v in
    (
      ground (arith, said, v.books k),
      ground (arith, said, length-take 32 (ids_of k t.pending), length-ids_of k t.pending),
      ground (arith, said, ids_of-ids_under k t.pending),
      ground (arith, said, v.untracked k, Bool-cases (enabled t k)),
    )

-- Absence means untracked: a valid tracker stamps an entry for subagents exactly if it was given
-- subagent tools, one for shells exactly if it tracks shells, and none for a kind that is not
-- enabled.
pub stats-tracked :
    (t : BackgroundTracker) (k : Str)
    → IsValid t
    → (has (stats_kind (some (stats t)) subagent) ≡ not (is_empty t.names))
      × (has (stats_kind (some (stats t)) shell) ≡ t.track_shell)
      × (stats_kind (some (stats t)) k
          ≡ (if enabled t k then stats_kind (some (stats t)) k else none))
unfolding enabled str_eq
stats-tracked t k v = (
  ground (arith, stats_kind-stats t subagent v, v.seeded_subagent, v.untracked subagent),
  ground (arith, stats_kind-stats t shell v, v.seeded_shell, v.untracked shell),
  ground (arith, stats_kind-stats t k v, v.untracked k),
)

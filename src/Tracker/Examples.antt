-- ===== src/Tracker/Examples.antt =====
-- The tracker's theorems at concrete inputs, and runs of it on a few messages.
use agentrun.Prelude.{
  str_eq, str_lt, ◌≡◌, refl, bytes, Str, true, List, [], ◌∷◌, arith, pos, min, length, lookup, put,
  delete, Returns, take,
}
use agentrun.Message.{
  Message, message, background_tasks, BackgroundTask, TaskCounts, subagent, shell, stats_kind,
  pending_count,
}
use agentrun.Tracker.{
  BackgroundTracker, unset, reset_state, new_background_tracker, add, apply_snapshot, observe,
  enabled, stats,
}
use agentrun.Tracker.Books.{count_kind}
use agentrun.Tracker.Invariant.{IsValid, reset_state-IsValid, add-IsValid}
use agentrun.Tracker.Observe.{observe-IsValid, new_background_tracker-IsValid}
use agentrun.Tracker.Exact.{snapshot_set, apply_snapshot-exact}
use agentrun.Tracker.Stats.{stats-agree, ids_under}

abbrev tools : List Str
tools = bytes "Task" ∷ []

abbrev fresh : BackgroundTracker
fresh = reset_state (unset tools true)

abbrev task : Str → Str → BackgroundTask
task id kind = record { id = id; kind = kind; description = [] }

abbrev two_tasks : List BackgroundTask
two_tasks = task (bytes "a") subagent ∷ task (bytes "b") shell ∷ []

abbrev snapshot : Message
snapshot = record (message background_tasks) { tasks = two_tasks }

abbrev one_pending : BackgroundTracker
one_pending = add fresh (bytes "a") subagent

one_pending-IsValid : IsValid one_pending
unfolding enabled str_eq reset_state
one_pending-IsValid =
    add-IsValid fresh (bytes "a") subagent (reset_state-IsValid (unset tools true)) refl

observe-IsValid_example : Returns IsValid (observe one_pending snapshot)
observe-IsValid_example = observe-IsValid one_pending snapshot one_pending-IsValid

new_background_tracker-IsValid_example : IsValid fresh
unfolding new_background_tracker
new_background_tracker-IsValid_example = new_background_tracker-IsValid tools true fresh refl

apply_snapshot-exact_example :
    Returns
      (λ t'.
        (t'.native ≡ true)
        × ((j : Str) → lookup j t'.pending ≡ snapshot_set one_pending two_tasks j))
      (apply_snapshot one_pending two_tasks)
apply_snapshot-exact_example =
    apply_snapshot-exact one_pending two_tasks one_pending-IsValid (omega arith)

abbrev a_counts : TaskCounts
a_counts = record { kind = subagent; started = 1; finished = 0; pending_ids = bytes "a" ∷ [] }

stats-agree_example :
    (pending_count a_counts ≡ pos (count_kind subagent one_pending.pending))
    × (length a_counts.pending_ids ≡ min 32 (count_kind subagent one_pending.pending))
    × (a_counts.pending_ids ≡ take 32 (ids_under subagent one_pending.pending))
    × (enabled one_pending subagent ≡ true)
unfolding stats stats_kind add reset_state put delete lookup str_eq str_lt
stats-agree_example = stats-agree one_pending subagent a_counts one_pending-IsValid refl

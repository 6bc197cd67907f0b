-- ===== src/Tracker/Observe.antt =====
-- Every message keeps the books: the cases of observe in engine/cli/background.go.
use agentrun.Prelude.{
  of_unless, not, ◌&&◌, ◌≡◌, refl, Str, Bool, true, false, Option, none, some, List, [], ◌∷◌, arith,
  is_empty, contains, Bool-cases, inl, inr, str_eq_refl, Returns,
}
use agentrun.Message.{MessageType, init, background_tasks, task_result, ToolCall, Message, subagent}
use agentrun.Tracker.{
  unset, BackgroundTracker, reset_state, new_background_tracker, enabled, counts_of, add, reset,
  add_tools, count_name_based, observe_init, observe_as, observe,
}
use agentrun.Tracker.Invariant.{
  IsValid, reset_state-IsValid, add-IsValid, remove-IsValid, apply_snapshot-IsValid,
}

-- A change of the fields that the books do not read.
relabel-IsValid :
    (t : BackgroundTracker) (native : Bool) (resume_id : Str)
    → IsValid t
    → IsValid (record t { native = native; last_resume_id = resume_id })
unfolding counts_of enabled
relabel-IsValid t native resume_id v = record {
  distinct = v.distinct;
  named = v.named;
  books = v.books;
  capped = v.capped;
  enabled_only = v.enabled_only;
  counted = v.counted;
  untracked = v.untracked;
  seeded_subagent = v.seeded_subagent;
  seeded_shell = v.seeded_shell;
}

contains-nonempty : (names : List Str) (k : Str) → contains names k ≡ true → is_empty names ≡ false
unfolding contains
contains-nonempty [] k h = cc
contains-nonempty (n ∷ names) k h = refl

add_tools-IsValid :
    (t : BackgroundTracker) (tools : List (Option ToolCall))
    → IsValid t
    → IsValid (add_tools t tools)
unfolding add_tools enabled
add_tools-IsValid t [] v = v
add_tools-IsValid t (none ∷ tools) v = add_tools-IsValid t tools v
add_tools-IsValid t (some tc ∷ tools) v = elim (Bool-cases (contains t.names tc.name)) [
  | inl tracked ↦ simp tracked (
      add_tools-IsValid (add t tc.id subagent) tools (
        add-IsValid t tc.id subagent v
          (ground (arith, contains-nonempty t.names tc.name tracked, str_eq_refl subagent))))
  | inr other_tool ↦ simp other_tool (add_tools-IsValid t tools v)
]

count_name_based-IsValid :
    (t : BackgroundTracker) (msg : Message) → IsValid t → IsValid (count_name_based t msg)
unfolding count_name_based
count_name_based-IsValid t msg v = ground (arith, add_tools-IsValid t msg.tools v)

observe_init-IsValid :
    (t : BackgroundTracker) (resume_id : Str) → IsValid t → IsValid (observe_init t resume_id)
unfolding observe_init reset
observe_init-IsValid t [] v = v
observe_init-IsValid t (b ∷ id) v = ground (
  arith,
  relabel-IsValid t t.native (b ∷ id) v,
  relabel-IsValid (reset_state t) false (b ∷ id) (reset_state-IsValid t),
)

observe_as-IsValid :
    (type : MessageType) (t : BackgroundTracker) (msg : Message)
    → IsValid t
    → Returns IsValid (observe_as type t msg)
unfolding observe_as
observe_as-IsValid init t msg v = observe_init-IsValid t msg.resume_id v
observe_as-IsValid background_tasks t msg v = apply_snapshot-IsValid t msg.tasks v
observe_as-IsValid task_result t msg v = elim (Bool-cases t.native) [
  | inl on ↦ simp on v
  | inr off ↦ simp off (remove-IsValid t msg.parent_tool_use_id v)
]
observe_as-IsValid _ t msg v = count_name_based-IsValid t msg v

-- A tracker with valid books takes in any message without a panic, and its books are valid after it.
pub observe-IsValid :
    (t : BackgroundTracker) (msg : Message) → IsValid t → Returns IsValid (observe t msg)
unfolding observe
observe-IsValid t msg v = observe_as-IsValid msg.type t msg v

-- A tracker that is made has valid books, whatever the options.
pub new_background_tracker-IsValid :
    (names : List Str) (track_shell : Bool) (t : BackgroundTracker)
    → new_background_tracker names track_shell ≡ some t
    → IsValid t
unfolding new_background_tracker
new_background_tracker-IsValid names track_shell t h =
    of_unless (is_empty names && not track_shell) IsValid h
      (reset_state-IsValid (unset names track_shell))

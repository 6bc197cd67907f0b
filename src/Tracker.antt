-- ===== src/Tracker.antt =====
-- The background-task tracker of the CLI engine: engine/cli/background.go.
--
-- The two maps are association lists. Go ranges over a map in an order of its own choosing; here it
-- is the order of the list. The two counters count events of one subprocess and are not bounded. A
-- test `started - finished >= cap` on Go's `int` agrees with the truncated difference here, since
-- a negative difference is below the cap as zero is.
pub mod Books
pub mod Invariant
pub mod Observe
pub mod Snapshot
pub mod Exact
pub mod Stats
mod Examples
use agentrun.Prelude.{
  ℕ, suc, ◌-◌, Str, Bool, true, false, not, ◌&&◌, ◌||◌, Option, none, some, List, [], ◌∷◌,
  if◌then◌else◌, leb, is_empty, str_eq, str_lt, contains, Assoc, lookup, put, delete, map, take,
  Run, returns, panics, ◌>>=◌,
}
use agentrun.Message.{
  MessageType, init, background_tasks, task_result, ToolCall, BackgroundTask, TaskCounts,
  BackgroundStats, Message, subagent, shell,
}

abbrev pub max_pending_per_kind : ℕ
max_pending_per_kind = 128

abbrev pub max_pending_ids_stamp_per_kind : ℕ
max_pending_ids_stamp_per_kind = 32

pub record KindCounts : Type 0 where
  pub started : ℕ
  pub finished : ℕ

abbrev pub no_counts : KindCounts
no_counts = record { started = 0; finished = 0 }

pub record BackgroundTracker : Type 0 where
  pub names : List Str
  pub track_shell : Bool
  pub pending : Assoc Str
  pub counts : Assoc KindCounts
  pub native : Bool
  pub last_resume_id : Str

-- resetState
pub reset_state : BackgroundTracker → BackgroundTracker
reset_state t =
    let seeded = if is_empty t.names then [] else put subagent no_counts [] in
    record t { pending = []; counts = if t.track_shell then put shell no_counts seeded else seeded }

-- The tracker before its state is reset: &backgroundTracker{names: names, trackShell: trackShell}.
abbrev pub unset : List Str → Bool → BackgroundTracker
unset names track_shell = record {
  names = names;
  track_shell = track_shell;
  pending = [];
  counts = [];
  native = false;
  last_resume_id = [];
}

-- newBackgroundTracker; `none` is the nil tracker.
pub new_background_tracker : List Str → Bool → Option BackgroundTracker
new_background_tracker names track_shell =
    if is_empty names && not track_shell then none else some (reset_state (unset names track_shell))

pub enabled : BackgroundTracker → Str → Bool
enabled t kind = if str_eq kind subagent then not (is_empty t.names) else t.track_shell

-- t.counts[kind], or a fresh entry.
pub counts_of : BackgroundTracker → Str → KindCounts
counts_of t kind = elim (lookup kind t.counts) [ none ↦ no_counts | some kc ↦ kc ]

-- The part of `add` behind its two early returns.
add_new : BackgroundTracker → Str → Str → KindCounts → BackgroundTracker
add_new t id kind kc = if leb max_pending_per_kind (kc.started - kc.finished) then t else record t {
  pending = put id kind t.pending;
  counts = put kind (record kc { started = suc kc.started }) t.counts;
}

pub add : BackgroundTracker → Str → Str → BackgroundTracker
unfolding add_new counts_of
add t id kind = if is_empty id then t else elim (lookup id t.pending) [
  | some stored ↦ t
  | none ↦ add_new t id kind (counts_of t kind)
]

-- t.counts[kind].finished++, which dereferences a nil pointer where the kind has no entry.
charge_finished : BackgroundTracker → Str → Option KindCounts → Run BackgroundTracker
charge_finished t kind none = panics
charge_finished t kind (some kc) =
    returns (record t { counts = put kind (record kc { finished = suc kc.finished }) t.counts })

pub remove : BackgroundTracker → Str → Run BackgroundTracker
unfolding charge_finished
remove t id = if is_empty id then returns t else elim (lookup id t.pending) [
  | none ↦ returns t
  | some kind ↦
      charge_finished (record t { pending = delete id t.pending }) kind (lookup kind t.counts)
]

-- The set of ids that a snapshot declares.
pub present_ids : List BackgroundTask → List Str
present_ids [] = []
present_ids (task ∷ tasks) =
    let rest = present_ids tasks in if is_empty task.id then rest else task.id ∷ rest

-- The loop that retires every pending id that the snapshot does not declare.
pub remove_absent : List Str → List (Str × Str) → BackgroundTracker → Run BackgroundTracker
remove_absent present [] t = returns t
remove_absent present ((id, kind) ∷ rest) t =
    if contains present id
    then remove_absent present rest t
    else (remove t id >>= λ t'. remove_absent present rest t')

pub add_task : BackgroundTracker → BackgroundTask → BackgroundTracker
unfolding add enabled
add_task t task = if is_empty task.id then t else elim (lookup task.id t.pending) [
  | some stored ↦ t
  | none ↦ if enabled t task.kind then add t task.id task.kind else t
]

-- The loop that adds what the snapshot declares.
pub add_tasks : BackgroundTracker → List BackgroundTask → BackgroundTracker
add_tasks t [] = t
add_tasks t (task ∷ tasks) = add_tasks (add_task t task) tasks

-- The native latch.
pub latch_native : BackgroundTracker → BackgroundTracker
latch_native t = if t.native then t else reset_state (record t { native = true })

pub apply_snapshot : BackgroundTracker → List BackgroundTask → Run BackgroundTracker
apply_snapshot t tasks =
    let latched = latch_native t in
    remove_absent (present_ids tasks) latched.pending latched >>= λ t'. returns (add_tasks t' tasks)

pub reset : BackgroundTracker → BackgroundTracker
reset t = record (reset_state t) { native = false }

-- The loop over the tool_use blocks of one message.
pub add_tools : BackgroundTracker → List (Option ToolCall) → BackgroundTracker
add_tools t [] = t
add_tools t (none ∷ tools) = add_tools t tools
add_tools t (some tc ∷ tools) =
    add_tools (if contains t.names tc.name then add t tc.id subagent else t) tools

pub count_name_based : BackgroundTracker → Message → BackgroundTracker
count_name_based t msg =
    if t.native || not (is_empty msg.parent_tool_use_id) then t else add_tools t msg.tools

observe_init : BackgroundTracker → Str → BackgroundTracker
observe_init t resume_id =
    if is_empty resume_id
    then t
    else if is_empty t.last_resume_id || str_eq resume_id t.last_resume_id
    then record t { last_resume_id = resume_id }
    else record (reset t) { last_resume_id = resume_id }

-- The switch of `observe` on the type of the message.
observe_as : MessageType → BackgroundTracker → Message → Run BackgroundTracker
observe_as init t msg = returns (observe_init t msg.resume_id)
observe_as background_tasks t msg = apply_snapshot t msg.tasks
observe_as task_result t msg = if t.native then returns t else remove t msg.parent_tool_use_id
observe_as _ t msg = returns (count_name_based t msg)

pub observe : BackgroundTracker → Message → Run BackgroundTracker
unfolding observe_as
observe t msg = observe_as msg.type t msg

-- pendingIDs: the ids stored under a kind, capped.
ids_of : Str → Assoc Str → List Str
ids_of kind [] = []
ids_of kind ((id, k) ∷ rest) = let ids = ids_of kind rest in if str_eq k kind then id ∷ ids else ids

pub pending_ids : BackgroundTracker → Str → List Str
unfolding ids_of
pending_ids t kind = take max_pending_ids_stamp_per_kind (ids_of kind t.pending)

-- One round of the loop in `stats`.
task_counts : BackgroundTracker → Str × KindCounts → TaskCounts
unfolding pending_ids
task_counts t (kind, kc) = record {
  kind = kind;
  started = kc.started;
  finished = kc.finished;
  pending_ids = pending_ids t kind;
}

-- sort.Slice by kind.
insert_sorted : TaskCounts → List TaskCounts → List TaskCounts
insert_sorted tc [] = tc ∷ []
insert_sorted tc (d ∷ ds) =
    let later = insert_sorted tc ds in if str_lt tc.kind d.kind then tc ∷ d ∷ ds else d ∷ later

sort_by_kind : List TaskCounts → List TaskCounts
unfolding insert_sorted
sort_by_kind [] = []
sort_by_kind (tc ∷ rest) = insert_sorted tc (sort_by_kind rest)

pub stats : BackgroundTracker → BackgroundStats
unfolding task_counts sort_by_kind
stats t = record { kinds = sort_by_kind (map (task_counts t) t.counts) }

-- stamp
unfoldable pub stamp : BackgroundTracker → Message → Message
stamp t msg = record msg { background = some (stats t) }

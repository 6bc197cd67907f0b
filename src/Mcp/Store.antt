-- ===== src/Mcp/Store.antt =====
-- The session store of the MCP server: cmd/agentrun-mcp/session.go, and what session_start, session_send
-- and session_stop in cmd/agentrun-mcp/tools.go do to it.
--
-- Each operation runs under the lock of the store. Times are in nanoseconds, from an epoch that lies
-- before all of them. A process is known by its session.
pub mod Limits
mod Examples
use agentrun.Prelude.{
  ℕ, suc, ◌+◌, ◌-◌, leb, ltb, ◌==◌, Str, str_eq, Bool, not, ◌&&◌, Option, List, [], ◌∷◌, ◌++◌,
  if◌then◌else◌, length, keep, take, Assoc, lookup, delete, put,
}

-- sessionEntry
pub record Entry : Type 0 where
  pub id : Str
  pub backend : Str
  pub created_at : ℕ
  pub last_activity : ℕ
  pub active_turns : ℕ

-- sessionStore
pub record Store : Type 0 where
  pub sessions : Assoc Entry
  pub max_sessions : ℕ
  pub creation_timestamps : List ℕ

-- newSessionStore
pub new_session_store : ℕ → Store
new_session_store max_sessions = record {
  sessions = [];
  max_sessions = max_sessions;
  creation_timestamps = [];
}

abbrev pub max_creations_per_min : ℕ
max_creations_per_min = 10

abbrev pub minute : ℕ
minute = 60000000000

-- ts.After(now.Add(-1 * time.Minute))
unfoldable pub is_recent : ℕ → ℕ → Bool
is_recent now ts = ltb now (ts + minute)

pub data CreateResult : Type 0 where
  created session_limit rate_limit : CreateResult

-- sessionStore.create
pub create : ℕ → Entry → Store → CreateResult × Store
unfolding is_recent
create now entry s =
    let valid = keep (is_recent now) s.creation_timestamps in
    let pruned = record s { creation_timestamps = valid } in
    if leb s.max_sessions (length s.sessions)
    then (session_limit, s)
    else if leb max_creations_per_min (length valid)
    then (rate_limit, pruned)
    else (
      created,
      record s {
        sessions = put entry.id entry s.sessions;
        creation_timestamps = valid ++ now ∷ [];
      },
    )

-- registerSession, with the id that generateSessionID gives. Its reading of the clock and that of create
-- are one here.
pub register_session : ℕ → Str → Str → Store → CreateResult × Store
unfolding create
register_session now id backend s =
    create now
      (record {
        id = id;
        backend = backend;
        created_at = now;
        last_activity = now;
        active_turns = 0;
      })
      s

-- sessionStore.get
pub get : Str → Store → Option Entry
get id s = lookup id s.sessions

-- sessionStore.remove
pub remove : Str → Store → Option Entry × Store
remove id s = (lookup id s.sessions, record s { sessions = delete id s.sessions })

-- The test on one entry in reapIdle.
pub is_reaped : ℕ → ℕ → Entry → Bool
is_reaped now max_idle e = (e.active_turns == 0) && ltb (e.last_activity + max_idle) now

-- sessionStore.reapIdle
pub reap_idle : ℕ → ℕ → Store → List (Str × Entry) × Store
unfolding is_reaped
reap_idle now max_idle s = (
  keep (λ e. is_reaped now max_idle e.1) s.sessions,
  record s { sessions = keep (λ e. not (is_reaped now max_idle e.1)) s.sessions },
)

-- stopAll: the sessions to stop, and the store.
pub stop_all : Store → List (Str × Entry) × Store
stop_all s = (s.sessions, record s { sessions = [] })

change_entry : (Entry → Entry) → Str → Assoc Entry → Assoc Entry
change_entry f id [] = []
change_entry f id ((k, e) ∷ sessions) =
    let rest = change_entry f id sessions in if str_eq k id then (k, f e) ∷ rest else (k, e) ∷ rest

-- What doSessionSend does to its entry before and behind the turn.
pub begin_turn : ℕ → Str → Store → Store
unfolding change_entry
begin_turn now id s = record s {
  sessions =
      change_entry (λ e. record e { active_turns = suc e.active_turns; last_activity = now }) id
        s.sessions;
}

pub end_turn : ℕ → Str → Store → Store
unfolding change_entry
end_turn now id s = record s {
  sessions =
      change_entry (λ e. record e { active_turns = e.active_turns - 1; last_activity = now }) id
        s.sessions;
}

-- maskID, without the ellipsis that a cut id has behind it
pub mask_id : Str → Str
mask_id id = if ltb 12 (length id) then take 12 id else id

-- An operation on the store, with its time.
pub data Operation : Type 0 where
  starts : ℕ → Str → Str → Operation
  stops : Str → Operation
  reaps : ℕ → ℕ → Operation
  turn_begins turn_ends : ℕ → Str → Operation
  shuts_down : Operation

abbrev pub creation_times : ℕ → CreateResult → List ℕ
creation_times now created = now ∷ []
creation_times now _ = []

-- One operation: the time of a session that it created, and the store.
pub step : Operation → Store → List ℕ × Store
unfolding register_session remove reap_idle begin_turn end_turn stop_all
step (starts now id backend) s =
    let result = register_session now id backend s in (creation_times now result.0, result.1)
step (stops id) s = ([], (remove id s).1)
step (reaps now max_idle) s = ([], (reap_idle now max_idle s).1)
step (turn_begins now id) s = ([], begin_turn now id s)
step (turn_ends now id) s = ([], end_turn now id s)
step shuts_down s = ([], (stop_all s).1)

-- The times at which sessions were created, and the store, behind a sequence of operations.
pub run : List Operation → List ℕ × Store → List ℕ × Store
unfolding step
run [] state = state
run (op ∷ ops) (times, s) = let stepped = step op s in run ops (times ++ stepped.0, stepped.1)

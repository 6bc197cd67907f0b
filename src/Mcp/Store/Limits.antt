-- ===== src/Mcp/Store/Limits.antt =====
-- The limits of the session store over any sequence of operations.
use agentrun.Prelude.{
  ℕ, suc, ◌≤◌, ◌-◌, ◌≡◌, refl, leb, Str, Bool, true, not, ◌&&◌, List, [], ◌∷◌, ◌++◌, length, keep,
  length-append, Assoc, delete, put, arith, sym, ap, ◌∙◌, subst, if_cases, append-nil,
}
use agentrun.Mcp.Store.{
  Entry, Store, new_session_store, is_recent, max_creations_per_min, CreateResult, create,
  register_session, remove, is_reaped, reap_idle, stop_all, change_entry, begin_turn, end_turn,
  Operation, starts, stops, reaps, turn_begins, turn_ends, shuts_down, creation_times, step, run,
}

-- The time of the last session_start, and that the clock does not go back from one to the next.
abbrev pub time_after : ℕ → Operation → ℕ
time_after t (starts now id backend) = now
time_after t _ = t

abbrev pub in_order : ℕ → List Operation → Bool
in_order t [] = true
in_order t (op ∷ ops) = leb t (time_after t op) && in_order (time_after t op) ops

abbrev pub last_time : ℕ → List Operation → ℕ
last_time t [] = t
last_time t (op ∷ ops) = last_time (time_after t op) ops

module _ {ℓ} {A : Type ℓ} where
  length-keep : (p : A → Bool) (xs : List A) → length (keep p xs) ≤ length xs
  length-keep p [] = omega arith
  length-keep p (x ∷ xs) = let rest = length-keep p xs in ground arith

  keep-append : (p : A → Bool) (xs ys : List A) → keep p (xs ++ ys) ≡ keep p xs ++ keep p ys
  keep-append p [] ys = refl
  keep-append p (x ∷ xs) ys = let rest = keep-append p xs ys in ground arith

  -- A weaker test before it changes nothing.
  keep-keep :
      (p q : A → Bool) (xs : List A)
      → ((x : A) → p x ≡ true → q x ≡ true)
      → keep p (keep q xs) ≡ keep p xs
  keep-keep p q [] h = refl
  keep-keep p q (x ∷ xs) h = let rest = keep-keep p q xs h in let first = h x in ground arith

length-delete : (id : Str) (m : Assoc Entry) → length (delete id m) ≤ length m
unfolding delete
length-delete id [] = omega arith
length-delete id ((k, e) ∷ m) = let rest = length-delete id m in ground arith

length-change_entry :
    (f : Entry → Entry) (id : Str) (m : Assoc Entry) → length (change_entry f id m) ≡ length m
unfolding change_entry
length-change_entry f id [] = refl
length-change_entry f id ((k, e) ∷ m) = let rest = length-change_entry f id m in ground arith

is_recent_mono :
    (now later ts : ℕ) → now ≤ later → is_recent later ts ≡ true → is_recent now ts ≡ true
unfolding is_recent
is_recent_mono now later ts le h = ground arith

-- The sessions are within the limit, at most ten creations are remembered, and those of the last minute
-- all are.
record IsLimited (t : ℕ) (times : List ℕ) (s : Store) : Type 0 where
  few_sessions : length s.sessions ≤ s.max_sessions
  few_creations : length s.creation_timestamps ≤ max_creations_per_min
  remembered :
      (now : ℕ) → t ≤ now → keep (is_recent now) times ≡ keep (is_recent now) s.creation_timestamps

-- The remembered times of a store that has only lost old ones.
unchanged-remembered :
    (t now : ℕ) (times kept : List ℕ) (s : Store)
    → t ≤ now
    → IsLimited t times s
    → ((later : ℕ)
        → now ≤ later
        → keep (is_recent later) kept ≡ keep (is_recent later) s.creation_timestamps)
    → (later : ℕ) → now ≤ later
    → keep (is_recent later) (times ++ []) ≡ keep (is_recent later) kept
unchanged-remembered t now times kept s le h same later after =
    ap (keep (is_recent later)) (append-nil times)
    ∙ h.remembered later (omega arith)
    ∙ sym (same later after)

pruned_same :
    (now : ℕ) (s : Store) (later : ℕ)
    → now ≤ later
    → keep (is_recent later) (keep (is_recent now) s.creation_timestamps)
      ≡ keep (is_recent later) s.creation_timestamps
pruned_same now s later after =
    keep-keep (is_recent later) (is_recent now) s.creation_timestamps
      (λ ts. is_recent_mono now later ts after)

create-IsLimited :
    (t now : ℕ) (e : Entry) (times : List ℕ) (s : Store)
    → t ≤ now
    → IsLimited t times s
    → IsLimited now (times ++ creation_times now (create now e s).0) (create now e s).1
unfolding create put
create-IsLimited t now e times s le h =
    let P : CreateResult × Store → Type 0 =
      λ result. IsLimited now (times ++ creation_times now result.0) result.1 in
    let valid = keep (is_recent now) s.creation_timestamps in
    let fewer = length-keep (is_recent now) s.creation_timestamps in
    let shrunk = length-delete e.id s.sessions in
    let grown = length-append valid (now ∷ []) in
    if_cases P (leb s.max_sessions (length s.sessions))
      (λ full. record {
        few_sessions = h.few_sessions;
        few_creations = h.few_creations;
        remembered =
            unchanged-remembered t now times s.creation_timestamps s le h (λ later after. refl);
      })
      (λ room.
        if_cases P (leb max_creations_per_min (length valid))
          (λ busy. record {
            few_sessions = h.few_sessions;
            few_creations = omega arith;
            remembered = unchanged-remembered t now times valid s le h (pruned_same now s);
          })
          (λ calm. record {
            few_sessions = ground arith;
            few_creations = ground arith;
            remembered = λ later after.
                keep-append (is_recent later) times (now ∷ [])
                ∙ ap (λ r. r ++ keep (is_recent later) (now ∷ []))
                    (h.remembered later (omega arith) ∙ sym (pruned_same now s later after))
                ∙ sym (keep-append (is_recent later) valid (now ∷ []));
          }))

-- An operation that leaves the remembered times as they are and has no more sessions behind it.
kept-IsLimited :
    (t : ℕ) (times : List ℕ) (s : Store) (sessions : Assoc Entry)
    → length sessions ≤ length s.sessions
    → IsLimited t times s
    → IsLimited t (times ++ []) (record s { sessions = sessions })
kept-IsLimited t times s sessions le h = record {
  few_sessions = let few = h.few_sessions in omega arith;
  few_creations = h.few_creations;
  remembered =
      unchanged-remembered t t times s.creation_timestamps s (omega arith) h (λ later after. refl);
}

step-IsLimited :
    (t : ℕ) (op : Operation) (times : List ℕ) (s : Store)
    → t ≤ time_after t op
    → IsLimited t times s
    → IsLimited (time_after t op) (times ++ (step op s).0) (step op s).1
unfolding step register_session remove reap_idle begin_turn end_turn stop_all
step-IsLimited t (starts now id backend) times s ordered h =
    create-IsLimited t now
      (record {
        id = id;
        backend = backend;
        created_at = now;
        last_activity = now;
        active_turns = 0;
      })
      times s ordered h
step-IsLimited t (stops id) times s ordered h =
    kept-IsLimited t times s (delete id s.sessions) (length-delete id s.sessions) h
step-IsLimited t (reaps now max_idle) times s ordered h =
    kept-IsLimited t times s (keep (λ e. not (is_reaped now max_idle e.1)) s.sessions)
      (length-keep (λ e. not (is_reaped now max_idle e.1)) s.sessions) h
step-IsLimited t (turn_begins now id) times s ordered h =
    let same =
      length-change_entry (λ e. record e { active_turns = suc e.active_turns; last_activity = now })
        id s.sessions in
    kept-IsLimited t times s
      (change_entry (λ e. record e { active_turns = suc e.active_turns; last_activity = now }) id
        s.sessions)
      (omega (arith, same)) h
step-IsLimited t (turn_ends now id) times s ordered h =
    let same =
      length-change_entry (λ e. record e { active_turns = e.active_turns - 1; last_activity = now })
        id s.sessions in
    kept-IsLimited t times s
      (change_entry (λ e. record e { active_turns = e.active_turns - 1; last_activity = now }) id
        s.sessions)
      (omega (arith, same)) h
step-IsLimited t shuts_down times s ordered h = kept-IsLimited t times s [] (omega arith) h

step-max_sessions : (op : Operation) (s : Store) → (step op s).1.max_sessions ≡ s.max_sessions
unfolding step register_session create remove reap_idle begin_turn end_turn stop_all
step-max_sessions op s = ground arith

run-max_sessions :
    (ops : List Operation) (times : List ℕ) (s : Store)
    → (run ops (times, s)).1.max_sessions ≡ s.max_sessions
unfolding run
run-max_sessions [] times s = refl
run-max_sessions (op ∷ ops) times s =
    run-max_sessions ops (times ++ (step op s).0) (step op s).1 ∙ step-max_sessions op s

run-IsLimited :
    (t : ℕ) (ops : List Operation) (times : List ℕ) (s : Store)
    → in_order t ops ≡ true
    → IsLimited t times s
    → IsLimited (last_time t ops) (run ops (times, s)).0 (run ops (times, s)).1
unfolding run
run-IsLimited t [] times s ordered h = h
run-IsLimited t (op ∷ ops) times s ordered h =
    let first : t ≤ time_after t op = ground arith in
    let others : in_order (time_after t op) ops ≡ true = ground arith in
    run-IsLimited (time_after t op) ops (times ++ (step op s).0) (step op s).1 others
      (step-IsLimited t op times s first h)

-- Whatever the operations on a new store, in whatever order, as long as the clock does not go back: at most
-- as many sessions as the limit allows are in it, and at any time after them at most ten sessions were
-- created in the last minute, also counting those that are gone.
pub run-limits :
    (max_sessions now : ℕ) (ops : List Operation)
    → in_order 0 ops ≡ true
    → last_time 0 ops ≤ now
    → let after = run ops ([], new_session_store max_sessions) in
      (length after.1.sessions ≤ max_sessions) × (length (keep (is_recent now) after.0) ≤ 10)
unfolding new_session_store
run-limits max_sessions now ops ordered later =
    let s = new_session_store max_sessions in
    let start : IsLimited 0 [] s = record {
      few_sessions = omega arith;
      few_creations = omega arith;
      remembered = λ later after. refl;
    } in
    let h = run-IsLimited 0 ops [] s ordered start in
    let after = run ops ([], s) in
    (
      subst (λ m. length after.1.sessions ≤ m) (run-max_sessions ops [] s) h.few_sessions,
      let all = h.remembered now later in
          let fewer = length-keep (is_recent now) after.1.creation_timestamps in
          let few = h.few_creations in subst (λ r. length r ≤ 10) (sym all) (omega arith),
    )

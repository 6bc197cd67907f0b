-- ===== src/Acp/Conn/Examples.antt =====
-- The theorems on conn.go at concrete schedules.
use agentrun.Prelude.{ℕ, suc, ◌≤◌, ◌≡◌, refl, true, none, some, List, [], ◌∷◌, ◌++◌, arith}
use agentrun.Acp.Conn.{
  Conn, Action, call_starts, call_sends, call_receives, loop_takes, loop_delivers, loop_ends,
  new_conn, step, run, returned, responds, ended,
}
use agentrun.Acp.Conn.Answers.{ActionsIn, run-responds}
use agentrun.Acp.Conn.Late.{is_unanswered, run-late}

-- Where a schedule of a new connection leads.
abbrev state_after : List (Action ℕ) → Conn ℕ
state_after actions = elim (run actions new_conn) [ none ↦ new_conn | some c ↦ c ]

-- Two calls are made; the second is answered with 7, and the answer is on its way.
abbrev two_calls : List (Action ℕ)
two_calls = call_starts ∷ call_starts ∷ call_sends 1 true ∷ call_sends 2 true ∷ loop_takes 2 7 ∷ []

abbrev answered : List (Action ℕ)
answered = two_calls ++ loop_delivers ∷ call_receives 2 ∷ []

answered-runs : run answered new_conn ≡ some (state_after answered)
unfolding run step new_conn
answered-runs = refl

second_returned : (state_after answered).stage 2 ≡ returned (responds 7)
unfolding run step new_conn
second_returned = refl

-- ReadLoop ends before any call; a call is sent then.
abbrev at_end : List (Action ℕ)
at_end = loop_ends ∷ []

abbrev sent_late : List (Action ℕ)
sent_late = at_end ++ call_starts ∷ call_sends 1 true ∷ []

at_end-runs : run at_end new_conn ≡ some (state_after at_end)
unfolding run step new_conn
at_end-runs = refl

sent_late-runs :
    run (call_starts ∷ call_sends 1 true ∷ []) (state_after at_end) ≡ some (state_after sent_late)
unfolding run step new_conn
sent_late-runs = refl

ended_there : (state_after at_end).loop ≡ ended
unfolding run step new_conn
ended_there = refl

small_answers : ActionsIn (λ id r. r ≤ 9) answered
unfolding ActionsIn
small_answers = (omega arith, tt)

run-responds_example : 7 ≤ 9
run-responds_example =
    run-responds (λ id r. r ≤ 9) answered (state_after answered) 2 7 small_answers answered-runs
      second_returned

run-late_example :
    (is_unanswered ((state_after sent_late).stage (suc (state_after at_end).next_id)) ≡ true)
    × (step (call_receives (suc (state_after at_end).next_id)) (state_after sent_late) ≡ none)
run-late_example =
    run-late at_end (call_sends 1 true ∷ []) (state_after at_end) (state_after sent_late)
      at_end-runs ended_there sent_late-runs

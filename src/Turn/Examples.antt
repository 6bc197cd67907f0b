-- ===== src/Turn/Examples.antt =====
-- The theorems on runturn.go at concrete events.
use agentrun.Prelude.{
  ℕ, ◌≡◌, refl, true, false, ◌||◌, none, some, List, [], ◌∷◌, length, take, All, drop_last,
}
use agentrun.Message.{text, result, message, is_result}
use agentrun.Turn.{Event, delivers, closes, send_finishes, takes_send, drain, run_turn}
use agentrun.Turn.Drain.{
  deliveries, closes_cleanly, is_success, ends_in_result, run_turn-in_order, run_turn-success,
  run_turn-failed_send,
}

-- A text, the end of Send, a result, and a message of the next turn.
abbrev one_turn : List (Event ℕ)
one_turn =
    delivers (message text) none
    ∷ send_finishes none
    ∷ takes_send
    ∷ delivers (message result) none
    ∷ delivers (message text) none
    ∷ []

one_turn-succeeds : is_success (run_turn false none one_turn).returned ≡ true
unfolding run_turn drain
one_turn-succeeds = refl

run_turn-in_order_example :
    ((run_turn false none one_turn).handled
      ≡ take (length (run_turn false none one_turn).handled) (deliveries one_turn))
    × All (λ msg. is_result msg.type ≡ false) (drop_last (run_turn false none one_turn).handled)
run_turn-in_order_example = run_turn-in_order false none one_turn

run_turn-success_example :
    (ends_in_result (run_turn false none one_turn).handled || closes_cleanly one_turn) ≡ true
run_turn-success_example = run_turn-success false none one_turn one_turn-succeeds

run_turn-failed_send_example :
    is_success {E = ℕ}
      (run_turn false (some 7) (send_finishes (some 7) ∷ closes none ∷ [])).returned
    ≡ false
run_turn-failed_send_example = run_turn-failed_send false 7 (closes none ∷ [])

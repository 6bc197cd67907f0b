-- ===== src/Turn/Drain.antt =====
-- What RunTurn guarantees to its handler and to its caller, over all orders of events.
use agentrun.Prelude.{
  ◌≡◌, refl, ap, Bool, true, false, ◌||◌, Option, none, some, List, [], ◌∷◌, arith, length, take,
  All, drop_last, get_last?, Bool-cases, inl, inr,
}
use agentrun.Message.{Message, is_result}
use agentrun.Turn.{
  Event, delivers, closes, send_finishes, takes_send, cancels, SendChannel, no_channel, unfinished,
  finished, Turn, collect_send_error, channel_closed, finish_send, after_handling, drain, run_turn,
}

-- Whether the last message is the result of a turn.
abbrev pub ends_in_result : List Message → Bool
ends_in_result msgs = elim (get_last? msgs) [ none ↦ false | some msg ↦ is_result msg.type ]

All-drop_last :
    (msg : Message) (msgs : List Message)
    → is_result msg.type ≡ false
    → All (λ m. is_result m.type ≡ false) (drop_last msgs)
    → All (λ m. is_result m.type ≡ false) (drop_last (msg ∷ msgs))
All-drop_last msg [] h i = tt
All-drop_last msg (m ∷ msgs) h i = (h, i)

ends_in_result_later :
    (msg : Message) (msgs : List Message)
    → ends_in_result msgs ≡ true
    → ends_in_result (msg ∷ msgs) ≡ true
ends_in_result_later msg [] h = cc
ends_in_result_later msg (m ∷ msgs) h = h

module _ {ℓ} {E : Type ℓ} where
  -- All messages that the process delivers, whether or not the turn still reads them.
  pub deliveries : List (Event E) → List Message
  deliveries [] = []
  deliveries (delivers msg err ∷ events) = msg ∷ deliveries events
  deliveries (_ ∷ events) = deliveries events

  -- Whether the output is closed with no error in some event.
  pub closes_cleanly : List (Event E) → Bool
  closes_cleanly [] = false
  closes_cleanly (closes none ∷ events) = true
  closes_cleanly (_ ∷ events) = closes_cleanly events

  abbrev pub is_success : Option (Option E) → Bool
  is_success (some none) = true
  is_success _ = false

  IsInOrder : Turn E → List (Event E) → Type 0
  IsInOrder turn events =
      (turn.handled ≡ take (length turn.handled) (deliveries events))
      × All (λ msg. is_result msg.type ≡ false) (drop_last turn.handled)

  handles-IsInOrder :
      (msg : Message) (err : Option E) (turn : Turn E) (events : List (Event E))
      → (is_result msg.type ≡ false)
      → IsInOrder turn events
      → IsInOrder (after_handling msg turn) (delivers msg err ∷ events)
  unfolding deliveries IsInOrder
  handles-IsInOrder msg err turn events h i =
      (ap (λ msgs. msg ∷ msgs) i.0, All-drop_last msg turn.handled h i.1)

  drain-IsInOrder :
      (ch : SendChannel E) (events : List (Event E)) → IsInOrder (drain ch events) events
  unfolding drain deliveries IsInOrder
  drain-IsInOrder ch [] = (refl, tt)
  drain-IsInOrder ch (delivers msg (some err) ∷ events) = (refl, tt)
  drain-IsInOrder ch (delivers msg none ∷ events) = elim (Bool-cases (is_result msg.type)) [
    | inl last ↦ rw last (refl, tt)
    | inr more ↦
        rw more
          (handles-IsInOrder msg none (drain ch events) events more (drain-IsInOrder ch events))
  ]
  drain-IsInOrder ch (closes err ∷ events) = (refl, tt)
  drain-IsInOrder ch (send_finishes err ∷ events) = drain-IsInOrder (finish_send err ch) events
  drain-IsInOrder (finished (some err)) (takes_send ∷ events) = (refl, tt)
  drain-IsInOrder (finished none) (takes_send ∷ events) = drain-IsInOrder no_channel events
  drain-IsInOrder no_channel (takes_send ∷ events) = drain-IsInOrder no_channel events
  drain-IsInOrder unfinished (takes_send ∷ events) = drain-IsInOrder unfinished events
  drain-IsInOrder ch (cancels err ∷ events) = (refl, tt)

  drain-success :
      (ch : SendChannel E) (events : List (Event E))
      → is_success (drain ch events).returned ≡ true
      → (ends_in_result (drain ch events).handled || closes_cleanly events) ≡ true
  unfolding drain closes_cleanly channel_closed collect_send_error
  drain-success ch [] h = cc
  drain-success ch (delivers msg (some err) ∷ events) h = cc
  drain-success ch (delivers msg none ∷ events) h =
      ground (arith, drain-success ch events, ends_in_result_later msg (drain ch events).handled)
  drain-success ch (closes none ∷ events) h = ground arith
  drain-success (finished (some e)) (closes (some err) ∷ events) h = cc
  drain-success (finished none) (closes (some err) ∷ events) h = cc
  drain-success no_channel (closes (some err) ∷ events) h = cc
  drain-success unfinished (closes (some err) ∷ events) h = cc
  drain-success ch (send_finishes err ∷ events) h = drain-success (finish_send err ch) events h
  drain-success (finished (some err)) (takes_send ∷ events) h = cc
  drain-success (finished none) (takes_send ∷ events) h = drain-success no_channel events h
  drain-success no_channel (takes_send ∷ events) h = drain-success no_channel events h
  drain-success unfinished (takes_send ∷ events) h = drain-success unfinished events h
  drain-success ch (cancels err ∷ events) h = cc

  drain-failed_send :
      (e : E) (events : List (Event E))
      → is_success (drain (finished (some e)) events).returned ≡ false
  unfolding drain
  drain-failed_send e [] = refl
  drain-failed_send e (delivers msg (some err) ∷ events) = refl
  drain-failed_send e (delivers msg none ∷ events) = ground (arith, drain-failed_send e events)
  drain-failed_send e (closes err ∷ events) = refl
  drain-failed_send e (send_finishes err ∷ events) = drain-failed_send e events
  drain-failed_send e (takes_send ∷ events) = refl
  drain-failed_send e (cancels err ∷ events) = refl

  -- The handler of RunTurn is called on the delivered messages in their order, with none left out up
  -- to the last that it is called on, and on none behind a result, whatever the kind of process and
  -- whatever Send and the handler return.
  pub run_turn-in_order :
      (sequential : Bool) (send_error : Option E) (events : List (Event E))
      → let turn = run_turn sequential send_error events in
        (turn.handled ≡ take (length turn.handled) (deliveries events))
        × All (λ msg. is_result msg.type ≡ false) (drop_last turn.handled)
  unfolding run_turn IsInOrder deliveries
  run_turn-in_order true (some err) events = (refl, tt)
  run_turn-in_order true none events = drain-IsInOrder no_channel events
  run_turn-in_order false err events = drain-IsInOrder unfinished events

  -- A RunTurn that returns nil has handled a result last, or the process closed its output with no
  -- error.
  pub run_turn-success :
      (sequential : Bool) (send_error : Option E) (events : List (Event E))
      → is_success (run_turn sequential send_error events).returned ≡ true
      → (ends_in_result (run_turn sequential send_error events).handled || closes_cleanly events)
        ≡ true
  unfolding run_turn
  run_turn-success true (some err) events h = cc
  run_turn-success true none events h = drain-success no_channel events h
  run_turn-success false err events h = drain-success unfinished events h

  -- If Send fails before the process delivers or closes anything, RunTurn does not return nil,
  -- whatever comes after and in whatever order the select takes it, for either kind of process.
  pub run_turn-failed_send :
      (sequential : Bool) (e : E) (events : List (Event E))
      → is_success (run_turn sequential (some e) (send_finishes (some e) ∷ events)).returned ≡ false
  unfolding run_turn drain
  run_turn-failed_send true e events = refl
  run_turn-failed_send false e events = drain-failed_send e events

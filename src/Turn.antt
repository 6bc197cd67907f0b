-- ===== src/Turn.antt =====
-- One turn of a conversation: RunTurn, RunFirstTurn and drainOutput in runturn.go.
--
-- A pass of the select in drainOutput takes what the environment offers: the process delivers a
-- message, to which the handler returns an error or none; its output is closed, with the error that
-- Err then returns; the goroutine of Send puts its result into the channel; the select takes that
-- result; or the context is done. `drain` returns what the handler was called on and, if the loop
-- has ended, the error it ended with. The type of errors E is a parameter.

pub mod Drain
mod Examples
use agentrun.Prelude.{Bool, false, Option, none, some, List, [], ◌∷◌, if◌then◌else◌}
use agentrun.Message.{Message, is_result}

module _ {ℓ} (E : Type ℓ) where
  pub data Event : Type ℓ where
    delivers : Message → Option E → Event
    closes : Option E → Event
    send_finishes : Option E → Event
    takes_send : Event
    cancels : E → Event

  -- The channel of the Send's result: nil, empty, or holding the result.
  pub data SendChannel : Type ℓ where
    no_channel : SendChannel
    unfinished : SendChannel
    finished : Option E → SendChannel

  pub record Turn : Type ℓ where
    pub handled : List Message
    pub returned : Option (Option E)

module _ {ℓ} {E : Type ℓ} where
  -- collectSendError, which does not wait.
  unfoldable pub collect_send_error : SendChannel E → Option E
  collect_send_error (finished err) = err
  collect_send_error _ = none

  -- channelClosed, given what proc.Err returns.
  unfoldable pub channel_closed : Option E → SendChannel E → Option E
  unfolding collect_send_error
  channel_closed proc_err ch = elim (collect_send_error ch) [
    | some err ↦ some err
    | none ↦ proc_err
  ]

  abbrev pub returns_now : Option E → Turn E
  returns_now err = record { handled = []; returned = some err }

  abbrev pub after_handling : Message → Turn E → Turn E
  after_handling msg turn = record turn { handled = msg ∷ turn.handled }

  -- The goroutine's send on the channel of its result.
  abbrev pub finish_send : Option E → SendChannel E → SendChannel E
  finish_send err unfinished = finished err
  finish_send err ch = ch

  -- drainOutput
  unfoldable pub drain : SendChannel E → List (Event E) → Turn E
  unfolding channel_closed collect_send_error
  drain ch [] = record { handled = []; returned = none }
  drain ch (delivers msg (some err) ∷ events) = after_handling msg (returns_now (some err))
  drain ch (delivers msg none ∷ events) =
      let rest = drain ch events in
      after_handling msg (if is_result msg.type then returns_now (collect_send_error ch) else rest)
  drain ch (closes proc_err ∷ events) = returns_now (channel_closed proc_err ch)
  drain ch (send_finishes err ∷ events) = drain (finish_send err ch) events
  drain (finished (some err)) (takes_send ∷ events) = returns_now (some err)
  drain (finished none) (takes_send ∷ events) = drain no_channel events
  drain no_channel (takes_send ∷ events) = drain no_channel events
  drain unfinished (takes_send ∷ events) = drain unfinished events
  drain ch (cancels err ∷ events) = returns_now (some err)

  -- RunTurn, by whether the process is a SequentialSender and by what its Send returns, which in the
  -- other case comes with the events; and the number of Sends that it starts.
  unfoldable pub run_turn : Bool → Option E → List (Event E) → Turn E
  unfolding drain
  run_turn sequential send_error events =
      let drained = drain no_channel events in
      let beside_send = drain unfinished events in
      if sequential
      then elim send_error [ some err ↦ returns_now (some err) | none ↦ drained ]
      else beside_send

  -- RunFirstTurn
  unfoldable pub run_first_turn : Bool → Option E → List (Event E) → Turn E
  unfolding run_turn drain
  run_first_turn sequential send_error events =
      let drained = drain no_channel events in
      let turn = run_turn false send_error events in if sequential then drained else turn

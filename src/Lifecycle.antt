-- ===== src/Lifecycle.antt =====
-- The life of a CLI process: Send, Stop, the end of a read loop and the replacement of a subprocess,
-- in engine/cli/process.go.
--
-- The goroutines interleave: an action is one section of one of them that runs under the lock, or one
-- channel operation, with the reads of flags directly before it. `step` returns `none` where the
-- action is not enabled: the goroutine is elsewhere, or its channel operation blocks. One caller
-- sends at a time and one stops. What the operating system, the backend and the contexts do stands
-- in the arguments of the actions; signals to a subprocess show only in when its read loop ends.
pub mod Sound
pub mod Halted
pub mod Races
pub mod Shutdown
mod Examples
use agentrun.Prelude.{
  ℕ, zero, suc, Bool, true, false, Option, none, some, List, [], ◌∷◌, if◌then◌else◌,
}
use agentrun.Process.{
  SessionError, WaitResult, ScanEnd, exit_reason, LoopStage, SendStage, StopStage, Process,
  finalize_turn, fail_replacement, install_subprocess, PipeWrite, send_blocks, claim_replacement,
  reset_channels, spawn_replacement, context_done, scanning, finalizing, signalling, gone, sent,
  claiming, awaiting_exit, cancelled, spawning, draining, resetting, installing, not_called,
  awaiting_loop, killed, awaiting_done, stopped,
}

pub data Action : Type 0 where
  loop_ends : ℕ → ScanEnd → WaitResult → Action
  loop_finalizes loop_signals : ℕ → Action
  result_seen : Action
  send_starts : Bool → Option SessionError → PipeWrite → Action
  send_claims : Option SessionError → Action
  send_observes_exit send_cancelled send_fails : Action
  send_spawns : Option SessionError → Action
  send_drains send_resets send_installs : Action
  stop_starts stop_kills stop_observes_exit stop_returns : Action

abbrev set_loop : List LoopStage → ℕ → LoopStage → List LoopStage
set_loop [] i stage = []
set_loop (l ∷ ls) zero stage = stage ∷ ls
set_loop (l ∷ ls) (suc i) stage = l ∷ set_loop ls i stage

abbrev get_loop : List LoopStage → ℕ → LoopStage
get_loop [] i = gone
get_loop (l ∷ ls) zero = l
get_loop (l ∷ ls) (suc i) = get_loop ls i

end_loop : LoopStage → ℕ → ScanEnd → WaitResult → Process → Option Process
unfolding exit_reason
end_loop scanning i scan wait p =
    let reason = exit_reason scan wait p.awaiting_result p.stopping in
    some (record p { loops = set_loop p.loops i (finalizing reason) })
end_loop _ i scan wait p = none

finalize_loop : LoopStage → ℕ → Process → Option Process
unfolding finalize_turn
finalize_loop (finalizing err) i p =
    let q = finalize_turn err p in some (record q { loops = set_loop q.loops i signalling })
finalize_loop _ i p = none

-- The send on cmdDone blocks while the channel holds a signal.
signal_loop : LoopStage → ℕ → Process → Option Process
signal_loop signalling i p =
    if p.cmd_done
    then none
    else some (record p { cmd_done = true; loops = set_loop p.loops i gone })
signal_loop _ i p = none

-- A receive from cmdDone, which blocks while the channel is empty.
abbrev receive : Process → (Process → Process) → Option Process
receive p next = if p.cmd_done then some (next (record p { cmd_done = false })) else none

send_step : SendStage → Action → Process → Option Process
unfolding send_blocks claim_replacement spawn_replacement fail_replacement reset_channels
    install_subprocess
send_step (sent err) (send_starts blocks_valid prepare write) p =
    some (send_blocks blocks_valid prepare write p)
send_step claiming (send_claims spawn) p = some (claim_replacement spawn p)
send_step awaiting_exit send_observes_exit p = receive p (λ q. record q { send = spawning })
send_step awaiting_exit send_cancelled p = some (record p { send = cancelled })
send_step cancelled send_fails p =
    receive p
      (λ q. record (fail_replacement (some context_done) q) { send = sent (some context_done) })
send_step spawning (send_spawns spawn) p = some (spawn_replacement spawn p)
send_step draining send_drains p = some (record p { cmd_done = false; send = resetting })
send_step resetting send_resets p = some (reset_channels p)
send_step installing send_installs p = some (record (install_subprocess p) { send = sent none })
send_step _ _ p = none

stop_step : StopStage → Action → Process → Option Process
stop_step not_called stop_starts p = some (record p { stopping = true; stop = awaiting_loop })
stop_step awaiting_loop stop_kills p = some (record p { stop = killed })
stop_step awaiting_loop stop_observes_exit p = receive p (λ q. record q { stop = awaiting_done })
stop_step killed stop_observes_exit p = receive p (λ q. record q { stop = awaiting_done })
stop_step awaiting_done stop_returns p =
    if p.closed then some (record p { stop = stopped p.term_err }) else none
stop_step _ _ p = none

-- `result_seen` is the store of false in enrichMessage.
pub step : Action → Process → Option Process
unfolding end_loop finalize_loop signal_loop send_step stop_step
step (loop_ends i scan wait) p = end_loop (get_loop p.loops i) i scan wait p
step (loop_finalizes i) p = finalize_loop (get_loop p.loops i) i p
step (loop_signals i) p = signal_loop (get_loop p.loops i) i p
step result_seen p = some (record p { awaiting_result = false })
step stop_starts p = stop_step p.stop stop_starts p
step stop_kills p = stop_step p.stop stop_kills p
step stop_observes_exit p = stop_step p.stop stop_observes_exit p
step stop_returns p = stop_step p.stop stop_returns p
step action p = send_step p.send action p

-- Err and Wait, which waits for `closed`.
pub err : Process → Option SessionError
err p = if p.closed then p.term_err else none

-- A schedule: each action has to be enabled where it stands.
pub run : List Action → Process → Option Process
run [] p = some p
run (a ∷ actions) p = elim (step a p) [ none ↦ none | some q ↦ run actions q ]

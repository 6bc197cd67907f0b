-- ===== src/Lifecycle/Sound.antt =====
-- What holds of a process whatever the schedule: no channel is closed twice, Err stays nil until the
-- end, and a replacement is installed on open channels only.
use agentrun.Prelude.{
  ℕ, ◌≡◌, refl, Bool, true, false, not, ◌&&◌, ◌||◌, Option, none, some, List, [], ◌∷◌, arith, subst,
  some_inj, has, Option-cases, inl, inr,
}
use agentrun.Process.{
  Process, Capabilities, SendStage, StopStage, LoopStage, ScanEnd, WaitResult, sent, claiming,
  awaiting_exit, cancelled, spawning, draining, resetting, installing, not_called, awaiting_loop,
  killed, awaiting_done, scanning, finalizing, signalling, new_process,
}
use agentrun.Lifecycle.{
  Action, loop_ends, loop_finalizes, loop_signals, result_seen, send_starts, send_claims,
  send_observes_exit, send_cancelled, send_fails, send_spawns, send_drains, send_resets,
  send_installs, stop_starts, stop_kills, stop_observes_exit, stop_returns, end_loop, finalize_loop,
  signal_loop, send_step, stop_step, step, run, get_loop,
}

-- The stages of Send between the claim of a replacement and its end.
abbrev pub is_replacing : SendStage → Bool
is_replacing awaiting_exit = true
is_replacing cancelled = true
is_replacing spawning = true
is_replacing _ = false

-- The stages in which Send has seen a clean end and has not yet made new channels.
abbrev pub is_resuming : SendStage → Bool
is_resuming draining = true
is_resuming resetting = true
is_resuming _ = false

pub record IsSound (p : Process) : Type 0 where
  pub once : p.finished ≡ p.closed
  pub quiet : (p.closed || not (has p.term_err)) ≡ true
  pub claimed : p.replacing ≡ is_replacing p.send
  pub open_while_replacing : (p.replacing && p.closed) ≡ false
  pub closed_while_resuming : (not (is_resuming p.send) || p.closed) ≡ true
  pub no_crash : p.crashed ≡ false

abbrev pub IfSome : (Process → Type 0) → Option Process → Type 0
IfSome P none = Unit
IfSome P (some p) = P p

finalize_loop-IsSound :
    (p : Process) (stage : LoopStage) (i : ℕ) → IsSound p → IfSome IsSound (finalize_loop stage i p)
unfolding finalize_loop
finalize_loop-IsSound p (finalizing e) i h = ground arith
finalize_loop-IsSound p _ i h = tt

send_step-IsSound :
    (p : Process) (stage : SendStage) (a : Action)
    → p.send ≡ stage
    → IsSound p
    → IfSome IsSound (send_step stage a p)
unfolding send_step
send_step-IsSound p (sent e) (send_starts valid prepare write) s h = ground arith
send_step-IsSound p claiming (send_claims spawn) s h = ground arith
send_step-IsSound p awaiting_exit send_observes_exit s h = ground arith
send_step-IsSound p awaiting_exit send_cancelled s h = ground arith
send_step-IsSound p cancelled send_fails s h = ground arith
send_step-IsSound p spawning (send_spawns spawn) s h = ground arith
send_step-IsSound p draining send_drains s h = ground arith
send_step-IsSound p resetting send_resets s h = ground arith
send_step-IsSound p installing send_installs s h = ground arith
send_step-IsSound p _ _ s h = tt

end_loop-IsSound :
    (p : Process) (stage : LoopStage) (i : ℕ) (scan : ScanEnd) (wait : WaitResult)
    → IsSound p
    → IfSome IsSound (end_loop stage i scan wait p)
unfolding end_loop
end_loop-IsSound p scanning i scan wait h = ground arith
end_loop-IsSound p _ i scan wait h = tt

signal_loop-IsSound :
    (p : Process) (stage : LoopStage) (i : ℕ) → IsSound p → IfSome IsSound (signal_loop stage i p)
unfolding signal_loop
signal_loop-IsSound p signalling i h = ground arith
signal_loop-IsSound p _ i h = tt

stop_step-IsSound :
    (p : Process) (stage : StopStage) (a : Action)
    → IsSound p
    → IfSome IsSound (stop_step stage a p)
unfolding stop_step
stop_step-IsSound p not_called stop_starts h = ground arith
stop_step-IsSound p awaiting_loop stop_kills h = ground arith
stop_step-IsSound p awaiting_loop stop_observes_exit h = ground arith
stop_step-IsSound p killed stop_observes_exit h = ground arith
stop_step-IsSound p awaiting_done stop_returns h = ground arith
stop_step-IsSound p _ _ h = tt

step-IsSound : (p : Process) (a : Action) → IsSound p → IfSome IsSound (step a p)
unfolding step
step-IsSound p (loop_ends i scan wait) h = end_loop-IsSound p (get_loop p.loops i) i scan wait h
step-IsSound p (loop_finalizes i) h = finalize_loop-IsSound p (get_loop p.loops i) i h
step-IsSound p (loop_signals i) h = signal_loop-IsSound p (get_loop p.loops i) i h
step-IsSound p result_seen h = ground arith
step-IsSound p stop_starts h = stop_step-IsSound p p.stop stop_starts h
step-IsSound p stop_kills h = stop_step-IsSound p p.stop stop_kills h
step-IsSound p stop_observes_exit h = stop_step-IsSound p p.stop stop_observes_exit h
step-IsSound p stop_returns h = stop_step-IsSound p p.stop stop_returns h
step-IsSound p a h = send_step-IsSound p p.send a refl h

pub run-IsSound :
    (p q : Process) (actions : List Action) → IsSound p → run actions p ≡ some q → IsSound q
unfolding run
run-IsSound p q [] h e = subst IsSound (some_inj e) h
run-IsSound p q (a ∷ actions) h e = elim (Option-cases (step a p)) [
  | inl blocked ↦ absurd (cc (rw (blocked, run) at e))
  | inr (r, stepped) ↦
      run-IsSound r q actions (subst (IfSome IsSound) stepped (step-IsSound p a h))
        (rw (stepped, run) at e)
]

pub new_process-IsSound : (caps : Capabilities) → IsSound (new_process caps)
unfolding new_process
new_process-IsSound caps = ground arith

-- Whatever schedule of a new process's goroutines comes about, no closed channel is closed again,
-- the terminal error is nil as long as the channels are open, and while a Send replaces the
-- subprocess they are open, so that the replacement never sends on channels closed before it.
pub run-safe :
    (caps : Capabilities) (actions : List Action) (p : Process)
    → run actions (new_process caps) ≡ some p
    → (p.crashed ≡ false)
      × ((p.closed || not (has p.term_err)) ≡ true)
      × ((is_replacing p.send && p.closed) ≡ false)
run-safe caps actions p e =
    ground (arith, run-IsSound (new_process caps) p actions (new_process-IsSound caps) e)

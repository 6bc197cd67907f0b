-- ===== src/Lifecycle/Halted.antt =====
-- What Stop leaves behind: channels that stay closed, and a terminal error that stays.
use agentrun.Prelude.{
  ℕ, ◌≡◌, true, Option, some, List, [], ◌∷◌, arith, subst, some_inj, Option-cases, inl, inr,
}
use agentrun.Process.{
  Process, Capabilities, SessionError, SendStage, StopStage, LoopStage, ScanEnd, WaitResult, sent,
  claiming, awaiting_exit, cancelled, spawning, draining, resetting, installing, not_called,
  awaiting_loop, killed, awaiting_done, scanning, finalizing, signalling, gone, new_process, at_end,
  no_error,
}
use agentrun.Lifecycle.{
  Action, loop_ends, loop_finalizes, loop_signals, result_seen, send_starts, send_claims,
  send_observes_exit, send_cancelled, send_fails, send_spawns, send_drains, send_resets,
  send_installs, stop_starts, stop_kills, stop_observes_exit, stop_returns, end_loop, finalize_loop,
  signal_loop, send_step, stop_step, step, run, err, get_loop,
}
use agentrun.Lifecycle.Sound.{IfSome, run-IsSound, new_process-IsSound}

-- Stopping and closed with the terminal error e.
record IsHalted (e : Option SessionError) (p : Process) : Type 0 where
  asked : p.stopping ≡ true
  shut : p.closed ≡ true
  ended : p.finished ≡ true
  reason : p.term_err ≡ e

send_step-IsHalted :
    (e : Option SessionError) (p : Process) (stage : SendStage) (a : Action)
    → IsHalted e p
    → IfSome (IsHalted e) (send_step stage a p)
unfolding send_step
send_step-IsHalted e p (sent err) (send_starts valid prepare write) h = ground arith
send_step-IsHalted e p claiming (send_claims spawn) h = ground arith
send_step-IsHalted e p awaiting_exit send_observes_exit h = ground arith
send_step-IsHalted e p awaiting_exit send_cancelled h = ground arith
send_step-IsHalted e p cancelled send_fails h = ground arith
send_step-IsHalted e p spawning (send_spawns spawn) h = ground arith
send_step-IsHalted e p draining send_drains h = ground arith
send_step-IsHalted e p resetting send_resets h = ground arith
send_step-IsHalted e p installing send_installs h = ground arith
send_step-IsHalted e p _ _ h = tt

loop_step-IsHalted :
    (e : Option SessionError) (p : Process) (stage : LoopStage) (i : ℕ) (scan : ScanEnd)
    (wait : WaitResult)
    → IsHalted e p
    → IfSome (IsHalted e) (end_loop stage i scan wait p)
      × IfSome (IsHalted e) (finalize_loop stage i p)
      × IfSome (IsHalted e) (signal_loop stage i p)
unfolding end_loop finalize_loop signal_loop
loop_step-IsHalted e p scanning i scan wait h = (ground arith, tt, tt)
loop_step-IsHalted e p (finalizing err) i scan wait h = (tt, ground arith, tt)
loop_step-IsHalted e p signalling i scan wait h = (tt, tt, ground arith)
loop_step-IsHalted e p gone i scan wait h = (tt, tt, tt)

stop_step-IsHalted :
    (e : Option SessionError) (p : Process) (stage : StopStage) (a : Action)
    → IsHalted e p
    → IfSome (IsHalted e) (stop_step stage a p)
unfolding stop_step
stop_step-IsHalted e p not_called stop_starts h = ground arith
stop_step-IsHalted e p awaiting_loop stop_kills h = ground arith
stop_step-IsHalted e p awaiting_loop stop_observes_exit h = ground arith
stop_step-IsHalted e p killed stop_observes_exit h = ground arith
stop_step-IsHalted e p awaiting_done stop_returns h = ground arith
stop_step-IsHalted e p _ _ h = tt

step-IsHalted :
    (e : Option SessionError) (p : Process) (a : Action)
    → IsHalted e p
    → IfSome (IsHalted e) (step a p)
unfolding step
step-IsHalted e p (loop_ends i scan wait) h =
    (loop_step-IsHalted e p (get_loop p.loops i) i scan wait h).0
step-IsHalted e p (loop_finalizes i) h =
    (loop_step-IsHalted e p (get_loop p.loops i) i at_end no_error h).1
step-IsHalted e p (loop_signals i) h =
    (loop_step-IsHalted e p (get_loop p.loops i) i at_end no_error h).2
step-IsHalted e p result_seen h = ground arith
step-IsHalted e p stop_starts h = stop_step-IsHalted e p p.stop stop_starts h
step-IsHalted e p stop_kills h = stop_step-IsHalted e p p.stop stop_kills h
step-IsHalted e p stop_observes_exit h = stop_step-IsHalted e p p.stop stop_observes_exit h
step-IsHalted e p stop_returns h = stop_step-IsHalted e p p.stop stop_returns h
step-IsHalted e p a h = send_step-IsHalted e p p.send a h

run-IsHalted :
    (e : Option SessionError) (p q : Process) (actions : List Action)
    → IsHalted e p
    → run actions p ≡ some q
    → IsHalted e q
unfolding run
run-IsHalted e p q [] h eq = subst (IsHalted e) (some_inj eq) h
run-IsHalted e p q (a ∷ actions) h eq = elim (Option-cases (step a p)) [
  | inl blocked ↦ absurd (cc (rw (blocked, run) at eq))
  | inr (r, stepped) ↦
      run-IsHalted e r q actions (subst (IfSome (IsHalted e)) stepped (step-IsHalted e p a h))
        (rw (stepped, run) at eq)
]

-- Once a process whose Stop has begun has closed its channels, they stay closed and Err stays what it
-- is, whatever the schedule: no Send that was under way opens them again.
pub run-halted :
    (caps : Capabilities) (before later : List Action) (p q : Process)
    → run before (new_process caps) ≡ some p
    → p.stopping ≡ true
    → p.closed ≡ true
    → run later p ≡ some q
    → (q.closed ≡ true) × (err q ≡ err p)
unfolding err
run-halted caps before later p q e s c f =
    let sound = run-IsSound (new_process caps) p before (new_process-IsSound caps) e in
    let start : IsHalted p.term_err p = ground arith in
    ground (arith, run-IsHalted p.term_err p q later start f)

-- ===== src/Lifecycle/Examples.antt =====
-- The theorems on process.go at concrete backends and schedules.
use agentrun.Prelude.{
  ◌≡◌, refl, true, false, not, ◌&&◌, ◌||◌, none, some, List, [], ◌∷◌, has, pos, bytes, length, keep,
  ◌≤◌,
}
use agentrun.Process.{
  Process, Capabilities, terminated, written, at_end, reader_failed, no_error, exited, sent,
  stopped, awaiting_loop, scanning, signalling, gone, new_process,
}
use agentrun.Lifecycle.{
  Action, send_cancelled, loop_ends, loop_finalizes, loop_signals, result_seen, send_starts,
  send_claims, send_observes_exit, send_spawns, stop_starts, stop_observes_exit, stop_returns, step,
  run, err, get_loop,
}
use agentrun.Lifecycle.Races.{
  Reaches, IfSome, IsDeadlocked, spawn_per_turn, stop_beside_send, late_signal,
  stop_beside_send-IsDeadlocked, late_signal-closes,
}
use agentrun.Lifecycle.Shutdown.{is_progress, Ends, stop_alone-returns}
use agentrun.Lifecycle.Sound.{is_replacing, run-safe}
use agentrun.Lifecycle.Halted.{run-halted}

-- The backend of the claude CLI in its default mode: it resumes.
abbrev claude : Capabilities
claude = spawn_per_turn true true

-- A replacement that takes the place of the first subprocess.
abbrev replacing : List Action
replacing =
    send_starts true none written
    ∷ send_claims none
    ∷ loop_ends 0 (reader_failed (bytes "read")) (exited (pos 1))
    ∷ loop_finalizes 0
    ∷ loop_signals 0
    ∷ send_observes_exit
    ∷ send_spawns none
    ∷ []

abbrev after_replacing : Process
after_replacing = record (new_process claude) { loops = scanning ∷ gone ∷ [] }

replacing-runs : run replacing (new_process claude) ≡ some after_replacing
unfolding run step new_process
replacing-runs = refl

-- A turn that ends cleanly beside a Stop.
abbrev stopping : List Action
stopping = result_seen ∷ stop_starts ∷ loop_ends 0 at_end no_error ∷ loop_finalizes 0 ∷ []

abbrev after_stopping : Process
after_stopping = record (new_process claude) {
  awaiting_result = false;
  stopping = true;
  stop = awaiting_loop;
  closed = true;
  finished = true;
  term_err = some terminated;
  loops = signalling ∷ [];
}

stopping-runs : run stopping (new_process claude) ≡ some after_stopping
unfolding run step new_process
stopping-runs = refl

-- The rest of that Stop, and a Send after it, which is refused.
abbrev returning : List Action
returning = loop_signals 0 ∷ stop_observes_exit ∷ stop_returns ∷ send_starts true none written ∷ []

abbrev after_returning : Process
after_returning = record after_stopping {
  stop = stopped (some terminated);
  send = sent (some terminated);
  loops = gone ∷ [];
}

returning-runs : run returning after_stopping ≡ some after_returning
unfolding run step new_process
returning-runs = refl

run-safe_example :
    (after_replacing.crashed ≡ false)
    × ((after_replacing.closed || not (has after_replacing.term_err)) ≡ true)
    × ((is_replacing after_replacing.send && after_replacing.closed) ≡ false)
run-safe_example = run-safe claude replacing after_replacing replacing-runs

run-halted_example : (after_returning.closed ≡ true) × (err after_returning ≡ err after_stopping)
run-halted_example =
    run-halted claude stopping returning after_stopping after_returning stopping-runs refl refl
      returning-runs

stop_beside_send-IsDeadlocked_example :
    Reaches
      (λ d. IfSome IsDeadlocked (run (send_cancelled ∷ []) d))
      (run (stop_beside_send at_end no_error) (new_process (spawn_per_turn true true)))
stop_beside_send-IsDeadlocked_example =
    stop_beside_send-IsDeadlocked true true at_end no_error (send_cancelled ∷ [])

late_signal-closes_example :
    Reaches
      (λ p.
        (p.send ≡ sent none)
        × (p.closed ≡ false)
        × (p.loops ≡ scanning ∷ scanning ∷ gone ∷ [])
        × Reaches
            (λ q. (q.closed ≡ true) × (get_loop q.loops 0 ≡ scanning))
            (run (loop_ends 1 at_end (exited (pos 1)) ∷ loop_finalizes 1 ∷ []) p))
      (run late_signal (new_process (spawn_per_turn true false)))
late_signal-closes_example = late_signal-closes true false at_end (exited (pos 1))

stop_alone-returns_example :
    (length (keep is_progress stopping) ≤ 7)
    × Ends at_end no_error after_stopping.stop after_stopping
stop_alone-returns_example =
    stop_alone-returns claude stopping after_stopping at_end no_error
      (refl, (refl, (refl, (refl, tt)))) stopping-runs refl

-- ===== src/Lifecycle/Races.antt =====
-- Schedules that go wrong: a Stop beside a replacing Send, and a late signal of an old read loop.
use agentrun.Prelude.{
  ℕ, zero, suc, ◌≡◌, refl, Bool, true, false, Option, none, some, List, [], ◌∷◌, arith, subst, All,
  Option-cases, inl, inr,
}
use agentrun.Process.{
  Process, Capabilities, SendStage, StopStage, LoopStage, written, ScanEnd, at_end, WaitResult,
  no_error, sent, awaiting_exit, cancelled, awaiting_done, scanning, gone, new_process,
}
use agentrun.Lifecycle.{
  Action, loop_ends, loop_finalizes, loop_signals, result_seen, send_starts, send_claims,
  send_observes_exit, send_cancelled, send_fails, send_spawns, send_drains, send_resets,
  send_installs, stop_starts, stop_kills, stop_observes_exit, stop_returns, send_step, stop_step,
  end_loop, finalize_loop, signal_loop, step, run, get_loop,
}

-- A backend that spawns a subprocess for each turn: it resumes and does not stream.
abbrev pub spawn_per_turn : Bool → Bool → Capabilities
spawn_per_turn formatter block_formatter = record {
  resumer = true;
  streamer = false;
  formatter = formatter;
  block_formatter = block_formatter;
}

-- Send claims the replacement, Stop is called, the read loop ends, and Stop takes its signal.
pub stop_beside_send : ScanEnd → WaitResult → List Action
stop_beside_send scan wait =
    send_starts true none written
    ∷ send_claims none
    ∷ stop_starts
    ∷ loop_ends 0 scan wait
    ∷ loop_finalizes 0
    ∷ loop_signals 0
    ∷ stop_observes_exit
    ∷ []

abbrev is_waiting : SendStage → Bool
is_waiting awaiting_exit = true
is_waiting cancelled = true
is_waiting _ = false

-- Send waits for a signal that no loop is left to send, and Stop for a close that Send would make.
pub record IsDeadlocked (p : Process) : Type 0 where
  pub no_loop : All (λ l. l ≡ gone) p.loops
  pub no_signal : p.cmd_done ≡ false
  pub never_closed : p.closed ≡ false
  pub send_waits : is_waiting p.send ≡ true
  pub stop_waits : p.stop ≡ awaiting_done

-- The schedule runs, and P holds behind it.
abbrev pub Reaches : (Process → Type 0) → Option Process → Type 0
Reaches P none = ⊥
Reaches P (some p) = P p

abbrev pub IfSome : (Process → Type 0) → Option Process → Type 0
IfSome P none = Unit
IfSome P (some p) = P p

get_loop-gone :
    (loops : List LoopStage) (i : ℕ) → All (λ l. l ≡ gone) loops → get_loop loops i ≡ gone
get_loop-gone [] i h = refl
get_loop-gone (l ∷ ls) zero h = h.0
get_loop-gone (l ∷ ls) (suc i) h = get_loop-gone ls i h.1

send_step-IsDeadlocked :
    (p : Process) (stage : SendStage) (a : Action)
    → p.send ≡ stage
    → IsDeadlocked p
    → IfSome IsDeadlocked (send_step stage a p)
unfolding send_step
send_step-IsDeadlocked p awaiting_exit send_observes_exit s h = ground (arith, h)
send_step-IsDeadlocked p awaiting_exit send_cancelled s h = ground (arith, h)
send_step-IsDeadlocked p cancelled send_fails s h = ground (arith, h)
send_step-IsDeadlocked p _ _ s h = ground (arith, h)

stop_step-IsDeadlocked :
    (p : Process) (stage : StopStage) (a : Action)
    → p.stop ≡ stage
    → IsDeadlocked p
    → IfSome IsDeadlocked (stop_step stage a p)
unfolding stop_step
stop_step-IsDeadlocked p awaiting_done stop_returns s h = ground (arith, h)
stop_step-IsDeadlocked p _ _ s h = ground (arith, h)

loop_step-IsDeadlocked :
    (p : Process) (i : ℕ) (scan : ScanEnd) (wait : WaitResult)
    → IsDeadlocked p
    → (end_loop (get_loop p.loops i) i scan wait p ≡ none)
      × (finalize_loop (get_loop p.loops i) i p ≡ none)
      × (signal_loop (get_loop p.loops i) i p ≡ none)
unfolding end_loop finalize_loop signal_loop
loop_step-IsDeadlocked p i scan wait h =
    let over = get_loop-gone p.loops i h.no_loop in rw over (refl, refl, refl)

step-IsDeadlocked : (p : Process) (a : Action) → IsDeadlocked p → IfSome IsDeadlocked (step a p)
unfolding step
step-IsDeadlocked p (loop_ends i scan wait) h = rw ((loop_step-IsDeadlocked p i scan wait h).0) tt
step-IsDeadlocked p (loop_finalizes i) h = rw ((loop_step-IsDeadlocked p i at_end no_error h).1) tt
step-IsDeadlocked p (loop_signals i) h = rw ((loop_step-IsDeadlocked p i at_end no_error h).2) tt
step-IsDeadlocked p result_seen h = ground (arith, h)
step-IsDeadlocked p stop_starts h = stop_step-IsDeadlocked p p.stop stop_starts refl h
step-IsDeadlocked p stop_kills h = stop_step-IsDeadlocked p p.stop stop_kills refl h
step-IsDeadlocked p stop_observes_exit h = stop_step-IsDeadlocked p p.stop stop_observes_exit refl h
step-IsDeadlocked p stop_returns h = stop_step-IsDeadlocked p p.stop stop_returns refl h
step-IsDeadlocked p a h = send_step-IsDeadlocked p p.send a refl h

run-IsDeadlocked :
    (p : Process) (actions : List Action) → IsDeadlocked p → IfSome IsDeadlocked (run actions p)
unfolding run
run-IsDeadlocked p [] h = h
run-IsDeadlocked p (a ∷ actions) h = elim (Option-cases (step a p)) [
  | inl blocked ↦ rw (blocked, run) tt
  | inr (r, stepped) ↦
      rw (stepped, run)
        (run-IsDeadlocked r actions (subst (IfSome IsDeadlocked) stepped (step-IsDeadlocked p a h)))
]

-- With a backend that spawns a subprocess per turn, a Stop beside a Send that has claimed the
-- replacement can take the signal of the read loop that the Send waits for. Both are then stuck for
-- good: whatever the schedule after that, Send waits for the signal, Stop for the close of the
-- channels, no read loop is left, and the channels are open.
pub stop_beside_send-IsDeadlocked :
    (f b : Bool) (scan : ScanEnd) (wait : WaitResult) (later : List Action)
    → Reaches
        (λ d. IfSome IsDeadlocked (run later d))
        (run (stop_beside_send scan wait) (new_process (spawn_per_turn f b)))
unfolding run stop_beside_send step new_process
stop_beside_send-IsDeadlocked f b scan wait later = run-IsDeadlocked _ later (record {
  no_loop = (refl, tt);
  no_signal = refl;
  never_closed = refl;
  send_waits = refl;
  stop_waits = refl;
})

-- A clean end of the first turn, a Send that resumes before the old loop has signalled, and a second
-- Send whose replacement takes that late signal for the end of its subprocess.
pub late_signal : List Action
late_signal =
    result_seen
    ∷ loop_ends 0 at_end no_error
    ∷ loop_finalizes 0
    ∷ send_starts true none written
    ∷ send_drains
    ∷ send_resets
    ∷ send_installs
    ∷ loop_signals 1
    ∷ send_starts true none written
    ∷ send_claims none
    ∷ send_observes_exit
    ∷ send_spawns none
    ∷ []

-- With a backend that spawns a subprocess per turn, a resume after a clean end can drain the signal
-- channel before the old read loop has signalled. The next replacement takes that signal for the
-- end of its subprocess: Send succeeds while two read loops scan, and when the older one ends
-- with whatever result, it closes the channels under the newer one.
pub late_signal-closes :
    (f b : Bool) (scan : ScanEnd) (wait : WaitResult)
    → Reaches
        (λ p.
          (p.send ≡ sent none)
          × (p.closed ≡ false)
          × (p.loops ≡ scanning ∷ scanning ∷ gone ∷ [])
          × Reaches
              (λ q. (q.closed ≡ true) × (get_loop q.loops 0 ≡ scanning))
              (run (loop_ends 1 scan wait ∷ loop_finalizes 1 ∷ []) p))
        (run late_signal (new_process (spawn_per_turn f b)))
unfolding run late_signal step new_process
late_signal-closes f b scan wait = (refl, refl, refl, (refl, refl))

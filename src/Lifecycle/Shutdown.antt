-- ===== src/Lifecycle/Shutdown.antt =====
-- How a Stop ends when nobody sends beside it.
use agentrun.Prelude.{
  ℕ, zero, suc, ◌+◌, ◌≤◌, ◌≡◌, refl, ap, subst, Bool, true, false, not, ◌&&◌, ◌||◌, some, some_inj,
  List, [], ◌∷◌, All, arith, has, keep, length, Option-cases, inl, inr, sym, if◌then◌else◌,
}
use agentrun.Process.{
  Capabilities, ScanEnd, WaitResult, LoopStage, StopStage, Process, new_process, scanning,
  finalizing, signalling, gone, not_called, awaiting_loop, killed, awaiting_done, stopped,
  exit_reason, finalize_turn, at_end, no_error,
}
use agentrun.Lifecycle.{
  Action, loop_ends, loop_finalizes, loop_signals, result_seen, stop_starts, stop_kills,
  stop_observes_exit, stop_returns, end_loop, finalize_loop, signal_loop, stop_step, step, run, err,
  get_loop,
}
use agentrun.Lifecycle.Sound.{IfSome}

-- An action of a read loop or of Stop.
abbrev pub is_quiet : Action → Bool
is_quiet (loop_ends i scan wait) = true
is_quiet (loop_finalizes i) = true
is_quiet (loop_signals i) = true
is_quiet result_seen = true
is_quiet stop_starts = true
is_quiet stop_kills = true
is_quiet stop_observes_exit = true
is_quiet stop_returns = true
is_quiet _ = false

-- All actions but the sight of a result, which may come about any number of times.
abbrev pub is_progress : Action → Bool
is_progress result_seen = false
is_progress _ = true

abbrev pub is_called : StopStage → Bool
is_called not_called = false
is_called _ = true

abbrev has_taken : StopStage → Bool
has_taken awaiting_done = true
has_taken (stopped e) = true
has_taken _ = false

abbrev is_final : LoopStage → Bool
is_final signalling = true
is_final gone = true
is_final _ = false

abbrev is_gone : LoopStage → Bool
is_gone gone = true
is_gone _ = false

-- How many actions are left to a read loop, and to Stop.
abbrev loop_rank : LoopStage → ℕ
loop_rank scanning = 3
loop_rank (finalizing e) = 2
loop_rank signalling = 1
loop_rank gone = 0

abbrev stop_rank : StopStage → ℕ
stop_rank not_called = 4
stop_rank awaiting_loop = 3
stop_rank killed = 2
stop_rank awaiting_done = 1
stop_rank (stopped e) = 0

-- What Stop returned is the terminal error.
abbrev Returned : StopStage → Process → Type 0
Returned (stopped e) p = e ≡ p.term_err
Returned _ p = Unit

-- One read loop, which stands at l, and nobody who replaces it.
record IsAlone (l : LoopStage) (p : Process) : Type 0 where
  loop : p.loops ≡ l ∷ []
  unclaimed : p.replacing ≡ false
  signal : p.cmd_done ≡ (is_gone l && not (has_taken p.stop))
  shut : p.closed ≡ is_final l
  finished : p.finished ≡ is_final l
  taken : (not (has_taken p.stop) || is_gone l) ≡ true
  returned : Returned p.stop p

-- Such a state behind k actions, with at most n in all.
abbrev Left : ℕ → ℕ → Process → Type 0
Left k n p = (l : LoopStage) × IsAlone l p × (k + (loop_rank l + stop_rank p.stop) ≤ n)

untaken-Returned : (s : StopStage) (p : Process) → has_taken s ≡ false → Returned s p
untaken-Returned (stopped e) p h = absurd (cc h)
untaken-Returned _ p h = tt

loop_step-Left :
    (p : Process) (l : LoopStage) (k n : ℕ) (scan : ScanEnd) (wait : WaitResult)
    → IsAlone l p
    → k + (loop_rank l + stop_rank p.stop) ≤ n
    → IfSome (Left (suc k) n) (end_loop l 0 scan wait p)
      × IfSome (Left (suc k) n) (finalize_loop l 0 p)
      × IfSome (Left (suc k) n) (signal_loop l 0 p)
unfolding end_loop finalize_loop signal_loop finalize_turn
loop_step-Left p scanning k n scan wait h less = (
  (
    finalizing (exit_reason scan wait p.awaiting_result p.stopping),
    record {
      loop = ground (arith, h.loop);
      unclaimed = ground (arith, h.unclaimed);
      signal = ground arith;
      shut = ground arith;
      finished = ground arith;
      taken = ground arith;
      returned = untaken-Returned p.stop _ (ground arith);
    },
    omega arith,
  ),
  tt,
  tt,
)
loop_step-Left p (finalizing e) k n scan wait h less = (
  tt,
  (
    signalling,
    record {
      loop = ground (arith, h.loop);
      unclaimed = ground (arith, h.unclaimed);
      signal = ground arith;
      shut = ground arith;
      finished = ground arith;
      taken = ground arith;
      returned = untaken-Returned (finalize_turn e p).stop _ (ground arith);
    },
    ground arith,
  ),
  tt,
)
loop_step-Left p signalling k n scan wait h less = ground arith
loop_step-Left p gone k n scan wait h less = (tt, tt, tt)

stop_step-Left :
    (p : Process) (l : LoopStage) (s : StopStage) (k n : ℕ) (a : Action)
    → p.stop ≡ s
    → IsAlone l p
    → k + (loop_rank l + stop_rank s) ≤ n
    → IfSome (Left (suc k) n) (stop_step s a p)
unfolding stop_step
stop_step-Left p l not_called k n stop_starts e h less = (l, ground arith, ground arith)
stop_step-Left p l awaiting_loop k n stop_kills e h less = (l, ground arith, ground arith)
stop_step-Left p l awaiting_loop k n stop_observes_exit e h less = ground arith
stop_step-Left p l killed k n stop_observes_exit e h less = ground arith
stop_step-Left p l awaiting_done k n stop_returns e h less = ground arith
stop_step-Left p l _ k n a e h less = tt

abbrev count : Action → ℕ → ℕ
count a k = if is_progress a then suc k else k

first_loop : (p : Process) (l : LoopStage) → IsAlone l p → get_loop p.loops 0 ≡ l
first_loop p l h = ap (λ ls. get_loop ls 0) h.loop

no_loop : (p : Process) (l : LoopStage) (i : ℕ) → IsAlone l p → get_loop p.loops (suc i) ≡ gone
no_loop p l i h = ap (λ ls. get_loop ls (suc i)) h.loop

step-Left :
    (a : Action) (p : Process) (k n : ℕ)
    → is_quiet a ≡ true
    → Left k n p
    → IfSome (Left (count a k) n) (step a p)
unfolding step
step-Left (loop_ends zero scan wait) p k n quiet (l, h, less) =
    subst (λ s. IfSome (Left (suc k) n) (end_loop s 0 scan wait p)) (sym (first_loop p l h))
      (loop_step-Left p l k n scan wait h less).0
step-Left (loop_ends (suc i) scan wait) p k n quiet (l, h, less) =
    subst (λ s. IfSome (Left (suc k) n) (end_loop s (suc i) scan wait p)) (sym (no_loop p l i h)) tt
step-Left (loop_finalizes zero) p k n quiet (l, h, less) =
    subst (λ s. IfSome (Left (suc k) n) (finalize_loop s 0 p)) (sym (first_loop p l h))
      (loop_step-Left p l k n at_end no_error h less).1
step-Left (loop_finalizes (suc i)) p k n quiet (l, h, less) =
    subst (λ s. IfSome (Left (suc k) n) (finalize_loop s (suc i) p)) (sym (no_loop p l i h)) tt
step-Left (loop_signals zero) p k n quiet (l, h, less) =
    subst (λ s. IfSome (Left (suc k) n) (signal_loop s 0 p)) (sym (first_loop p l h))
      (loop_step-Left p l k n at_end no_error h less).2
step-Left (loop_signals (suc i)) p k n quiet (l, h, less) =
    subst (λ s. IfSome (Left (suc k) n) (signal_loop s (suc i) p)) (sym (no_loop p l i h)) tt
step-Left result_seen p k n quiet (l, h, less) = (l, ground (arith, h), less)
step-Left stop_starts p k n quiet (l, h, less) =
    stop_step-Left p l p.stop k n stop_starts refl h less
step-Left stop_kills p k n quiet (l, h, less) = stop_step-Left p l p.stop k n stop_kills refl h less
step-Left stop_observes_exit p k n quiet (l, h, less) =
    stop_step-Left p l p.stop k n stop_observes_exit refl h less
step-Left stop_returns p k n quiet (l, h, less) =
    stop_step-Left p l p.stop k n stop_returns refl h less
step-Left a p k n quiet left = absurd (cc quiet)

run-Left :
    (actions : List Action) (p q : Process) (k n : ℕ)
    → All (λ a. is_quiet a ≡ true) actions
    → Left k n p
    → run actions p ≡ some q
    → (l : LoopStage) × IsAlone l q
      × (length (keep is_progress actions) + (k + (loop_rank l + stop_rank q.stop)) ≤ n)
unfolding run
run-Left [] p q k n quiet left e =
    let (l, h, less) = subst (Left k n) (some_inj e) left in (l, h, omega arith)
run-Left (a ∷ actions) p q k n quiet left e = elim (Option-cases (step a p)) [
  | inl blocked ↦ absurd (cc (rw (blocked, run) at e))
  | inr (r, stepped) ↦
      let there : Left (count a k) n r =
        subst (IfSome (Left (count a k) n)) stepped (step-Left a p k n quiet.0 left) in
      let (l, h, less) =
        run-Left actions r q (count a k) n quiet.1 there (rw (stepped, run) at e) in
      (l, h, ground arith)
]

-- What Stop has come to: it has returned what Err says from then on, with the channels closed and no
-- read loop left, or one of the goroutines can go on.
abbrev pub Ends : ScanEnd → WaitResult → StopStage → Process → Type 0
Ends scan wait (stopped e) p = (e ≡ err p) × (p.closed ≡ true) × (p.loops ≡ gone ∷ [])
Ends scan wait _ p =
    (has (step (loop_ends 0 scan wait) p)
      || (has (step (loop_finalizes 0) p)
          || (has (step (loop_signals 0) p)
              || (has (step stop_observes_exit p) || has (step stop_returns p)))))
    ≡ true

abbrev is_under_way : StopStage → Bool
is_under_way awaiting_loop = true
is_under_way killed = true
is_under_way awaiting_done = true
is_under_way _ = false

goes_on :
    (scan : ScanEnd) (wait : WaitResult) (p : Process) (l : LoopStage) (s : StopStage)
    → p.stop ≡ s
    → is_under_way s ≡ true
    → IsAlone l p
    → (has (end_loop l 0 scan wait p)
        || (has (finalize_loop l 0 p)
            || (has (signal_loop l 0 p)
                || (has (stop_step s stop_observes_exit p) || has (stop_step s stop_returns p)))))
      ≡ true
unfolding end_loop finalize_loop signal_loop stop_step
goes_on scan wait p scanning s e way h = refl
goes_on scan wait p (finalizing err) s e way h = refl
goes_on scan wait p signalling s e way h = ground arith
goes_on scan wait p gone awaiting_loop e way h = ground arith
goes_on scan wait p gone killed e way h = ground arith
goes_on scan wait p gone awaiting_done e way h = ground arith
goes_on scan wait p gone not_called e way h = absurd (cc way)
goes_on scan wait p gone (stopped ret) e way h = absurd (cc way)

alone-Ends :
    (scan : ScanEnd) (wait : WaitResult) (p : Process) (l : LoopStage) (s : StopStage)
    → p.stop ≡ s
    → is_called s ≡ true
    → IsAlone l p
    → Ends scan wait s p
unfolding step err
alone-Ends scan wait p l not_called e called h = absurd (cc called)
alone-Ends scan wait p gone (stopped ret) e called h =
    (ground (arith, h.returned, h.shut), h.shut, h.loop)
alone-Ends scan wait p l (stopped ret) e called h = ground (arith, h.taken)
alone-Ends scan wait p l awaiting_loop e called h =
    simp (first_loop p l h, e) (goes_on scan wait p l awaiting_loop e refl h)
alone-Ends scan wait p l killed e called h =
    simp (first_loop p l h, e) (goes_on scan wait p l killed e refl h)
alone-Ends scan wait p l awaiting_done e called h =
    simp (first_loop p l h, e) (goes_on scan wait p l awaiting_done e refl h)

-- If nobody sends, then whatever the order in which the read loop, its subprocess and Stop go on, there
-- are at most seven actions but the sights of results; and a Stop that was called has returned, with
-- the error that Err says, the channels closed and no read loop left, or one of the actions of the
-- read loop and of Stop can happen, where the end of a loop that still scans is one of them.
pub stop_alone-returns :
    (caps : Capabilities) (actions : List Action) (p : Process) (scan : ScanEnd) (wait : WaitResult)
    → All (λ a. is_quiet a ≡ true) actions
    → run actions (new_process caps) ≡ some p
    → is_called p.stop ≡ true
    → (length (keep is_progress actions) ≤ 7) × Ends scan wait p.stop p
unfolding new_process
stop_alone-returns caps actions p scan wait quiet e called =
    let start : IsAlone scanning (new_process caps) = record {
      loop = refl;
      unclaimed = refl;
      signal = refl;
      shut = refl;
      finished = refl;
      taken = refl;
      returned = tt;
    } in
    let (l, h, less) =
      run-Left actions (new_process caps) p 0 7 quiet (scanning, start, omega arith) e in
    (omega arith, alone-Ends scan wait p l p.stop refl called h)

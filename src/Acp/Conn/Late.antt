-- ===== src/Acp/Conn/Late.antt =====
-- A call that is made after ReadLoop has ended.
use agentrun.Prelude.{
  ℕ, suc, ◌≡◌, refl, Bool, true, false, Option, none, some, List, ◌∷◌, arith, subst,
}
use agentrun.Acp.Conn.{
  Channel, empty, closed, holds, responds, connection_closed, CallStage, idle, registered, waiting,
  expiring, returned, LoopStage, ended, Conn, Action, call_starts, call_sends, call_receives,
  call_expires, call_drains, loop_takes, loop_delivers, loop_ends, new_conn, start_call,
  send_request, receive, await_response, expire, drain_or_give_up, drain_channel, take_response,
  deliver, end_loop, step, run,
}
use agentrun.Acp.Conn.Sound.{is_empty_channel, run-invariant, run-IsSoundAt}

module _ {ℓ} {R : Type ℓ} where
  -- A call that has not been told that the connection is closed, nor been given a response.
  abbrev pub is_unanswered : CallStage R → Bool
  is_unanswered (returned (responds r)) = false
  is_unanswered (returned connection_closed) = false
  is_unanswered _ = true

  record IsStranded (j : ℕ) (c : Conn R) : Type ℓ where
    over : c.loop ≡ ended
    nothing : is_empty_channel (c.channel j) ≡ true
    unanswered : is_unanswered (c.stage j) ≡ true

  abbrev IfSome : (Conn R → Type ℓ) → Option (Conn R) → Type ℓ
  IfSome P none = Unit
  IfSome P (some c) = P c

  receive-IsStranded :
      (j i : ℕ) (c : Conn R) (ch : Channel R)
      → c.channel i ≡ ch
      → IsStranded j c
      → IfSome (IsStranded j) (receive ch i c) × IsStranded j (drain_or_give_up ch i c)
  unfolding receive drain_or_give_up
  receive-IsStranded j i c empty e h = (tt, ground arith)
  receive-IsStranded j i c closed e h = (ground arith, ground arith)
  receive-IsStranded j i c (holds r) e h = (ground arith, ground arith)

  call_step-IsStranded :
      (j i : ℕ) (c : Conn R) (s : CallStage R) (ok : Bool)
      → c.stage i ≡ s
      → IsStranded j c
      → IfSome (IsStranded j) (send_request s i ok c)
        × IfSome (IsStranded j) (await_response s i c)
        × IfSome (IsStranded j) (expire s i c)
        × IfSome (IsStranded j) (drain_channel s i c)
  unfolding send_request await_response expire drain_channel
  call_step-IsStranded j i c registered true e h = (ground arith, tt, tt, tt)
  call_step-IsStranded j i c registered false e h = (ground arith, tt, tt, tt)
  call_step-IsStranded j i c waiting ok e h =
      (tt, (receive-IsStranded j i c (c.channel i) refl h).0, ground arith, tt)
  call_step-IsStranded j i c expiring ok e h =
      (tt, tt, tt, (receive-IsStranded j i c (c.channel i) refl h).1)
  call_step-IsStranded j i c idle ok e h = (tt, tt, tt, tt)
  call_step-IsStranded j i c (returned o) ok e h = (tt, tt, tt, tt)

  loop_step-IsStranded :
      (j i : ℕ) (r : R) (c : Conn R) (l : LoopStage R)
      → l ≡ ended
      → IsStranded j c
      → (take_response l i r c ≡ none) × (deliver l c ≡ none) × (end_loop l c ≡ none)
  unfolding take_response deliver end_loop
  loop_step-IsStranded j i r c l e h = rw e (refl, refl, refl)

  step-IsStranded :
      (j : ℕ) (a : Action R) (c : Conn R) → IsStranded j c → IfSome (IsStranded j) (step a c)
  unfolding step start_call deliver end_loop
  step-IsStranded j call_starts c h = ground arith
  step-IsStranded j (call_sends i ok) c h = (call_step-IsStranded j i c (c.stage i) ok refl h).0
  step-IsStranded j (call_receives i) c h = (call_step-IsStranded j i c (c.stage i) true refl h).1
  step-IsStranded j (call_expires i) c h = (call_step-IsStranded j i c (c.stage i) true refl h).2
  step-IsStranded j (call_drains i) c h = (call_step-IsStranded j i c (c.stage i) true refl h).3
  step-IsStranded j (loop_takes i r) c h = rw ((loop_step-IsStranded j i r c c.loop h.over h).0) tt
  step-IsStranded j loop_delivers c h = rw h.over tt
  step-IsStranded j loop_ends c h = rw h.over tt

  blocked_receive :
      (c : Conn R) (s : CallStage R) (ch : Channel R) (j : ℕ)
      → c.channel j ≡ ch
      → is_empty_channel ch ≡ true
      → await_response s j c ≡ none
  unfolding await_response receive
  blocked_receive c s ch j e h = ground arith

  -- A call that is made after ReadLoop has ended is never told so: whatever comes about then, it gets no
  -- response and not the error for a closed connection, and what is left to it is the error of its
  -- send or the end of its context.
  pub run-late :
      (before later : List (Action R)) (c d : Conn R)
      → run before new_conn ≡ some c
      → c.loop ≡ ended
      → run (call_starts ∷ later) c ≡ some d
      → (is_unanswered (d.stage (suc c.next_id)) ≡ true)
        × (step (call_receives (suc c.next_id)) d ≡ none)
  unfolding run step start_call
  run-late before later c d e over f =
      let id : ℕ = suc c.next_id in
      let new = run-IsSoundAt before c id e in
      let start : IsStranded id (start_call c) = ground arith in
      let stranded : IsStranded id d =
        run-invariant (IsStranded id)
          (λ a b x h stepped. subst (IfSome (IsStranded id)) stepped (step-IsStranded id a b h))
          later (start_call c) d start f in
      (stranded.unanswered, blocked_receive d (d.stage id) (d.channel id) id refl stranded.nothing)

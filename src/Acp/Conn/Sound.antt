-- ===== src/Acp/Conn/Sound.antt =====
-- The invariant of a connection: who may write to the channel of a call, and when.
use agentrun.Prelude.{
  ℕ, suc, ◌==◌, ◌≡◌, refl, Bool, true, false, ◌&&◌, ◌||◌, not, Option, none, some, List, [], ◌∷◌,
  arith, subst, some_inj, Option-cases, inl, inr, ltb,
}
use agentrun.Acp.Conn.{
  Channel, empty, closed, holds, CallStage, idle, registered, waiting, expiring, LoopStage, reading,
  delivering, Conn, Action, call_starts, call_sends, call_receives, call_expires, call_drains,
  loop_takes, loop_delivers, loop_ends, new_conn, start_call, send_request, receive, await_response,
  expire, drain_or_give_up, drain_channel, take_response, put_response, deliver, end_loop, step,
  run,
}

module _ {ℓ} {R : Type ℓ} where
  abbrev pub is_empty_channel : Channel R → Bool
  is_empty_channel empty = true
  is_empty_channel _ = false

  abbrev pub is_idle : CallStage R → Bool
  is_idle idle = true
  is_idle _ = false

  -- Before its outcome is decided, a call can still be given a response.
  abbrev pub is_open : CallStage R → Bool
  is_open registered = true
  is_open waiting = true
  is_open _ = false

  abbrev pub delivers_to : LoopStage R → ℕ → Bool
  delivers_to (delivering i r) j = i == j
  delivers_to _ j = false

  abbrev pub is_delivering : LoopStage R → Bool
  is_delivering (delivering i r) = true
  is_delivering _ = false

  abbrev pub is_waiting : CallStage R → Bool
  is_waiting waiting = true
  is_waiting _ = false

  abbrev pub is_registered : CallStage R → Bool
  is_registered registered = true
  is_registered _ = false

  pub record IsSoundAt (c : Conn R) (j : ℕ) : Type 0 where
    pub unused :
        (not (ltb c.next_id j)
          || (is_idle (c.stage j) && (not (c.pending j) && not (delivers_to c.loop j))))
        ≡ true
    pub made : ((c.pending j || delivers_to c.loop j) && is_idle (c.stage j)) ≡ false
    pub one_writer : (c.pending j && delivers_to c.loop j) ≡ false
    pub unwritten :
        (not (c.pending j || delivers_to c.loop j || is_idle (c.stage j))
          || is_empty_channel (c.channel j))
        ≡ true
    pub answerable :
        (not (is_open (c.stage j))
          || (c.pending j || (delivers_to c.loop j || not (is_empty_channel (c.channel j)))))
        ≡ true

  abbrev pub IfSome : (Conn R → Type 0) → Option (Conn R) → Type 0
  IfSome P none = Unit
  IfSome P (some c) = P c

  send_request-IsSoundAt :
      (c : Conn R) (s : CallStage R) (i j : ℕ) (ok : Bool)
      → c.stage i ≡ s
      → IsSoundAt c i
      → IsSoundAt c j
      → IfSome (λ d. IsSoundAt d j) (send_request s i ok c)
  unfolding send_request
  send_request-IsSoundAt c registered i j true e h k = ground arith
  send_request-IsSoundAt c registered i j false e h k = ground arith
  send_request-IsSoundAt c _ i j ok e h k = tt

  start_call-IsSoundAt :
      (c : Conn R) (j : ℕ)
      → IsSoundAt c (suc c.next_id)
      → IsSoundAt c j
      → IsSoundAt (start_call c) j
  unfolding start_call
  start_call-IsSoundAt c j h k = ground arith

  receive-IsSoundAt :
      (c : Conn R) (ch : Channel R) (i j : ℕ)
      → c.channel i ≡ ch
      → c.stage i ≡ waiting
      → IsSoundAt c i
      → IsSoundAt c j
      → IfSome (λ d. IsSoundAt d j) (receive ch i c)
  unfolding receive
  receive-IsSoundAt c empty i j e w h k = tt
  receive-IsSoundAt c closed i j e w h k = ground arith
  receive-IsSoundAt c (holds r) i j e w h k = ground arith

  drain_or_give_up-IsSoundAt :
      (c : Conn R) (ch : Channel R) (i j : ℕ)
      → c.channel i ≡ ch
      → c.stage i ≡ expiring
      → IsSoundAt c i
      → IsSoundAt c j
      → IsSoundAt (drain_or_give_up ch i c) j
  unfolding drain_or_give_up
  drain_or_give_up-IsSoundAt c empty i j e w h k = ground arith
  drain_or_give_up-IsSoundAt c closed i j e w h k = ground arith
  drain_or_give_up-IsSoundAt c (holds r) i j e w h k = ground arith

  call_step-IsSoundAt :
      (c : Conn R) (s : CallStage R) (i j : ℕ)
      → c.stage i ≡ s
      → IsSoundAt c i
      → IsSoundAt c j
      → IfSome (λ d. IsSoundAt d j) (await_response s i c)
        × IfSome (λ d. IsSoundAt d j) (expire s i c)
        × IfSome (λ d. IsSoundAt d j) (drain_channel s i c)
  unfolding await_response expire drain_channel
  call_step-IsSoundAt c waiting i j e h k =
      (receive-IsSoundAt c (c.channel i) i j refl e h k, ground arith, tt)
  call_step-IsSoundAt c expiring i j e h k =
      (tt, tt, drain_or_give_up-IsSoundAt c (c.channel i) i j refl e h k)
  call_step-IsSoundAt c _ i j e h k = (tt, tt, tt)

  take_response-IsSoundAt :
      (c : Conn R) (l : LoopStage R) (i j : ℕ) (r : R)
      → c.loop ≡ l
      → IsSoundAt c i
      → IsSoundAt c j
      → IfSome (λ d. IsSoundAt d j) (take_response l i r c)
  unfolding take_response
  take_response-IsSoundAt c reading i j r e h k = ground arith
  take_response-IsSoundAt c _ i j r e h k = tt

  put_response-IsSoundAt :
      (c : Conn R) (ch : Channel R) (i j : ℕ) (r : R)
      → c.channel i ≡ ch
      → c.loop ≡ delivering i r
      → IsSoundAt c i
      → IsSoundAt c j
      → IfSome (λ d. IsSoundAt d j) (put_response ch i r c)
  unfolding put_response
  put_response-IsSoundAt c empty i j r e l h k = ground arith
  put_response-IsSoundAt c _ i j r e l h k = tt

  deliver-IsSoundAt :
      (c : Conn R) (l : LoopStage R) (j : ℕ)
      → c.loop ≡ l
      → ((i : ℕ) → IsSoundAt c i)
      → IfSome (λ d. IsSoundAt d j) (deliver l c)
  unfolding deliver
  deliver-IsSoundAt c (delivering i r) j e h =
      put_response-IsSoundAt c (c.channel i) i j r refl e (h i) (h j)
  deliver-IsSoundAt c _ j e h = tt

  end_loop-IsSoundAt :
      (c : Conn R) (l : LoopStage R) (j : ℕ)
      → c.loop ≡ l
      → IsSoundAt c j
      → IfSome (λ d. IsSoundAt d j) (end_loop l c)
  unfolding end_loop
  end_loop-IsSoundAt c reading j e h = ground arith
  end_loop-IsSoundAt c _ j e h = tt

  step-IsSoundAt :
      (a : Action R) (c : Conn R) (j : ℕ)
      → ((i : ℕ) → IsSoundAt c i)
      → IfSome (λ d. IsSoundAt d j) (step a c)
  unfolding step
  step-IsSoundAt call_starts c j h = start_call-IsSoundAt c j (h (suc c.next_id)) (h j)
  step-IsSoundAt (call_sends i ok) c j h =
      send_request-IsSoundAt c (c.stage i) i j ok refl (h i) (h j)
  step-IsSoundAt (call_receives i) c j h =
      (call_step-IsSoundAt c (c.stage i) i j refl (h i) (h j)).0
  step-IsSoundAt (call_expires i) c j h = (call_step-IsSoundAt c (c.stage i) i j refl (h i) (h j)).1
  step-IsSoundAt (call_drains i) c j h = (call_step-IsSoundAt c (c.stage i) i j refl (h i) (h j)).2
  step-IsSoundAt (loop_takes i r) c j h = take_response-IsSoundAt c c.loop i j r refl (h i) (h j)
  step-IsSoundAt loop_delivers c j h = deliver-IsSoundAt c c.loop j refl h
  step-IsSoundAt loop_ends c j h = end_loop-IsSoundAt c c.loop j refl (h j)

  -- What every step keeps at every id holds behind every schedule.
  pub run-invariant {κ} :
      (P : Conn R → Type κ)
      → ((a : Action R) (c d : Conn R) → P c → step a c ≡ some d → P d)
      → (actions : List (Action R)) (c d : Conn R) → P c
      → run actions c ≡ some d
      → P d
  unfolding run
  run-invariant P keeps [] c d p e = subst P (some_inj e) p
  run-invariant P keeps (a ∷ actions) c d p e = elim (Option-cases (step a c)) [
    | inl blocked ↦ absurd (cc (rw (blocked, run) at e))
    | inr (b, stepped) ↦
        run-invariant P keeps actions b d (keeps a c b p stepped) (rw (stepped, run) at e)
  ]

  pub run-IsSoundAt :
      (actions : List (Action R)) (c : Conn R) (j : ℕ)
      → run actions new_conn ≡ some c
      → IsSoundAt c j
  unfolding new_conn
  run-IsSoundAt actions c j e =
      run-invariant (λ d. (i : ℕ) → IsSoundAt d i)
        (λ a b d h stepped i. subst (IfSome (λ x. IsSoundAt x i)) stepped (step-IsSoundAt a b i h))
        actions new_conn c (λ i. ground arith) e j

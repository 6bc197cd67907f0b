-- ===== src/Acp/Conn/Answers.antt =====
-- Which response a call returns.
use agentrun.Prelude.{
  ℕ, suc, ◌==◌, ==_iff, ◌≡◌, Bool, true, false, Option, none, some, List, [], ◌∷◌, if◌then◌else◌,
  subst, some_inj, Option-cases, Bool-cases, inl, inr,
}
use agentrun.Acp.Conn.{
  Channel, empty, closed, holds, responds, connection_closed, send_failed, context_done, CallStage,
  idle, registered, waiting, expiring, returned, LoopStage, reading, ended, delivering, Conn,
  Action, call_starts, call_sends, call_receives, call_expires, call_drains, loop_takes,
  loop_delivers, loop_ends, new_conn, start_call, send_request, receive, await_response, expire,
  drain_or_give_up, drain_channel, take_response, put_response, deliver, end_loop, step, run,
  update,
}

-- What holds at the stored index and everywhere else holds behind the store.
update-elim {ℓ κ} :
    {A : Type ℓ} (P : ℕ → A → Type κ) (f : ℕ → A) (i : ℕ) (a : A) (j : ℕ)
    → P i a
    → P j (f j)
    → P j (update f i a j)
update-elim P f i a j stored other = elim (Bool-cases (i == j)) [
  | inl same ↦ rw same (subst (λ k. P k a) ((==_iff i j).0 same) stored)
  | inr differs ↦ rw differs other
]

module _ {ℓ} {R : Type ℓ} (S : ℕ → R → Type 0) where
  ChannelIn : ℕ → Channel R → Type 0
  ChannelIn j (holds r) = S j r
  ChannelIn j _ = Unit

  StageIn : ℕ → CallStage R → Type 0
  StageIn j (returned (responds r)) = S j r
  StageIn j _ = Unit

  LoopIn : LoopStage R → Type 0
  LoopIn (delivering i r) = S i r
  LoopIn _ = Unit

  -- The responses that the agent sends satisfy S with their ids.
  unfoldable pub ActionsIn : List (Action R) → Type 0
  ActionsIn [] = Unit
  ActionsIn (loop_takes i r ∷ actions) = S i r × ActionsIn actions
  ActionsIn (_ ∷ actions) = ActionsIn actions

  record ConnIn (c : Conn R) : Type 0 where
    channels : (j : ℕ) → ChannelIn j (c.channel j)
    stages : (j : ℕ) → StageIn j (c.stage j)
    in_hand : LoopIn c.loop

  abbrev IfSome : Option (Conn R) → Type 0
  IfSome none = Unit
  IfSome (some c) = ConnIn c

  with_stage :
      (c : Conn R) (i : ℕ) (s : CallStage R)
      → ConnIn c
      → StageIn i s
      → (j : ℕ) → StageIn j (update c.stage i s j)
  with_stage c i s h new j = update-elim StageIn c.stage i s j new (h.stages j)

  with_channel :
      (c : Conn R) (i : ℕ) (ch : Channel R)
      → ConnIn c
      → ChannelIn i ch
      → (j : ℕ) → ChannelIn j (update c.channel i ch j)
  with_channel c i ch h new j = update-elim ChannelIn c.channel i ch j new (h.channels j)

  receive-ConnIn :
      (c : Conn R) (ch : Channel R) (i : ℕ)
      → ChannelIn i ch
      → ConnIn c
      → IfSome (receive ch i c) × ConnIn (drain_or_give_up ch i c)
  unfolding receive drain_or_give_up ChannelIn StageIn
  receive-ConnIn c empty i new h = (
    tt,
    record {
      channels = h.channels;
      stages = with_stage c i (returned context_done) h tt;
      in_hand = h.in_hand;
    },
  )
  receive-ConnIn c closed i new h =
      let after : ConnIn (record c { stage = update c.stage i (returned connection_closed) }) =
        record {
          channels = h.channels;
          stages = with_stage c i (returned connection_closed) h tt;
          in_hand = h.in_hand;
        } in
      (after, after)
  receive-ConnIn c (holds r) i new h =
      let after : ConnIn (record c {
        channel = update c.channel i empty;
        stage = update c.stage i (returned (responds r));
      }) =
        record {
          channels = with_channel c i empty h tt;
          stages = with_stage c i (returned (responds r)) h new;
          in_hand = h.in_hand;
        } in
      (after, after)

  call_step-ConnIn :
      (c : Conn R) (s : CallStage R) (i : ℕ) (ok : Bool)
      → ConnIn c
      → IfSome (send_request s i ok c)
        × IfSome (await_response s i c)
        × IfSome (expire s i c)
        × IfSome (drain_channel s i c)
  unfolding send_request await_response expire drain_channel StageIn
  call_step-ConnIn c registered i true h = (
    record { channels = h.channels; stages = with_stage c i waiting h tt; in_hand = h.in_hand },
    tt,
    tt,
    tt,
  )
  call_step-ConnIn c registered i false h = (
    record {
      channels = h.channels;
      stages = with_stage c i (returned send_failed) h tt;
      in_hand = h.in_hand;
    },
    tt,
    tt,
    tt,
  )
  call_step-ConnIn c waiting i ok h = (
    tt,
    (receive-ConnIn c (c.channel i) i (h.channels i) h).0,
    record { channels = h.channels; stages = with_stage c i expiring h tt; in_hand = h.in_hand },
    tt,
  )
  call_step-ConnIn c expiring i ok h =
      (tt, tt, tt, (receive-ConnIn c (c.channel i) i (h.channels i) h).1)
  call_step-ConnIn c idle i ok h = (tt, tt, tt, tt)
  call_step-ConnIn c (returned o) i ok h = (tt, tt, tt, tt)

  take_response-ConnIn :
      (c : Conn R) (l : LoopStage R) (i : ℕ) (r : R)
      → S i r
      → ConnIn c
      → IfSome (take_response l i r c)
  unfolding take_response LoopIn
  take_response-ConnIn c reading i r new h = elim (Bool-cases (c.pending i)) [
    | inl known ↦ rw known (record { channels = h.channels; stages = h.stages; in_hand = new })
    | inr unknown ↦ rw unknown h
  ]
  take_response-ConnIn c (delivering k q) i r new h = tt
  take_response-ConnIn c ended i r new h = tt

  put_response-ConnIn :
      (c : Conn R) (ch : Channel R) (i : ℕ) (r : R)
      → S i r
      → ConnIn c
      → IfSome (put_response ch i r c)
  unfolding put_response ChannelIn LoopIn
  put_response-ConnIn c empty i r new h = record {
    channels = with_channel c i (holds r) h new;
    stages = h.stages;
    in_hand = tt;
  }
  put_response-ConnIn c closed i r new h = tt
  put_response-ConnIn c (holds q) i r new h = tt

  deliver-ConnIn : (c : Conn R) (l : LoopStage R) → LoopIn l → ConnIn c → IfSome (deliver l c)
  unfolding deliver LoopIn
  deliver-ConnIn c (delivering i r) new h = put_response-ConnIn c (c.channel i) i r new h
  deliver-ConnIn c reading new h = tt
  deliver-ConnIn c ended new h = tt

  end_loop-ConnIn : (c : Conn R) (l : LoopStage R) → ConnIn c → IfSome (end_loop l c)
  unfolding end_loop LoopIn ChannelIn
  end_loop-ConnIn c reading h = record { channels = at; stages = h.stages; in_hand = tt }
    where
      at : (j : ℕ) → ChannelIn j (if c.pending j then closed else c.channel j)
      at j = elim (Bool-cases (c.pending j)) [
        | inl waits ↦ rw waits tt
        | inr done ↦ rw done (h.channels j)
      ]
  end_loop-ConnIn c (delivering i r) h = tt
  end_loop-ConnIn c ended h = tt

  step-ConnIn : (a : Action R) (c : Conn R) → ActionsIn (a ∷ []) → ConnIn c → IfSome (step a c)
  unfolding step start_call StageIn ActionsIn
  step-ConnIn call_starts c new h = record {
    channels = h.channels;
    stages = with_stage c (suc c.next_id) registered h tt;
    in_hand = h.in_hand;
  }
  step-ConnIn (call_sends i ok) c new h = (call_step-ConnIn c (c.stage i) i ok h).0
  step-ConnIn (call_receives i) c new h = (call_step-ConnIn c (c.stage i) i true h).1
  step-ConnIn (call_expires i) c new h = (call_step-ConnIn c (c.stage i) i true h).2
  step-ConnIn (call_drains i) c new h = (call_step-ConnIn c (c.stage i) i true h).3
  step-ConnIn (loop_takes i r) c new h = take_response-ConnIn c c.loop i r new.0 h
  step-ConnIn loop_delivers c new h = deliver-ConnIn c c.loop h.in_hand h
  step-ConnIn loop_ends c new h = end_loop-ConnIn c c.loop h

  ActionsIn-cons :
      (a : Action R) (actions : List (Action R))
      → ActionsIn (a ∷ actions)
      → ActionsIn (a ∷ []) × ActionsIn actions
  unfolding ActionsIn
  ActionsIn-cons (loop_takes i r) actions h = ((h.0, tt), h.1)
  ActionsIn-cons call_starts actions h = (tt, h)
  ActionsIn-cons (call_sends i ok) actions h = (tt, h)
  ActionsIn-cons (call_receives i) actions h = (tt, h)
  ActionsIn-cons (call_expires i) actions h = (tt, h)
  ActionsIn-cons (call_drains i) actions h = (tt, h)
  ActionsIn-cons loop_delivers actions h = (tt, h)
  ActionsIn-cons loop_ends actions h = (tt, h)

  run-ConnIn :
      (actions : List (Action R)) (c d : Conn R)
      → ActionsIn actions
      → ConnIn c
      → run actions c ≡ some d
      → ConnIn d
  unfolding run
  run-ConnIn [] c d new h e = subst ConnIn (some_inj e) h
  run-ConnIn (a ∷ actions) c d new h e = elim (Option-cases (step a c)) [
    | inl blocked ↦ absurd (cc (rw (blocked, run) at e))
    | inr (b, stepped) ↦
        run-ConnIn actions b d (ActionsIn-cons a actions new).1
          (subst IfSome stepped (step-ConnIn a c (ActionsIn-cons a actions new).0 h))
          (rw (stepped, run) at e)
  ]

  -- A call that returns a response returns one that the agent sent with the id of that call, whatever
  -- the schedule: what holds of all responses that come in with that id holds of it.
  pub run-responds :
      (actions : List (Action R)) (c : Conn R) (j : ℕ) (r : R)
      → ActionsIn actions
      → run actions new_conn ≡ some c
      → c.stage j ≡ returned (responds r)
      → S j r
  unfolding new_conn StageIn ChannelIn LoopIn
  run-responds actions c j r new e back =
      let start : ConnIn new_conn = record { channels = λ i. tt; stages = λ i. tt; in_hand = tt } in
      subst (StageIn j) back ((run-ConnIn actions new_conn c new start e).stages j)

-- ===== src/Acp/Conn.antt =====
-- The JSON-RPC connection: engine/acp/conn.go.
--
-- Call and ReadLoop interleave. An action is one section that runs under the lock, or one channel
-- operation; `step` returns `none` where it is not enabled. The pending table, the channels and the
-- calls are families over the id of a call; ids do not wrap. R is the type of responses. Whether a
-- write succeeds, when a context ends and what the agent sends is in the arguments of the actions.
pub mod Sound
pub mod Answers
pub mod Late
mod Examples
use agentrun.Prelude.{
  ℕ, suc, ◌==◌, Bool, true, false, Option, none, some, List, [], ◌∷◌, if◌then◌else◌,
}

-- Family update: what j maps to behind a store at i.
abbrev pub update {ℓ} : {A : Type ℓ} → (ℕ → A) → ℕ → A → ℕ → A
update f i a j = if i == j then a else f j

module _ {ℓ} (R : Type ℓ) where
  -- The channel of one call, which holds one response at most.
  pub data Channel : Type ℓ where
    empty closed : Channel
    holds : R → Channel

  pub data Outcome : Type ℓ where
    responds : R → Outcome
    connection_closed send_failed context_done : Outcome

  -- Where a call is: not made, in the pending table, behind its send, behind the end of its context, or
  -- back.
  pub data CallStage : Type ℓ where
    idle registered waiting expiring : CallStage
    returned : Outcome → CallStage

  -- Where ReadLoop is: before a line, between the pending table and the channel, or gone.
  pub data LoopStage : Type ℓ where
    reading ended : LoopStage
    delivering : ℕ → R → LoopStage

  pub record Conn : Type ℓ where
    pub next_id : ℕ
    pub pending : ℕ → Bool
    pub channel : ℕ → Channel
    pub stage : ℕ → CallStage
    pub loop : LoopStage

  pub data Action : Type ℓ where
    call_starts : Action
    call_sends : ℕ → Bool → Action
    call_receives call_expires call_drains : ℕ → Action
    loop_takes : ℕ → R → Action
    loop_delivers loop_ends : Action

module _ {ℓ} {R : Type ℓ} where
  -- newConn
  unfoldable pub new_conn : Conn R
  new_conn = record {
    next_id = 0;
    pending = λ j. false;
    channel = λ j. empty;
    stage = λ j. idle;
    loop = reading;
  }

  -- nextID.Add, and the entry into the pending table.
  start_call : Conn R → Conn R
  start_call c =
      let id = suc c.next_id in
      record c {
        next_id = id;
        pending = update c.pending id true;
        stage = update c.stage id registered;
      }

  -- The send of the request, and what its error does.
  send_request : CallStage R → ℕ → Bool → Conn R → Option (Conn R)
  send_request registered id true c = some (record c { stage = update c.stage id waiting })
  send_request registered id false c = some (record c {
    pending = update c.pending id false;
    stage = update c.stage id (returned send_failed);
  })
  send_request _ id ok c = none

  -- A receive from the channel of a call, with what handleCallResponse makes of it.
  receive : Channel R → ℕ → Conn R → Option (Conn R)
  receive empty id c = none
  receive closed id c = some (record c { stage = update c.stage id (returned connection_closed) })
  receive (holds r) id c = some (record c {
    channel = update c.channel id empty;
    stage = update c.stage id (returned (responds r));
  })

  -- The select at the end of Call.
  await_response : CallStage R → ℕ → Conn R → Option (Conn R)
  unfolding receive
  await_response waiting id c = receive (c.channel id) id c
  await_response _ id c = none

  expire : CallStage R → ℕ → Conn R → Option (Conn R)
  expire waiting id c =
      some (record c { pending = update c.pending id false; stage = update c.stage id expiring })
  expire _ id c = none

  -- The last look at the channel behind the end of the context.
  drain_or_give_up : Channel R → ℕ → Conn R → Conn R
  drain_or_give_up empty id c = record c { stage = update c.stage id (returned context_done) }
  drain_or_give_up closed id c = record c { stage = update c.stage id (returned connection_closed) }
  drain_or_give_up (holds r) id c = record c {
    channel = update c.channel id empty;
    stage = update c.stage id (returned (responds r));
  }

  drain_channel : CallStage R → ℕ → Conn R → Option (Conn R)
  unfolding drain_or_give_up
  drain_channel expiring id c = some (drain_or_give_up (c.channel id) id c)
  drain_channel _ id c = none

  -- handleResponse under the lock: a response that no call waits for is dropped.
  take_response : LoopStage R → ℕ → R → Conn R → Option (Conn R)
  take_response reading id r c =
      if c.pending id
      then some (record c { pending = update c.pending id false; loop = delivering id r })
      else some c
  take_response _ id r c = none

  -- The send on the channel, which blocks if it holds a response.
  put_response : Channel R → ℕ → R → Conn R → Option (Conn R)
  put_response empty id r c =
      some (record c { channel = update c.channel id (holds r); loop = reading })
  put_response _ id r c = none

  deliver : LoopStage R → Conn R → Option (Conn R)
  unfolding put_response
  deliver (delivering id r) c = put_response (c.channel id) id r c
  deliver _ c = none

  -- drainPending, when ReadLoop returns.
  end_loop : LoopStage R → Conn R → Option (Conn R)
  end_loop reading c = some (record c {
    pending = λ j. false;
    channel = λ j. if c.pending j then closed else c.channel j;
    loop = ended;
  })
  end_loop _ c = none

  unfoldable pub step : Action R → Conn R → Option (Conn R)
  unfolding start_call send_request await_response expire drain_channel take_response deliver
      end_loop
  step call_starts c = some (start_call c)
  step (call_sends id ok) c = send_request (c.stage id) id ok c
  step (call_receives id) c = await_response (c.stage id) id c
  step (call_expires id) c = expire (c.stage id) id c
  step (call_drains id) c = drain_channel (c.stage id) id c
  step (loop_takes id r) c = take_response c.loop id r c
  step loop_delivers c = deliver c.loop c
  step loop_ends c = end_loop c.loop c

  -- A schedule: each action has to be enabled where it stands.
  unfoldable pub run : List (Action R) → Conn R → Option (Conn R)
  run [] c = some c
  run (a ∷ actions) c = elim (step a c) [ none ↦ none | some d ↦ run actions d ]

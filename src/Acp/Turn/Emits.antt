-- ===== src/Acp/Turn/Emits.antt =====
-- What a turn sends to the consumer, and what is left of it afterwards.
use agentrun.Prelude.{
  ℕ, ◌≡◌, refl, ap, ◌∙◌, Str, bytes, str_eq, true, false, none, some, List, [], ◌∷◌, ◌++◌,
  if◌then◌else◌, take, append-nil, append_assoc, Option-cases, Bool-cases, inl, inr, Option, Bool,
  ◌&&◌, is_zero_ℤ, arith,
}
use agentrun.Message.{
  Message, text, thinking, PermissionDenial, MessageType, message, result, Usage, no_usage,
}
use agentrun.Text.{truncate, sanitize_code, sanitize_stop_reason}
use agentrun.Acp.Turn.{
  max_accumulated_content, observe, complete, seal, add_denial, seal_denials, PermissionParams,
  unreadable, readable, Verdict, decides, fails, Policy, Turn, new_turn, decide, handle_permission,
  PromptResult, result_message, answered, finish_turn, TurnEvent, notified, requested, handle_event,
  handle_events, execute_send, request_of, PromptUsage, prompt_usage,
}
use agentrun.Acp.Turn.Accumulates.{
  is_text_delta, is_thinking_delta, joined, observe_all, new_accumulator-Holds,
}

abbrev denial : Str → Str → PermissionDenial
denial tool reason = record { tool = sanitize_code tool; reason = truncate reason }

-- The denials that a policy makes of one request: none where it approves, or fails to decide.
pub denied_by : Policy → PermissionParams → List PermissionDenial
denied_by policy params = if str_eq policy.hitl (bytes "off") then [] else elim policy.handler [
  | none ↦ denial params.title (bytes "no permission handler") ∷ []
  | some handler ↦
      elim (handler (record {
        session_id = params.session_id;
        tool_name = params.title;
        tool_call_id = params.tool_call_id;
        description = params.tool_kind;
      })) [
        | fails err ↦ []
        | decides approved ↦
            if approved then [] else denial params.title (bytes "denied by handler") ∷ []
      ]
]

pub denials_of : Policy → List TurnEvent → List PermissionDenial
unfolding denied_by
denials_of policy [] = []
denials_of policy (requested (readable params) ∷ events) =
    denied_by policy params ++ denials_of policy events
denials_of policy (_ ∷ events) = denials_of policy events

pub messages_of : List TurnEvent → List Message
messages_of [] = []
messages_of (notified msg ∷ events) = msg ∷ messages_of events
messages_of (_ ∷ events) = messages_of events

-- The turn has sent these messages and collected these denials, and is not sealed.
pub record IsRunning (msgs : List Message) (denied : List PermissionDenial) (turn : Turn)
    : Type 0 where
  pub sent : turn.updates ≡ msgs
  pub collected : turn.denials.items ≡ denied
  pub unsealed : turn.denials.is_sealed ≡ false

deny-IsRunning :
    (tool reason : Str) (msgs : List Message) (denied : List PermissionDenial) (turn : Turn)
    → IsRunning msgs denied turn
    → IsRunning msgs
        (denied ++ denial tool reason ∷ [])
        (record turn { denials = add_denial tool reason turn.denials })
unfolding add_denial
deny-IsRunning tool reason msgs denied turn h =
    simp (h.unsealed, h.collected) (record { sent = h.sent; collected = refl; unsealed = refl })

decide-IsRunning :
    (policy : Policy) (params : PermissionParams) (v : Verdict) (now : ℕ) (msgs : List Message)
    (denied : List PermissionDenial) (turn : Turn)
    → IsRunning msgs denied turn
    → IsRunning msgs
        (denied ++ (elim v [
          | fails err ↦ []
          | decides approved ↦
              if approved then [] else denial params.title (bytes "denied by handler") ∷ []
        ]))
        (decide v params now turn).1
      × ((decide v params now turn).1.accumulator ≡ turn.accumulator)
unfolding decide
decide-IsRunning policy params (fails err) now msgs denied turn h = (
  rw (append-nil denied) (record { sent = h.sent; collected = h.collected; unsealed = h.unsealed }),
  refl,
)
decide-IsRunning policy params (decides true) now msgs denied turn h =
    (rw (append-nil denied) h, refl)
decide-IsRunning policy params (decides false) now msgs denied turn h =
    (deny-IsRunning params.title (bytes "denied by handler") msgs denied turn h, refl)

-- Three ways to a policy's answer: approval by the level, no handler, the handler.
handle_permission-IsRunning :
    (policy : Policy) (params : PermissionParams) (now : ℕ) (msgs : List Message)
    (denied : List PermissionDenial) (turn : Turn)
    → IsRunning msgs denied turn
    → IsRunning msgs
        (denied ++ denied_by policy params)
        (handle_permission policy (readable params) now turn).1
      × ((handle_permission policy (readable params) now turn).1.accumulator ≡ turn.accumulator)
unfolding handle_permission denied_by
handle_permission-IsRunning policy params now msgs denied turn h =
    elim (Bool-cases (str_eq policy.hitl (bytes "off"))) [
      | inl off ↦ rw off (rw (append-nil denied) h, refl)
      | inr on ↦ elim (Option-cases policy.handler) [
        | inl missing ↦
            simp (on, missing)
              (deny-IsRunning params.title (bytes "no permission handler") msgs denied turn h, refl)
        | inr (handler, found) ↦
            simp (on, found)
              (decide-IsRunning policy params (handler (request_of params)) now msgs denied turn h)
      ]
    ]

-- Behind events, a turn has sent the notified messages, observed them, and collected the denials.
pub handle_events-IsRunning :
    (policy : Policy) (now : ℕ) (events : List TurnEvent) (msgs : List Message)
    (denied : List PermissionDenial) (turn : Turn)
    → IsRunning msgs denied turn
    → IsRunning
        (msgs ++ messages_of events)
        (denied ++ denials_of policy events)
        (handle_events policy now events turn)
      × ((handle_events policy now events turn).accumulator
          ≡ observe_all (messages_of events) turn.accumulator)
unfolding handle_events handle_event handle_permission messages_of denials_of observe_all
handle_events-IsRunning policy now [] msgs denied turn h =
    (rw (append-nil msgs, append-nil denied) h, refl)
handle_events-IsRunning policy now (notified msg ∷ events) msgs denied turn h =
    let next = record turn {
      accumulator = observe msg turn.accumulator;
      updates = turn.updates ++ msg ∷ [];
    } in
    let kept : IsRunning (msgs ++ msg ∷ []) denied next = record {
      sent = ap (λ l. l ++ msg ∷ []) h.sent;
      collected = h.collected;
      unsealed = h.unsealed;
    } in
    rw (append_assoc msgs (msg ∷ []) (messages_of events)) at
      (handle_events-IsRunning policy now events (msgs ++ msg ∷ []) denied next kept)
handle_events-IsRunning policy now (requested (unreadable err) ∷ events) msgs denied turn h =
    let next = (handle_permission policy (unreadable err) now turn).1 in
    let kept : IsRunning msgs denied next = record {
      sent = h.sent;
      collected = h.collected;
      unsealed = h.unsealed;
    } in
    handle_events-IsRunning policy now events msgs denied next kept
handle_events-IsRunning policy now (requested (readable params) ∷ events) msgs denied turn h =
    let next = (handle_permission policy (readable params) now turn).1 in
    let asked = handle_permission-IsRunning policy params now msgs denied turn h in
    let rest =
      handle_events-IsRunning policy now events msgs (denied ++ denied_by policy params) next
        asked.0 in
    (
      rw (append_assoc denied (denied_by policy params) (denials_of policy events)) at rest.0,
      rest.1 ∙ ap (observe_all (messages_of events)) asked.1,
    )

-- One whole message, unless there is nothing to say.
abbrev pub whole : MessageType → Str → ℕ → List Message
whole type [] now = []
whole type (b ∷ s) now = record (message type) { content = b ∷ s; timestamp = now } ∷ []

complete-whole : (type : MessageType) (s : Str) (now : ℕ) → complete type s now ≡ whole type s now
complete-whole type [] now = refl
complete-whole type (b ∷ s) now = refl

-- The tokens that an answer reports, unless all are 0.
abbrev pub Reports : Option PromptUsage → Option Usage → Type 0
Reports none usage = usage ≡ none
Reports (some u) none =
    (is_zero_ℤ u.input_tokens && is_zero_ℤ u.output_tokens ≡ true)
    × (is_zero_ℤ u.thought_tokens ≡ true)
    × (is_zero_ℤ u.cached_read_tokens && is_zero_ℤ u.cached_write_tokens ≡ true)
Reports (some u) (some usage) =
    (usage.input_tokens ≡ u.input_tokens)
    × (usage.output_tokens ≡ u.output_tokens)
    × (usage.thinking_tokens ≡ u.thought_tokens)
    × (usage.cache_read_tokens ≡ u.cached_read_tokens)
    × (usage.cache_write_tokens ≡ u.cached_write_tokens)

prompt_usage-Reports : (o : Option PromptUsage) → Reports o (prompt_usage o)
unfolding prompt_usage
prompt_usage-Reports none = refl
prompt_usage-Reports (some u) = reported (all_zero u) refl
  where
    all_zero : PromptUsage → Bool
    all_zero v =
        (is_zero_ℤ v.input_tokens && is_zero_ℤ v.output_tokens)
        && (is_zero_ℤ v.cached_read_tokens
            && (is_zero_ℤ v.cached_write_tokens && is_zero_ℤ v.thought_tokens))

    reported :
        (test : Bool)
        → all_zero u ≡ test
        → Reports (some u) (
            if test
            then none
            else some (record no_usage {
              input_tokens = u.input_tokens;
              output_tokens = u.output_tokens;
              cache_read_tokens = u.cached_read_tokens;
              cache_write_tokens = u.cached_write_tokens;
              thinking_tokens = u.thought_tokens;
            }))
    reported true e = (ground (arith, e), ground (arith, e), ground (arith, e))
    reported false e = (refl, refl, refl, refl, refl)

-- The result of a turn: its stop reason sanitized, its denials and its tokens.
pub record IsResultOf (r : PromptResult) (denied : List PermissionDenial) (msg : Message)
    : Type 0 where
  pub ends : msg.type ≡ result
  pub reason : msg.stop_reason ≡ sanitize_stop_reason r.stop_reason
  pub denies : msg.denials ≡ denied
  pub tokens : Reports r.usage msg.usage

result_message-IsResultOf :
    (r : PromptResult) (denied : List PermissionDenial) (now : ℕ)
    → IsResultOf r denied (result_message r denied now)
unfolding result_message
result_message-IsResultOf r denied now = record {
  ends = refl;
  reason = refl;
  denies = refl;
  tokens = prompt_usage-Reports r.usage;
}

-- A turn whose prompt is answered returns no error. It has sent every update in its order, then the
-- thinking and then the text that the deltas of the turn join to, each cut to 10 MiB and left out
-- if it is empty, and last a result, with the stop reason sanitized, with exactly the denials that
-- the policy made, and with the token counts that the answer reports, unless all of them are 0.
pub execute_send-answered :
    (policy : Policy) (now : ℕ) (events : List TurnEvent) (r : PromptResult)
    → let msgs = messages_of events in
      let sent = execute_send {E = Str} policy now events (answered r) in
      (sent.0 ≡ none)
      × ((last : Message) × IsResultOf r (denials_of policy events) last
          × (sent.1.updates
              ≡ msgs
                ++ ((whole thinking (take 10485760 (joined is_thinking_delta msgs)) now
                      ++ whole text (take 10485760 (joined is_text_delta msgs)) now)
                    ++ last ∷ [])))
unfolding execute_send finish_turn seal seal_denials max_accumulated_content
execute_send-answered policy now events r =
    let msgs = messages_of events in
    let start : IsRunning [] [] new_turn = record {
      sent = refl;
      collected = refl;
      unsealed = refl;
    } in
    let ran = handle_events-IsRunning policy now events [] [] new_turn start in
    let held = new_accumulator-Holds msgs in
    let thoughts = complete-whole thinking (take 10485760 (joined is_thinking_delta msgs)) now in
    let texts = complete-whole text (take 10485760 (joined is_text_delta msgs)) now in
    let last = result_message r (denials_of policy events) now in
    (
      refl,
      (
        last,
        result_message-IsResultOf r (denials_of policy events) now,
        simp
            (
              ran.0.sent, ran.1, ran.0.collected, held.texts, held.thoughts, held.unsealed,
              thoughts, texts,
            )
            refl,
      ),
    )

-- ===== src/Acp/Turn.antt =====
-- One prompt turn of an ACP session: the accumulator of deltas in engine/acp/update.go, and the
-- denials, the permission handler and executeSendBlocks with handlePromptResult in
-- engine/acp/process.go.
--
-- The messages that go through updateCh are one list, in the order of the sends; those that `emit`
-- sends past it are another. The clock is an argument. Both lists are of what is sent: that a process
-- which is shutting down drops it is left out.
pub mod Accumulates
pub mod Emits
pub mod Isolated
pub mod Permissions
mod Examples
use agentrun.Prelude.{
  ℕ, ◌-◌, ltb, leb, Str, bytes, str_eq, Bool, true, false, not, ◌&&◌, Option, none, some, List, [],
  ◌∷◌, ◌++◌, if◌then◌else◌, is_empty, length, take, contains, ℤ, is_zero_ℤ,
}
use agentrun.Message.{
  MessageType, Message, message, text, thinking, text_delta, thinking_delta, result, error,
  PermissionDenial, Usage, no_usage,
}
use agentrun.Text.{truncate, sanitize_code, sanitize_stop_reason}

unfoldable pub max_accumulated_content : ℕ
max_accumulated_content = 10485760

-- turnAccumulator, with what its builders hold.
pub record Accumulator : Type 0 where
  pub text : Str
  pub thinking : Str
  pub is_sealed : Bool

abbrev pub new_accumulator : Accumulator
new_accumulator = record { text = []; thinking = []; is_sealed = false }

-- truncateToCap
pub truncate_to_cap : Str → ℕ → Str
truncate_to_cap s current_len =
    if leb max_accumulated_content current_len
    then []
    else if leb (length s) (max_accumulated_content - current_len)
    then s
    else take (max_accumulated_content - current_len) s

-- What a builder holds behind one delta.
pub write_delta : Str → Str → Str
unfolding truncate_to_cap
write_delta content written =
    if not (is_empty content) && ltb (length written) max_accumulated_content
    then written ++ truncate_to_cap content (length written)
    else written

-- turnAccumulator.observe, on a message.
pub observe : Message → Accumulator → Accumulator
unfolding write_delta
observe msg ta = if ta.is_sealed then ta else elim msg.type [
  | text_delta ↦ record ta { text = write_delta msg.content ta.text }
  | thinking_delta ↦ record ta { thinking = write_delta msg.content ta.thinking }
  | _ ↦ ta
]

abbrev pub complete : MessageType → Str → ℕ → List Message
complete type content now =
    if is_empty content
    then []
    else record (message type) { content = content; timestamp = now } ∷ []

-- turnAccumulator.seal
pub seal : ℕ → Accumulator → List Message × Accumulator
seal now ta = if ta.is_sealed then ([], ta) else (
  complete thinking ta.thinking now ++ complete text ta.text now,
  record { text = []; thinking = []; is_sealed = true },
)

-- turnDenials
pub record Denials : Type 0 where
  pub items : List PermissionDenial
  pub is_sealed : Bool

abbrev pub new_denials : Denials
new_denials = record { items = []; is_sealed = false }

-- turnDenials.add
pub add_denial : Str → Str → Denials → Denials
add_denial tool reason td = if td.is_sealed then td else record td {
  items = td.items ++ record { tool = sanitize_code tool; reason = truncate reason } ∷ [];
}

-- turnDenials.seal
pub seal_denials : Denials → List PermissionDenial × Denials
seal_denials td = (td.items, record { items = []; is_sealed = true })

-- permissionOpt
pub record PermissionOpt : Type 0 where
  pub option_id : Str
  pub kind : Str

-- requestPermissionParams
pub record PermissionParams : Type 0 where
  pub session_id : Str
  pub title : Str
  pub tool_call_id : Str
  pub tool_kind : Str
  pub options : List PermissionOpt

-- What json.Unmarshal makes of the parameters: its error, or a value.
pub data Decoded : Type 0 where
  unreadable : Str → Decoded
  readable : PermissionParams → Decoded

-- PermissionRequest
pub record PermissionRequest : Type 0 where
  pub session_id : Str
  pub tool_name : Str
  pub tool_call_id : Str
  pub description : Str

-- What the client's handler does: its answer, or the error that safeCallPermissionHandler returns,
-- also for a panic.
pub data Verdict : Type 0 where
  decides : Bool → Verdict
  fails : Str → Verdict

-- requestPermissionOutcome
pub data PermissionOutcome : Type 0 where
  cancelled : PermissionOutcome
  selected : Str → PermissionOutcome

-- firstOptionByKind
pub first_option_by_kind : List PermissionOpt → List Str → Str
first_option_by_kind [] kinds = []
first_option_by_kind (opt ∷ options) kinds =
    let later = first_option_by_kind options kinds in
    if contains kinds opt.kind then opt.option_id else later

-- selectPermissionOption
pub select_permission_option : List PermissionOpt → List Str → PermissionOutcome
unfolding first_option_by_kind
select_permission_option options kinds =
    let id = first_option_by_kind options kinds in if is_empty id then cancelled else selected id

abbrev pub allow_kinds : List Str
allow_kinds = bytes "allow_once" ∷ bytes "allow_always" ∷ []

abbrev pub reject_kinds : List Str
reject_kinds = bytes "reject_once" ∷ bytes "reject_always" ∷ []

-- The session's HITL level, and the handler of the engine's options.
pub record Policy : Type 0 where
  pub hitl : Str
  pub handler : Option (PermissionRequest → Verdict)

-- A turn: its collectors, what went through updateCh, and what `emit` sent past it.
pub record Turn : Type 0 where
  pub denials : Denials
  pub accumulator : Accumulator
  pub updates : List Message
  pub emitted : List Message

abbrev pub new_turn : Turn
new_turn = record {
  denials = new_denials;
  accumulator = new_accumulator;
  updates = [];
  emitted = [];
}

abbrev pub emit_error : Str → ℕ → Turn → Turn
emit_error content now turn = record turn {
  emitted = turn.emitted ++ record (message error) { content = content; timestamp = now } ∷ [];
}

abbrev request_of : PermissionParams → PermissionRequest
request_of params = record {
  session_id = params.session_id;
  tool_name = params.title;
  tool_call_id = params.tool_call_id;
  description = params.tool_kind;
}

abbrev deny : Str → PermissionParams → Turn → PermissionOutcome × Turn
deny reason params turn = (
  select_permission_option params.options reject_kinds,
  record turn { denials = add_denial params.title reason turn.denials },
)

decide : Verdict → PermissionParams → ℕ → Turn → PermissionOutcome × Turn
decide (fails err) params now turn =
    (cancelled, emit_error (bytes "acp: permission handler error: " ++ err) now turn)
decide (decides true) params now turn = (select_permission_option params.options allow_kinds, turn)
decide (decides false) params now turn = deny (bytes "denied by handler") params turn

-- The handler that makeTurnPermHandler makes.
pub handle_permission : Policy → Decoded → ℕ → Turn → PermissionOutcome × Turn
unfolding decide
handle_permission policy (unreadable err) now turn =
    (cancelled, emit_error (bytes "acp: unmarshal permission request: " ++ err) now turn)
handle_permission policy (readable params) now turn =
    if str_eq policy.hitl (bytes "off")
    then (select_permission_option params.options allow_kinds, turn)
    else elim policy.handler [
      | none ↦ deny (bytes "no permission handler") params turn
      | some handler ↦ decide (handler (request_of params)) params now turn
    ]

-- promptResult with its acpUsage
pub record PromptUsage : Type 0 where
  pub input_tokens : ℤ
  pub output_tokens : ℤ
  pub thought_tokens : ℤ
  pub cached_read_tokens : ℤ
  pub cached_write_tokens : ℤ

pub record PromptResult : Type 0 where
  pub stop_reason : Str
  pub usage : Option PromptUsage

pub prompt_usage : Option PromptUsage → Option Usage
prompt_usage none = none
prompt_usage (some u) =
    if (is_zero_ℤ u.input_tokens && is_zero_ℤ u.output_tokens)
      && (is_zero_ℤ u.cached_read_tokens
          && (is_zero_ℤ u.cached_write_tokens && is_zero_ℤ u.thought_tokens))
    then none
    else some (record no_usage {
      input_tokens = u.input_tokens;
      output_tokens = u.output_tokens;
      cache_read_tokens = u.cached_read_tokens;
      cache_write_tokens = u.cached_write_tokens;
      thinking_tokens = u.thought_tokens;
    })

pub result_message : PromptResult → List PermissionDenial → ℕ → Message
unfolding prompt_usage
result_message r denials now = record (message result) {
  stop_reason = sanitize_stop_reason r.stop_reason;
  denials = denials;
  usage = prompt_usage r.usage;
  timestamp = now;
}

-- How the prompt RPC ends for executeSendBlocks: with a result or an error of Call, the end of the
-- process, with what is in errCh then, or the end of the context.
pub data PromptEnd {ℓ} (E : Type ℓ) : Type ℓ where
  answered : PromptResult → PromptEnd E
  call_failed : E → PromptEnd E
  process_done : Option (Option E) → PromptEnd E
  context_done : E → PromptEnd E

pub data SendError {ℓ} (E : Type ℓ) : Type ℓ where
  prompt_error context_error : E → SendError E
  terminated : SendError E

abbrev pub discard : ℕ → Turn → Turn
discard now turn = record turn {
  denials = (seal_denials turn.denials).1;
  accumulator = (seal now turn.accumulator).1;
}

module _ {ℓ} {E : Type ℓ} where
  -- The error behind the end of the process.
  ended_early : Option (Option E) → Option (SendError E)
  ended_early none = some terminated
  ended_early (some none) = none
  ended_early (some (some err)) = some (prompt_error err)

  -- The select of executeSendBlocks, with handlePromptResult.
  pub finish_turn : PromptEnd E → ℕ → Turn → Option (SendError E) × Turn
  unfolding result_message seal seal_denials ended_early
  finish_turn (answered r) now turn =
      let (messages, ta) = seal now turn.accumulator in
      let (denied, td) = seal_denials turn.denials in
      (
        none,
        record turn {
          denials = td;
          accumulator = ta;
          updates = turn.updates ++ (messages ++ result_message r denied now ∷ []);
        },
      )
  finish_turn (call_failed err) now turn = (some (prompt_error err), discard now turn)
  finish_turn (process_done outcome) now turn = (ended_early outcome, discard now turn)
  finish_turn (context_done err) now turn = (some (context_error err), discard now turn)

-- What comes in during a turn: a parsed update, and a request for permission.
pub data TurnEvent : Type 0 where
  notified : Message → TurnEvent
  requested : Decoded → TurnEvent

-- makeUpdateHandler behind the parser, and the method handler of wireReadLoop.
pub handle_event : Policy → ℕ → TurnEvent → Turn → Turn
unfolding observe handle_permission
handle_event policy now (notified msg) turn = record turn {
  accumulator = observe msg turn.accumulator;
  updates = turn.updates ++ msg ∷ [];
}
handle_event policy now (requested params) turn = (handle_permission policy params now turn).1

pub handle_events : Policy → ℕ → List TurnEvent → Turn → Turn
unfolding handle_event
handle_events policy now [] turn = turn
handle_events policy now (e ∷ events) turn =
    handle_events policy now events (handle_event policy now e turn)

-- executeSendBlocks
pub execute_send {ℓ} :
    {E : Type ℓ} → Policy → ℕ → List TurnEvent → PromptEnd E → Option (SendError E) × Turn
unfolding finish_turn handle_events
execute_send policy now events end = finish_turn end now (handle_events policy now events new_turn)

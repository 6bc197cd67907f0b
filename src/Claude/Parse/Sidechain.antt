-- ===== src/Claude/Parse/Sidechain.antt =====
-- What a line of a subagent's sidechain can tell of the parent's turn.
use agentrun.Prelude.{
  ◌≡◌, refl, Str, bytes, str_eq, Bool, true, false, not, ◌&&◌, ◌||◌, Option, none, some, is_empty,
  arith, lookup, subst, sym, ap, ◌∙◌, if_intro,
}
use agentrun.Message.{MessageType, Message, system, text, is_result}
use agentrun.Scan.{parsed}
use agentrun.Json.{Object, Codec, decoded, get_string, object?, items_of}
use agentrun.Claude.Fields.{is_subagent_event}
use agentrun.Claude.Content.{
  Collected, nothing_collected, collect, or_field, with_content, nested_content,
  parse_assistant_message,
}
use agentrun.Claude.Lines.{
  parse_system_message, parse_init, parse_background_tasks, parse_task_notification,
  parse_tool_message, parse_result_message, parse_error_message, content_block_delta, stream_event,
  parse_stream_event,
}
use agentrun.Claude.Parse.Inversion.{decoded_inj, parse_line-parsed}
use agentrun.Claude.Parse.{
  by_type, start_message, event_message, unknown_message, demote, without_sidechain, parse_line,
}

abbrev is_system : MessageType → Bool
is_system system = true
is_system _ = false

-- No end of a turn is on the message.
abbrev is_plain : Message → Bool
is_plain msg = is_empty msg.stop_reason && (not msg.is_error && is_empty msg.denials)

-- The error flag and the denials are only on a result, a stop reason only there and on a system message.
abbrev is_accounted : Message → Bool
is_accounted msg =
    is_result msg.type
    || ((not msg.is_error && is_empty msg.denials)
        && (is_system msg.type || is_empty msg.stop_reason))

-- What can be on the message of a subagent's line.
abbrev pub is_sidechain : Message → Bool
is_sidechain msg =
    not (is_result msg.type)
    && ((not msg.is_error && is_empty msg.denials)
        && (is_system msg.type || is_empty msg.stop_reason))

parse_system_message-is_accounted :
    (raw : Object) (msg : Message)
    → is_plain msg ≡ true
    → is_accounted (parse_system_message raw msg) ≡ true
unfolding parse_system_message parse_init parse_background_tasks parse_task_notification
parse_system_message-is_accounted raw msg h = ground arith

with_content-is_plain :
    (acc : Collected) (msg : Message) → is_plain msg ≡ true → is_plain (with_content acc msg) ≡ true
unfolding with_content
with_content-is_plain acc msg h = ground arith

nested_content-is_plain :
    (codec : Codec) (inner : Option Object) (msg : Message)
    → is_plain msg ≡ true
    → is_plain (nested_content codec inner msg) ≡ true
unfolding nested_content
nested_content-is_plain codec none msg h = h
nested_content-is_plain codec (some inner) msg h =
    with_content-is_plain
      (collect codec (items_of (lookup (bytes "content") inner)) nothing_collected) msg h

or_field-is_accounted :
    (raw : Object) (msg : Message)
    → is_plain msg ≡ true
    → is_accounted (or_field raw (bytes "content") (or_field raw (bytes "text") msg)) ≡ true
or_field-is_accounted raw msg h = ground arith

is_plain-is_accounted : (msg : Message) → is_plain msg ≡ true → is_accounted msg ≡ true
is_plain-is_accounted msg h = ground arith

parse_assistant_message-is_accounted :
    (codec : Codec) (raw : Object) (msg : Message)
    → is_plain msg ≡ true
    → is_accounted (parse_assistant_message codec raw msg) ≡ true
unfolding parse_assistant_message
parse_assistant_message-is_accounted codec raw msg h =
    or_field-is_accounted raw
      (nested_content codec (object? (lookup (bytes "message") raw)) (record msg { type = text }))
      (nested_content-is_plain codec (object? (lookup (bytes "message") raw))
        (record msg { type = text }) h)

parse_tool_message-is_accounted :
    (codec : Codec) (raw : Object) (msg : Message)
    → is_plain msg ≡ true
    → is_accounted (parse_tool_message codec raw msg) ≡ true
unfolding parse_tool_message
parse_tool_message-is_accounted codec raw msg h = ground arith

stream_event-is_accounted :
    (event : Option Object) (msg : Message)
    → is_plain msg ≡ true
    → is_accounted (stream_event event msg) ≡ true
unfolding stream_event content_block_delta
stream_event-is_accounted none msg h = ground arith
stream_event-is_accounted (some event) msg h = ground arith

by_type-is_accounted :
    (codec : Codec) (type : Str) (raw : Object) (msg : Message)
    → is_plain msg ≡ true
    → is_accounted (by_type codec type raw msg) ≡ true
unfolding by_type parse_init parse_result_message parse_error_message parse_stream_event
by_type-is_accounted codec type raw msg h =
    if_intro (λ m. is_accounted m ≡ true) (str_eq type (bytes "system"))
      (parse_system_message-is_accounted raw msg h)
      (if_intro (λ m. is_accounted m ≡ true) (str_eq type (bytes "init"))
        (is_plain-is_accounted (parse_init raw msg) h)
        (if_intro (λ m. is_accounted m ≡ true) (str_eq type (bytes "assistant"))
          (parse_assistant_message-is_accounted codec raw msg h)
          (if_intro (λ m. is_accounted m ≡ true) (str_eq type (bytes "tool"))
            (parse_tool_message-is_accounted codec raw msg h)
            (if_intro (λ m. is_accounted m ≡ true) (str_eq type (bytes "result")) refl
              (if_intro (λ m. is_accounted m ≡ true) (str_eq type (bytes "error"))
                (is_plain-is_accounted (parse_error_message raw msg) h)
                (if_intro (λ m. is_accounted m ≡ true) (str_eq type (bytes "stream_event"))
                  (stream_event-is_accounted (object? (lookup (bytes "event") raw)) msg h)
                  (is_plain-is_accounted (unknown_message type raw msg) h)))))))

without_sidechain-is_sidechain :
    (raw : Object) (msg : Message)
    → is_subagent_event raw ≡ true
    → is_accounted msg ≡ true
    → (is_sidechain (without_sidechain raw msg) ≡ true) × ((without_sidechain raw msg).usage ≡ none)
unfolding without_sidechain demote
without_sidechain-is_sidechain raw msg sub h = (ground arith, ground arith)

-- A line of a subagent's sidechain, whatever its type and its fields, that becomes a message becomes no
-- result, so that it does not end the parent's turn, with no usage, no error flag and no denials, and
-- with no stop reason unless it is a system message.
pub parse_line-is_sidechain :
    (codec : Codec) (line : Str) (raw : Object) (msg : Message)
    → codec.decode line ≡ decoded raw
    → is_subagent_event raw ≡ true
    → parse_line codec line ≡ parsed msg
    → (is_sidechain msg ≡ true) × (msg.usage ≡ none)
parse_line-is_sidechain codec line raw msg decodes sub e =
    let (raw', decodes', is) = parse_line-parsed codec line msg e in
    let same : raw' ≡ raw = decoded_inj (sym decodes' ∙ decodes) in
    let start = start_message line raw in
    let accounted = by_type-is_accounted codec (get_string raw (bytes "type")) raw start refl in
    subst (λ m. (is_sidechain m ≡ true) × (m.usage ≡ none))
      (sym (is ∙ ap (event_message codec line) same))
      (without_sidechain-is_sidechain raw (by_type codec (get_string raw (bytes "type")) raw start)
        sub accounted)

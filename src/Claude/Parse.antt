-- ===== src/Claude/Parse.antt =====
-- ParseLine of the Claude backend, in engine/cli/claude/parse.go.
pub mod Inversion
pub mod Sidechain
pub mod Tasks
pub mod Leak
mod Examples
use agentrun.Prelude.{
  ltb, Str, bytes, str_eq, false, ◌&&◌, Option, none, some, [], ◌++◌, if◌then◌else◌, is_empty,
  lookup, length,
}
use agentrun.Message.{
  MessageType, Message, message, text, tool_use, tool_result, error, system, init, result,
  task_result, background_tasks, context_window, eof, thinking, text_delta, tool_use_delta,
  thinking_delta, other, is_result, subagent,
}
use agentrun.Blocks.{is_blank}
use agentrun.Text.{has_control}
use agentrun.Scan.{Parsed, parsed, skip_line, parse_error}
use agentrun.Json.{Object, Codec, Decoding, invalid, decoded, get_string, object?}
use agentrun.Claude.Fields.{single_task, is_subagent_event, parent_tool_use_id_of}
use agentrun.Claude.Content.{parse_assistant_message}
use agentrun.Claude.Lines.{
  parse_system_message, parse_init, parse_tool_message, parse_result_message, parse_error_message,
  parse_stream_event,
}

-- MessageType(s): the constants are strings.
pub type_of : Str → MessageType
type_of s =
    if str_eq s (bytes "text")
    then text
    else if str_eq s (bytes "tool_use")
    then tool_use
    else if str_eq s (bytes "tool_result")
    then tool_result
    else if str_eq s (bytes "error")
    then error
    else if str_eq s (bytes "system")
    then system
    else if str_eq s (bytes "init")
    then init
    else if str_eq s (bytes "result")
    then result
    else if str_eq s (bytes "task_result")
    then task_result
    else if str_eq s (bytes "background_tasks")
    then background_tasks
    else if str_eq s (bytes "context_window")
    then context_window
    else if str_eq s (bytes "eof")
    then eof
    else if str_eq s (bytes "thinking")
    then thinking
    else if str_eq s (bytes "text_delta")
    then text_delta
    else if str_eq s (bytes "tool_use_delta")
    then tool_use_delta
    else if str_eq s (bytes "thinking_delta")
    then thinking_delta
    else other s

-- sanitizeUnknownType
pub sanitize_unknown_type : Str → MessageType
unfolding type_of
sanitize_unknown_type s =
    if ltb 64 (length s) then system else if has_control s then system else type_of s

info_summary : Option Object → Str
info_summary none = []
info_summary (some info) =
    let status = get_string info (bytes "status") in
    let kind = get_string info (bytes "rateLimitType") in
    if is_empty status && is_empty kind
    then []
    else bytes "rate_limit_event: status=" ++ (status ++ (bytes " type=" ++ kind))

-- rateLimitSummary
pub rate_limit_summary : Str → Object → Str
unfolding info_summary
rate_limit_summary type raw =
    if str_eq type (bytes "rate_limit_event")
    then info_summary (object? (lookup (bytes "rate_limit_info") raw))
    else []

abbrev pub unknown_message : Str → Object → Message → Message
unknown_message type raw msg = record msg {
  type = sanitize_unknown_type type;
  content = rate_limit_summary type raw;
}

-- The switch over the type.
pub by_type : Codec → Str → Object → Message → Message
by_type codec type raw msg =
    if str_eq type (bytes "system")
    then parse_system_message raw msg
    else if str_eq type (bytes "init")
    then parse_init raw msg
    else if str_eq type (bytes "assistant")
    then parse_assistant_message codec raw msg
    else if str_eq type (bytes "tool")
    then parse_tool_message codec raw msg
    else if str_eq type (bytes "result")
    then parse_result_message raw msg
    else if str_eq type (bytes "error")
    then parse_error_message raw msg
    else if str_eq type (bytes "stream_event")
    then parse_stream_event raw msg
    else unknown_message type raw msg

-- What a subagent's result becomes.
pub demote : Message → Message
demote msg =
    if is_result msg.type
    then (let tasks = single_task msg.parent_tool_use_id subagent in
        record msg {
          type = task_result;
          stop_reason = [];
          is_error = false;
          denials = [];
          tasks = if is_empty tasks then msg.tasks else tasks;
        })
    else msg

-- The end of ParseLine, from isSubagentEvent on.
pub without_sidechain : Object → Message → Message
unfolding demote
without_sidechain raw msg =
    if is_subagent_event raw then demote (record msg { usage = none }) else msg

-- The message that the switch starts from.
abbrev pub start_message : Str → Object → Message
start_message line raw = record (message (other [])) {
  raw = line;
  parent_tool_use_id = parent_tool_use_id_of raw;
}

-- The message of a line that has a type.
abbrev pub event_message : Codec → Str → Object → Message
event_message codec line raw =
    without_sidechain raw
      (by_type codec (get_string raw (bytes "type")) raw (start_message line raw))

pub parse_object : Codec → Str → Object → Parsed
unfolding by_type without_sidechain
parse_object codec line raw =
    if is_empty (get_string raw (bytes "type"))
    then parse_error (bytes "claude: missing or empty type field")
    else parsed (event_message codec line raw)

by_decoding : Codec → Str → Decoding → Parsed
unfolding parse_object
by_decoding codec line (invalid err) = parse_error (bytes "claude: invalid JSON: " ++ err)
by_decoding codec line (decoded raw) = parse_object codec line raw

-- ParseLine
pub parse_line : Codec → Str → Parsed
unfolding by_decoding
parse_line codec line =
    if is_blank line then skip_line else by_decoding codec line (codec.decode line)

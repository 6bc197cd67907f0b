-- ===== src/Claude/Lines.antt =====
-- The lines that are no assistant's: system, tool, result, error and stream events, in
-- engine/cli/claude/parse.go. A function takes the message that the source has a pointer to.
use agentrun.Prelude.{
  Str, bytes, str_eq, Option, none, some, [], ◌++◌, if◌then◌else◌, is_empty, lookup, contains,
}
use agentrun.Message.{
  Message, tool_result, error, system, init, result, task_result, background_tasks, text_delta,
  tool_use_delta, thinking_delta,
}
use agentrun.Text.{truncate, sanitize_code, sanitize_stop_reason}
use agentrun.Json.{Object, Codec, get_string, get_int, itoa, object?, items_of, string?, bool_of}
use agentrun.Claude.Fields.{
  marshal_field, extract_tool_call, extract_token_usage, extract_permission_denials, tasks_of,
  single_task, terminal_task_statuses, init_meta_of,
}

-- systemSubtypeSummary
pub system_subtype_summary : Str → Object → Str
system_subtype_summary subtype raw =
    if str_eq subtype (bytes "hook_started")
    then bytes "hook_started: "
      ++ (get_string raw (bytes "hook_name")
          ++ (bytes " (" ++ (get_string raw (bytes "hook_event") ++ bytes ")")))
    else if str_eq subtype (bytes "hook_progress")
    then truncate (
        bytes "hook_progress: "
        ++ (get_string raw (bytes "hook_name")
            ++ (bytes " stdout="
                ++ (get_string raw (bytes "stdout")
                    ++ (bytes " stderr=" ++ get_string raw (bytes "stderr"))))))
    else if str_eq subtype (bytes "hook_response")
    then bytes "hook_response: "
      ++ (get_string raw (bytes "hook_name")
          ++ (bytes " outcome="
              ++ (get_string raw (bytes "outcome")
                  ++ (bytes " exit_code=" ++ itoa (get_int raw (bytes "exit_code"))))))
    else if str_eq subtype (bytes "thinking_tokens")
    then bytes "thinking_tokens: estimated=" ++ itoa (get_int raw (bytes "estimated_tokens"))
    else []

-- The two forms of an init line.
unfoldable pub parse_init : Object → Message → Message
parse_init raw msg = record msg {
  type = init;
  resume_id = get_string raw (bytes "session_id");
  init_meta = init_meta_of raw;
}

-- parseBackgroundTasks
unfoldable pub parse_background_tasks : Object → Message → Message
parse_background_tasks raw msg = record msg {
  type = background_tasks;
  tasks = tasks_of (items_of (lookup (bytes "tasks") raw));
}

-- parseTaskNotification. A message has no tasks before it.
unfoldable pub parse_task_notification : Object → Message → Message
parse_task_notification raw msg =
    if contains terminal_task_statuses (get_string raw (bytes "status"))
    then record msg {
      type = task_result;
      parent_tool_use_id = get_string raw (bytes "tool_use_id");
      content = get_string raw (bytes "summary");
      tasks = single_task (get_string raw (bytes "task_id")) [];
    }
    else record msg { type = system; content = get_string raw (bytes "message") }

-- parseSystemMessage
unfoldable pub parse_system_message : Object → Message → Message
unfolding parse_init parse_background_tasks parse_task_notification system_subtype_summary
parse_system_message raw msg =
    let subtype = get_string raw (bytes "subtype") in
    let content = get_string raw (bytes "message") in
    if str_eq subtype (bytes "init")
    then parse_init raw msg
    else if str_eq subtype (bytes "background_tasks_changed")
    then parse_background_tasks raw msg
    else if str_eq subtype (bytes "task_notification")
    then parse_task_notification raw msg
    else record msg {
      type = system;
      content = if is_empty content then system_subtype_summary subtype raw else content;
    }

-- parseToolMessage
unfoldable pub parse_tool_message : Codec → Object → Message → Message
parse_tool_message codec raw msg = record msg {
  type = tool_result;
  tool =
      some (record (extract_tool_call codec raw) {
        output = marshal_field codec raw (bytes "output");
      });
}

abbrev or_else : Option Str → Str → Str
or_else none otherwise = otherwise
or_else (some s) otherwise = s

-- parseResultMessage
unfoldable pub parse_result_message : Object → Message → Message
parse_result_message raw msg = record msg {
  type = result;
  content =
      or_else (string? (lookup (bytes "result") raw))
        (or_else (string? (lookup (bytes "text") raw)) msg.content);
  usage = extract_token_usage raw;
  stop_reason = sanitize_stop_reason (get_string raw (bytes "stop_reason"));
  denials = extract_permission_denials raw;
  is_error = bool_of (lookup (bytes "is_error") raw);
}

-- parseErrorMessage
unfoldable pub parse_error_message : Object → Message → Message
parse_error_message raw msg =
    let content = get_string raw (bytes "message") in
    record msg {
      type = error;
      error_code = sanitize_code (get_string raw (bytes "code"));
      content = truncate (if is_empty content then get_string raw (bytes "error") else content);
    }

unfoldable pub content_block_delta : Option Object → Message → Message
content_block_delta none msg = record msg {
  type = system;
  content = bytes "content_block_delta: missing or invalid delta field";
}
content_block_delta (some delta) msg =
    let type = get_string delta (bytes "type") in
    if str_eq type (bytes "text_delta")
    then record msg { type = text_delta; content = get_string delta (bytes "text") }
    else if str_eq type (bytes "input_json_delta")
    then record msg { type = tool_use_delta; content = get_string delta (bytes "partial_json") }
    else if str_eq type (bytes "thinking_delta")
    then record msg { type = thinking_delta; content = get_string delta (bytes "thinking") }
    else if str_eq type (bytes "signature_delta")
    then record msg { type = system; content = get_string delta (bytes "signature") }
    else record msg {
      type = system;
      content = bytes "content_block_delta: unknown delta type: " ++ type;
    }

-- The stop reason of a message_delta.
unfoldable pub delta_stop_reason : Option Object → Str
delta_stop_reason none = []
delta_stop_reason (some delta) = sanitize_stop_reason (get_string delta (bytes "stop_reason"))

unfoldable pub stream_event : Option Object → Message → Message
unfolding content_block_delta delta_stop_reason
stream_event none msg = record msg {
  type = system;
  content = bytes "stream_event: missing or invalid event field";
}
stream_event (some event) msg =
    let event_type = get_string event (bytes "type") in
    let delta = object? (lookup (bytes "delta") event) in
    if str_eq event_type (bytes "content_block_delta")
    then content_block_delta delta msg
    else if str_eq event_type (bytes "message_delta")
    then record msg {
      type = system;
      content = bytes "stream_event: message_delta";
      stop_reason = delta_stop_reason delta;
    }
    else record msg { type = system; content = bytes "stream_event: " ++ event_type }

-- parseStreamEvent, with parseContentBlockDelta as `content_block_delta`.
unfoldable pub parse_stream_event : Object → Message → Message
unfolding stream_event
parse_stream_event raw msg = stream_event (object? (lookup (bytes "event") raw)) msg

-- ===== src/Claude/Parse/Tasks.antt =====
-- The background tasks that a line declares.
use agentrun.Prelude.{
  ◌≤◌, ◌≡◌, refl, Str, bytes, str_eq, Bool, true, false, Option, none, some, List, [], ◌∷◌,
  if◌then◌else◌, is_empty, length, arith, lookup, subst, sym, if_intro, contains, All, All-append,
}
use agentrun.Message.{Message, BackgroundTask, subagent, is_result}
use agentrun.Text.{sanitize_code, has_control, truncate}
use agentrun.Text.Controls.{sanitize_clean}
use agentrun.Scan.{parsed}
use agentrun.Json.{Json, Object, Codec, get_string, object?, items_of}
use agentrun.Claude.Fields.{
  is_subagent_event, task_of, tasks_of, single_task, background_task_kind, terminal_task_statuses,
}
use agentrun.Claude.Content.{with_content, nested_content, parse_assistant_message}
use agentrun.Claude.Lines.{
  parse_system_message, parse_init, parse_background_tasks, parse_task_notification,
  parse_tool_message, parse_result_message, parse_error_message, content_block_delta, stream_event,
  parse_stream_event,
}
use agentrun.Claude.Parse.{by_type, start_message, demote, without_sidechain, parse_line}
use agentrun.Claude.Parse.Inversion.{parse_line-parsed}

-- An id by which a task can be correlated.
abbrev pub IsIdentified : BackgroundTask → Type 0
IsIdentified t = (is_empty t.id ≡ false) × (has_control t.id ≡ false) × (length t.id ≤ 128)

abbrev Declares : Message → Type 0
Declares msg = All IsIdentified msg.tasks

entry-IsIdentified :
    (t : BackgroundTask) (empty : Bool)
    → is_empty t.id ≡ empty
    → (has_control t.id ≡ false) × (length t.id ≤ 128)
    → All IsIdentified (if empty then [] else t ∷ [])
entry-IsIdentified t true e h = tt
entry-IsIdentified t false e h = ((e, h.0, h.1), tt)

sanitized_entry-IsIdentified :
    (raw_id kind description : Str)
    → let id = sanitize_code raw_id in
      All IsIdentified (
        if is_empty id then [] else record { id = id; kind = kind; description = description } ∷ [])
sanitized_entry-IsIdentified raw_id kind description =
    let id = sanitize_code raw_id in
    entry-IsIdentified (record { id = id; kind = kind; description = description }) (is_empty id)
      refl ((sanitize_clean raw_id).0, (sanitize_clean raw_id).1)

single_task-IsIdentified : (id kind : Str) → All IsIdentified (single_task id kind)
unfolding single_task
single_task-IsIdentified id kind = sanitized_entry-IsIdentified id kind []

task_of-IsIdentified : (entry : Option Object) → All IsIdentified (task_of entry)
unfolding task_of
task_of-IsIdentified none = tt
task_of-IsIdentified (some tm) =
    sanitized_entry-IsIdentified (get_string tm (bytes "task_id"))
      (background_task_kind (get_string tm (bytes "task_type")))
      (truncate (get_string tm (bytes "description")))

tasks_of-IsIdentified : (entries : List Json) → All IsIdentified (tasks_of entries)
unfolding tasks_of
tasks_of-IsIdentified [] = tt
tasks_of-IsIdentified (t ∷ entries) =
    All-append IsIdentified (task_of (object? (some t))) (tasks_of entries)
      (task_of-IsIdentified (object? (some t))) (tasks_of-IsIdentified entries)

parse_system_message-Declares :
    (raw : Object) (msg : Message) → Declares msg → Declares (parse_system_message raw msg)
unfolding parse_system_message parse_background_tasks parse_task_notification parse_init
parse_system_message-Declares raw msg h =
    if_intro Declares (str_eq (get_string raw (bytes "subtype")) (bytes "init")) h (
      if_intro Declares
        (str_eq (get_string raw (bytes "subtype")) (bytes "background_tasks_changed"))
        (tasks_of-IsIdentified (items_of (lookup (bytes "tasks") raw)))
        (if_intro Declares (str_eq (get_string raw (bytes "subtype")) (bytes "task_notification"))
          (if_intro Declares (contains terminal_task_statuses (get_string raw (bytes "status")))
            (single_task-IsIdentified (get_string raw (bytes "task_id")) []) h)
          h))

parse_assistant_message-tasks :
    (codec : Codec) (raw : Object) (msg : Message)
    → (parse_assistant_message codec raw msg).tasks ≡ msg.tasks
unfolding parse_assistant_message nested_content with_content
parse_assistant_message-tasks codec raw msg = ground arith

stream_event-tasks :
    (event : Option Object) (msg : Message) → (stream_event event msg).tasks ≡ msg.tasks
unfolding stream_event content_block_delta
stream_event-tasks event msg = ground arith

by_type-Declares :
    (codec : Codec) (type : Str) (raw : Object) (msg : Message)
    → Declares msg
    → Declares (by_type codec type raw msg)
unfolding by_type parse_init parse_result_message parse_error_message parse_stream_event
    parse_tool_message
by_type-Declares codec type raw msg h =
    if_intro Declares (str_eq type (bytes "system")) (parse_system_message-Declares raw msg h) (
      if_intro Declares (str_eq type (bytes "init")) h (
        if_intro Declares (str_eq type (bytes "assistant"))
          (subst (All IsIdentified) (sym (parse_assistant_message-tasks codec raw msg)) h)
          (if_intro Declares (str_eq type (bytes "tool")) h (
            if_intro Declares (str_eq type (bytes "result")) h (
              if_intro Declares (str_eq type (bytes "error")) h (
                if_intro Declares (str_eq type (bytes "stream_event"))
                  (subst (All IsIdentified)
                    (sym (stream_event-tasks (object? (lookup (bytes "event") raw)) msg)) h)
                  h))))))

without_sidechain-Declares :
    (raw : Object) (msg : Message) → Declares msg → Declares (without_sidechain raw msg)
unfolding without_sidechain demote
without_sidechain-Declares raw msg h =
    let tasks = single_task msg.parent_tool_use_id subagent in
    if_intro Declares (is_subagent_event raw)
      (if_intro Declares (is_result msg.type)
        (if_intro (All IsIdentified) (is_empty tasks) h
          (single_task-IsIdentified msg.parent_tool_use_id subagent))
        h)
      h

-- Every background task that the message of a line carries has an id by which it can be correlated: one
-- that is not empty, has no control character and is of at most 128 bytes.
pub parse_line-IsIdentified :
    (codec : Codec) (line : Str) (msg : Message)
    → parse_line codec line ≡ parsed msg
    → All IsIdentified msg.tasks
parse_line-IsIdentified codec line msg e =
    let (raw, decodes, is) = parse_line-parsed codec line msg e in
    let type = get_string raw (bytes "type") in
    let start = start_message line raw in
    subst Declares (sym is) (
      without_sidechain-Declares raw (by_type codec type raw start)
        (by_type-Declares codec type raw start tt))

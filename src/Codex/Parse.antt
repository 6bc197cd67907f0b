-- ===== src/Codex/Parse.antt =====
-- ParseLine of the Codex backend, in engine/cli/codex/parse.go.
--
-- The thread id that the backend captures is passed along: none is a nil pointer. The clock is an
-- argument.
pub mod Threads
mod Examples
use agentrun.Prelude.{
  ℕ, zero, suc, ◌==◌, leb, Str, bytes, str_eq, Bool, true, false, not, ◌&&◌, ◌||◌, Option, none,
  some, List, [], ◌∷◌, ◌++◌, if◌then◌else◌, is_empty, lookup, is_zero_ℤ,
}
use agentrun.Message.{
  Message, message, text, thinking, tool_result, error, system, init, result, other, Usage,
  no_usage,
}
use agentrun.Text.{truncate, sanitize_code}
use agentrun.Blocks.{is_blank}
use agentrun.Scan.{Parsed, parsed, skip_line, parse_error}
use agentrun.Json.{
  string, object, Fields, Object, fields, Codec, Decoding, invalid, decoded, Encoding, failed,
  encoded, get_string, get_int, object?, fields?,
}
use agentrun.Codex.Args.{no_uuid_sentinel}

abbrev is_hex : ℕ → Bool
is_hex b = (leb 48 b && leb b 57) || ((leb 97 b && leb b 102) || (leb 65 b && leb b 70))

-- A text of so many hexadecimal digits: a group of the regular expression, with the dash behind it.
abbrev hex_group : ℕ → List (ℕ → Bool) → List (ℕ → Bool)
hex_group zero rest = rest
hex_group (suc n) rest = is_hex ∷ hex_group n rest

abbrev is_dash : ℕ → Bool
is_dash b = b == 45

matches : List (ℕ → Bool) → Str → Bool
matches [] [] = true
matches [] (b ∷ s) = false
matches (p ∷ ps) [] = false
matches (p ∷ ps) (b ∷ s) = p b && matches ps s

-- isUUID
pub is_uuid : Str → Bool
unfolding matches
is_uuid s =
    matches
      (hex_group 8 (
        is_dash
        ∷ hex_group 4 (is_dash ∷ hex_group 4 (is_dash ∷ hex_group 4 (is_dash ∷ hex_group 12 [])))))
      s

abbrev started_again : Str → Message → Message
started_again id msg = record msg {
  type = system;
  content = if is_empty id then bytes "thread.started" else bytes "thread.started: " ++ id;
}

-- parseThreadStarted, on the test of the id: for a first id, and behind one or the sentinel.
started : Bool → Str → Option Str → Message → Message × Option Str
started captures id none msg =
    if captures
    then (record msg { type = init; resume_id = id }, some id)
    else (record msg { type = init }, some no_uuid_sentinel)
started captures id (some old) msg =
    if captures && str_eq old no_uuid_sentinel
    then (record msg { type = init; resume_id = id }, some id)
    else (started_again id msg, some old)

-- parseThreadStarted
pub thread_started : Object → Option Str → Message → Message × Option Str
unfolding started is_uuid
thread_started raw captured msg =
    let id = get_string raw (bytes "thread_id") in
    started (not (is_empty id) && is_uuid id) id captured msg

abbrev or_text : Str → Str → Str
or_text s otherwise = if is_empty s then otherwise else s

abbrev marshalled : Encoding → Str
marshalled (failed err) = bytes "\"[marshal error: " ++ (err ++ bytes "]\"")
marshalled (encoded value) = value

-- marshalString
marshal_string : Codec → Str → Str
marshal_string codec s = if is_empty s then [] else marshalled (codec.marshal (string s))

tool_message : Str → Str → Str → Message → Message
tool_message name input output msg = record msg {
  type = tool_result;
  tool = some (record { id = []; name = name; input = input; output = output });
}

error_message : Str → Str → Message → Message
error_message code content msg = record msg {
  type = error;
  error_code = sanitize_code code;
  content = truncate content;
}

-- The itemParsers, with marshalItem as `marshalled`.
pub parse_item : Codec → Fields → Message → Message
unfolding tool_message error_message marshal_string
parse_item codec fs msg =
    let item = fields fs in
    let type = get_string item (bytes "type") in
    let whole = marshalled (codec.marshal (object fs)) in
    if str_eq type (bytes "agent_message")
    then record msg { type = text; content = get_string item (bytes "text") }
    else if str_eq type (bytes "reasoning")
    then record msg { type = thinking; content = get_string item (bytes "text") }
    else if str_eq type (bytes "command_execution")
    then tool_message (bytes "command_execution")
        (marshal_string codec (get_string item (bytes "command"))) whole msg
    else if str_eq type (bytes "error")
    then error_message (get_string item (bytes "code"))
        (or_text (get_string item (bytes "message"))
          (or_text (get_string item (bytes "text")) (bytes "unknown error")))
        msg
    else if str_eq type (bytes "file_changes")
    then tool_message (bytes "file_changes") [] whole msg
    else if str_eq type (bytes "web_search")
    then tool_message (bytes "web_search") [] whole msg
    else if str_eq type (bytes "mcp_tool_call")
    then tool_message
        (or_text (get_string item (bytes "name"))
          (or_text (get_string item (bytes "tool_name")) (bytes "mcp_tool_call")))
        [] whole msg
    else record msg { type = system; content = bytes "item.completed/" ++ type }

-- parseItemCompleted
pub parse_item_completed : Codec → Option Fields → Message → Message
unfolding parse_item
parse_item_completed codec none msg = record msg {
  type = system;
  content = bytes "item.completed: missing item";
}
parse_item_completed codec (some fs) msg = parse_item codec fs msg

-- parseUsage
pub parse_usage : Option Object → Option Usage
parse_usage none = none
parse_usage (some usage) =
    let input = get_int usage (bytes "input_tokens") in
    let output = get_int usage (bytes "output_tokens") in
    let cached = get_int usage (bytes "cached_input_tokens") in
    let reasoning = get_int usage (bytes "reasoning_output_tokens") in
    if is_zero_ℤ input && (is_zero_ℤ output && (is_zero_ℤ cached && is_zero_ℤ reasoning))
    then none
    else some (record no_usage {
      input_tokens = input;
      output_tokens = output;
      cache_read_tokens = cached;
      thinking_tokens = reasoning;
    })

-- parseTurnFailed
pub parse_turn_failed : Option Object → Message → Message
unfolding error_message
parse_turn_failed none msg = record msg { type = error; content = bytes "turn failed" }
parse_turn_failed (some err) msg =
    error_message (get_string err (bytes "code"))
      (or_text (get_string err (bytes "message")) (bytes "turn failed")) msg

-- ParseLine from thread.started on.
pub by_type : Codec → Str → Object → Option Str → Message → Parsed × Option Str
unfolding thread_started parse_item_completed parse_usage parse_turn_failed error_message
by_type codec type raw captured msg =
    if str_eq type (bytes "thread.started")
    then (let started = thread_started raw captured msg in (parsed started.0, started.1))
    else if str_eq type (bytes "turn.started") || str_eq type (bytes "item.started")
    then (skip_line, captured)
    else if str_eq type (bytes "item.completed")
    then (parsed (parse_item_completed codec (fields? (lookup (bytes "item") raw)) msg), captured)
    else if str_eq type (bytes "turn.completed")
    then (
      parsed (record msg {
        type = result;
        usage = parse_usage (object? (lookup (bytes "usage") raw));
      }),
      captured,
    )
    else if str_eq type (bytes "turn.failed")
    then (parsed (parse_turn_failed (object? (lookup (bytes "error") raw)) msg), captured)
    else if str_eq type (bytes "error")
    then (
      parsed (
          error_message (get_string raw (bytes "code"))
            (or_text (get_string raw (bytes "message")) (bytes "unknown error")) msg),
      captured,
    )
    else (parsed (record msg { type = system; content = type }), captured)

by_decoding : Codec → ℕ → Str → Decoding → Option Str → Parsed × Option Str
unfolding by_type
by_decoding codec now line (invalid err) captured =
    (parse_error (bytes "codex: invalid JSON: " ++ err), captured)
by_decoding codec now line (decoded raw) captured =
    let type = get_string raw (bytes "type") in
    if is_empty type
    then (parse_error (bytes "codex: missing or empty type field"), captured)
    else by_type codec type raw captured
        (record (message (other [])) { raw = line; timestamp = now })

-- ParseLine
pub parse_line : Codec → ℕ → Str → Option Str → Parsed × Option Str
unfolding by_decoding
parse_line codec now line captured =
    if is_blank line
    then (skip_line, captured)
    else by_decoding codec now line (codec.decode line) captured

-- ParseLine on the lines of one process, one after the other, each with its time.
pub parse_lines : Codec → List (ℕ × Str) → Option Str → List Parsed × Option Str
unfolding parse_line
parse_lines codec [] captured = ([], captured)
parse_lines codec ((now, line) ∷ lines) captured =
    let first = parse_line codec now line captured in
    let rest = parse_lines codec lines first.1 in (first.0 ∷ rest.0, rest.1)

-- ThreadID
pub thread_id : Option Str → Str
thread_id none = []
thread_id (some id) = if str_eq id no_uuid_sentinel then [] else id

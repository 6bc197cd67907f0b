-- ===== src/OpenCode/Parse.antt =====
-- ParseLine of the OpenCode backend, in engine/cli/opencode/parse.go.
--
-- The session id that the backend captures is passed along: none is a nil pointer. The clock is an
-- argument, in the unit of the timestamps; `unix_milli` is what Go makes of a positive number in the
-- field timestamp.
pub mod Steps
mod Examples
use agentrun.Prelude.{
  ℕ, ltb, Str, bytes, str_eq, not, ◌&&◌, Option, none, some, List, [], ◌∷◌, ◌++◌, if◌then◌else◌,
  is_empty, lookup, is_zero_ℤ, two_63,
}
use agentrun.Message.{
  Message, message, text, thinking, tool_result, error, system, init, result, other, Usage,
  no_usage,
}
use agentrun.Text.{truncate, sanitize_code, sanitize_stop_reason}
use agentrun.Blocks.{is_blank}
use agentrun.Scan.{Parsed, parsed, skip_line, parse_error}
use agentrun.Json.{
  Object, Codec, Decoding, invalid, decoded, Encoding, failed, encoded, get_string, get_int,
  get_float, object?,
}
use agentrun.Claude.Fields.{cost_of}
use agentrun.OpenCode.Args.{is_session_id}

-- parseStepStart
pub parse_step_start : Object → Option Str → Message → Message × Option Str
parse_step_start raw captured msg =
    let id = get_string raw (bytes "sessionID") in
    elim captured [
      | none ↦
          if not (is_empty id) && is_session_id id
          then (record msg { type = init; resume_id = id }, some id)
          else (record msg { type = init }, none)
      | some old ↦ (
        record msg {
          type = system;
          content = if is_empty id then bytes "step_start" else bytes "step_start: " ++ id;
        },
        some old,
      )
    ]

-- The field text of an optional part: parseText and parseReasoning.
abbrev part_text : Option Object → Str → Str
part_text none content = content
part_text (some part) content = get_string part (bytes "text")

-- GetString on a map that may be nil.
abbrev string_in : Option Object → Str → Str
string_in none key = []
string_in (some m) key = get_string m key

encoding_text : Encoding → Str
encoding_text (failed err) = bytes "\"[marshal error: " ++ (err ++ bytes "]\"")
encoding_text (encoded value) = value

-- marshalField
pub marshal_field : Codec → Option Object → Str → Str
unfolding encoding_text
marshal_field codec none key = []
marshal_field codec (some m) key = elim (lookup key m) [
  | none ↦ []
  | some v ↦ encoding_text (codec.marshal v)
]

-- parseToolUse
pub parse_tool_use : Codec → Option Object → Message → Message
unfolding marshal_field
parse_tool_use codec none msg = record msg {
  type = tool_result;
  tool = some (record { id = []; name = []; input = []; output = [] });
}
parse_tool_use codec (some part) msg =
    let state = object? (lookup (bytes "state") part) in
    let fails = str_eq (string_in state (bytes "status")) (bytes "error") in
    let out = marshal_field codec state (if fails then bytes "error" else bytes "output") in
    record msg {
      type = tool_result;
      tool = some (record {
        id = get_string part (bytes "callID");
        name = get_string part (bytes "tool");
        input = marshal_field codec state (bytes "input");
        output = out;
      });
      content = if fails then truncate (string_in state (bytes "error")) else msg.content;
    }

with_cache : Option Object → Usage → Usage
with_cache none u = u
with_cache (some cache) u = record u {
  cache_read_tokens = get_int cache (bytes "read");
  cache_write_tokens = get_int cache (bytes "write");
}

tokens_of : Object → Option Object → Option Usage
unfolding with_cache
tokens_of part none = none
tokens_of part (some tokens) =
    let input = get_int tokens (bytes "input") in
    let output = get_int tokens (bytes "output") in
    if is_zero_ℤ input && is_zero_ℤ output
    then none
    else some (
        with_cache (object? (lookup (bytes "cache") tokens)) (record no_usage {
          input_tokens = input;
          output_tokens = output;
          thinking_tokens = get_int tokens (bytes "reasoning");
          cost_usd = cost_of (get_float part (bytes "cost"));
        }))

-- parseTokens
pub parse_tokens : Option Object → Option Usage
unfolding tokens_of
parse_tokens none = none
parse_tokens (some part) = tokens_of part (object? (lookup (bytes "tokens") part))

-- stepFinishStopReasons, and the reasons that are not in it.
pub step_stop_reason : Str → Str
step_stop_reason reason =
    if str_eq reason (bytes "stop")
    then bytes "end_turn"
    else if str_eq reason (bytes "tool-calls")
    then bytes "tool_use"
    else sanitize_stop_reason reason

-- parseStepFinish
pub parse_step_finish : Option Object → Message → Message
unfolding parse_tokens step_stop_reason
parse_step_finish part msg =
    let reason = string_in part (bytes "reason") in
    if str_eq reason (bytes "tool-calls")
    then record msg { type = system; content = bytes "step_finish: tool-calls" }
    else record msg {
      type = result;
      usage = parse_tokens part;
      stop_reason = if is_empty reason then msg.stop_reason else step_stop_reason reason;
    }

-- parseError
pub parse_error_event : Option Object → Message → Message
parse_error_event none msg = record msg { type = error; content = bytes "unknown error" }
parse_error_event (some err) msg =
    let nested = string_in (object? (lookup (bytes "data") err)) (bytes "message") in
    record msg {
      type = error;
      error_code = sanitize_code (get_string err (bytes "name"));
      content = truncate (if is_empty nested then get_string err (bytes "message") else nested);
    }

-- ParseLine from step_start on.
pub by_type : Codec → Str → Object → Option Str → Message → Message × Option Str
unfolding parse_step_start parse_tool_use parse_step_finish parse_error_event
by_type codec type raw captured msg =
    let part = object? (lookup (bytes "part") raw) in
    if str_eq type (bytes "step_start") then parse_step_start raw captured msg else (
      if str_eq type (bytes "text")
          then record msg { type = text; content = part_text part msg.content }
          else if str_eq type (bytes "tool_use")
          then parse_tool_use codec part msg
          else if str_eq type (bytes "step_finish")
          then parse_step_finish part msg
          else if str_eq type (bytes "reasoning")
          then record msg { type = thinking; content = part_text part msg.content }
          else if str_eq type (bytes "error")
          then parse_error_event (object? (lookup (bytes "error") raw)) msg
          else record msg { type = system; content = type },
      captured,
    )

-- parseTimestamp: a number is positive if its sign bit is not set and it is not zero.
timestamp_of : (ℕ → ℕ) → ℕ → Object → ℕ
timestamp_of unix_milli now raw =
    let ts = get_float raw (bytes "timestamp") in
    if ltb 0 ts && ltb ts two_63 then unix_milli ts else now

parse_object : (ℕ → ℕ) → Codec → ℕ → Str → Object → Option Str → Parsed × Option Str
unfolding by_type timestamp_of
parse_object unix_milli codec now line raw captured =
    let type = get_string raw (bytes "type") in
    let start = record (message (other [])) {
      raw = line;
      timestamp = timestamp_of unix_milli now raw;
    } in
    let step = by_type codec type raw captured start in
    if is_empty type
    then (parse_error (bytes "opencode: missing or empty type field"), captured)
    else (parsed step.0, step.1)

by_decoding : (ℕ → ℕ) → Codec → ℕ → Str → Decoding → Option Str → Parsed × Option Str
unfolding parse_object
by_decoding unix_milli codec now line (invalid err) captured =
    (parse_error (bytes "opencode: invalid JSON: " ++ err), captured)
by_decoding unix_milli codec now line (decoded raw) captured =
    parse_object unix_milli codec now line raw captured

-- ParseLine
pub parse_line : (ℕ → ℕ) → Codec → ℕ → Str → Option Str → Parsed × Option Str
unfolding by_decoding
parse_line unix_milli codec now line captured =
    if is_blank line
    then (skip_line, captured)
    else by_decoding unix_milli codec now line (codec.decode line) captured

-- The lines of a process, each with the time at which it is read.
pub parse_lines : (ℕ → ℕ) → Codec → List (ℕ × Str) → Option Str → List Parsed × Option Str
unfolding parse_line
parse_lines unix_milli codec [] captured = ([], captured)
parse_lines unix_milli codec ((now, line) ∷ lines) captured =
    let first = parse_line unix_milli codec now line captured in
    let rest = parse_lines unix_milli codec lines first.1 in (first.0 ∷ rest.0, rest.1)

-- ===== src/Agy.antt =====
-- The Agy backend: engine/cli/agy/agy.go and engine/cli/agy/parse.go.
--
-- The conversation id that the backend captures is passed along: none is a nil pointer.
pub mod Conversations
mod Examples
use agentrun.Prelude.{
  ℕ, leb, ◌==◌, Str, bytes, str_eq, Bool, true, not, ◌&&◌, ◌||◌, Option, none, some, List, [], ◌∷◌,
  ◌++◌, if◌then◌else◌, is_empty, length, drop, starts_with, Assoc,
}
use agentrun.Session.{Session, get_or_empty}
use agentrun.Message.{message, text, init, result}
use agentrun.Scan.{Parsed, parsed, skip_line}
use agentrun.Json.{contains_null}
use agentrun.OptionValues.{
  trim_space, parse_bool_option, is_set, opt_hitl, validate_mode_hitl, is_safe, append_value,
  append_flag, append_add_dirs,
}

abbrev result_sentinel : Str
result_sentinel = bytes "{\"type\":\"result\",\"stop_reason\":\"end_turn\"}"

-- What stands before the id in agySessionSentinel, and behind it.
abbrev pub session_start : Str
session_start = bytes "{\"type\":\"agy_session\",\"id\":\""

abbrev pub session_end : Str
session_end = bytes "\"}"

abbrev pub is_id_byte : ℕ → Bool
is_id_byte b =
    (leb 48 b && leb b 57) || ((leb 97 b && leb b 102) || ((leb 65 b && leb b 70) || (b == 45)))

pub all_id_bytes : Str → Bool
all_id_bytes [] = true
all_id_bytes (b ∷ s) = is_id_byte b && all_id_bytes s

-- isConversationID, by its regular expression.
unfoldable pub is_conversation_id : Str → Bool
unfolding all_id_bytes
is_conversation_id id = all_id_bytes id && (length id == 36)

-- The longest start without a quote, and the rest.
pub until_quote : Str → Str × Str
until_quote [] = ([], [])
until_quote (b ∷ s) =
    let rest = until_quote s in if b == 34 then ([], b ∷ s) else (b ∷ rest.0, rest.1)

-- agySessionSentinel.FindStringSubmatch: the id of a session line.
pub session_match : Str → Option Str
unfolding until_quote
session_match trimmed =
    let split = until_quote (drop (length session_start) trimmed) in
    if starts_with trimmed session_start
    then (if str_eq split.1 session_end then some split.0 else none)
    else none

-- CompareAndSwap from nil
abbrev pub captured_first : Str → Option Str → Str
captured_first id none = id
captured_first id (some old) = old

-- The line that the shell wrapper prints for a conversation id.
pub session_line : Str → Str
session_line id = bytes "{\"type\":\"agy_session\",\"id\":\"" ++ id ++ bytes "\"}"

pub by_match : ℕ → Str → Option Str → Option Str → Parsed × Option Str
unfolding is_conversation_id
by_match now line none captured =
    (parsed (record (message text) { content = line; timestamp = now }), captured)
by_match now line (some id) captured =
    if is_conversation_id id
    then (
      parsed (record (message init) { resume_id = id; timestamp = now }),
      some (captured_first id captured),
    )
    else (parsed (record (message init) { timestamp = now }), captured)

-- ParseLine
pub parse_line : ℕ → Str → Option Str → Parsed × Option Str
unfolding session_match by_match
parse_line now line captured =
    let trimmed = trim_space line in
    if is_empty trimmed
    then (skip_line, captured)
    else if str_eq trimmed result_sentinel
    then (
      parsed (record (message result) { stop_reason = bytes "end_turn"; timestamp = now }),
      captured,
    )
    else by_match now line (session_match trimmed) captured

-- The arguments of sh behind -c and the wrapper script.
pub build_wrapper_args : Str → List Str → Str → List Str
build_wrapper_args binary agy_args prompt = binary ∷ (agy_args ++ bytes "--print" ∷ prompt ∷ [])

-- appendPermissionArgs
pub append_permission_args : List Str → Assoc Str → List Str
append_permission_args args opts =
    let hitl = get_or_empty opts opt_hitl in
    let skip = is_set (parse_bool_option opts (bytes "agy.dangerously_skip_permissions")) in
    append_flag (if is_empty hitl then skip else str_eq hitl (bytes "off"))
      (bytes "--dangerously-skip-permissions") args

-- appendSessionArgs
pub append_session_args : List Str → Session → List Str
unfolding append_permission_args
append_session_args args s =
    let with_model = append_value (is_safe s.model) (bytes "--model") s.model args in
    let with_dirs = append_add_dirs with_model s.options (bytes "--add-dir") in
    append_flag (is_set (parse_bool_option s.options (bytes "agy.sandbox"))) (bytes "--sandbox")
      (append_permission_args with_dirs s.options)

-- SpawnArgs
pub spawn_args : Str → Session → List Str
unfolding build_wrapper_args append_session_args
spawn_args binary s =
    build_wrapper_args binary (append_session_args [] s)
      (if contains_null s.prompt then [] else s.prompt)

-- resolveResumeID
pub resolve_resume_id : Option Str → Session → Str
resolve_resume_id none s = get_or_empty s.options (bytes "resume_id")
resolve_resume_id (some id) s = id

pub data ResumeError : Type 0 where
  prompt_has_null invalid_mode_hitl no_conversation_id : ResumeError

pub data ResumeResult : Type 0 where
  refused : ResumeError → ResumeResult
  arguments : List Str → ResumeResult

-- ResumeArgs
pub resume_args : Str → Option Str → Session → Str → ResumeResult
unfolding resolve_resume_id build_wrapper_args append_session_args
resume_args binary captured s prompt =
    let id = resolve_resume_id captured s in
    if contains_null prompt
    then refused prompt_has_null
    else if not (validate_mode_hitl s.options)
    then refused invalid_mode_hitl
    else if is_empty id
    then refused no_conversation_id
    else arguments (
        build_wrapper_args binary (append_session_args (bytes "--conversation" ∷ id ∷ []) s) prompt)

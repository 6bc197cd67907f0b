-- ===== src/Claude/Args.antt =====
-- The arguments of a Claude subprocess: SpawnArgs, StreamArgs and ResumeArgs in
-- engine/cli/claude/claude.go.
pub mod Built
pub mod Reads
pub mod Permission
mod Examples
use agentrun.Prelude.{
  ℕ, leb, ◌==◌, Str, bytes, str_eq, Bool, true, false, not, ◌&&◌, ◌||◌, Option, none, some, List,
  [], ◌∷◌, ◌++◌, if◌then◌else◌, is_empty, length, Assoc, pos,
}
use agentrun.Session.{Session, get_or_empty, is_effort, validate_effort}
use agentrun.Json.{contains_null, itoa}
use agentrun.OptionValues.{
  IntOption, absent, given, BoolOption, unrecognized, is_set, parse_positive_int_option,
  parse_list_option, parse_bool_option, opt_mode, opt_hitl, root_options_set, validate_mode_hitl,
  starts_with_dash, is_safe, append_value, append_flag, append_add_dirs,
}

pub record Backend : Type 0 where
  pub binary : Str
  pub partial_messages : Bool

abbrev pub opt_resume_id : Str
opt_resume_id = bytes "resume_id"

abbrev pub opt_permission_mode : Str
opt_permission_mode = bytes "claude.permission_mode"

abbrev pub opt_remote_control : Str
opt_remote_control = bytes "claude.remote_control"

-- A byte that validResumeID allows.
abbrev is_id_byte : ℕ → Bool
is_id_byte b =
    ((leb 97 b && leb b 122) || (leb 65 b && leb b 90))
    || ((leb 48 b && leb b 57) || ((b == 95) || (b == 45)))

all_id_bytes : Str → Bool
all_id_bytes [] = true
all_id_bytes (b ∷ s) = is_id_byte b && all_id_bytes s

-- validateResumeID, by its regular expression
pub is_resume_id : Str → Bool
unfolding all_id_bytes
is_resume_id id = not (is_empty id) && (leb (length id) 128 && all_id_bytes id)

-- mapPermission, with none for its error
pub map_permission : Str → Option Str
map_permission perm =
    if str_eq perm (bytes "default")
    then some (bytes "default")
    else if str_eq perm (bytes "acceptEdits")
    then some (bytes "acceptEdits")
    else if str_eq perm (bytes "bypassAll")
    then some (bytes "bypassPermissions")
    else if str_eq perm (bytes "plan")
    then some (bytes "plan")
    else if str_eq perm (bytes "dontAsk")
    then some (bytes "dontAsk")
    else none

-- resolvePermissionFlag
pub resolve_permission_flag : Assoc Str → Option Str
unfolding map_permission
resolve_permission_flag opts =
    let perm = get_or_empty opts opt_permission_mode in
    if root_options_set opts
    then (if str_eq (get_or_empty opts opt_mode) (bytes "plan")
        then some (bytes "plan")
        else if str_eq (get_or_empty opts opt_hitl) (bytes "off")
        then some (bytes "bypassPermissions")
        else none)
    else if is_empty perm || str_eq perm (bytes "default")
    then none
    else map_permission perm

append_int : Str → IntOption → List Str → List Str
append_int flag (given n) args = args ++ flag ∷ itoa (pos n) ∷ []
append_int flag _ args = args

-- appendPositiveInt
pub append_positive_int : Assoc Str → Str → Str → List Str → List Str
unfolding append_int
append_positive_int opts key flag args = append_int flag (parse_positive_int_option opts key) args

append_permission : Option Str → List Str → List Str
append_permission none args = args
append_permission (some flag) args = args ++ bytes "--permission-mode" ∷ flag ∷ []

-- The loop over the allowed tools.
append_tools : List Str → List Str → List Str
append_tools [] args = args
append_tools (tool ∷ tools) args =
    append_tools tools
      (append_value (not (starts_with_dash tool)) (bytes "--allowedTools") tool args)

-- appendSessionArgs, up to the additional directories.
append_first_args : Session → List Str → List Str
unfolding append_positive_int append_permission
append_first_args s args =
    let opts = s.options in
    let prompt = get_or_empty opts (bytes "system_prompt") in
    let effort = get_or_empty opts (bytes "effort") in
    let with_model = append_value (is_safe s.model) (bytes "--model") s.model args in
    let with_prompt =
      append_value (not (is_empty prompt) && not (contains_null prompt)) (bytes "--system-prompt")
        prompt with_model in
    let with_permission = append_permission (resolve_permission_flag opts) with_prompt in
    let with_turns =
      append_positive_int opts (bytes "max_turns") (bytes "--max-turns") with_permission in
    let with_thinking =
      append_positive_int opts (bytes "thinking_budget") (bytes "--max-thinking-tokens")
        with_turns in
    append_value (is_effort effort) (bytes "--effort") effort with_thinking

-- appendSessionArgs
pub append_session_args : Session → List Str → List Str
unfolding append_first_args append_tools
append_session_args s args =
    let opts = s.options in
    let name = get_or_empty opts (bytes "session_name") in
    let with_dirs = append_add_dirs (append_first_args s args) opts (bytes "--add-dir") in
    let with_name = append_value (is_safe name) (bytes "--name") name with_dirs in
    let with_remote =
      append_flag (is_set (parse_bool_option opts opt_remote_control)) (bytes "--remote-control")
        with_name in
    append_tools (parse_list_option opts (bytes "claude.allowed_tools")) with_remote

-- baseArgs
abbrev base_args : List Str
base_args = bytes "-p" ∷ bytes "--verbose" ∷ bytes "--output-format" ∷ bytes "stream-json" ∷ []

-- SpawnArgs
pub spawn_args : Backend → Session → Str × List Str
unfolding append_session_args
spawn_args b s = (
  b.binary,
  append_session_args s base_args ++ (if contains_null s.prompt then [] else s.prompt ∷ []),
)

-- StreamArgs
pub stream_args : Backend → Session → Str × List Str
unfolding append_session_args is_resume_id
stream_args b s =
    let id = get_or_empty s.options opt_resume_id in
    let with_input = base_args ++ bytes "--input-format" ∷ bytes "stream-json" ∷ [] in
    let with_partial =
      append_flag b.partial_messages (bytes "--include-partial-messages") with_input in
    let with_resume =
      append_value (not (is_empty id) && is_resume_id id) (bytes "--resume") id with_partial in
    (b.binary, append_session_args s with_resume)

pub data ResumeError : Type 0 where
  missing_resume_id invalid_resume_id prompt_has_null invalid_mode_hitl unknown_permission :
      ResumeError
  invalid_max_turns invalid_thinking_budget invalid_remote_control invalid_effort : ResumeError

abbrev is_error_int : IntOption → Bool
is_error_int absent = false
is_error_int (given n) = false
is_error_int _ = true

abbrev is_error_bool : BoolOption → Bool
is_error_bool unrecognized = true
is_error_bool _ = false

-- validatePermissionIfNoRoot: whether it is an error.
is_bad_permission : Assoc Str → Bool
is_bad_permission opts =
    let perm = get_or_empty opts opt_permission_mode in
    if root_options_set opts
    then false
    else if is_empty perm || str_eq perm (bytes "default")
    then false
    else elim (map_permission perm) [ none ↦ true | some flag ↦ false ]

-- validateSessionOptions
pub validate_session_options : Assoc Str → Option ResumeError
unfolding is_bad_permission
validate_session_options opts =
    if not (validate_mode_hitl opts)
    then some invalid_mode_hitl
    else if is_bad_permission opts
    then some unknown_permission
    else if is_error_int (parse_positive_int_option opts (bytes "max_turns"))
    then some invalid_max_turns
    else if is_error_int (parse_positive_int_option opts (bytes "thinking_budget"))
    then some invalid_thinking_budget
    else if is_error_bool (parse_bool_option opts opt_remote_control)
    then some invalid_remote_control
    else if not (validate_effort opts)
    then some invalid_effort
    else none

pub data ResumeResult : Type 0 where
  refused : ResumeError → ResumeResult
  arguments : Str → List Str → ResumeResult

resume_with : Option ResumeError → Backend → Session → Str → Str → ResumeResult
unfolding append_session_args
resume_with (some err) b s id prompt = refused err
resume_with none b s id prompt =
    arguments b.binary
      (append_session_args s (base_args ++ bytes "--resume" ∷ id ∷ []) ++ prompt ∷ [])

-- ResumeArgs
pub resume_args : Backend → Session → Str → ResumeResult
unfolding resume_with validate_session_options is_resume_id
resume_args b s prompt =
    let id = get_or_empty s.options opt_resume_id in
    if is_empty id
    then refused missing_resume_id
    else if not (is_resume_id id)
    then refused invalid_resume_id
    else if contains_null prompt
    then refused prompt_has_null
    else resume_with (validate_session_options s.options) b s id prompt

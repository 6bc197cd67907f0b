-- ===== src/Claude/Fields.antt =====
-- What the Claude parser reads from the fields of a line: tool calls, token usage, denials and
-- background tasks, in engine/cli/claude/parse.go.
use agentrun.Prelude.{
  ℕ, ◌==◌, ◌/◌, ◌%◌, leb, Str, bytes, str_eq, Bool, true, false, not, ◌&&◌, ◌||◌, Option, none,
  some, List, [], ◌∷◌, ◌++◌, if◌then◌else◌, is_empty, lookup, is_zero_ℤ, two_63,
}
use agentrun.Message.{
  ToolCall, Usage, no_usage, PermissionDenial, BackgroundTask, InitMeta, subagent, shell,
}
use agentrun.Text.{truncate, sanitize_code}
use agentrun.Json.{
  Json, null, Object, Codec, failed, encoded, get_string, get_int, get_float, object?, items_of,
}

-- json.Marshal of an optional field: empty without the field, and for an error.
abbrev pub marshal_field : Codec → Object → Str → Str
marshal_field codec m key = elim (lookup key m) [
  | none ↦ []
  | some v ↦ elim (codec.marshal v) [ failed err ↦ [] | encoded text ↦ text ]
]

-- extractToolCall
pub extract_tool_call : Codec → Object → ToolCall
extract_tool_call codec cm = record {
  name = get_string cm (bytes "name");
  id = get_string cm (bytes "id");
  input = marshal_field codec cm (bytes "input");
  output = [];
}

-- The tests on the cost: infinite, not a number, or negative.
abbrev is_finite : ℕ → Bool
is_finite bits = not (((bits / 4503599627370496) % 2048) == 2047)

abbrev is_zero_float : ℕ → Bool
is_zero_float bits = (bits == 0) || (bits == two_63)

pub cost_of : ℕ → ℕ
cost_of bits = if is_finite bits && leb bits two_63 then bits else 0

abbrev token_counts : Option Object → Usage
token_counts none = no_usage
token_counts (some usage) = record no_usage {
  input_tokens = get_int usage (bytes "input_tokens");
  output_tokens = get_int usage (bytes "output_tokens");
  cache_read_tokens = get_int usage (bytes "cache_read_input_tokens");
  cache_write_tokens = get_int usage (bytes "cache_creation_input_tokens");
  thinking_tokens = get_int usage (bytes "thinking_tokens");
}

abbrev is_zero_usage : Usage → Bool
is_zero_usage u =
    is_zero_ℤ u.input_tokens
    && (is_zero_ℤ u.output_tokens
        && (is_zero_ℤ u.cache_read_tokens
            && (is_zero_ℤ u.cache_write_tokens
                && (is_zero_ℤ u.thinking_tokens && is_zero_float u.cost_usd))))

-- extractTokenUsage
pub extract_token_usage : Object → Option Usage
unfolding cost_of
extract_token_usage source =
    let counts = token_counts (object? (lookup (bytes "usage") source)) in
    let u = record counts { cost_usd = cost_of (get_float source (bytes "total_cost_usd")) } in
    if is_zero_usage u then none else some u

-- One entry of permission_denials.
denial_of : Option Object → List PermissionDenial
denial_of none = []
denial_of (some entry) =
    let tool = sanitize_code (get_string entry (bytes "tool")) in
    let reason = truncate (get_string entry (bytes "reason")) in
    if is_empty tool && is_empty reason then [] else record { tool = tool; reason = reason } ∷ []

-- The loop of extractPermissionDenials.
pub denials_of : List Json → List PermissionDenial
unfolding denial_of
denials_of [] = []
denials_of (entry ∷ arr) = denial_of (object? (some entry)) ++ denials_of arr

-- extractPermissionDenials
pub extract_permission_denials : Object → List PermissionDenial
unfolding denials_of
extract_permission_denials raw = denials_of (items_of (lookup (bytes "permission_denials") raw))

-- backgroundTaskKind
pub background_task_kind : Str → Str
background_task_kind task_type =
    if str_eq task_type (bytes "local_agent")
    then subagent
    else if str_eq task_type (bytes "local_bash")
    then shell
    else sanitize_code task_type

-- One entry of tasks: none without an object or with no id.
unfoldable pub task_of : Option Object → List BackgroundTask
unfolding background_task_kind
task_of none = []
task_of (some tm) =
    let id = sanitize_code (get_string tm (bytes "task_id")) in
    if is_empty id
    then []
    else record {
      id = id;
      kind = background_task_kind (get_string tm (bytes "task_type"));
      description = truncate (get_string tm (bytes "description"));
    }
      ∷ []

-- The loop of parseBackgroundTasks.
unfoldable pub tasks_of : List Json → List BackgroundTask
unfolding task_of
tasks_of [] = []
tasks_of (t ∷ tasks) = task_of (object? (some t)) ++ tasks_of tasks

-- A single task with an id and a kind, or none if the id sanitizes away.
unfoldable pub single_task : Str → Str → List BackgroundTask
single_task raw_id kind =
    let id = sanitize_code raw_id in
    if is_empty id then [] else record { id = id; kind = kind; description = [] } ∷ []

-- terminalTaskStatuses
abbrev pub terminal_task_statuses : List Str
terminal_task_statuses =
    bytes "completed"
    ∷ bytes "failed"
    ∷ bytes "error"
    ∷ bytes "cancelled"
    ∷ bytes "canceled"
    ∷ bytes "timeout"
    ∷ bytes "stopped"
    ∷ []

-- parseInitFields, its second result.
pub init_meta_of : Object → Option InitMeta
init_meta_of raw =
    let model = sanitize_code (get_string raw (bytes "model")) in
    let version = sanitize_code (get_string raw (bytes "claude_code_version")) in
    if is_empty model && is_empty version
    then none
    else some (record { model = model; agent_name = []; agent_version = version })

-- isSubagentEvent
unfoldable pub is_subagent_event : Object → Bool
is_subagent_event raw = elim (lookup (bytes "parent_tool_use_id") raw) [
  | none ↦ false
  | some v ↦ elim v [ null ↦ false | _ ↦ true ]
]

-- parentToolUseID
pub parent_tool_use_id_of : Object → Str
parent_tool_use_id_of raw = get_string raw (bytes "parent_tool_use_id")

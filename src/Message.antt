-- ===== src/Message.antt =====
-- The messages of an agent process: message.go and contextfill.go.
--
-- `MessageType` has a constructor for each constant of the source and `other` for any further tag.
-- A Go `int` that a backend fills in is a ℤ. A `float64` is carried by its 64 bits, since no
-- arithmetic is done on it here. A timestamp is a number whose zero is Go's zero time. A nil and an
-- empty slice are one list, since the modelled code only ranges over them.
use agentrun.Prelude.{
  ℕ, Str, bytes, Bool, true, false, ◌||◌, Option, none, some, List, [], ◌∷◌, ℤ, pos, ltb_ℤ, sub_ℕ,
  if◌then◌else◌, str_eq,
}

pub data MessageType : Type 0 where
  text tool_use tool_result error system init result task_result : MessageType
  background_tasks context_window eof thinking : MessageType
  text_delta tool_use_delta thinking_delta : MessageType
  other : Str → MessageType

-- The string behind a message type.
unfoldable pub type_string : MessageType → Str
type_string text = bytes "text"
type_string tool_use = bytes "tool_use"
type_string tool_result = bytes "tool_result"
type_string error = bytes "error"
type_string system = bytes "system"
type_string init = bytes "init"
type_string result = bytes "result"
type_string task_result = bytes "task_result"
type_string background_tasks = bytes "background_tasks"
type_string context_window = bytes "context_window"
type_string eof = bytes "eof"
type_string thinking = bytes "thinking"
type_string text_delta = bytes "text_delta"
type_string tool_use_delta = bytes "tool_use_delta"
type_string thinking_delta = bytes "thinking_delta"
type_string (other tag) = tag

-- `t == MessageResult` and the like.
abbrev pub is_result : MessageType → Bool
is_result result = true
is_result _ = false

abbrev pub is_init : MessageType → Bool
is_init init = true
is_init _ = false

abbrev pub is_error : MessageType → Bool
is_error error = true
is_error _ = false

abbrev pub is_task_result : MessageType → Bool
is_task_result task_result = true
is_task_result _ = false

abbrev pub is_background_tasks : MessageType → Bool
is_background_tasks background_tasks = true
is_background_tasks _ = false

pub record ToolCall : Type 0 where
  pub name : Str
  pub id : Str
  pub input : Str
  pub output : Str

-- BackgroundKind is a string; these are its two constants.
abbrev pub subagent : Str
subagent = bytes "subagent"

abbrev pub shell : Str
shell = bytes "shell"

pub record BackgroundTask : Type 0 where
  pub id : Str
  pub kind : Str
  pub description : Str

pub record TaskCounts : Type 0 where
  pub kind : Str
  pub started : ℕ
  pub finished : ℕ
  pub pending_ids : List Str

-- TaskCounts.Pending
unfoldable pub pending_count : TaskCounts → ℤ
pending_count c = sub_ℕ c.started c.finished

pub record BackgroundStats : Type 0 where
  pub kinds : List TaskCounts

unfoldable pub find_kind : List TaskCounts → Str → Option TaskCounts
find_kind [] k = none
find_kind (tc ∷ rest) k =
    let later = find_kind rest k in if str_eq tc.kind k then some tc else later

-- BackgroundStats.Kind: `none` is `TaskCounts{}, false`; a nil receiver has no kinds.
unfoldable pub stats_kind : Option BackgroundStats → Str → Option TaskCounts
unfolding find_kind
stats_kind none k = none
stats_kind (some s) k = find_kind s.kinds k

pub record Usage : Type 0 where
  pub input_tokens : ℤ
  pub output_tokens : ℤ
  pub cache_read_tokens : ℤ
  pub cache_write_tokens : ℤ
  pub thinking_tokens : ℤ
  pub cost_usd : ℕ
  pub context_size_tokens : ℤ
  pub context_used_tokens : ℤ

abbrev pub no_usage : Usage
no_usage = record {
  input_tokens = pos 0;
  output_tokens = pos 0;
  cache_read_tokens = pos 0;
  cache_write_tokens = pos 0;
  thinking_tokens = pos 0;
  cost_usd = 0;
  context_size_tokens = pos 0;
  context_used_tokens = pos 0;
}

pub record InitMeta : Type 0 where
  pub model : Str
  pub agent_name : Str
  pub agent_version : Str

pub record ProcessMeta : Type 0 where
  pub pid : ℤ
  pub binary : Str

pub record PermissionDenial : Type 0 where
  pub tool : Str
  pub reason : Str

-- `usage` is a pointer that only the parsed message holds, so a write through it is a record update.
pub record Message : Type 0 where
  pub type : MessageType
  pub content : Str
  pub tool : Option ToolCall
  pub tools : List (Option ToolCall)
  pub parent_tool_use_id : Str
  pub background : Option BackgroundStats
  pub tasks : List BackgroundTask
  pub usage : Option Usage
  pub stop_reason : Str
  pub error_code : Str
  pub resume_id : Str
  pub init_meta : Option InitMeta
  pub process : Option ProcessMeta
  pub is_error : Bool
  pub denials : List PermissionDenial
  pub raw : Str
  pub timestamp : ℕ

-- Message{Type: t}
abbrev pub message : MessageType → Message
message t = record {
  type = t;
  content = [];
  tool = none;
  tools = [];
  parent_tool_use_id = [];
  background = none;
  tasks = [];
  usage = none;
  stop_reason = [];
  error_code = [];
  resume_id = [];
  init_meta = none;
  process = none;
  is_error = false;
  denials = [];
  raw = [];
  timestamp = 0;
}

usage_fill : Option Usage → Option (ℤ × ℤ)
usage_fill none = none
usage_fill (some u) =
    if ltb_ℤ (pos 0) u.context_used_tokens || ltb_ℤ (pos 0) u.context_size_tokens
    then some (u.context_used_tokens, u.context_size_tokens)
    else none

-- ContextFill: used and size, or `none` for `0, 0, false`.
unfoldable pub context_fill : Message → Option (ℤ × ℤ)
unfolding usage_fill
context_fill msg = usage_fill msg.usage

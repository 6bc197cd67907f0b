-- ===== src/Summary.antt =====
-- The summary of a turn: TurnSummary and its Add in turnsummary.go.
pub mod Collects
pub mod LastResult
mod Examples
use agentrun.Prelude.{
  Str, Bool, true, false, Option, none, some, List, [], ◌∷◌, ◌++◌, if◌then◌else◌, is_empty,
}
use agentrun.Message.{
  MessageType, Message, ToolCall, Usage, PermissionDenial, is_background_tasks, text, thinking,
  error, result,
}
use agentrun.Filter.{is_delta}

pub record TurnSummary : Type 0 where
  pub text_blocks : List Str
  pub thinking_blocks : List Str
  pub tool_calls : List ToolCall
  pub usage : Option Usage
  pub stop_reason : Str
  pub denials : List PermissionDenial
  pub is_error : Bool
  pub errors : List Str
  pub result : Bool
  pub messages : List Message

-- var s TurnSummary
abbrev pub empty_summary : TurnSummary
empty_summary = record {
  text_blocks = [];
  thinking_blocks = [];
  tool_calls = [];
  usage = none;
  stop_reason = [];
  denials = [];
  is_error = false;
  errors = [];
  result = false;
  messages = [];
}

-- The loop over msg.Tools, which skips nil.
pub present_tools : List (Option ToolCall) → List ToolCall
present_tools [] = []
present_tools (none ∷ tools) = present_tools tools
present_tools (some tc ∷ tools) = tc ∷ present_tools tools

abbrev one_tool : Option ToolCall → List ToolCall
one_tool none = []
one_tool (some tc) = tc ∷ []

-- The tool calls that one message adds.
pub message_tools : Message → List ToolCall
unfolding present_tools
message_tools msg =
    if is_background_tasks msg.type
    then []
    else if is_empty msg.tools
    then one_tool msg.tool
    else present_tools msg.tools

-- The switch on the type.
pub add_fields : MessageType → TurnSummary → Message → TurnSummary
add_fields text s msg = record s { text_blocks = s.text_blocks ++ msg.content ∷ [] }
add_fields thinking s msg = record s { thinking_blocks = s.thinking_blocks ++ msg.content ∷ [] }
add_fields error s msg = record s { errors = s.errors ++ msg.content ∷ [] }
add_fields result s msg = record s {
  usage = msg.usage;
  stop_reason = msg.stop_reason;
  denials = msg.denials;
  is_error = msg.is_error;
  result = true;
}
add_fields _ s msg = s

-- TurnSummary.Add
pub add : TurnSummary → Message → TurnSummary
unfolding add_fields message_tools
add s msg =
    let s = record s { messages = s.messages ++ msg ∷ [] } in
    if is_delta msg.type
    then s
    else add_fields msg.type (record s { tool_calls = s.tool_calls ++ message_tools msg }) msg

pub add_all : TurnSummary → List Message → TurnSummary
unfolding add
add_all s [] = s
add_all s (msg ∷ msgs) = add_all (add s msg) msgs

-- ===== src/Claude/Content.antt =====
-- The content of an assistant line: parseAssistantContent and parseAssistantMessage in
-- engine/cli/claude/parse.go.
use agentrun.Prelude.{
  Str, bytes, str_eq, not, Option, none, some, List, [], ◌∷◌, ◌++◌, if◌then◌else◌, is_empty, lookup,
}
use agentrun.Message.{Message, ToolCall, text, thinking}
use agentrun.Json.{Json, Object, Codec, get_string, object?, items_of}
use agentrun.Claude.Fields.{extract_tool_call, extract_token_usage}

-- The builders of the loop in parseAssistantContent, with the tools that it appends to the message.
pub record Collected : Type 0 where
  pub text : Str
  pub thinking : Str
  pub tools : List (Option ToolCall)

abbrev pub nothing_collected : Collected
nothing_collected = record { text = []; thinking = []; tools = [] }

pub collect_block : Codec → Object → Collected → Collected
collect_block codec cm acc =
    let ct = get_string cm (bytes "type") in
    if str_eq ct (bytes "thinking")
    then record acc { thinking = acc.thinking ++ get_string cm (bytes "thinking") }
    else if str_eq ct (bytes "tool_use")
    then record acc { tools = acc.tools ++ some (extract_tool_call codec cm) ∷ [] }
    else record acc { text = acc.text ++ get_string cm (bytes "text") }

collect_item : Codec → Option Object → Collected → Collected
unfolding collect_block
collect_item codec none acc = acc
collect_item codec (some cm) acc = collect_block codec cm acc

pub collect : Codec → List Json → Collected → Collected
unfolding collect_item
collect codec [] acc = acc
collect codec (c ∷ content) acc = collect codec content (collect_item codec (object? (some c)) acc)

abbrev last_tool : Option ToolCall → List (Option ToolCall) → Option ToolCall
last_tool tool [] = tool
last_tool tool (tc ∷ tools) = last_tool tc tools

-- parseAssistantContent, on the loop's result.
unfoldable pub with_content : Collected → Message → Message
with_content acc msg =
    let tooled = record msg {
      tool = last_tool msg.tool acc.tools;
      tools = msg.tools ++ acc.tools;
    } in
    if not (is_empty acc.text)
    then record tooled { content = acc.text }
    else if not (is_empty acc.thinking)
    then record tooled { type = thinking; content = acc.thinking }
    else tooled

-- A field as the content, if there is none yet.
abbrev pub or_field : Object → Str → Message → Message
or_field raw key msg =
    if is_empty msg.content then record msg { content = get_string raw key } else msg

unfoldable pub nested_content : Codec → Option Object → Message → Message
unfolding with_content collect
nested_content codec none msg = msg
nested_content codec (some inner) msg =
    record (with_content
      (collect codec (items_of (lookup (bytes "content") inner)) nothing_collected) msg) {
        usage = extract_token_usage inner;
      }

-- parseAssistantMessage
unfoldable pub parse_assistant_message : Codec → Object → Message → Message
unfolding nested_content
parse_assistant_message codec raw msg = or_field raw (bytes "content") (
    or_field raw (bytes "text")
      (nested_content codec (object? (lookup (bytes "message") raw)) (record msg { type = text })))

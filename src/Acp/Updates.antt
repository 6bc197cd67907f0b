-- ===== src/Acp/Updates.antt =====
-- What an ACP session update becomes: parseSessionUpdate and its parsers in engine/acp/update.go.
--
-- json.Unmarshal of the raw update into a struct is one function for each struct, in `Decoders`, and
-- gives a value or the text of its error; json.Marshal of a string is `quote`.
pub mod Usages
mod Examples
use agentrun.Prelude.{
  ℕ, ◌==◌, Str, bytes, str_eq, Bool, true, false, not, ◌||◌, Option, none, some, List, [], ◌∷◌,
  ◌++◌, if◌then◌else◌, is_empty, Assoc, lookup, ℤ, pos, ltb_ℤ, is_zero_ℤ,
}
use agentrun.Message.{
  MessageType, Message, message, text, tool_use, tool_result, error, system, context_window,
  text_delta, thinking_delta, no_usage,
}
use agentrun.Text.{truncate}

pub data Decoded {ℓ} (A : Type ℓ) : Type ℓ where
  bad : Str → Decoded A
  good : A → Decoded A

-- toolCallUpdate
pub record ToolCallUpdate : Type 0 where
  pub title : Str
  pub status : Str
  pub content : Str
  pub raw_input : Str
  pub raw_output : Str

-- A block of ToolCallContent, as extractContentText decodes it.
pub record ContentItem : Type 0 where
  pub type : Str
  pub text : Str

-- usageUpdate
pub record UsageUpdate : Type 0 where
  pub size : ℤ
  pub used : ℤ

pub record Decoders : Type 0 where
  pub header : Str → Decoded Str
  pub chunk : Str → Decoded Str
  pub tool_call : Str → Decoded ToolCallUpdate
  pub content_items : Str → Decoded (List ContentItem)
  pub plan : Str → Decoded (List Str)
  pub current_mode : Str → Decoded Str
  pub session_info : Str → Decoded Str
  pub usage : Str → Decoded UsageUpdate
  pub quote : Str → Str

-- unmarshalError
pub unmarshal_error : Str → Str → Message
unmarshal_error update_type err = record (message error) {
  content = truncate (bytes "acp: unmarshal " ++ (update_type ++ (bytes ": " ++ err)));
}

abbrev of_decoded {ℓ} : {A : Type ℓ} → Str → (A → Message) → Decoded A → Message
of_decoded update_type make (bad err) = unmarshal_error update_type err
of_decoded update_type make (good a) = make a

abbrev system_message : Str → Message
system_message content = record (message system) { content = content }

-- contentChunkParser
pub parse_chunk : MessageType → Decoders → Str → Message
parse_chunk type d update =
    of_decoded (bytes "content_chunk") (λ t. record (message type) { content = t }) (d.chunk update)

-- parseToolCall
pub parse_tool_call : Decoders → Str → Message
parse_tool_call d update =
    of_decoded (bytes "tool_call")
      (λ u. record (message tool_use) {
        tool = some (record { id = []; name = u.title; input = u.raw_input; output = [] });
      })
      (d.tool_call update)

-- The loop of extractContentText.
join_content : List ContentItem → Str → Str
join_content [] written = written
join_content (blk ∷ blocks) written = join_content blocks (
    if not (str_eq blk.type (bytes "content")) || is_empty blk.text
    then written
    else (if is_empty written then written else written ++ 10 ∷ []) ++ blk.text)

-- extractContentText
pub extract_content_text : Decoders → Str → Str
unfolding join_content
extract_content_text d raw =
    if is_empty raw
    then []
    else elim (d.content_items raw) [ bad err ↦ [] | good blocks ↦ join_content blocks [] ]

-- extractToolOutput
pub extract_tool_output : Decoders → ToolCallUpdate → Str
unfolding extract_content_text
extract_tool_output d u =
    let t = extract_content_text d u.content in if is_empty t then u.raw_output else d.quote t

tool_call_message : Decoders → ToolCallUpdate → Message
unfolding extract_tool_output
tool_call_message d u =
    if str_eq u.status (bytes "completed")
    then record (message tool_result) {
      tool =
          some (record { id = []; name = u.title; input = []; output = extract_tool_output d u });
    }
    else if str_eq u.status (bytes "failed")
    then record (message error) {
      error_code = bytes "tool_call_failed";
      content = truncate (bytes "tool_call failed: " ++ u.title);
    }
    else system_message
        (bytes "tool_call_update: " ++ (u.title ++ (bytes " (" ++ (u.status ++ bytes ")"))))

-- parseToolCallUpdate
pub parse_tool_call_update : Decoders → Str → Message
unfolding tool_call_message
parse_tool_call_update d update =
    of_decoded (bytes "tool_call_update") (tool_call_message d) (d.tool_call update)

-- The loop of parsePlan over the contents of the entries.
join_entries : Bool → List Str → Str → Str
join_entries first [] written = written
join_entries first (e ∷ entries) written =
    join_entries false entries ((if first then written else written ++ 10 ∷ []) ++ e)

-- parsePlan
pub parse_plan : Decoders → Str → Message
unfolding join_entries
parse_plan d update =
    of_decoded (bytes "plan")
      (λ entries. record (message text) { content = join_entries true entries [] }) (d.plan update)

-- parseCurrentModeUpdate
pub parse_current_mode : Decoders → Str → Message
parse_current_mode d update =
    of_decoded (bytes "current_mode_update") (λ mode. system_message (bytes "mode:" ++ mode))
      (d.current_mode update)

-- parseSessionInfoUpdate
pub parse_session_info : Decoders → Str → Message
parse_session_info d update =
    of_decoded (bytes "session_info_update")
      (λ title. system_message (bytes "session_info:" ++ title)) (d.session_info update)

abbrev at_least_zero : ℤ → ℤ
at_least_zero z = if ltb_ℤ z (pos 0) then pos 0 else z

usage_message : UsageUpdate → Option Message
usage_message u =
    let size = at_least_zero u.size in
    let used = at_least_zero u.used in
    if is_zero_ℤ size
    then none
    else some (record (message context_window) {
      usage = some (record no_usage {
        context_size_tokens = size;
        context_used_tokens = if ltb_ℤ size used then size else used;
      });
    })

-- parseUsageUpdate: none is the update that is consumed silently.
pub parse_usage : Decoders → Str → Option Message
unfolding usage_message
parse_usage d update = elim (d.usage update) [
  | bad err ↦ some (unmarshal_error (bytes "usage_update") err)
  | good u ↦ usage_message u
]

abbrev always {ℓ} : {A : Type ℓ} → (Decoders → A → Message) → Decoders → A → Option Message
always parse d update = some (parse d update)

-- updateParsers
pub update_parsers : Assoc (Decoders → Str → Option Message)
unfolding parse_chunk parse_tool_call parse_tool_call_update parse_plan parse_current_mode
    parse_session_info parse_usage
update_parsers =
    (bytes "agent_message_chunk", always (parse_chunk text_delta))
    ∷ (bytes "agent_thought_chunk", always (parse_chunk thinking_delta))
    ∷ (bytes "user_message_chunk", always (parse_chunk system))
    ∷ (bytes "tool_call", always parse_tool_call)
    ∷ (bytes "tool_call_update", always parse_tool_call_update)
    ∷ (bytes "plan", always parse_plan)
    ∷ (bytes "current_mode_update", always parse_current_mode)
    ∷ (
      bytes "config_option_update",
      λ d update. some (system_message (bytes "config_option_update")),
    )
    ∷ (bytes "session_info_update", always parse_session_info)
    ∷ (bytes "usage_update", parse_usage)
    ∷ (
      bytes "available_commands_update",
      λ d update. some (system_message (bytes "available_commands_update")),
    )
    ∷ []

abbrev stamp_if_unset : ℕ → Message → Message
stamp_if_unset now msg = if msg.timestamp == 0 then record msg { timestamp = now } else msg

abbrev system_at : ℕ → Str → Message
system_at now content = record (message system) { content = content; timestamp = now }

stamped : ℕ → Option Message → Option Message
stamped now none = none
stamped now (some msg) = some (stamp_if_unset now msg)

run_parser : Decoders → ℕ → Str → Str → Option (Decoders → Str → Option Message) → Option Message
unfolding stamped
run_parser d now kind update none = some (system_at now kind)
run_parser d now kind update (some parse) = stamped now (parse d update)

-- parseSessionUpdate from the discriminator on.
by_header : Decoders → ℕ → Str → Decoded Str → Option Message
unfolding run_parser update_parsers
by_header d now update (bad err) = some (record (message error) {
  content = truncate (bytes "acp: unmarshal session update header: " ++ err);
  timestamp = now;
})
by_header d now update (good kind) =
    if is_empty kind
    then some (system_at now (bytes "unknown"))
    else run_parser d now kind update (lookup kind update_parsers)

-- parseSessionUpdate
pub parse_session_update : Decoders → ℕ → Str → Option Message
unfolding by_header
parse_session_update d now update =
    if is_empty update
    then some (system_at now (bytes "unknown"))
    else by_header d now update (d.header update)

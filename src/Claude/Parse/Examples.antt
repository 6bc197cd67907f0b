-- ===== src/Claude/Parse/Examples.antt =====
-- The theorems on the Claude parser at concrete lines, with decoders that know one object.
use agentrun.Prelude.{◌≡◌, refl, Str, bytes, str_eq, true, false, none, [], ◌∷◌, is_empty}
use agentrun.Message.{Message, message, result, thinking}
use agentrun.Text.{has_control, sanitize_stop_reason}
use agentrun.Scan.{parsed, carry_stop_reason}
use agentrun.Json.{
  Json, string, object, field, no_fields, boolean, Object, Codec, decoded, failed, get_string,
}
use agentrun.Claude.Parse.{event_message, parse_line, by_decoding, parse_object}
use agentrun.Claude.Fields.{is_subagent_event}
use agentrun.Blocks.{is_blank}
use agentrun.Claude.Parse.Sidechain.{is_sidechain, parse_line-is_sidechain}
use agentrun.Claude.Parse.Leak.{IsMessageDelta, carry_all, parse_line-carried}

abbrev codec_for : Object → Codec
codec_for raw = record { decode = λ line. decoded raw; marshal = λ v. failed [] }

abbrev subagent_result : Object
subagent_result =
    (bytes "type", string (bytes "result"))
    ∷ (bytes "parent_tool_use_id", string (bytes "toolu_1"))
    ∷ (bytes "is_error", boolean true)
    ∷ (bytes "stop_reason", string (bytes "end_turn"))
    ∷ []

abbrev delta : Object
delta = (bytes "stop_reason", string (bytes "tool_use")) ∷ []

abbrev delta_line : Object
delta_line =
    (bytes "type", string (bytes "stream_event"))
    ∷ (bytes "parent_tool_use_id", string (bytes "toolu_1"))
    ∷ (
      bytes "event",
      object (
          field (bytes "type") (string (bytes "message_delta")) (
            field (bytes "delta")
              (object (field (bytes "stop_reason") (string (bytes "tool_use")) no_fields))
              no_fields)),
    )
    ∷ []

abbrev line : Str
line = bytes "{}"

subagent_result-parsed :
    parse_line (codec_for subagent_result) line
    ≡ parsed (event_message (codec_for subagent_result) line subagent_result)
unfolding parse_line by_decoding parse_object is_blank agentrun.Json.get_string
    agentrun.Prelude.lookup str_eq
subagent_result-parsed = refl

subagent_result-is_subagent : is_subagent_event subagent_result ≡ true
unfolding is_subagent_event agentrun.Prelude.lookup str_eq
subagent_result-is_subagent = refl

delta_line-is_subagent : is_subagent_event delta_line ≡ true
unfolding is_subagent_event agentrun.Prelude.lookup str_eq
delta_line-is_subagent = refl

line-is_written : is_blank line ≡ false
unfolding is_blank
line-is_written = refl

delta_line-IsMessageDelta : IsMessageDelta delta_line delta
unfolding agentrun.Json.get_string agentrun.Prelude.lookup str_eq
delta_line-IsMessageDelta = record {
  event =
      (bytes "type", string (bytes "message_delta"))
      ∷ (bytes "delta", object (field (bytes "stop_reason") (string (bytes "tool_use")) no_fields))
      ∷ [];
  outer_type = refl;
  inner = refl;
  inner_type = refl;
  with_delta = refl;
}

delta-is_given : is_empty (sanitize_stop_reason (get_string delta (bytes "stop_reason"))) ≡ false
unfolding sanitize_stop_reason has_control agentrun.Json.get_string agentrun.Prelude.lookup str_eq
delta-is_given = refl

parse_line-is_sidechain_example :
    (is_sidechain (event_message (codec_for subagent_result) line subagent_result) ≡ true)
    × ((event_message (codec_for subagent_result) line subagent_result).usage ≡ none)
parse_line-is_sidechain_example =
    parse_line-is_sidechain (codec_for subagent_result) line subagent_result
      (event_message (codec_for subagent_result) line subagent_result) refl
      subagent_result-is_subagent subagent_result-parsed

parse_line-carried_example :
    (msg : Message) × (parse_line (codec_for delta_line) line ≡ parsed msg)
    × ((carry_stop_reason
          (message result)
          (carry_all (msg ∷ message thinking ∷ []) [])).0.stop_reason
        ≡ sanitize_stop_reason (get_string delta (bytes "stop_reason")))
parse_line-carried_example =
    parse_line-carried (codec_for delta_line) line delta_line delta (message thinking ∷ [])
      (message result) [] line-is_written refl delta_line-IsMessageDelta delta_line-is_subagent
      delta-is_given ((refl, refl, refl), tt) refl refl

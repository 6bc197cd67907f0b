-- ===== src/Claude/Parse/Leak.antt =====
-- The stop reason on a subagent's message_delta.
use agentrun.Prelude.{
  ◌≡◌, refl, Str, bytes, str_eq, true, false, some, [], is_empty, arith, lookup, ap, ◌∙◌, List, ◌∷◌,
  All,
}
use agentrun.Message.{Message, is_result, is_init, system}
use agentrun.Text.{sanitize_stop_reason}
use agentrun.Blocks.{is_blank}
use agentrun.Scan.{parsed, carry_stop_reason}
use agentrun.Json.{Object, Codec, decoded, get_string, object?}
use agentrun.Claude.Fields.{is_subagent_event}
use agentrun.Claude.Lines.{delta_stop_reason, parse_stream_event, stream_event}
use agentrun.Claude.Parse.{
  by_type, start_message, event_message, without_sidechain, demote, parse_object, by_decoding,
  parse_line,
}

-- A stream event whose inner event is a message_delta with the given delta.
pub record IsMessageDelta (raw delta : Object) : Type 0 where
  pub event : Object
  pub outer_type : get_string raw (bytes "type") ≡ bytes "stream_event"
  pub inner : object? (lookup (bytes "event") raw) ≡ some event
  pub inner_type : get_string event (bytes "type") ≡ bytes "message_delta"
  pub with_delta : object? (lookup (bytes "delta") event) ≡ some delta

abbrev reason_of : Object → Str
reason_of delta = sanitize_stop_reason (get_string delta (bytes "stop_reason"))

abbrev delta_message : Str → Object → Object → Message
delta_message line raw delta = record (start_message line raw) {
  type = system;
  content = bytes "stream_event: message_delta";
  stop_reason = reason_of delta;
}

stream_event-delta :
    (raw delta : Object) (msg : Message)
    → IsMessageDelta raw delta
    → parse_stream_event raw msg ≡ record msg {
      type = system;
      content = bytes "stream_event: message_delta";
      stop_reason = reason_of delta;
    }
unfolding parse_stream_event stream_event delta_stop_reason str_eq
stream_event-delta raw delta msg d = simp (d.inner, d.inner_type, d.with_delta)

event_message-delta :
    (codec : Codec) (line : Str) (raw delta : Object)
    → IsMessageDelta raw delta
    → is_subagent_event raw ≡ true
    → event_message codec line raw ≡ delta_message line raw delta
unfolding by_type without_sidechain demote str_eq
event_message-delta codec line raw delta d sub =
    simp (d.outer_type, sub, stream_event-delta raw delta (start_message line raw) d)

parse_line-event :
    (codec : Codec) (line : Str) (raw : Object)
    → is_blank line ≡ false
    → codec.decode line ≡ decoded raw
    → get_string raw (bytes "type") ≡ bytes "stream_event"
    → parse_line codec line ≡ parsed (event_message codec line raw)
unfolding parse_line by_decoding parse_object
parse_line-event codec line raw written decodes type = simp (written, decodes, type)

-- A message that neither starts a session nor ends a turn, and reports no stop reason.
abbrev pub IsQuiet : Message → Type 0
IsQuiet msg =
    (is_init msg.type ≡ false) × (is_result msg.type ≡ false) × (is_empty msg.stop_reason ≡ true)

-- The reason that is carried behind a sequence of messages.
unfoldable pub carry_all : List Message → Str → Str
carry_all [] last = last
carry_all (msg ∷ msgs) last = carry_all msgs (carry_stop_reason msg last).1

carry_all-quiet : (msgs : List Message) (last : Str) → All IsQuiet msgs → carry_all msgs last ≡ last
unfolding carry_all carry_stop_reason
carry_all-quiet [] last quiet = refl
carry_all-quiet (msg ∷ msgs) last quiet = ground (arith, carry_all-quiet msgs last quiet.1)

carry_stop_reason-next :
    (msg r : Message) (last : Str)
    → is_init msg.type ≡ false
    → is_result msg.type ≡ false
    → is_empty msg.stop_reason ≡ false
    → is_result r.type ≡ true
    → r.stop_reason ≡ []
    → (carry_stop_reason r (carry_stop_reason msg last).1).0.stop_reason ≡ msg.stop_reason
unfolding carry_stop_reason
carry_stop_reason-next msg r last not_init not_result given is_res unset = ground arith

-- A message_delta of a subagent's sidechain keeps its stop reason, and the engine carries it on: the
-- parent's next result, if it has no stop reason of its own and no message in between starts a session
-- or reports a stop reason, gets the subagent's.
pub parse_line-carried :
    (codec : Codec) (line : Str) (raw delta : Object) (between : List Message) (r : Message)
    (last : Str)
    → is_blank line ≡ false
    → codec.decode line ≡ decoded raw
    → IsMessageDelta raw delta
    → is_subagent_event raw ≡ true
    → is_empty (sanitize_stop_reason (get_string delta (bytes "stop_reason"))) ≡ false
    → All IsQuiet between
    → is_result r.type ≡ true
    → r.stop_reason ≡ []
    → (msg : Message) × (parse_line codec line ≡ parsed msg)
      × ((carry_stop_reason r (carry_all (msg ∷ between) last)).0.stop_reason
          ≡ sanitize_stop_reason (get_string delta (bytes "stop_reason")))
unfolding carry_all
parse_line-carried codec line raw delta between r last written decodes d sub given quiet is_res
      unset =
    (
      delta_message line raw delta,
      parse_line-event codec line raw written decodes d.outer_type
          ∙ ap parsed (event_message-delta codec line raw delta d sub),
      ap (λ reason. (carry_stop_reason r reason).0.stop_reason)
            (carry_all-quiet between (carry_stop_reason (delta_message line raw delta) last).1
              quiet)
          ∙ carry_stop_reason-next (delta_message line raw delta) r last refl refl given is_res
              unset,
    )

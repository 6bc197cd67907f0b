-- ===== src/Acp/Turn/Examples.antt =====
-- The theorems on turns of ACP sessions at concrete events.
use agentrun.Prelude.{
  ◌≡◌, refl, Str, bytes, true, none, List, [], ◌∷◌, ◌++◌, take, str_eq, contains,
}
use agentrun.Message.{message, text, thinking, text_delta, Message}
use agentrun.Acp.Turn.{
  PermissionParams, readable, Policy, new_turn, selected, first_option_by_kind,
  select_permission_option, handle_permission, PromptResult, PromptEnd, answered, context_done,
  TurnEvent, notified, requested, handle_events, execute_send,
}
use agentrun.Acp.Turn.Accumulates.{is_text_delta, is_thinking_delta, joined}
use agentrun.Acp.Turn.Emits.{messages_of, denials_of, IsResultOf, whole, execute_send-answered}
use agentrun.Acp.Turn.Isolated.{IsSilent, IsErrors, execute_send-isolated}
use agentrun.Acp.Turn.Permissions.{offers, kinds_for, handle_permission-offers}

-- A client without a handler, at the level that asks.
abbrev cautious : Policy
cautious = record { hitl = bytes "on"; handler = none }

abbrev edit : PermissionParams
edit = record {
  session_id = bytes "s";
  title = bytes "edit";
  tool_call_id = bytes "t";
  tool_kind = bytes "edit";
  options =
      record { option_id = bytes "yes"; kind = bytes "allow_once" }
      ∷ record { option_id = bytes "no"; kind = bytes "reject_once" }
      ∷ [];
}

abbrev three_events : List TurnEvent
three_events =
    notified (record (message text_delta) { content = bytes "hel" })
    ∷ requested (readable edit)
    ∷ notified (record (message text_delta) { content = bytes "lo" })
    ∷ []

abbrev end_turn : PromptResult
end_turn = record { stop_reason = bytes "end_turn"; usage = none }

execute_send-answered_example :
    ((execute_send {E = Str} cautious 9 three_events (answered end_turn)).0 ≡ none)
    × ((last : Message) × IsResultOf end_turn (denials_of cautious three_events) last
        × ((execute_send {E = Str} cautious 9 three_events (answered end_turn)).1.updates
            ≡ messages_of three_events
              ++ ((whole thinking
                      (take 10485760 (joined is_thinking_delta (messages_of three_events)))
                      9
                    ++ whole text
                        (take 10485760 (joined is_text_delta (messages_of three_events)))
                        9)
                  ++ last ∷ [])))
execute_send-answered_example = execute_send-answered cautious 9 three_events end_turn

abbrev cut_short : PromptEnd Str
cut_short = context_done (bytes "deadline")

execute_send-isolated_example :
    ((handle_events cautious 9 three_events
        (execute_send cautious 9 three_events cut_short).1).accumulator
      ≡ (execute_send cautious 9 three_events cut_short).1.accumulator)
    × ((handle_events cautious 9 three_events
          (execute_send cautious 9 three_events cut_short).1).denials
        ≡ (execute_send cautious 9 three_events cut_short).1.denials)
    × IsSilent cut_short
        (execute_send cautious 9 three_events cut_short).1.updates
        (messages_of three_events)
    × IsErrors (execute_send cautious 9 three_events cut_short).1.emitted
execute_send-isolated_example = execute_send-isolated cautious 9 three_events three_events cut_short

edit-rejected : (handle_permission cautious (readable edit) 9 new_turn).0 ≡ selected (bytes "no")
unfolding handle_permission select_permission_option first_option_by_kind str_eq contains
edit-rejected = refl

handle_permission-offers_example : offers edit.options (kinds_for cautious edit) (bytes "no") ≡ true
handle_permission-offers_example =
    handle_permission-offers cautious edit 9 new_turn (bytes "no") edit-rejected

-- ===== src/Summary/Examples.antt =====
-- The theorems on turnsummary.go at concrete messages.
use agentrun.Prelude.{◌≡◌, List, [], ◌∷◌, bytes}
use agentrun.Message.{Message, message, text, text_delta, result, is_error}
use agentrun.Summary.{empty_summary, add_all}
use agentrun.Summary.Collects.{is_text, is_thinking, contents, complete_tools, add_all-collects}

abbrev one_turn : List Message
one_turn =
    message text_delta
    ∷ record (message text) { content = bytes "hello" }
    ∷ record (message result) { stop_reason = bytes "end_turn" }
    ∷ []

add_all-collects_example :
    ((add_all empty_summary one_turn).text_blocks ≡ contents is_text one_turn)
    × ((add_all empty_summary one_turn).thinking_blocks ≡ contents is_thinking one_turn)
    × ((add_all empty_summary one_turn).errors ≡ contents is_error one_turn)
    × ((add_all empty_summary one_turn).tool_calls ≡ complete_tools one_turn)
    × ((add_all empty_summary one_turn).messages ≡ one_turn)
add_all-collects_example = add_all-collects one_turn

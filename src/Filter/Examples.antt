-- ===== src/Filter/Examples.antt =====
-- The theorems on filter.go at concrete messages.
use agentrun.Prelude.{◌≡◌, List, [], ◌∷◌, length, take, keep}
use agentrun.Message.{Message, message, text, text_delta, result}
use agentrun.Filter.{Choice, receives, receives_then_cancelled, pipe, completed_accept}
use agentrun.Filter.Pipe.{offered, pipe-in_order}

abbrev one_turn : List Message
one_turn = message text_delta ∷ message text ∷ message result ∷ []

abbrev cut_off : List Choice
cut_off = receives (message text) ∷ receives_then_cancelled (message result) ∷ []

pipe-in_order_example :
    (pipe completed_accept cut_off).0
    ≡ take (length (pipe completed_accept cut_off).0) (keep completed_accept (offered cut_off))
pipe-in_order_example = pipe-in_order completed_accept cut_off

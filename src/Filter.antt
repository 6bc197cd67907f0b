-- ===== src/Filter.antt =====
-- The channel filters: filter/filter.go.
--
-- `pipe` is its goroutine: one pass of the select takes a message, or sees the channel closed or the
-- context cancelled; the environment chooses. A pass that accepted a message then sends it, or is
-- cancelled while it sends.
pub mod Pipe
mod Examples
use agentrun.Prelude.{
  bytes, Bool, true, false, not, List, [], ◌∷◌, if◌then◌else◌, ends_with, contains, map,
}
use agentrun.Message.{MessageType, Message, type_string, is_result}

-- IsDelta
unfoldable pub is_delta : MessageType → Bool
unfolding type_string ends_with
is_delta t = ends_with (type_string t) (bytes "_delta")

-- The predicates of Filter, Completed and ResultOnly.
pub filter_accept : List MessageType → Message → Bool
filter_accept types msg = contains (map type_string types) (type_string msg.type)

pub completed_accept : Message → Bool
completed_accept msg = not (is_delta msg.type)

pub result_only_accept : Message → Bool
result_only_accept msg = is_result msg.type

-- How one pass of the loop in `pipe` goes on, as the environment decides.
pub data Choice : Type 0 where
  cancelled : Choice
  receives : Message → Choice
  receives_then_cancelled : Message → Choice
  closed : Choice

-- The messages that reach the returned channel, over a sequence of passes, and whether the loop
-- has ended.
pub pipe : (Message → Bool) → List Choice → List Message × Bool
pipe accept [] = ([], false)
pipe accept (cancelled ∷ rest) = ([], true)
pipe accept (closed ∷ rest) = ([], true)
pipe accept (receives msg ∷ rest) =
    let (sent, ended) = pipe accept rest in
    if accept msg then (msg ∷ sent, ended) else (sent, ended)
pipe accept (receives_then_cancelled msg ∷ rest) =
    let (sent, ended) = pipe accept rest in if accept msg then ([], true) else (sent, ended)

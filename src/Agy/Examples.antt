-- ===== src/Agy/Examples.antt =====
-- The theorem on session lines, at a process that has no conversation id yet.
use agentrun.Prelude.{◌≡◌, refl, Str, bytes, true, none, some}
use agentrun.Message.{message, init}
use agentrun.Scan.{parsed}
use agentrun.Agy.{session_line, all_id_bytes, is_conversation_id, parse_line}
use agentrun.Agy.Conversations.{parse_line-session}

abbrev id : Str
id = bytes "d8e79181-5db2-4ea9-88e2-eea15ddab587"

id-is_valid : is_conversation_id id ≡ true
unfolding is_conversation_id all_id_bytes
id-is_valid = refl

parse_line-session_example :
    parse_line 7 (session_line id) none
    ≡ (parsed (record (message init) { resume_id = id; timestamp = 7 }), some id)
parse_line-session_example = parse_line-session 7 id none id-is_valid

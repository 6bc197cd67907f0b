-- ===== src/Acp/Updates/Examples.antt =====
-- The theorem on session updates at a usage update, with decoders that know one text.
use agentrun.Prelude.{◌≡◌, refl, Str, bytes, str_eq, true, if◌then◌else◌, pos, some}
use agentrun.Message.{Message, message, context_window, no_usage}
use agentrun.Acp.Updates.{Decoded, bad, good, Decoders, parse_session_update}
use agentrun.Acp.Updates.Usages.{is_update, parse_session_update-IfSome}

abbrev no_decoder {ℓ} : {A : Type ℓ} → Str → Decoded A
no_decoder update = bad (bytes "unexpected")

-- Decoders of an agent that says it used 120 tokens of 100.
abbrev decoders : Decoders
decoders = record {
  header = λ update.
      if str_eq update (bytes "u") then good (bytes "usage_update") else no_decoder update;
  chunk = no_decoder;
  tool_call = no_decoder;
  content_items = no_decoder;
  plan = no_decoder;
  current_mode = no_decoder;
  session_info = no_decoder;
  usage = λ update. good (record { size = pos 100; used = pos 120 });
  quote = λ t. t;
}

abbrev window : Message
window = record (message context_window) {
  usage = some (record no_usage { context_size_tokens = pos 100; context_used_tokens = pos 100 });
  timestamp = 7;
}

parsed_window : parse_session_update decoders 7 (bytes "u") ≡ some window
unfolding parse_session_update str_eq agentrun.Prelude.lookup
parsed_window = refl

parse_session_update-IfSome_example : is_update window ≡ true
unfolding parse_session_update str_eq agentrun.Prelude.lookup
parse_session_update-IfSome_example = parse_session_update-IfSome decoders 7 (bytes "u")

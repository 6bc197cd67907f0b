-- ===== src/Scan/Examples.antt =====
-- The pump's theorems at concrete inputs.
use agentrun.Prelude.{
  ◌≡◌, refl, pos, bytes, true, false, some, none, List, [], ◌∷◌, has, All, returns, Returns, Bool,
}
use agentrun.Message.{Message, message, text, result, system, Usage, no_usage, error}
use agentrun.Scan.{
  Env, Event, sends_both, cancelled_at_synthesis, parsed, Scan, start_scan, scan_lines,
}
use agentrun.Scan.StopReason.{enrich_turn, enrich_turn-stop_reason, last_reason}
use agentrun.Scan.Output.{IsSent, scan_lines-sends}

abbrev call_usage : Usage
call_usage = record no_usage { input_tokens = pos 100; cache_read_tokens = pos 900 }

abbrev delta : Message
delta = record (message system) { stop_reason = bytes "end_turn" }

abbrev reply : Message
reply = record (message text) { content = bytes "hi"; usage = some call_usage }

-- A turn in which the backend reports an error between two calls.
abbrev turn : List (Message × Bool)
turn =
    (delta, false)
    ∷ (record reply { usage = some (record no_usage { input_tokens = pos 5000 }) }, false)
    ∷ (message error, true)
    ∷ (reply, false)
    ∷ []

abbrev end : Message
end = record (message result) { usage = some no_usage }

-- A backend that reads each line as a text message with a usage.
abbrev env : Env
env = record {
  parse = λ line. returns (parsed (record reply { content = line }));
  cmd = some (record { pid = some (pos 42); path = bytes "/usr/bin/agent" });
}

abbrev idle : Scan
idle = record {
  last_stop_reason = [];
  max_call_fill = pos 0;
  tracker = none;
  awaiting_result = true;
}

enrich_turn-stop_reason_example :
    Returns
      (λ r. (r.0.stop_reason ≡ bytes "end_turn") × (r.1.last_stop_reason ≡ []))
      (enrich_turn env idle turn end)
unfolding last_reason
enrich_turn-stop_reason_example =
    enrich_turn-stop_reason env idle turn end tt
      ((refl, refl), ((refl, refl), ((refl, refl), ((refl, refl), tt)))) refl

abbrev events : List Event
events =
    record { line = bytes "a"; now = 1; send_stored = false; selects = sends_both }
    ∷ record { line = bytes "b"; now = 2; send_stored = true; selects = cancelled_at_synthesis }
    ∷ []

scan_lines-sends_example :
    Returns
      (λ r. All (IsSent (has (start_scan (bytes "Task" ∷ []) true true).tracker)) r.1)
      (scan_lines env (start_scan (bytes "Task" ∷ []) true true) events none)
scan_lines-sends_example =
    scan_lines-sends env (bytes "Task" ∷ []) true true (λ line. refl) events none

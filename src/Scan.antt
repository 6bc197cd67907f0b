-- ===== src/Scan.antt =====
-- The message pump of a CLI subprocess: scanLines and what it calls, in engine/cli/process.go.
--
-- The environment is explicit: an event is one line of stdout, with the time at which it is parsed,
-- whether a concurrent Send has stored true in awaitingResult since the last line, and how the
-- selects on the output channel and the context go. The backend's ParseLine is a parameter, and may
-- panic. The subprocess behind processMetaSnapshot does not change while its read loop runs.
pub mod Enriched
pub mod StopReason
pub mod ContextFill
pub mod Output
mod Examples
use agentrun.Prelude.{
  ℕ, ◌+◌, Str, bytes, Bool, true, false, not, ◌&&◌, ◌||◌, Option, none, some, List, [], ◌∷◌, ◌++◌,
  if◌then◌else◌, is_empty, ◌==◌, ℤ, pos, pos_part, ltb_ℤ, max_ℤ, is_zero_ℤ, wrap_int64, Run,
  returns, ◌>>=◌,
}
use agentrun.Message.{
  error, context_window, is_result, is_init, is_error, is_task_result, Usage, no_usage, ProcessMeta,
  Message, message, context_fill,
}
use agentrun.Tracker.{BackgroundTracker, observe, stamp, new_background_tracker}

-- What Backend.ParseLine returns: a message, ErrSkipLine, or another error with its text.
pub data Parsed : Type 0 where
  parsed : Message → Parsed
  skip_line : Parsed
  parse_error : Str → Parsed

-- The parts of exec.Cmd that are read: Process.Pid, where Process is not nil, and Path.
pub record Cmd : Type 0 where
  pub pid : Option ℤ
  pub path : Str

-- What one process has while its read loop runs.
pub record Env : Type 0 where
  pub parse : Str → Run Parsed
  pub cmd : Option Cmd

-- How the selects of emitWithSynthesis go.
pub data Selects : Type 0 where
  sends_both cancelled_at_message cancelled_at_synthesis : Selects

pub record Event : Type 0 where
  pub line : Str
  pub now : ℕ
  pub send_stored : Bool
  pub selects : Selects

-- The variables of the loop in scanLines, and awaitingResult.
pub record Scan : Type 0 where
  pub last_stop_reason : Str
  pub max_call_fill : ℤ
  pub tracker : Option BackgroundTracker
  pub awaiting_result : Bool

-- applyStopReasonCarryForward: the message, and the reason to carry on.
unfoldable pub carry_stop_reason : Message → Str → Message × Str
carry_stop_reason msg last =
    if is_init msg.type
    then (msg, [])
    else if not (is_empty msg.stop_reason) && not (is_result msg.type)
    then (record msg { stop_reason = [] }, msg.stop_reason)
    else if is_result msg.type
    then (
      if is_empty msg.stop_reason && not (is_empty last)
          then record msg { stop_reason = last }
          else msg,
      [],
    )
    else (msg, last)

-- callContextFill
pub call_context_fill : Option Usage → ℤ
call_context_fill none = pos 0
call_context_fill (some u) =
    wrap_int64
      (pos_part u.input_tokens + pos_part u.cache_read_tokens + pos_part u.cache_write_tokens)

-- msg.Usage.ContextUsedTokens = fill, where it is 0.
abbrev pub set_if_unset : Usage → ℤ → Usage
set_if_unset u fill =
    if is_zero_ℤ u.context_used_tokens then record u { context_used_tokens = fill } else u

-- The first `if` of applyContextFill behind its early return: a message that is no result.
fill_mid_turn : Option Usage → Message → ℤ → Message × ℤ
unfolding call_context_fill
fill_mid_turn none msg peak = (msg, peak)
fill_mid_turn (some u) msg peak =
    let fill = call_context_fill (some u) in
    (record msg { usage = some (set_if_unset u fill) }, max_ℤ peak fill)

fill_result : Option Usage → Message → ℤ → Message
fill_result none msg peak = msg
fill_result (some u) msg peak =
    if ltb_ℤ (pos 0) peak then record msg { usage = some (set_if_unset u peak) } else msg

-- applyContextFill: the message, and the peak to go on with.
pub apply_context_fill : Message → ℤ → Message × ℤ
unfolding fill_mid_turn fill_result
apply_context_fill msg peak =
    if is_init msg.type
    then (msg, pos 0)
    else if is_result msg.type
    then (fill_result msg.usage msg peak, pos 0)
    else fill_mid_turn msg.usage msg peak

-- The two calls on the tracker at the end of enrichMessage; both do nothing on a nil tracker.
pub track : Option BackgroundTracker → Message → Run (Message × Option BackgroundTracker)
track none msg = returns (msg, none)
track (some t) msg = observe t msg >>= λ t'.
    returns (if is_result msg.type || is_task_result msg.type then stamp t' msg else msg, some t')

meta_of_pid : Str → Option ℤ → Option ProcessMeta
meta_of_pid path none = none
meta_of_pid path (some pid) =
    if ltb_ℤ (pos 0) pid then some (record { pid = pid; binary = path }) else none

-- processMetaSnapshot
pub process_meta_snapshot : Option Cmd → Option ProcessMeta
unfolding meta_of_pid
process_meta_snapshot none = none
process_meta_snapshot (some cmd) = meta_of_pid cmd.path cmd.pid

abbrev pub with_process_meta : Env → Message → Message
with_process_meta env msg =
    if is_init msg.type then record msg { process = process_meta_snapshot env.cmd } else msg

-- enrichMessage
pub enrich_message : Env → Scan → Message → Run (Message × Scan)
enrich_message env s msg =
    let (carried, last) = carry_stop_reason msg s.last_stop_reason in
    let (filled, peak) = apply_context_fill (with_process_meta env carried) s.max_call_fill in
    let awaiting = if is_result msg.type then false else s.awaiting_result in
    track s.tracker filled >>= λ tracked. returns (
      tracked.0,
      record {
        last_stop_reason = last;
        max_call_fill = peak;
        tracker = tracked.1;
        awaiting_result = awaiting;
      },
    )

-- synthesizeContextWindow
window_message : ℕ → Option (ℤ × ℤ) → Option Message
window_message now none = none
window_message now (some (used, size)) = some (record (message context_window) {
  usage = some (record no_usage { context_used_tokens = used; context_size_tokens = size });
  timestamp = now;
})

pub synthesize_context_window : Message → Option Message
unfolding window_message
synthesize_context_window msg =
    if is_result msg.type || is_init msg.type || is_error msg.type
    then none
    else window_message msg.timestamp (context_fill msg)

-- emitWithSynthesis, on its two selects: what is sent, and whether the loop goes on.
send_messages : Selects → Message → Option Message → List Message × Bool
send_messages cancelled_at_message msg synth = ([], false)
send_messages sends_both msg none = (msg ∷ [], true)
send_messages sends_both msg (some synth) = (msg ∷ synth ∷ [], true)
send_messages cancelled_at_synthesis msg none = (msg ∷ [], true)
send_messages cancelled_at_synthesis msg (some synth) = (msg ∷ [], false)

pub emit_with_synthesis : Selects → Message → List Message × Bool
unfolding send_messages
emit_with_synthesis selects msg = send_messages selects msg (synthesize_context_window msg)

abbrev pub stamp_time : ℕ → Message → Message
stamp_time now msg = if msg.timestamp == 0 then record msg { timestamp = now } else msg

-- parseLine behind the call of the backend: `none` is to skip; the Boolean says that the backend
-- itself reported an error.
pub parse_line : ℕ → Parsed → Option (Message × Bool)
parse_line now skip_line = none
parse_line now (parsed msg) = some (stamp_time now msg, is_error msg.type)
parse_line now (parse_error err) =
    some (stamp_time now (record (message error) { content = bytes "cli: parse: " ++ err }), false)

-- The peak starts anew where the backend itself reported an error.
abbrev pub reset_peak : Bool → Scan → Scan
reset_peak backend_error s = if backend_error then record s { max_call_fill = pos 0 } else s

-- One round of the loop behind the read: the state, what is sent, and whether the loop goes on.
pub scan_message : Env → Scan → Selects → Message → Bool → Run (Scan × List Message × Bool)
scan_message env s selects msg backend_error =
    enrich_message env (reset_peak backend_error s) msg >>= λ enriched.
    let (sent, goes_on) = emit_with_synthesis selects enriched.0 in
    returns (enriched.1, sent, goes_on)

scan_parsed : Env → Scan → Selects → Option (Message × Bool) → Run (Scan × List Message × Bool)
scan_parsed env s selects none = returns (s, [], true)
scan_parsed env s selects (some (msg, backend_error)) = scan_message env s selects msg backend_error

pub scan_line : Env → Scan → Event → Run (Scan × List Message × Bool)
unfolding scan_parsed
scan_line env s e =
    let s' = if e.send_stored then record s { awaiting_result = true } else s in
    env.parse e.line >>= λ p. scan_parsed env s' e.selects (parse_line e.now p)

-- What is sent in front of what the rest of the loop sends, unless the loop has ended.
continue_scan :
    Scan × List Message × Bool
    → Run (Scan × List Message × Option Str)
    → Run (Scan × List Message × Option Str)
continue_scan r later =
    if r.2
    then (later >>= λ rest. returns (rest.0, r.1 ++ rest.1, rest.2))
    else returns (r.0, r.1, none)

-- The loop over the lines, and the error with which the reader ends (`none` is io.EOF). The result
-- has the state, all that was sent, and the error that scanLines returns.
pub scan_lines : Env → Scan → List Event → Option Str → Run (Scan × List Message × Option Str)
unfolding continue_scan
scan_lines env s [] read_error = returns (s, [], read_error)
scan_lines env s (e ∷ events) read_error =
    scan_line env s e >>= λ r. continue_scan r (scan_lines env r.0 events read_error)

-- The state in which newProcess and scanLines start.
pub start_scan : List Str → Bool → Bool → Scan
start_scan subagent_tools shell_tracking shell_feed = record {
  last_stop_reason = [];
  max_call_fill = pos 0;
  tracker = new_background_tracker subagent_tools (shell_tracking && shell_feed);
  awaiting_result = true;
}

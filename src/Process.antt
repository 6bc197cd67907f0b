-- ===== src/Process.antt =====
-- The state of a CLI process and the sections that Send, Stop and a read loop run under its lock:
-- engine/cli/process.go.
use agentrun.Prelude.{
  Str, Bool, true, false, not, ◌&&◌, ◌||◌, Option, none, some, List, [], ◌∷◌, if◌then◌else◌, has, ℤ,
  is_zero_ℤ,
}

-- The terminal errors of a session and the errors that Send returns, without their texts.
pub data SessionError : Type 0 where
  terminated no_result send_not_supported parser_panic context_done : SessionError
  invalid_blocks resume_failed format_failed write_failed : SessionError
  reader_error : Str → SessionError
  exit_error : ℤ → SessionError
  wait_error : Str → SessionError

-- What cmd.Wait returns: nil, an *exec.ExitError with its code, or another error.
pub data WaitResult : Type 0 where
  no_error : WaitResult
  exited : ℤ → WaitResult
  failed : Str → WaitResult

-- wrapExitError
wrap_exit_error : WaitResult → Option SessionError
wrap_exit_error no_error = none
wrap_exit_error (failed err) = some (wait_error err)
wrap_exit_error (exited code) = if is_zero_ℤ code then none else some (exit_error code)

-- How scanLines ended: by a panic, with an error, or at the end of its input.
pub data ScanEnd : Type 0 where
  panicked : ScanEnd
  reader_failed : Str → ScanEnd
  at_end : ScanEnd

abbrev or_no_result : Option SessionError → Bool → Option SessionError
or_no_result (some err) awaiting = some err
or_no_result none awaiting = if awaiting then some no_result else none

-- The error that the deferred function of readLoop computes, behind the test of `stopping`.
natural_error : ScanEnd → WaitResult → Bool → Option SessionError
natural_error panicked wait awaiting = some parser_panic
natural_error (reader_failed err) wait awaiting = some (reader_error err)
natural_error at_end wait awaiting = or_no_result (wrap_exit_error wait) awaiting

unfoldable pub exit_reason : ScanEnd → WaitResult → Bool → Bool → Option SessionError
unfolding natural_error wrap_exit_error
exit_reason scan wait awaiting stopping =
    if stopping then some terminated else natural_error scan wait awaiting

-- Where a read loop is: in scanLines, before finalizeTurn, before the send on cmdDone, or gone.
pub data LoopStage : Type 0 where
  scanning : LoopStage
  finalizing : Option SessionError → LoopStage
  signalling gone : LoopStage

-- Where the caller of Send is; `sent` is the error that the last call returned.
pub data SendStage : Type 0 where
  sent : Option SessionError → SendStage
  claiming awaiting_exit cancelled spawning : SendStage
  draining resetting installing : SendStage

pub data StopStage : Type 0 where
  not_called awaiting_loop killed awaiting_done : StopStage
  stopped : Option SessionError → StopStage

-- Which optional interfaces the backend has: capabilities, and BlockFormatter.
pub record Capabilities : Type 0 where
  pub resumer : Bool
  pub streamer : Bool
  pub formatter : Bool
  pub block_formatter : Bool

-- `closed` is the state of the current `done` and `output` channels, which are closed and made anew
-- together; `finished` is finishOnce; `cmd_done` says whether the buffered channel holds a signal;
-- `loops` are the read loops that were started, the newest first; `crashed` is a close of a closed
-- channel.
pub record Process : Type 0 where
  pub caps : Capabilities
  pub has_stdin : Bool
  pub closed : Bool
  pub finished : Bool
  pub term_err : Option SessionError
  pub replacing : Bool
  pub stopping : Bool
  pub awaiting_result : Bool
  pub cmd_done : Bool
  pub loops : List LoopStage
  pub send : SendStage
  pub stop : StopStage
  pub crashed : Bool

-- newProcess, from Start: the first subprocess has a stdin pipe if the backend streams and formats.
unfoldable pub new_process : Capabilities → Process
new_process caps = record {
  caps = caps;
  has_stdin = caps.streamer && caps.formatter;
  closed = false;
  finished = false;
  term_err = none;
  replacing = false;
  stopping = false;
  awaiting_result = true;
  cmd_done = false;
  loops = scanning ∷ [];
  send = sent none;
  stop = not_called;
  crashed = false;
}

-- finishLocked
finish_locked : Option SessionError → Process → Process
finish_locked err p = if p.finished then p else record p {
  finished = true;
  term_err = err;
  closed = true;
  crashed = p.crashed || p.closed;
}

-- finalizeTurn
unfoldable pub finalize_turn : Option SessionError → Process → Process
unfolding finish_locked
finalize_turn err p = if p.replacing then p else finish_locked err p

-- failReplacement
unfoldable pub fail_replacement : Option SessionError → Process → Process
unfolding finish_locked
fail_replacement err p = record (finish_locked err (record p { replacing = false })) {
  cmd_done = true;
}

-- installSubprocess of what spawnCmd made, which has a stdin pipe if the backend streams.
unfoldable pub install_subprocess : Process → Process
install_subprocess p = record p {
  has_stdin = p.caps.streamer;
  replacing = false;
  awaiting_result = true;
  loops = scanning ∷ p.loops;
}

-- How the formatting of a message and the write to the pipe go.
pub data PipeWrite : Type 0 where
  written not_formatted not_written : PipeWrite

-- sendStdinData behind the formatting.
send_stdin_data : PipeWrite → Process → Process
send_stdin_data written p = record p { awaiting_result = true; send = sent none }
send_stdin_data not_formatted p = record p { send = sent (some format_failed) }
send_stdin_data not_written p = record p {
  awaiting_result = false;
  send = sent (some write_failed);
}

-- Path 1 of SendBlocks, with sendStdin's test of the formatter.
send_stdin : PipeWrite → Process → Process
unfolding send_stdin_data
send_stdin write p =
    if p.caps.block_formatter || p.caps.formatter
    then send_stdin_data write p
    else record p { send = sent (some send_not_supported) }

-- What ResumeArgs, LookPath and, on the clean path, the context and the spawn return.
abbrev prepared : Option SessionError → SendStage → Process → Process
prepared none stage p = record p { send = stage }
prepared (some err) stage p = record p { send = sent (some err) }

-- SendBlocks up to its first lock or channel operation of a replacement.
unfoldable pub send_blocks : Bool → Option SessionError → PipeWrite → Process → Process
unfolding send_stdin
send_blocks blocks_valid prepare write p =
    if p.stopping
    then record p { send = sent (some terminated) }
    else if not blocks_valid
    then record p { send = sent (some invalid_blocks) }
    else if p.closed
    then (if p.caps.resumer && not (has p.term_err)
        then prepared prepare draining p
        else record p { send = sent (some terminated) })
    else if p.has_stdin
    then send_stdin write p
    else if p.caps.resumer
    then prepared prepare claiming p
    else record p { send = sent (some send_not_supported) }

-- The locked section of replaceSubprocess.
unfoldable pub claim_replacement : Option SessionError → Process → Process
claim_replacement spawn p =
    if p.closed
    then (if has p.term_err
        then record p { send = sent (some terminated) }
        else prepared spawn draining p)
    else record p { replacing = true; send = awaiting_exit }

-- The locked section of spawnCleanResume.
unfoldable pub reset_channels : Process → Process
reset_channels p =
    if p.stopping
    then record p { send = sent (some terminated) }
    else record p { closed = false; finished = false; term_err = none; send = installing }

-- spawnReplacement, by what the spawn returns.
unfoldable pub spawn_replacement : Option SessionError → Process → Process
unfolding fail_replacement install_subprocess
spawn_replacement none p = record (install_subprocess p) { send = sent none }
spawn_replacement (some err) p = record (fail_replacement (some err) p) { send = sent (some err) }

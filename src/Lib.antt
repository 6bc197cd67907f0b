-- ===== src/Lib.antt =====
-- agentrun runs AI agents behind one Engine and Process interface. A CLI engine starts an agent as
-- a subprocess; a goroutine reads the lines of its stdout, lets the backend's parser make a message
-- of each, enriches the message and sends it on the Output channel; Send either writes to the
-- subprocess's stdin or replaces the subprocess; Stop ends it. RunTurn drives one turn over a
-- process, TurnSummary and the channel filters are for the consumer of its messages.
--
-- What models what, with paths from the repository's root:
--
-- - Message: the types of message.go, and ContextFill of contextfill.go.
-- - Tracker, with Tracker/: engine/cli/background.go, the accounting of background subagents and
--   shells. `BackgroundTracker` is backgroundTracker; `observe` is its method with all cases,
--   `apply_snapshot` is applySnapshot, `stats` and `stamp` are theirs. Tracker/Books counts ids by
--   kind, Tracker/Invariant and Tracker/Observe are about the invariant, Tracker/Snapshot and
--   Tracker/Exact about native snapshots, Tracker/Stats about what is stamped on a message.
-- - Scan, with Scan/: the pump of engine/cli/process.go, that is scanLines, parseLine,
--   enrichMessage, applyStopReasonCarryForward, applyContextFill, emitWithSynthesis. It calls the
--   tracker. What the lines, the clock, the cancellations and the backend's parser do is an
--   argument; the parser may panic, which ends in the value `panics`, as does a nil dereference in
--   the tracker.
-- - LineRead, with LineRead/: ReadLine of engine/internal/lineread/lineread.go, over a model of
--   bufio.Reader.ReadSlice of Go's library.
-- - Process and Lifecycle, with Lifecycle/: Send, Stop, Err, the deferred end of readLoop,
--   replaceSubprocess, spawnCleanResume and what they call, in engine/cli/process.go. Process has
--   the state and the sections that run under the lock, Lifecycle the step function of the
--   interleaved goroutines; a schedule is a list of actions. Lifecycle/Sound and Lifecycle/Halted
--   are about all schedules, Lifecycle/Shutdown about all that no Send is part of, and Lifecycle/Races
--   about particular families of them.
-- - Start, with its folder: ResolveOptions of options.go, and ExitCode of errors.go.
-- - Engine, with Engine/: Engine.Start, validateSendCapability and spawnCmd of
--   engine/cli/engine.go.
-- - Options, with Options/: engine/cli/options.go. An option is the call that makes it.
-- - Session, with Session/: session.go, ValidateEnv of session_options.go, ValidateEffort of
--   engine/cli/internal/optutil/optutil.go.
-- - Turn, with Turn/: RunTurn, RunFirstTurn and drainOutput of runturn.go.
-- - Summary, with Summary/: turnsummary.go.
-- - Filter, with Filter/: filter/filter.go.
-- - Text, with Text/: engine/internal/errfmt/errfmt.go and engine/internal/stoputil/stoputil.go. A
--   string is walked by bytes; a control character is an ASCII one, or the two bytes of U+0080 to
--   U+009F.
-- - Blocks, with Blocks/: ValidateBlocks and TextFromBlocks of block_sender.go. The JSON decoder of
--   an image source is a parameter.
-- - Json: JSON values and engine/cli/internal/jsonutil/jsonutil.go; the JSON codec is a parameter.
-- - OptionValues, with OptionValues/: the option parsers of session_options.go, and
--   engine/cli/internal/optutil/optutil.go.
-- - CommandLine, with CommandLine/: how a CLI reads arguments, a reference that the argument builders
--   are held against. Which flags a CLI knows is taken from what the source says of it, since the
--   CLIs are other programs.
-- - Claude, with its folders: ParseLine of engine/cli/claude/parse.go (Claude/Fields, Claude/Content,
--   Claude/Lines and Claude/Parse), and the argument builders of engine/cli/claude/claude.go
--   (Claude/Args).
-- - Codex, with its folders: ParseLine of engine/cli/codex/parse.go (Codex/Parse), and the argument
--   builders of engine/cli/codex/codex.go (Codex/Args).
-- - OpenCode, with its folders: ParseLine of engine/cli/opencode/parse.go (OpenCode/Parse), and the
--   argument builders of engine/cli/opencode/opencode.go (OpenCode/Args).
-- - Agy, with its folder: the line parser of engine/cli/agy/parse.go and the argument builders of
--   engine/cli/agy/agy.go, without the text of the shell wrapper.
-- - Mcp/Store, with its folder: the session store of cmd/agentrun-mcp/session.go, and what the tools
--   of cmd/agentrun-mcp/tools.go do to it, as a list of operations with their times.
-- - Mcp/Security, with its folder: the input checks and the capped writer of
--   cmd/agentrun-mcp/security.go. The file system is a parameter.
-- - Acp/Conn, with its folder: Call, ReadLoop, handleResponse and drainPending of engine/acp/conn.go.
--   A schedule is a list of actions, as for the lifecycle of a CLI process; Sound, Answers and Late
--   are about all schedules.
-- - Acp/Dispatch: what ReadLoop makes of a line and the answers to method calls, in the same file.
-- - Acp/Turn, with its folder: turnAccumulator of engine/acp/update.go; turnDenials,
--   makeTurnPermHandler, executeSendBlocks and handlePromptResult of engine/acp/process.go.
-- - Acp/Updates, with its folder: parseSessionUpdate and its parsers in engine/acp/update.go, over
--   the structs that the JSON decoder makes, which is a parameter.
-- - Prelude: the shared helpers. Strings are lists of bytes; a Go map is an association list whose
--   order stands for the order in which Go visits the map.
--
-- The modules named Examples apply theorems at concrete inputs.
--
-- Bounds. The caps of the tracker (128 pending ids and 32 stamped ids for each kind) and the
-- default limits are the source's constants. Sums of token counts wrap at 64 bits. ReadLine
-- recurses on the bytes that are left in the stream, as fuel: each pass of its loop takes at least
-- one byte if the buffer has a size, so the fuel that `read_line` gives is enough. All other loops
-- are recursion on the lists that they go through; a schedule and a list of events are finite.
--
-- Not modelled: the shell wrapper of the Agy backend, the JSON that the Claude backend writes, the
-- handshake of the ACP engine with its session configuration, its start and stop, and the tool
-- handlers of the MCP server, which are JSON around the store. Of content
-- blocks, Lifecycle knows only whether they are valid. The signals to a subprocess and the grace
-- period show only in when its read loop ends; of a data race on an unlocked field nothing is said,
-- since a section of the source that runs without the lock is here one step. The interfaces, the
-- examples, the test harness and the mock agents are outside of the model.
mod Prelude
pub mod Message
pub mod Filter
pub mod Tracker
pub mod Scan
pub mod LineRead
pub mod Session
pub mod Text
pub mod Blocks
pub mod Turn
pub mod Summary
pub mod Process
pub mod Lifecycle
pub mod Options
pub mod Engine
pub mod Acp
pub mod Json
pub mod OptionValues
pub mod CommandLine
pub mod Claude
pub mod Codex
pub mod Mcp
pub mod OpenCode
pub mod Agy
pub mod Start

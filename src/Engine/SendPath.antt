-- ===== src/Engine/SendPath.antt =====
-- What a client may rely on once Start has returned a process.
use agentrun.Prelude.{
  ◌≡◌, Str, bytes, Bool, true, false, not, ◌&&◌, ◌||◌, none, some, arith, starts_with,
}
use agentrun.Session.{Session, validate_effort, validate_env}
use agentrun.Process.{
  Capabilities, send_not_supported, SendStage, sent, PipeWrite, new_process, send_blocks,
}
use agentrun.Engine.{
  Backend, Os, Started, started, override, preflight, check_cwd, validate_send_capability, launch,
  start,
}

-- Send has returned the error for a missing send path.
abbrev pub is_unsupported : SendStage → Bool
is_unsupported (sent (some send_not_supported)) = true
is_unsupported _ = false

-- What launch makes of a session, if it succeeds.
launch-started :
    (os : Os) (b : Backend) (s : Session) (r : Started)
    → launch os b s ≡ started r
    → (r.process ≡ new_process b.caps)
      × (r.session ≡ s)
      × (r.command.dir ≡ s.cwd)
      × (r.command.want_stdin ≡ (b.caps.streamer && b.caps.formatter))
      × (r.sequential ≡ (b.caps.resumer && not (b.caps.streamer && b.caps.formatter)))
      × (validate_env s.env ≡ none)
unfolding launch
launch-started os b s r h = ground arith

preflight-ok :
    (os : Os) (b : Backend) (s : Session)
    → preflight os b s ≡ none
    → (starts_with s.cwd (bytes "/") ≡ true)
      × (validate_effort s.options ≡ true)
      × (((b.caps.streamer && b.caps.formatter) || b.caps.resumer) ≡ true)
unfolding preflight check_cwd validate_send_capability
preflight-ok os b s h = ground arith

-- The first Send of a new process has a path, if the backend has one.
send_blocks-new_process :
    (caps : Capabilities) (write : PipeWrite)
    → ((caps.streamer && caps.formatter) || caps.resumer) ≡ true
    → is_unsupported (send_blocks true none write (new_process caps)).send ≡ false
unfolding send_blocks new_process
send_blocks-new_process caps write h = ground arith

-- A process that Start returns runs in an absolute directory with an accepted effort level and
-- accepted variables; it has a stdin pipe exactly if its command was given one; it is marked as
-- sequential exactly if it resumes and has no pipe; and a first Send of valid blocks never
-- fails for the lack of a send path.
pub start-sends :
    (os : Os) (b : Backend) (prompt model : Str) (session : Session) (r : Started)
    (write : PipeWrite)
    → start os b prompt model session ≡ started r
    → (starts_with r.command.dir (bytes "/") ≡ true)
      × (validate_effort r.session.options ≡ true)
      × (validate_env r.session.env ≡ none)
      × (r.process.has_stdin ≡ r.command.want_stdin)
      × (r.sequential ≡ (b.caps.resumer && not r.process.has_stdin))
      × (is_unsupported (send_blocks true none write r.process).send ≡ false)
unfolding start new_process
start-sends os b prompt model session r write h = ground (
  arith,
  launch-started os b (override prompt model session) r,
  preflight-ok os b (override prompt model session),
  send_blocks-new_process b.caps write,
)

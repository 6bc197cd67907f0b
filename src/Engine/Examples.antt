-- ===== src/Engine/Examples.antt =====
-- The theorems on engine.go at a concrete backend.
use agentrun.Prelude.{
  ◌≡◌, refl, bytes, true, false, not, ◌&&◌, none, some, [], ◌∷◌, starts_with, lookup,
}
use agentrun.Session.{Session, validate_env, validate_effort, merge_env}
use agentrun.Process.{new_process, send_blocks, written}
use agentrun.Engine.{
  Backend, Os, Started, started, is_dir, start, override, preflight, check_cwd,
  validate_send_capability, launch,
}
use agentrun.Engine.SendPath.{is_unsupported, start-sends}

-- Every directory exists, every binary is in /bin, and every command starts.
abbrev roomy_os : Os
roomy_os = record {
  stat = λ path. is_dir true;
  look_path = λ name. some (bytes "/bin/agent");
  environ = [];
  spawn_error = λ command. none;
}

abbrev resuming : Backend
resuming = record {
  caps = record { resumer = true; streamer = true; formatter = false; block_formatter = false };
  spawn_args = λ session. (bytes "agent", session.prompt ∷ []);
  stream_args = λ session. (bytes "agent", []);
}

abbrev here : Session
here = record {
  id = [];
  cwd = bytes "/work";
  model = [];
  prompt = bytes "hi";
  options = [];
  env = [];
}

abbrev running_here : Started
running_here = record {
  session = record here { prompt = bytes "go" };
  command = record {
    binary = bytes "/bin/agent";
    args = bytes "go" ∷ [];
    dir = bytes "/work";
    env = none;
    want_stdin = false;
  };
  process = new_process resuming.caps;
  sequential = true;
}

starts_here : start roomy_os resuming (bytes "go") [] here ≡ started running_here
unfolding start override preflight check_cwd validate_send_capability launch new_process
    validate_env validate_effort merge_env lookup starts_with
starts_here = refl

start-sends_example :
    (starts_with running_here.command.dir (bytes "/") ≡ true)
    × (validate_effort running_here.session.options ≡ true)
    × (validate_env running_here.session.env ≡ none)
    × (running_here.process.has_stdin ≡ running_here.command.want_stdin)
    × (running_here.sequential ≡ (resuming.caps.resumer && not running_here.process.has_stdin))
    × (is_unsupported (send_blocks true none written running_here.process).send ≡ false)
start-sends_example =
    start-sends roomy_os resuming (bytes "go") [] here running_here written starts_here

-- ===== src/Engine.antt =====
-- How the CLI engine starts a session: Engine.Start, validateSendCapability and spawnCmd of
-- engine/cli/engine.go.
--
-- What the operating system and the backend return are functions that Start is given.
pub mod SendPath
mod Examples
use agentrun.Prelude.{
  Str, bytes, Bool, not, ◌&&◌, Option, none, some, List, if◌then◌else◌, is_empty, starts_with,
}
use agentrun.Session.{Session, EnvError, validate_effort, validate_env, merge_env}
use agentrun.Process.{Capabilities, Process, new_process}

-- What Start calls of a backend: SpawnArgs and StreamArgs, and its optional interfaces.
pub record Backend : Type 0 where
  pub caps : Capabilities
  pub spawn_args : Session → Str × List Str
  pub stream_args : Session → Str × List Str

-- The fields of exec.Cmd that spawnCmd sets, and whether it makes a stdin pipe.
pub record Command : Type 0 where
  pub binary : Str
  pub args : List Str
  pub dir : Str
  pub env : Option (List Str)
  pub want_stdin : Bool

pub data Stat : Type 0 where
  stat_failed : Str → Stat
  is_dir : Bool → Stat

-- os.Stat, exec.LookPath, os.Environ, and the error of the calls in spawnCmd.
pub record Os : Type 0 where
  pub stat : Str → Stat
  pub look_path : Str → Option Str
  pub environ : List Str
  pub spawn_error : Command → Option Str

pub data StartError : Type 0 where
  relative_cwd not_a_directory : Str → StartError
  cwd_error : Str → StartError
  invalid_effort : StartError
  streamer_without_formatter no_send_path : StartError
  unavailable : Str → StartError
  invalid_env : EnvError → StartError
  spawn_failed : Str → StartError

-- A started process, with the command that it runs; `sequential` says that the caller is given a
-- sequentialProcess.
pub record Started : Type 0 where
  pub session : Session
  pub command : Command
  pub process : Process
  pub sequential : Bool

pub data StartResult : Type 0 where
  failed : StartError → StartResult
  started : Started → StartResult

-- The prompt and the model of the options take the place of the session's, if they are set.
pub override : Str → Str → Session → Session
override prompt model session = record session {
  prompt = if is_empty prompt then session.prompt else prompt;
  model = if is_empty model then session.model else model;
}

-- filepath.IsAbs, on Unix
abbrev is_abs : Str → Bool
is_abs path = starts_with path (bytes "/")

pub check_cwd : Os → Str → Option StartError
check_cwd os cwd =
    if is_abs cwd
    then elim (os.stat cwd) [
      | stat_failed err ↦ some (cwd_error err)
      | is_dir dir ↦ if dir then none else some (not_a_directory cwd)
    ]
    else some (relative_cwd cwd)

pub validate_send_capability : Capabilities → Option StartError
validate_send_capability caps =
    let has_streamer_path = caps.streamer && caps.formatter in
    if not has_streamer_path && not caps.resumer
    then (if caps.streamer then some streamer_without_formatter else some no_send_path)
    else none

-- The guards before the mode is chosen, in their order.
pub preflight : Os → Backend → Session → Option StartError
unfolding check_cwd validate_send_capability
preflight os b session = elim (check_cwd os session.cwd) [
  | some err ↦ some err
  | none ↦
      if validate_effort session.options
      then validate_send_capability b.caps
      else some invalid_effort
]

abbrev use_streamer : Capabilities → Bool
use_streamer caps = caps.streamer && caps.formatter

abbrev mode_args : Backend → Session → Str × List Str
mode_args b session = if use_streamer b.caps then b.stream_args session else b.spawn_args session

abbrev start_command : Os → Backend → Session → Str → Command
start_command os b session resolved = record {
  binary = resolved;
  args = (mode_args b session).1;
  dir = session.cwd;
  env = merge_env os.environ session.env;
  want_stdin = use_streamer b.caps;
}

-- Start behind its guards: the binary, the environment, the subprocess.
pub launch : Os → Backend → Session → StartResult
launch os b session = elim (os.look_path (mode_args b session).0) [
  | none ↦ failed (unavailable (mode_args b session).0)
  | some resolved ↦ elim (validate_env session.env) [
    | some err ↦ failed (invalid_env err)
    | none ↦ elim (os.spawn_error (start_command os b session resolved)) [
      | some err ↦ failed (spawn_failed err)
      | none ↦ started (record {
        session = session;
        command = start_command os b session resolved;
        process = new_process b.caps;
        sequential = b.caps.resumer && not (use_streamer b.caps);
      })
    ]
  ]
]

-- Engine.Start
pub start : Os → Backend → Str → Str → Session → StartResult
unfolding preflight launch override
start os b prompt model session =
    let s = override prompt model session in
    elim (preflight os b s) [ some err ↦ failed err | none ↦ launch os b s ]

-- ===== src/Codex/Args.antt =====
-- The arguments of a Codex subprocess: SpawnArgs and ResumeArgs in engine/cli/codex/codex.go.
--
-- The captured thread id is an argument: none is a nil pointer.
pub mod Built
pub mod Reads
mod Examples
use agentrun.Prelude.{
  Str, bytes, str_eq, Bool, true, false, not, ◌&&◌, ◌||◌, Option, none, some, List, [], ◌∷◌, ◌++◌,
  if◌then◌else◌, is_empty, Assoc,
}
use agentrun.Session.{Session, get_or_empty, is_effort, validate_effort}
use agentrun.Json.{contains_null}
use agentrun.OptionValues.{
  opt_mode, opt_hitl, root_options_set, validate_mode_hitl, is_safe, append_value, append_flag,
  append_add_dirs,
}

abbrev pub opt_resume_id : Str
opt_resume_id = bytes "resume_id"

abbrev pub opt_sandbox : Str
opt_sandbox = bytes "codex.sandbox"

-- noUUIDSentinel
abbrev pub no_uuid_sentinel : Str
no_uuid_sentinel = 0 ∷ []

-- validSandbox
pub is_sandbox : Str → Bool
is_sandbox s =
    str_eq s (bytes "read-only")
    || (str_eq s (bytes "workspace-write") || str_eq s (bytes "danger-full-access"))

-- appendCommonArgs
pub append_common_args : Session → List Str → List Str
append_common_args s args =
    let opts = s.options in
    let effort = get_or_empty opts (bytes "effort") in
    let with_model = append_value (is_safe s.model) (bytes "-m") s.model args in
    let with_ephemeral =
      append_flag (not (is_empty (get_or_empty opts (bytes "codex.ephemeral"))))
        (bytes "--ephemeral") with_model in
    let with_skip =
      append_flag (not (is_empty (get_or_empty opts (bytes "codex.skip_git_check"))))
        (bytes "--skip-git-repo-check") with_ephemeral in
    let with_effort =
      append_value (not (is_empty effort) && is_effort effort) (bytes "-c")
        (bytes "model_reasoning_effort=" ++ effort) with_skip in
    append_add_dirs with_effort opts (bytes "--add-dir")

-- appendExecOnlyArgs
pub append_exec_only_args : Session → List Str → List Str
append_exec_only_args s args =
    let profile = get_or_empty s.options (bytes "codex.profile") in
    let schema = get_or_empty s.options (bytes "codex.output_schema") in
    append_value (is_safe schema) (bytes "--output-schema") schema
      (append_value (is_safe profile) (bytes "-p") profile args)

-- resolveResumeFullAuto
pub resolve_resume_full_auto : Assoc Str → Bool
resolve_resume_full_auto opts =
    if not (root_options_set opts)
    then false
    else if str_eq (get_or_empty opts opt_mode) (bytes "plan")
    then false
    else str_eq (get_or_empty opts opt_hitl) (bytes "off")

-- resolveExecPolicy
pub resolve_exec_policy : Assoc Str → Str × Bool
unfolding is_sandbox
resolve_exec_policy opts =
    let sandbox = get_or_empty opts opt_sandbox in
    if root_options_set opts
    then (if str_eq (get_or_empty opts opt_mode) (bytes "plan")
        then (bytes "read-only", false)
        else if str_eq (get_or_empty opts opt_hitl) (bytes "off")
        then ([], true)
        else ([], false))
    else (
      if not (is_empty sandbox) && (is_sandbox sandbox && not (contains_null sandbox))
          then sandbox
          else [],
      false,
    )

-- appendExecPolicy
pub append_exec_policy : Assoc Str → List Str → List Str
unfolding resolve_exec_policy
append_exec_policy opts args =
    let policy = resolve_exec_policy opts in
    append_flag policy.1 (bytes "--full-auto")
      (append_value (not (is_empty policy.0)) (bytes "--sandbox") policy.0 args)

abbrev prompt_or_nothing : Str → List Str
prompt_or_nothing prompt =
    if not (is_empty prompt) && not (contains_null prompt) then prompt ∷ [] else []

-- The flags of buildExecCommand, up to the separator.
pub exec_flags : Session → List Str
unfolding append_exec_policy append_common_args append_exec_only_args
exec_flags s =
    append_exec_policy s.options
      (append_common_args s (append_exec_only_args s (bytes "--json" ∷ [])))

-- buildExecCommand
pub build_exec_command : Session → List Str
unfolding exec_flags
build_exec_command s = bytes "exec" ∷ (exec_flags s ++ bytes "--" ∷ prompt_or_nothing s.prompt)

-- The flags of buildResumeCommand, with appendResumePolicy.
pub resume_flags : Session → List Str
unfolding append_common_args resolve_resume_full_auto
resume_flags s =
    append_flag (resolve_resume_full_auto s.options) (bytes "--full-auto")
      (append_common_args s (bytes "--json" ∷ []))

-- buildResumeCommand
pub build_resume_command : Str → Session → List Str
unfolding resume_flags
build_resume_command thread_id s =
    bytes "exec" ∷ bytes "resume" ∷ (resume_flags s ++ bytes "--" ∷ thread_id ∷ [])

-- SpawnArgs, without the binary
pub spawn_args : Session → List Str
unfolding build_resume_command build_exec_command
spawn_args s =
    let id = get_or_empty s.options opt_resume_id in
    if not (is_empty id) && not (contains_null id)
    then build_resume_command id s ++ prompt_or_nothing s.prompt
    else build_exec_command s

-- resolveThreadID
pub resolve_thread_id : Option Str → Session → Str
resolve_thread_id none s = get_or_empty s.options opt_resume_id
resolve_thread_id (some id) s =
    if str_eq id no_uuid_sentinel then get_or_empty s.options opt_resume_id else id

-- validateSandboxIfNoRoot: whether it is an error.
is_bad_sandbox : Assoc Str → Bool
unfolding is_sandbox
is_bad_sandbox opts =
    let sandbox = get_or_empty opts opt_sandbox in
    if root_options_set opts then false else not (is_empty sandbox) && not (is_sandbox sandbox)

pub data ResumeError : Type 0 where
  invalid_mode_hitl invalid_sandbox invalid_effort no_thread_id thread_id_has_null prompt_has_null :
      ResumeError

-- validateSessionOptions
pub validate_session_options : Assoc Str → Option ResumeError
unfolding is_bad_sandbox
validate_session_options opts =
    if not (validate_mode_hitl opts)
    then some invalid_mode_hitl
    else if is_bad_sandbox opts
    then some invalid_sandbox
    else if not (validate_effort opts)
    then some invalid_effort
    else none

pub data ResumeResult : Type 0 where
  refused : ResumeError → ResumeResult
  arguments : List Str → ResumeResult

resume_checked : Option ResumeError → Str → Session → Str → ResumeResult
unfolding build_resume_command
resume_checked (some err) thread_id s prompt = refused err
resume_checked none thread_id s prompt =
    if is_empty thread_id
    then refused no_thread_id
    else if contains_null thread_id
    then refused thread_id_has_null
    else if contains_null prompt
    then refused prompt_has_null
    else arguments
        (build_resume_command thread_id s ++ (if is_empty prompt then [] else prompt ∷ []))

-- ResumeArgs, without the binary
pub resume_args : Option Str → Session → Str → ResumeResult
unfolding resume_checked validate_session_options resolve_thread_id
resume_args captured s prompt =
    resume_checked (validate_session_options s.options) (resolve_thread_id captured s) s prompt

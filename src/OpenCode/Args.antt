-- ===== src/OpenCode/Args.antt =====
-- The arguments of an OpenCode subprocess: SpawnArgs and ResumeArgs in engine/cli/opencode/opencode.go.
--
-- The captured session id is an argument: none is a nil pointer.
pub mod Resumes
use agentrun.Prelude.{
  ℕ, leb, Str, bytes, str_eq, Bool, true, not, ◌&&◌, ◌||◌, Option, none, some, List, [], ◌∷◌, ◌++◌,
  if◌then◌else◌, is_empty, length, drop, starts_with, Assoc,
}
use agentrun.Session.{Session, get_or_empty}
use agentrun.Json.{contains_null}
use agentrun.OptionValues.{is_safe, append_value, append_flag}

abbrev max_title_len : ℕ
max_title_len = 512

abbrev opt_resume_id : Str
opt_resume_id = bytes "resume_id"

abbrev pub is_alphanumeric : ℕ → Bool
is_alphanumeric b = (leb 97 b && leb b 122) || ((leb 65 b && leb b 90) || (leb 48 b && leb b 57))

unfoldable pub all_alphanumeric : Str → Bool
all_alphanumeric [] = true
all_alphanumeric (b ∷ s) = is_alphanumeric b && all_alphanumeric s

-- validateSessionID, by its regular expression: "ses_" and 20 to 40 letters or digits.
unfoldable pub is_session_id : Str → Bool
unfolding all_alphanumeric
is_session_id id =
    let tail = drop 4 id in
    starts_with id (bytes "ses_")
    && (all_alphanumeric tail && (leb 20 (length tail) && leb (length tail) 40))

-- resolveVariant behind the root effort
variant_option : Assoc Str → Str
variant_option opts =
    let v = get_or_empty opts (bytes "opencode.variant") in
    if not (is_empty v) && not (contains_null v) then v else []

-- resolveVariant. The two efforts of effortToVariant have no null byte.
pub resolve_variant : Assoc Str → Str
unfolding variant_option
resolve_variant opts =
    let effort = get_or_empty opts (bytes "effort") in
    if str_eq effort (bytes "low")
    then bytes "low"
    else if str_eq effort (bytes "high")
    then bytes "high"
    else variant_option opts

abbrev is_title : Str → Bool
is_title v = is_safe v && leb (length v) max_title_len

-- resolveTitle
pub resolve_title : Assoc Str → Str
resolve_title opts =
    let name = get_or_empty opts (bytes "session_name") in
    let title = get_or_empty opts (bytes "opencode.title") in
    if is_title name then name else if is_title title then title else []

-- appendCommonArgs
pub append_common_args : Session → List Str → List Str
unfolding resolve_variant
append_common_args s args =
    let variant = resolve_variant s.options in
    let with_model = append_value (is_safe s.model) (bytes "--model") s.model args in
    let with_thinking =
      append_flag (not (is_empty (get_or_empty s.options (bytes "thinking_budget"))))
        (bytes "--thinking") with_model in
    append_value (not (is_empty variant)) (bytes "--variant") variant with_thinking

-- baseArgs, without the subcommand run
abbrev pub base_flags : List Str
base_flags = bytes "--format" ∷ bytes "json" ∷ []

-- The flags of SpawnArgs behind the subcommand run.
pub spawn_flags : Session → List Str
unfolding append_common_args is_session_id resolve_title
spawn_flags s =
    let id = get_or_empty s.options opt_resume_id in
    let agent = get_or_empty s.options (bytes "agent_id") in
    let title = resolve_title s.options in
    let with_common = append_common_args s base_flags in
    let with_session =
      append_value (not (is_empty id) && is_session_id id) (bytes "--session") id with_common in
    let with_agent =
      append_value (not (is_empty agent) && not (contains_null agent)) (bytes "--agent") agent
        with_session in
    append_value (not (is_empty title)) (bytes "--title") title with_agent

abbrev prompt_or_nothing : Str → List Str
prompt_or_nothing prompt =
    if not (is_empty prompt) && not (contains_null prompt) then prompt ∷ [] else []

-- SpawnArgs, without the binary
pub spawn_args : Session → List Str
unfolding spawn_flags
spawn_args s = bytes "run" ∷ (spawn_flags s ++ prompt_or_nothing s.prompt)

-- resolveSessionID
pub resolve_session_id : Option Str → Session → Str
resolve_session_id none s = get_or_empty s.options opt_resume_id
resolve_session_id (some id) s = id

pub data ResumeError : Type 0 where
  no_session_id invalid_session_id prompt_has_null : ResumeError

pub data ResumeResult : Type 0 where
  refused : ResumeError → ResumeResult
  arguments : List Str → ResumeResult

-- The flags of ResumeArgs behind the subcommand run.
pub resume_flags : Str → Session → List Str
unfolding append_common_args
resume_flags id s = append_common_args s (
    append_flag (not (is_empty (get_or_empty s.options (bytes "opencode.fork")))) (bytes "--fork")
      (base_flags ++ bytes "--session" ∷ id ∷ []))

-- ResumeArgs, without the binary
pub resume_args : Option Str → Session → Str → ResumeResult
unfolding resolve_session_id is_session_id resume_flags
resume_args captured s prompt =
    let id = resolve_session_id captured s in
    if is_empty id
    then refused no_session_id
    else if not (is_session_id id)
    then refused invalid_session_id
    else if contains_null prompt
    then refused prompt_has_null
    else arguments
        (bytes "run" ∷ (resume_flags id s ++ (if is_empty prompt then [] else prompt ∷ [])))

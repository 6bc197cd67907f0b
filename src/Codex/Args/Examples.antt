-- ===== src/Codex/Args/Examples.antt =====
-- The theorems on the arguments of a Codex subprocess, with a prompt that looks like a flag.
use agentrun.Codex.Args.Built.{exec_grammar}
use agentrun.Prelude.{◌≡◌, refl, Str, bytes, str_eq, some, List, [], ◌∷◌, contains_byte}
use agentrun.Session.{Session, validate_effort, is_effort}
use agentrun.Json.{contains_null}
use agentrun.OptionValues.{
  root_options_set, validate_mode_hitl, parse_list_option, is_mode, is_hitl, append_add_dirs,
  add_dirs, starts_with_dash,
}
use agentrun.Codex.Args.{spawn_args, resume_args, arguments}
use agentrun.Codex.Args.Reads.{Reads, spawn_args-Reads}

abbrev odd_prompt : Session
odd_prompt = record {
  id = bytes "s";
  cwd = bytes "/";
  model = bytes "-x";
  prompt = bytes "--full-auto";
  options = (bytes "effort", bytes "high") ∷ [];
  env = [];
}

abbrev resumed_args : List Str
resumed_args =
    bytes "exec"
    ∷ bytes "resume"
    ∷ bytes "--json"
    ∷ bytes "-c"
    ∷ bytes "model_reasoning_effort=high"
    ∷ bytes "--"
    ∷ bytes "t1"
    ∷ bytes "-n"
    ∷ []

odd_prompt-resumed :
    resume_args (some (bytes "t1")) odd_prompt (bytes "-n") ≡ arguments resumed_args
unfolding resume_args agentrun.Prelude.lookup str_eq contains_null contains_byte validate_mode_hitl
    parse_list_option is_mode is_hitl root_options_set validate_effort is_effort append_add_dirs
    add_dirs starts_with_dash
odd_prompt-resumed = refl

spawn_args-Reads_example :
    Reads exec_grammar (bytes "exec" ∷ []) (bytes "--full-auto" ∷ []) (spawn_args odd_prompt)
unfolding agentrun.Prelude.lookup str_eq contains_null contains_byte
spawn_args-Reads_example = spawn_args-Reads odd_prompt

-- ===== src/Codex/Args/Built.antt =====
-- The arguments of the Codex backend are whole flags.
use agentrun.Prelude.{
  ◌≡◌, refl, Str, bytes, str_eq, contains, contains_byte, true, not, ◌&&◌, List, [], ◌∷◌, ◌++◌,
  is_empty, Assoc, arith,
}
use agentrun.Session.{Session, get_or_empty, is_effort}
use agentrun.OptionValues.{
  parse_list_option, starts_with_dash, is_safe, append_value, append_flag, append_add_dirs,
}
use agentrun.OptionValues.Entries.{parse_list_option-has_no_null}
use agentrun.CommandLine.{
  nothing-IsBuilt, Grammar, IsBuilt, is_dashless, is_bare, is_guarded, bare-IsBuilt,
}
use agentrun.CommandLine.Flags.{bare_if-IsBuilt, guarded_if-IsBuilt, add_dirs-IsBuilt}
use agentrun.CommandLine.Values.{word-is_dashless, is_effort-is_dashless, is_safe-is_dashless}
use agentrun.Codex.Args.{
  opt_sandbox, is_sandbox, append_common_args, append_exec_only_args, resolve_resume_full_auto,
  resolve_exec_policy, append_exec_policy, exec_flags, resume_flags,
}

-- The flags of `codex exec` that the backend uses; no value may start with a dash.
abbrev pub exec_grammar : Grammar
exec_grammar = record {
  bare =
      bytes "--json"
      ∷ bytes "--ephemeral"
      ∷ bytes "--skip-git-repo-check"
      ∷ bytes "--full-auto"
      ∷ [];
  guarded =
      bytes "-p"
      ∷ bytes "--output-schema"
      ∷ bytes "-m"
      ∷ bytes "-c"
      ∷ bytes "--add-dir"
      ∷ bytes "--sandbox"
      ∷ [];
  free = [];
  named = [];
}

-- The flags of `codex exec resume`: no sandbox, no profile and no output schema, which are of the first
-- turn only.
abbrev pub resume_grammar : Grammar
resume_grammar = record {
  bare =
      bytes "--json"
      ∷ bytes "--ephemeral"
      ∷ bytes "--skip-git-repo-check"
      ∷ bytes "--full-auto"
      ∷ [];
  guarded = bytes "-m" ∷ bytes "-c" ∷ bytes "--add-dir" ∷ [];
  free = [];
  named = [];
}

-- A grammar that has the flags which both subcommands take.
record KnowsCommon (g : Grammar) : Type 0 where
  model : is_guarded g (bytes "-m") ≡ true
  config : is_guarded g (bytes "-c") ≡ true
  dir : is_guarded g (bytes "--add-dir") ≡ true
  ephemeral : is_bare g (bytes "--ephemeral") ≡ true
  skip : is_bare g (bytes "--skip-git-repo-check") ≡ true
  json : is_bare g (bytes "--json") ≡ true
  auto : is_bare g (bytes "--full-auto") ≡ true

exec-KnowsCommon : KnowsCommon exec_grammar
unfolding is_guarded is_bare contains contains_byte str_eq
exec-KnowsCommon = record {
  model = refl;
  config = refl;
  dir = refl;
  ephemeral = refl;
  skip = refl;
  json = refl;
  auto = refl;
}

resume-KnowsCommon : KnowsCommon resume_grammar
unfolding is_guarded is_bare contains contains_byte str_eq
resume-KnowsCommon = record {
  model = refl;
  config = refl;
  dir = refl;
  ephemeral = refl;
  skip = refl;
  json = refl;
  auto = refl;
}

effort_value :
    (e : Str)
    → not (is_empty e) && is_effort e ≡ true
    → is_dashless (bytes "model_reasoning_effort=" ++ e) ≡ true
unfolding contains_byte starts_with_dash
effort_value e h = let clean = is_effort-is_dashless e in ground arith

append_common_args-IsBuilt :
    (g : Grammar) (s : Session) (args : List Str)
    → KnowsCommon g
    → IsBuilt g args
    → IsBuilt g (append_common_args s args)
unfolding append_common_args append_add_dirs
append_common_args-IsBuilt g s args k h =
    let opts = s.options in
    let effort = get_or_empty opts (bytes "effort") in
    let ephemeral = not (is_empty (get_or_empty opts (bytes "codex.ephemeral"))) in
    let skip = not (is_empty (get_or_empty opts (bytes "codex.skip_git_check"))) in
    let a1 = append_value (is_safe s.model) (bytes "-m") s.model args in
    let a2 = append_flag ephemeral (bytes "--ephemeral") a1 in
    let a3 = append_flag skip (bytes "--skip-git-repo-check") a2 in
    let a4 =
      append_value (not (is_empty effort) && is_effort effort) (bytes "-c")
        (bytes "model_reasoning_effort=" ++ effort) a3 in
    add_dirs-IsBuilt g a4 (bytes "--add-dir") (parse_list_option opts (bytes "add_dirs")) k.dir
      (parse_list_option-has_no_null opts (bytes "add_dirs"))
      (guarded_if-IsBuilt g a3 (bytes "-c") (bytes "model_reasoning_effort=" ++ effort)
        (not (is_empty effort) && is_effort effort) k.config (effort_value effort)
        (bare_if-IsBuilt g a2 (bytes "--skip-git-repo-check") skip k.skip (
          bare_if-IsBuilt g a1 (bytes "--ephemeral") ephemeral k.ephemeral (
            guarded_if-IsBuilt g args (bytes "-m") s.model (is_safe s.model) k.model
              (is_safe-is_dashless s.model) h))))

append_exec_only_args-IsBuilt :
    (s : Session) (args : List Str)
    → IsBuilt exec_grammar args
    → IsBuilt exec_grammar (append_exec_only_args s args)
unfolding append_exec_only_args is_guarded contains contains_byte str_eq
append_exec_only_args-IsBuilt s args h =
    let g = exec_grammar in
    let profile = get_or_empty s.options (bytes "codex.profile") in
    let schema = get_or_empty s.options (bytes "codex.output_schema") in
    guarded_if-IsBuilt g (append_value (is_safe profile) (bytes "-p") profile args)
      (bytes "--output-schema") schema (is_safe schema) refl (is_safe-is_dashless schema)
      (guarded_if-IsBuilt g args (bytes "-p") profile (is_safe profile) refl
        (is_safe-is_dashless profile) h)

-- The sandbox values are words of their own.
is_sandbox-is_dashless : (v : Str) → is_sandbox v ≡ true → is_dashless v ≡ true
unfolding is_sandbox starts_with_dash contains_byte
is_sandbox-is_dashless v h =
    let read_only = word-is_dashless v (bytes "read-only") refl in
    let workspace = word-is_dashless v (bytes "workspace-write") refl in
    let full = word-is_dashless v (bytes "danger-full-access") refl in ground arith

resolve_exec_policy-is_dashless :
    (opts : Assoc Str)
    → not (is_empty (resolve_exec_policy opts).0) ≡ true
    → is_dashless (resolve_exec_policy opts).0 ≡ true
unfolding resolve_exec_policy starts_with_dash contains_byte
resolve_exec_policy-is_dashless opts h =
    let sandbox = is_sandbox-is_dashless (get_or_empty opts opt_sandbox) in ground arith

json_args-IsBuilt : (g : Grammar) → KnowsCommon g → IsBuilt g (bytes "--json" ∷ [])
json_args-IsBuilt g k = bare-IsBuilt g [] (bytes "--json") k.json (nothing-IsBuilt g)

pub exec_flags-IsBuilt : (s : Session) → IsBuilt exec_grammar (exec_flags s)
unfolding exec_flags append_exec_policy is_guarded contains contains_byte str_eq
exec_flags-IsBuilt s =
    let g = exec_grammar in
    let k = exec-KnowsCommon in
    let policy = resolve_exec_policy s.options in
    let start = bytes "--json" ∷ [] in
    let a1 = append_common_args s (append_exec_only_args s start) in
    bare_if-IsBuilt g (append_value (not (is_empty policy.0)) (bytes "--sandbox") policy.0 a1)
      (bytes "--full-auto") policy.1 k.auto
      (guarded_if-IsBuilt g a1 (bytes "--sandbox") policy.0 (not (is_empty policy.0)) refl
        (resolve_exec_policy-is_dashless s.options)
        (append_common_args-IsBuilt g s (append_exec_only_args s start) k
          (append_exec_only_args-IsBuilt s start (json_args-IsBuilt g k))))

pub resume_flags-IsBuilt : (s : Session) → IsBuilt resume_grammar (resume_flags s)
unfolding resume_flags
resume_flags-IsBuilt s =
    let g = resume_grammar in
    let k = resume-KnowsCommon in
    bare_if-IsBuilt g (append_common_args s (bytes "--json" ∷ [])) (bytes "--full-auto")
      (resolve_resume_full_auto s.options) k.auto
      (append_common_args-IsBuilt g s (bytes "--json" ∷ []) k (json_args-IsBuilt g k))

-- ===== src/Codex/Args/Reads.antt =====
-- How the Codex CLI reads the arguments that the backend builds.
use agentrun.Prelude.{
  ◌≡◌, refl, Str, bytes, contains_byte, Bool, true, false, not, ◌&&◌, Option, none, some, List, [],
  ◌∷◌, ◌++◌, if◌then◌else◌, is_empty, All, arith, if_intro, subst, ◌∙◌, ap, append_assoc,
}
use agentrun.Session.{Session, get_or_empty}
use agentrun.Json.{contains_null}
use agentrun.CommandLine.{positionals, is_argument, Grammar, IsBuilt}
use agentrun.CommandLine.Flags.{IsBuilt-positionals, separator-positionals}
use agentrun.CommandLine.Values.{without_null}
use agentrun.Codex.Args.{
  opt_resume_id, exec_flags, build_exec_command, resume_flags, build_resume_command,
  prompt_or_nothing, spawn_args, ResumeError, no_thread_id, thread_id_has_null, prompt_has_null,
  ResumeResult, refused, arguments, resume_checked, resume_args, resolve_thread_id,
  validate_session_options,
}
use agentrun.Codex.Args.Built.{
  exec_grammar, resume_grammar, exec_flags-IsBuilt, resume_flags-IsBuilt,
}

prompt_or_nothing-is_argument :
    (prompt : Str) → All (λ a. is_argument a ≡ true) (prompt_or_nothing prompt)
prompt_or_nothing-is_argument prompt =
    kept (not (is_empty prompt) && not (contains_null prompt)) (without_null prompt)
  where
    kept :
        (test : Bool)
        → (test ≡ true → is_argument prompt ≡ true)
        → All (λ a. is_argument a ≡ true) (if test then prompt ∷ [] else [])
    kept true h = (h refl, tt)
    kept false h = tt

-- Flags, the separator, and arguments without a null byte behind it.
separated-positionals :
    (g : Grammar) (args rest : List Str)
    → IsBuilt g args
    → All (λ a. is_argument a ≡ true) rest
    → (positionals g (args ++ bytes "--" ∷ rest) ≡ some rest)
      × All (λ a. is_argument a ≡ true) (args ++ bytes "--" ∷ rest)
unfolding contains_byte
separated-positionals g args rest built clean =
    let read = IsBuilt-positionals g args (bytes "--" ∷ rest) built (refl, clean) in
    (read.0 ∙ separator-positionals g rest, read.1)

-- The arguments behind the subcommand, and the positional ones that they should be read as.
abbrev pub Reads : Grammar → List Str → List Str → List Str → Type 0
Reads g subcommand rest args =
    (flags : List Str) × (args ≡ subcommand ++ flags)
    × (positionals g flags ≡ some rest)
    × All (λ a. is_argument a ≡ true) flags

resume_command-Reads :
    (s : Session) (id : Str) (prompt : List Str)
    → is_argument id ≡ true
    → All (λ a. is_argument a ≡ true) prompt
    → Reads resume_grammar
        (bytes "exec" ∷ bytes "resume" ∷ [])
        (id ∷ prompt)
        (build_resume_command id s ++ prompt)
unfolding build_resume_command
resume_command-Reads s id prompt valid clean =
    let read =
      separated-positionals resume_grammar (resume_flags s) (id ∷ prompt) (resume_flags-IsBuilt s)
        (valid, clean) in
    (
      resume_flags s ++ bytes "--" ∷ id ∷ prompt,
      ap (λ r. bytes "exec" ∷ bytes "resume" ∷ r)
          (append_assoc (resume_flags s) (bytes "--" ∷ id ∷ []) prompt),
      read.0,
      read.1,
    )

exec_command-Reads :
    (s : Session)
    → Reads exec_grammar (bytes "exec" ∷ []) (prompt_or_nothing s.prompt) (build_exec_command s)
unfolding build_exec_command
exec_command-Reads s =
    let rest = prompt_or_nothing s.prompt in
    let read =
      separated-positionals exec_grammar (exec_flags s) rest (exec_flags-IsBuilt s)
        (prompt_or_nothing-is_argument s.prompt) in
    (exec_flags s ++ bytes "--" ∷ rest, refl, read.0, read.1)

spawn_choice-Reads :
    (s : Session) (resumes : Bool) (id : Str)
    → (resumes ≡ true → is_argument id ≡ true)
    → let args =
        if resumes
        then build_resume_command id s ++ prompt_or_nothing s.prompt
        else build_exec_command s in
      if resumes
      then Reads resume_grammar
          (bytes "exec" ∷ bytes "resume" ∷ [])
          (id ∷ prompt_or_nothing s.prompt)
          args
      else Reads exec_grammar (bytes "exec" ∷ []) (prompt_or_nothing s.prompt) args
spawn_choice-Reads s true id valid =
    resume_command-Reads s id (prompt_or_nothing s.prompt) (valid refl)
      (prompt_or_nothing-is_argument s.prompt)
spawn_choice-Reads s false id valid = exec_command-Reads s

-- Whatever the session, the CLI reads the arguments that SpawnArgs builds as the subcommand exec, or exec
-- resume if there is an id to resume, then flags that this subcommand knows, so that a resumption has no
-- sandbox, profile or output schema, each with a value that starts with no dash, and as positional arguments exactly the id and the prompt, also if they start with a dash. A
-- prompt that is empty or has a null byte is left out, and no argument has a null byte.
pub spawn_args-Reads :
    (s : Session)
    → let id = get_or_empty s.options opt_resume_id in
      if not (is_empty id) && not (contains_null id)
      then Reads resume_grammar
          (bytes "exec" ∷ bytes "resume" ∷ [])
          (id ∷ prompt_or_nothing s.prompt)
          (spawn_args s)
      else Reads exec_grammar (bytes "exec" ∷ []) (prompt_or_nothing s.prompt) (spawn_args s)
unfolding spawn_args
spawn_args-Reads s =
    let id = get_or_empty s.options opt_resume_id in
    spawn_choice-Reads s (not (is_empty id) && not (contains_null id)) id (without_null id)

arguments_inj : {args rest : List Str} → arguments args ≡ arguments rest → args ≡ rest
arguments_inj e = cc

null_free : (v : Str) → contains_null v ≡ false → is_argument v ≡ true
unfolding contains_null
null_free v e = ground arith

-- A test that is not to hold.
passed :
    {r : ResumeResult} {args : List Str} (test : Bool) (err : ResumeError)
    → (if test then refused err else r) ≡ arguments args
    → (test ≡ false) × (r ≡ arguments args)
passed true err e = absurd (cc e)
passed false err e = (refl, e)

resume_checked-Reads :
    (checked : Option ResumeError) (id : Str) (s : Session) (prompt : Str) (args : List Str)
    → resume_checked checked id s prompt ≡ arguments args
    → Reads resume_grammar
        (bytes "exec" ∷ bytes "resume" ∷ [])
        (id ∷ (if is_empty prompt then [] else prompt ∷ []))
        args
unfolding resume_checked
resume_checked-Reads (some err) id s prompt args e = absurd (cc e)
resume_checked-Reads none id s prompt args e =
    let there = passed (is_empty id) no_thread_id e in
    let valid = passed (contains_null id) thread_id_has_null there.1 in
    let clean = passed (contains_null prompt) prompt_has_null valid.1 in
    let rest = if is_empty prompt then [] else prompt ∷ [] in
    subst (Reads resume_grammar (bytes "exec" ∷ bytes "resume" ∷ []) (id ∷ rest))
      (arguments_inj clean.1)
      (resume_command-Reads s id rest (null_free id valid.0) (
        if_intro (All (λ a. is_argument a ≡ true)) (is_empty prompt) tt
          (null_free prompt clean.0, tt)))

-- Whatever the session and the captured thread id, if ResumeArgs gives arguments, the CLI reads them as
-- the subcommand exec resume, flags that it knows, each with a value that starts with no dash, and as
-- positional arguments exactly the resolved id and the prompt, if it is not empty, also if they start
-- with a dash; and no argument has a null byte.
pub resume_args-Reads :
    (captured : Option Str) (s : Session) (prompt : Str) (args : List Str)
    → resume_args captured s prompt ≡ arguments args
    → Reads resume_grammar
        (bytes "exec" ∷ bytes "resume" ∷ [])
        (resolve_thread_id captured s ∷ (if is_empty prompt then [] else prompt ∷ []))
        args
unfolding resume_args
resume_args-Reads captured s prompt args e =
    resume_checked-Reads (validate_session_options s.options) (resolve_thread_id captured s) s
      prompt args e

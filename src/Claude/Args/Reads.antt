-- ===== src/Claude/Args/Reads.antt =====
-- How the Claude CLI reads the arguments that the backend builds.
use agentrun.Prelude.{
  ◌≡◌, refl, Str, bytes, str_eq, contains, contains_byte, Bool, true, false, not, Option, none,
  some, List, [], ◌∷◌, ◌++◌, if◌then◌else◌, is_empty, All, arith, sym, subst, ◌∙◌, append-nil,
}
use agentrun.Session.{Session, get_or_empty}
use agentrun.Json.{contains_null}
use agentrun.OptionValues.{starts_with_dash}
use agentrun.CommandLine.{positionals, is_argument, is_named, named-IsBuilt}
use agentrun.CommandLine.Flags.{IsBuilt-positionals, is_dashed, dashless-positionals}
use agentrun.Claude.Args.{
  Backend, opt_resume_id, is_resume_id, append_session_args, base_args, stream_args, ResumeError,
  missing_resume_id, invalid_resume_id, prompt_has_null, ResumeResult, refused, arguments,
  resume_with, resume_args, validate_session_options,
}
use agentrun.Claude.Args.Built.{
  claude_grammar, Built, append_session_args-Built, base_args-Built, is_resume_id-is_argument,
  arguments_inj, stream_args-Built, is_resume_id-is_name,
}

-- For every session whose resume id does not start with a dash, the CLI reads the arguments of a
-- streaming subprocess as flags that it knows, each with its value, and as no positional argument. No
-- value that follows a flag starts with a dash, but for a system prompt, what follows --resume is a
-- name of one to 128 letters, digits, underscores and dashes, and no argument has a null byte.
pub stream_args-reads :
    (b : Backend) (s : Session)
    → starts_with_dash (get_or_empty s.options opt_resume_id) ≡ false
    → (positionals claude_grammar (stream_args b s).1 ≡ some [])
      × All (λ a. is_argument a ≡ true) (stream_args b s).1
unfolding positionals
stream_args-reads b s dashless =
    let args = (stream_args b s).1 in
    subst (λ r. (positionals claude_grammar r ≡ some []) × All (λ a. is_argument a ≡ true) r)
      (append-nil args)
      (IsBuilt-positionals claude_grammar args [] (stream_args-Built b s dashless) tt)

prompt-reads :
    (args : List Str) (prompt : Str)
    → Built args
    → contains_null prompt ≡ false
    → starts_with_dash prompt ≡ false
    → (positionals claude_grammar (args ++ prompt ∷ []) ≡ some (prompt ∷ []))
      × All (λ a. is_argument a ≡ true) (args ++ prompt ∷ [])
unfolding is_dashed starts_with_dash contains_null
prompt-reads args prompt built clean dashless =
    let read = IsBuilt-positionals claude_grammar args (prompt ∷ []) built (ground arith, tt) in
    (read.0 ∙ dashless-positionals claude_grammar prompt refl dashless, read.1)

resume_with-reads :
    (checked : Option ResumeError) (b : Backend) (s : Session) (id prompt binary : Str)
    (args : List Str)
    → is_resume_id id ≡ true
    → starts_with_dash id ≡ false
    → contains_null prompt ≡ false
    → starts_with_dash prompt ≡ false
    → resume_with checked b s id prompt ≡ arguments binary args
    → (positionals claude_grammar args ≡ some (prompt ∷ [])) × All (λ a. is_argument a ≡ true) args
unfolding resume_with is_named contains contains_byte str_eq
resume_with-reads (some err) b s id prompt binary args valid plain clean dashless e = absurd (cc e)
resume_with-reads none b s id prompt binary args valid plain clean dashless e =
    let start = base_args ++ bytes "--resume" ∷ id ∷ [] in
    subst
      (λ r. (positionals claude_grammar r ≡ some (prompt ∷ [])) × All (λ a. is_argument a ≡ true) r)
      (arguments_inj e)
      (prompt-reads (append_session_args s start) prompt
        (append_session_args-Built s start (
          named-IsBuilt claude_grammar base_args (bytes "--resume") id refl
            (is_resume_id-is_name id valid plain) (is_resume_id-is_argument id valid)
            base_args-Built))
        clean dashless)

is_true : (test : Bool) → not test ≡ false → test ≡ true
is_true true e = refl
is_true false e = sym e

-- A test that is not to hold.
passed :
    {r : ResumeResult} {binary : Str} {args : List Str} (test : Bool) (err : ResumeError)
    → (if test then refused err else r) ≡ arguments binary args
    → (test ≡ false) × (r ≡ arguments binary args)
passed true err e = absurd (cc e)
passed false err e = (refl, e)

-- If ResumeArgs gives arguments for a resume id and a prompt that do not start with a dash, the CLI reads them as flags that it knows, each with its value, and the prompt as the one positional
-- argument. No argument has a null byte.
pub resume_args-reads :
    (b : Backend) (s : Session) (prompt binary : Str) (args : List Str)
    → starts_with_dash (get_or_empty s.options opt_resume_id) ≡ false
    → starts_with_dash prompt ≡ false
    → resume_args b s prompt ≡ arguments binary args
    → (positionals claude_grammar args ≡ some (prompt ∷ [])) × All (λ a. is_argument a ≡ true) args
unfolding resume_args
resume_args-reads b s prompt binary args plain dashless e =
    let id = get_or_empty s.options opt_resume_id in
    let checked = validate_session_options s.options in
    let there = passed (is_empty id) missing_resume_id e in
    let valid = passed (not (is_resume_id id)) invalid_resume_id there.1 in
    let clean = passed (contains_null prompt) prompt_has_null valid.1 in
    resume_with-reads checked b s id prompt binary args (is_true (is_resume_id id) valid.0) plain
      clean.0 dashless clean.1

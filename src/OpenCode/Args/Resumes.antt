-- ===== src/OpenCode/Args/Resumes.antt =====
-- Resuming an OpenCode session: ResumeArgs in engine/cli/opencode/opencode.go.
use agentrun.Prelude.{
  not, sym, ap, ◌∙◌, append-nil, append_assoc, ◌≡◌, refl, Str, bytes, true, false, some, [], ◌∷◌,
  ◌++◌, if◌then◌else◌, is_empty, Bool, List,
}
use agentrun.Session.{Session, get_or_empty}
use agentrun.Json.{contains_null}
use agentrun.OptionValues.{is_safe, append_value, append_flag}
use agentrun.OpenCode.Args.{
  base_flags, append_common_args, resolve_variant, is_session_id, resume_flags, resume_args,
  resolve_session_id, arguments,
}

abbrev pub IsSession : Str → Type 0
IsSession id = (is_empty id ≡ false) × (is_session_id id ≡ true)

append_value-append :
    (test : Bool) (flag v : Str) (args : List Str)
    → append_value test flag v args ≡ args ++ append_value test flag v []
append_value-append true flag v args = refl
append_value-append false flag v args = sym (append-nil args)

append_flag-append :
    (test : Bool) (flag : Str) (args : List Str)
    → append_flag test flag args ≡ args ++ append_flag test flag []
append_flag-append true flag args = refl
append_flag-append false flag args = sym (append-nil args)

-- The common arguments stand behind those that there are.
append_common_args-append :
    (s : Session) (args : List Str) → (rest : List Str) × (append_common_args s args ≡ args ++ rest)
unfolding append_common_args
append_common_args-append s args =
    let variant = resolve_variant s.options in
    let budget = not (is_empty (get_or_empty s.options (bytes "thinking_budget"))) in
    let model = append_value (is_safe s.model) (bytes "--model") s.model [] in
    let thinking = append_flag budget (bytes "--thinking") [] in
    let chosen = append_value (not (is_empty variant)) (bytes "--variant") variant [] in
    (
      (model ++ thinking) ++ chosen,
      append_value-append (not (is_empty variant)) (bytes "--variant") variant _
          ∙ ap (λ r. r ++ chosen)
              (append_flag-append budget (bytes "--thinking") _
                ∙ ap (λ r. r ++ thinking)
                    (append_value-append (is_safe s.model) (bytes "--model") s.model args)
                ∙ append_assoc args model thinking)
          ∙ append_assoc args (model ++ thinking) chosen,
    )

-- The flags of a resumption name the session.
abbrev pub Resumes : Str → List Str → List Str → Type 0
Resumes id prompt args =
    (rest : List Str) × (args
      ≡ bytes "run" ∷ bytes "--format" ∷ bytes "json" ∷ bytes "--session" ∷ id ∷ (rest ++ prompt))

resume_flags-Resumes :
    (s : Session) (id : Str) (prompt : List Str)
    → Resumes id prompt (bytes "run" ∷ (resume_flags id s ++ prompt))
unfolding resume_flags
resume_flags-Resumes s id prompt =
    let fork = not (is_empty (get_or_empty s.options (bytes "opencode.fork"))) in
    let start = base_flags ++ bytes "--session" ∷ id ∷ [] in
    let forked = append_flag fork (bytes "--fork") [] in
    let common = append_common_args-append s (append_flag fork (bytes "--fork") start) in
    (
      forked ++ common.0,
      ap (λ r. bytes "run" ∷ (r ++ prompt))
          (common.1
            ∙ ap (λ r. r ++ common.0) (append_flag-append fork (bytes "--fork") start)
            ∙ append_assoc start forked common.0),
    )

pub session-Resumes :
    (s : Session) (id prompt : Str)
    → IsSession id
    → contains_null prompt ≡ false
    → (args : List Str) × (resume_args (some id) s prompt ≡ arguments args)
      × Resumes id (if is_empty prompt then [] else prompt ∷ []) args
unfolding resume_args resolve_session_id
session-Resumes s id prompt session clean =
    let last = if is_empty prompt then [] else prompt ∷ [] in
    (
      bytes "run" ∷ (resume_flags id s ++ last),
      rw (session.0, session.1, clean) refl,
      resume_flags-Resumes s id last,
    )

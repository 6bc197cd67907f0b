-- ===== src/Claude/Args/Built.antt =====
-- The arguments of the Claude backend are whole flags.
use agentrun.Prelude.{
  ◌≡◌, refl, Str, bytes, str_eq, contains, contains_byte, true, not, ◌&&◌, Option, none, some, List,
  [], ◌∷◌, ◌++◌, is_empty, Assoc, All, arith, pos, false,
}
use agentrun.Session.{is_effort, Session, get_or_empty}
use agentrun.Json.{contains_null, itoa}
use agentrun.OptionValues.{
  parse_positive_int_option, parse_positive_int_option, IntOption, absent, given, has_null,
  not_integer, not_positive, parse_list_option, parse_bool_option, is_set, starts_with_dash,
  is_safe, append_value, append_flag, append_add_dirs,
}
use agentrun.OptionValues.Numbers.{itoa-dashless}
use agentrun.OptionValues.Entries.{parse_list_option-has_no_null}
use agentrun.CommandLine.{
  Grammar, IsBuilt, is_argument, is_dashless, is_bare, is_guarded, is_free, nothing-IsBuilt,
  bare-IsBuilt, guarded-IsBuilt, is_name, is_named, all_name_bytes,
}
use agentrun.CommandLine.Flags.{
  bare_if-IsBuilt, guarded_if-IsBuilt, free_if-IsBuilt, add_dirs-IsBuilt, named_if-IsBuilt,
}
use agentrun.CommandLine.Values.{
  is_safe-is_dashless, is_effort-is_dashless, is_effort-is_dashless, is_safe-is_dashless,
  without_null,
}
use agentrun.Claude.Args.{
  Backend, opt_resume_id, opt_remote_control, all_id_bytes, is_resume_id, map_permission,
  resolve_permission_flag, append_int, append_positive_int, append_permission, append_tools,
  append_first_args, append_session_args, base_args, stream_args, arguments,
}

-- The flags of the Claude CLI that the backend uses. A system prompt follows its flag whatever it starts
-- with; what follows --resume has to be a name, and starts with no dash.
abbrev pub claude_grammar : Grammar
claude_grammar = record {
  bare =
      bytes "-p"
      ∷ bytes "--verbose"
      ∷ bytes "--include-partial-messages"
      ∷ bytes "--remote-control"
      ∷ [];
  guarded =
      bytes "--output-format"
      ∷ bytes "--input-format"
      ∷ bytes "--model"
      ∷ bytes "--permission-mode"
      ∷ bytes "--max-turns"
      ∷ bytes "--max-thinking-tokens"
      ∷ bytes "--effort"
      ∷ bytes "--add-dir"
      ∷ bytes "--name"
      ∷ bytes "--allowedTools"
      ∷ [];
  free = bytes "--system-prompt" ∷ [];
  named = bytes "--resume" ∷ [];
}

abbrev pub Built : List Str → Type 0
Built = IsBuilt claude_grammar

append_int-Built :
    (flag : Str) (o : IntOption) (args : List Str)
    → is_guarded claude_grammar flag ≡ true
    → Built args
    → Built (append_int flag o args)
unfolding append_int
append_int-Built flag (given n) args known h =
    guarded-IsBuilt claude_grammar args flag (itoa (pos n)) known (itoa-dashless n) h
append_int-Built flag absent args known h = h
append_int-Built flag has_null args known h = h
append_int-Built flag not_integer args known h = h
append_int-Built flag not_positive args known h = h

-- The permission flags are words of their own.
resolve_permission_flag-is_dashless :
    (opts : Assoc Str) (flag : Str)
    → resolve_permission_flag opts ≡ some flag
    → is_dashless flag ≡ true
unfolding resolve_permission_flag map_permission contains_byte starts_with_dash
resolve_permission_flag-is_dashless opts flag e = ground arith

append_permission-Built :
    (o : Option Str) (args : List Str)
    → ((flag : Str) → o ≡ some flag → is_dashless flag ≡ true)
    → Built args
    → Built (append_permission o args)
unfolding append_permission is_guarded contains contains_byte str_eq
append_permission-Built none args h built = built
append_permission-Built (some flag) args h built =
    guarded-IsBuilt claude_grammar args (bytes "--permission-mode") flag refl (h flag refl) built

append_tools-Built :
    (tools args : List Str)
    → All (λ t. is_argument t ≡ true) tools
    → Built args
    → Built (append_tools tools args)
unfolding append_tools is_guarded contains contains_byte str_eq
append_tools-Built [] args clean h = h
append_tools-Built (tool ∷ tools) args clean h =
    append_tools-Built tools
      (append_value (not (starts_with_dash tool)) (bytes "--allowedTools") tool args) clean.1
      (guarded_if-IsBuilt claude_grammar args (bytes "--allowedTools") tool
        (not (starts_with_dash tool)) refl (λ test. let c = clean.0 in ground arith) h)

append_first_args-Built :
    (s : Session) (args : List Str) → Built args → Built (append_first_args s args)
unfolding append_first_args append_positive_int is_guarded is_free contains contains_byte str_eq
append_first_args-Built s args h =
    let opts = s.options in
    let prompt = get_or_empty opts (bytes "system_prompt") in
    let effort = get_or_empty opts (bytes "effort") in
    let g = claude_grammar in
    let a1 = append_value (is_safe s.model) (bytes "--model") s.model args in
    let a2 =
      append_value (not (is_empty prompt) && not (contains_null prompt)) (bytes "--system-prompt")
        prompt a1 in
    let a3 = append_permission (resolve_permission_flag opts) a2 in
    let a4 = append_positive_int opts (bytes "max_turns") (bytes "--max-turns") a3 in
    let a5 =
      append_positive_int opts (bytes "thinking_budget") (bytes "--max-thinking-tokens") a4 in
    guarded_if-IsBuilt g a5 (bytes "--effort") effort (is_effort effort) refl
      (is_effort-is_dashless effort)
      (append_int-Built (bytes "--max-thinking-tokens")
        (parse_positive_int_option opts (bytes "thinking_budget")) a4 refl
        (append_int-Built (bytes "--max-turns") (parse_positive_int_option opts (bytes "max_turns"))
          a3 refl
          (append_permission-Built (resolve_permission_flag opts) a2
            (resolve_permission_flag-is_dashless opts)
            (free_if-IsBuilt g a1 (bytes "--system-prompt") prompt
              (not (is_empty prompt) && not (contains_null prompt)) refl (without_null prompt)
              (guarded_if-IsBuilt g args (bytes "--model") s.model (is_safe s.model) refl
                (is_safe-is_dashless s.model) h)))))

pub append_session_args-Built :
    (s : Session) (args : List Str) → Built args → Built (append_session_args s args)
unfolding append_session_args append_add_dirs is_guarded is_bare contains contains_byte str_eq
append_session_args-Built s args h =
    let opts = s.options in
    let name = get_or_empty opts (bytes "session_name") in
    let g = claude_grammar in
    let a1 = append_first_args s args in
    let a2 = append_add_dirs a1 opts (bytes "--add-dir") in
    let a3 = append_value (is_safe name) (bytes "--name") name a2 in
    let remote = is_set (parse_bool_option opts opt_remote_control) in
    let tools = parse_list_option opts (bytes "claude.allowed_tools") in
    append_tools-Built tools (append_flag remote (bytes "--remote-control") a3)
      (parse_list_option-has_no_null opts (bytes "claude.allowed_tools"))
      (bare_if-IsBuilt g a3 (bytes "--remote-control") remote refl (
        guarded_if-IsBuilt g a2 (bytes "--name") name (is_safe name) refl (is_safe-is_dashless name)
          (add_dirs-IsBuilt g a1 (bytes "--add-dir") (parse_list_option opts (bytes "add_dirs"))
            refl (parse_list_option-has_no_null opts (bytes "add_dirs"))
            (append_first_args-Built s args h))))

pub base_args-Built : Built base_args
unfolding is_guarded is_bare contains contains_byte str_eq starts_with_dash
base_args-Built =
    let g = claude_grammar in
    guarded-IsBuilt g (bytes "-p" ∷ bytes "--verbose" ∷ []) (bytes "--output-format")
      (bytes "stream-json") refl refl
      (bare-IsBuilt g (bytes "-p" ∷ []) (bytes "--verbose") refl
        (bare-IsBuilt g [] (bytes "-p") refl (nothing-IsBuilt g)))

-- An id of allowed bytes has no null byte.
all_id_bytes-is_argument : (id : Str) → all_id_bytes id ≡ true → is_argument id ≡ true
unfolding all_id_bytes contains_byte
all_id_bytes-is_argument [] h = refl
all_id_bytes-is_argument (b ∷ id) h =
    let rest : all_id_bytes id ≡ true → is_argument id ≡ true = all_id_bytes-is_argument id in
    ground arith

pub is_resume_id-is_argument : (id : Str) → is_resume_id id ≡ true → is_argument id ≡ true
unfolding is_resume_id
is_resume_id-is_argument id h = let clean = all_id_bytes-is_argument id in ground arith

all_id_bytes-all_name_bytes : (id : Str) → all_id_bytes id ≡ true → all_name_bytes id ≡ true
unfolding all_id_bytes all_name_bytes
all_id_bytes-all_name_bytes [] h = refl
all_id_bytes-all_name_bytes (b ∷ id) h =
    let rest : all_id_bytes id ≡ true → all_name_bytes id ≡ true = all_id_bytes-all_name_bytes id in
    ground arith

-- An id that the backend accepts is a name, but for a dash at its start.
pub is_resume_id-is_name :
    (id : Str) → is_resume_id id ≡ true → starts_with_dash id ≡ false → is_name id ≡ true
unfolding is_resume_id is_name
is_resume_id-is_name id h dashless = let named = all_id_bytes-all_name_bytes id in ground arith

pub arguments_inj :
    {b c : Str} {args rest : List Str} → arguments b args ≡ arguments c rest → args ≡ rest
arguments_inj e = cc

pub stream_args-Built :
    (b : Backend) (s : Session)
    → starts_with_dash (get_or_empty s.options opt_resume_id) ≡ false
    → Built (stream_args b s).1
unfolding stream_args is_guarded is_bare is_named contains contains_byte str_eq starts_with_dash
stream_args-Built b s dashless =
    let g = claude_grammar in
    let id = get_or_empty s.options opt_resume_id in
    let a1 = base_args ++ bytes "--input-format" ∷ bytes "stream-json" ∷ [] in
    let a2 = append_flag b.partial_messages (bytes "--include-partial-messages") a1 in
    let a3 = append_value (not (is_empty id) && is_resume_id id) (bytes "--resume") id a2 in
    append_session_args-Built s a3 (
      named_if-IsBuilt g a2 (bytes "--resume") id (not (is_empty id) && is_resume_id id) refl
        (λ test. is_resume_id-is_name id (ground arith) dashless)
        (λ test. is_resume_id-is_argument id (ground arith))
        (bare_if-IsBuilt g a1 (bytes "--include-partial-messages") b.partial_messages refl (
          guarded-IsBuilt g base_args (bytes "--input-format") (bytes "stream-json") refl refl
            base_args-Built)))

-- ===== src/Acp/Updates/Usages.antt =====
-- What no update can do, and what a usage update carries.
use agentrun.Prelude.{
  ℕ, ◌≡◌, refl, subst, Str, bytes, str_eq, Bool, true, not, ◌&&◌, Option, none, some, [], ◌∷◌,
  Assoc, lookup, pos, ltb_ℤ, arith, All, some_inj, Bool-cases, inl, inr,
}
use agentrun.Message.{
  MessageType, Message, text_delta, thinking_delta, system, Usage, is_result, is_init,
}
use agentrun.Acp.Updates.{
  Decoded, bad, good, of_decoded, Decoders, UsageUpdate, ToolCallUpdate, unmarshal_error,
  parse_chunk, parse_tool_call, tool_call_message, parse_tool_call_update, parse_plan,
  parse_current_mode, parse_session_info, usage_message, parse_usage, update_parsers, stamped,
  run_parser, by_header, parse_session_update,
}

-- A fill within a capacity that is positive.
abbrev pub is_fill : Option Usage → Bool
is_fill none = true
is_fill (some u) =
    ltb_ℤ (pos 0) u.context_size_tokens
    && (not (ltb_ℤ u.context_used_tokens (pos 0))
        && not (ltb_ℤ u.context_size_tokens u.context_used_tokens))

abbrev pub is_update : Message → Bool
is_update msg = not (is_result msg.type) && (not (is_init msg.type) && is_fill msg.usage)

abbrev pub IfSome : Option Message → Type 0
IfSome none = true ≡ true
IfSome (some msg) = is_update msg ≡ true

usage_message-IfSome : (u : UsageUpdate) → IfSome (usage_message u)
unfolding usage_message
usage_message-IfSome u = ground arith

tool_call_message-is_update :
    (d : Decoders) (u : ToolCallUpdate) → is_update (tool_call_message d u) ≡ true
unfolding tool_call_message
tool_call_message-is_update d u = ground arith

-- A parser's message for every outcome of its decoder.
abbrev Sound : (Decoders → Str → Option Message) → Type 0
Sound parse = (d : Decoders) (update : Str) → IfSome (parse d update)

parse_chunk-Sound :
    (type : MessageType)
    → not (is_result type) && not (is_init type) ≡ true
    → Sound (λ d u. some (parse_chunk type d u))
unfolding parse_chunk unmarshal_error
parse_chunk-Sound type plain d update = ground arith

parse_tool_call-Sound : Sound (λ d u. some (parse_tool_call d u))
unfolding parse_tool_call unmarshal_error
parse_tool_call-Sound d update = ground arith

of_decoded-is_update :
    {A : Type 0} (name : Str) (make : A → Message)
    → ((a : A) → is_update (make a) ≡ true)
    → (r : Decoded A) → is_update (of_decoded name make r) ≡ true
unfolding unmarshal_error
of_decoded-is_update name make h (bad err) = refl
of_decoded-is_update name make h (good a) = h a

parse_tool_call_update-Sound : Sound (λ d u. some (parse_tool_call_update d u))
unfolding parse_tool_call_update
parse_tool_call_update-Sound d update =
    of_decoded-is_update (bytes "tool_call_update") (tool_call_message d)
      (tool_call_message-is_update d) (d.tool_call update)

parse_plan-Sound : Sound (λ d u. some (parse_plan d u))
unfolding parse_plan unmarshal_error
parse_plan-Sound d update = ground arith

parse_current_mode-Sound : Sound (λ d u. some (parse_current_mode d u))
unfolding parse_current_mode unmarshal_error
parse_current_mode-Sound d update = ground arith

parse_session_info-Sound : Sound (λ d u. some (parse_session_info d u))
unfolding parse_session_info unmarshal_error
parse_session_info-Sound d update = ground arith

parse_usage-Sound : Sound parse_usage
unfolding parse_usage unmarshal_error
parse_usage-Sound d update = of_usage (d.usage update)
  where
    of_usage :
        (r : Decoded UsageUpdate)
        → IfSome (elim r [
          | bad err ↦ some (unmarshal_error (bytes "usage_update") err)
          | good u ↦ usage_message u
        ])
    of_usage (bad err) = refl
    of_usage (good u) = usage_message-IfSome u

lookup-All :
    {A : Type 0} (P : A → Type 0) (key : Str) (m : Assoc A)
    → All (λ e. P e.1) m
    → (found : A) → lookup key m ≡ some found
    → P found
unfolding lookup
lookup-All P key [] h found e = absurd (cc e)
lookup-All P key ((k, a) ∷ m) h found e = elim (Bool-cases (str_eq k key)) [
  | inl is ↦ subst P (some_inj (simp (is, lookup) at e)) h.0
  | inr is_not ↦ lookup-All P key m h.1 found (simp (is_not, lookup) at e)
]

update_parsers-Sound : All (λ e. Sound e.1) update_parsers
unfolding update_parsers
update_parsers-Sound = (
  parse_chunk-Sound text_delta refl,
  (
    parse_chunk-Sound thinking_delta refl,
    (
      parse_chunk-Sound system refl,
      (
        parse_tool_call-Sound,
        (
          parse_tool_call_update-Sound,
          (
            parse_plan-Sound,
            (
              parse_current_mode-Sound,
              (λ d u. refl, (parse_session_info-Sound, (parse_usage-Sound, (λ d u. refl, tt)))),
            ),
          ),
        ),
      ),
    ),
  ),
)

stamped-IfSome : (now : ℕ) (parsed : Option Message) → IfSome parsed → IfSome (stamped now parsed)
unfolding stamped
stamped-IfSome now none h = refl
stamped-IfSome now (some msg) h = ground arith

run_parser-IfSome :
    (d : Decoders) (now : ℕ) (kind update : Str) (parser : Option (Decoders → Str → Option Message))
    → ((parse : Decoders → Str → Option Message) → parser ≡ some parse → Sound parse)
    → IfSome (run_parser d now kind update parser)
unfolding run_parser
run_parser-IfSome d now kind update none h = refl
run_parser-IfSome d now kind update (some parse) h =
    stamped-IfSome now (parse d update) (h parse refl d update)

by_header-IfSome :
    (d : Decoders) (now : ℕ) (update : Str) (r : Decoded Str) → IfSome (by_header d now update r)
unfolding by_header
by_header-IfSome d now update (bad err) = refl
by_header-IfSome d now update (good []) = refl
by_header-IfSome d now update (good (b ∷ kind)) =
    run_parser-IfSome d now (b ∷ kind) update (lookup (b ∷ kind) update_parsers)
      (lookup-All Sound (b ∷ kind) update_parsers update_parsers-Sound)

-- Whatever the update, malformed, empty or of an unknown kind included, the message that it becomes, if
-- any, is no result and no init, so that it neither ends a turn nor restarts a session, and a usage in it
-- has a positive capacity and a fill from 0 up to it.
pub parse_session_update-IfSome :
    (d : Decoders) (now : ℕ) (update : Str) → IfSome (parse_session_update d now update)
unfolding parse_session_update
parse_session_update-IfSome d now [] = refl
parse_session_update-IfSome d now (b ∷ update) =
    by_header-IfSome d now (b ∷ update) (d.header (b ∷ update))

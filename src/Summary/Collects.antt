-- ===== src/Summary/Collects.antt =====
-- A summary as an independent description of the messages: filters and maps in place of an accumulator.
use agentrun.Prelude.{
  Option, none, some, ◌≡◌, ◌||◌, refl, ap, sym, ◌∙◌, Str, Bool, true, false, List, [], ◌∷◌, ◌++◌,
  append_assoc, append-nil, if◌then◌else◌, arith, Bool-cases, inl, inr,
}
use agentrun.Message.{
  is_background_tasks, MessageType, Message, ToolCall, text, thinking, other, is_error,
}
use agentrun.Filter.{is_delta}
use agentrun.Summary.{
  present_tools, TurnSummary, empty_summary, message_tools, add_fields, add, add_all,
}

abbrev pub is_text : MessageType → Bool
is_text text = true
is_text _ = false

abbrev pub is_thinking : MessageType → Bool
is_thinking thinking = true
is_thinking _ = false

-- The contents of the messages whose type passes a test.
pub contents : (MessageType → Bool) → List Message → List Str
contents p [] = []
contents p (msg ∷ msgs) =
    let rest = contents p msgs in if p msg.type then msg.content ∷ rest else rest

abbrev option_list : Option ToolCall → List ToolCall
option_list none = []
option_list (some tc) = tc ∷ []

-- What a message declares by its tool list, and by its single tool if the list is empty.
pub declared : List (Option ToolCall) → Option ToolCall → List ToolCall
declared [] single = option_list single
declared (tool ∷ tools) single = option_list tool ++ declared tools none

-- The tool calls that the messages declare, but for the deltas and the background snapshots.
pub complete_tools : List Message → List ToolCall
unfolding declared
complete_tools [] = []
complete_tools (msg ∷ msgs) =
    let rest = complete_tools msgs in
    if is_delta msg.type || is_background_tasks msg.type
    then rest
    else declared msg.tools msg.tool ++ rest

declared-present_tools :
    (tools : List (Option ToolCall)) → declared tools none ≡ present_tools tools
unfolding declared present_tools
declared-present_tools [] = refl
declared-present_tools (none ∷ tools) = declared-present_tools tools
declared-present_tools (some tc ∷ tools) = ap (λ l. tc ∷ l) (declared-present_tools tools)

declared-message_tools :
    (tools : List (Option ToolCall)) (msg : Message)
    → msg.tools ≡ tools
    → message_tools msg ≡ (if is_background_tasks msg.type then [] else declared tools msg.tool)
unfolding message_tools declared present_tools
declared-message_tools [] msg e = simp e refl
declared-message_tools (none ∷ tools) msg e = simp (e, declared-present_tools tools) refl
declared-message_tools (some tc ∷ tools) msg e = simp (e, declared-present_tools tools) refl

complete_tools-single :
    (msg : Message)
    → complete_tools (msg ∷ []) ≡ (if is_delta msg.type then [] else message_tools msg)
unfolding complete_tools
complete_tools-single msg =
    ground
      (arith, declared-message_tools msg.tools msg refl, append-nil (declared msg.tools msg.tool))

-- One message at a time, by its type.
IsCollected : TurnSummary → List Message → TurnSummary → Type 0
IsCollected s msgs r =
    (r.text_blocks ≡ s.text_blocks ++ contents is_text msgs)
    × (r.thinking_blocks ≡ s.thinking_blocks ++ contents is_thinking msgs)
    × (r.errors ≡ s.errors ++ contents is_error msgs)
    × (r.tool_calls ≡ s.tool_calls ++ complete_tools msgs)
    × (r.messages ≡ s.messages ++ msgs)

add-IsCollected :
    (t : MessageType) (s : TurnSummary) (msg : Message)
    → msg.type ≡ t
    → IsCollected s (msg ∷ []) (add s msg)
unfolding add add_fields contents is_delta IsCollected
add-IsCollected (other x) s msg e = elim (Bool-cases (is_delta (other x))) [
  | inl delta ↦ simp (e, delta, append-nil, complete_tools-single) (refl, refl, refl, refl, refl)
  | inr complete ↦
      simp (e, complete, append-nil, complete_tools-single) (refl, refl, refl, refl, refl)
]
add-IsCollected t s msg e =
    simp (e, append-nil, complete_tools-single) (refl, refl, refl, refl, refl)

contents-cons :
    (p : MessageType → Bool) (msg : Message) (msgs : List Message)
    → contents p (msg ∷ msgs) ≡ contents p (msg ∷ []) ++ contents p msgs
unfolding contents
contents-cons p msg msgs = ground arith

complete_tools-cons :
    (msg : Message) (msgs : List Message)
    → complete_tools (msg ∷ msgs) ≡ complete_tools (msg ∷ []) ++ complete_tools msgs
unfolding complete_tools
complete_tools-cons msg msgs = ground (arith, append-nil (declared msg.tools msg.tool))

-- What a field holds after one message and then after the rest of them.
extend {ℓ} :
    {A : Type ℓ} (xs ys zs all r q : List A)
    → all ≡ ys ++ zs
    → r ≡ xs ++ ys
    → q ≡ r ++ zs
    → q ≡ xs ++ all
extend xs ys zs all r q e h k =
    k ∙ ap (λ l. l ++ zs) h ∙ append_assoc xs ys zs ∙ ap (λ l. xs ++ l) (sym e)

extend_contents :
    (p : MessageType → Bool) (msg : Message) (msgs : List Message) (xs r q : List Str)
    → r ≡ xs ++ contents p (msg ∷ [])
    → q ≡ r ++ contents p msgs
    → q ≡ xs ++ contents p (msg ∷ msgs)
extend_contents p msg msgs xs r q =
    extend xs (contents p (msg ∷ [])) (contents p msgs) (contents p (msg ∷ msgs)) r q
      (contents-cons p msg msgs)

IsCollected-cons :
    (s r q : TurnSummary) (msg : Message) (msgs : List Message)
    → IsCollected s (msg ∷ []) r
    → IsCollected r msgs q
    → IsCollected s (msg ∷ msgs) q
unfolding IsCollected
IsCollected-cons s r q msg msgs (a, b, c, d, e) (v, w, x, y, z) = (
  extend_contents is_text msg msgs s.text_blocks r.text_blocks q.text_blocks a v,
  extend_contents is_thinking msg msgs s.thinking_blocks r.thinking_blocks q.thinking_blocks b w,
  extend_contents is_error msg msgs s.errors r.errors q.errors c x,
  extend s.tool_calls (complete_tools (msg ∷ [])) (complete_tools msgs)
      (complete_tools (msg ∷ msgs)) r.tool_calls q.tool_calls (complete_tools-cons msg msgs) d y,
  extend s.messages (msg ∷ []) msgs (msg ∷ msgs) r.messages q.messages refl e z,
)

add_all-IsCollected : (s : TurnSummary) (msgs : List Message) → IsCollected s msgs (add_all s msgs)
unfolding add_all IsCollected contents complete_tools
add_all-IsCollected s [] = (
  sym (append-nil _),
  sym (append-nil _),
  sym (append-nil _),
  sym (append-nil _),
  sym (append-nil _),
)
add_all-IsCollected s (msg ∷ msgs) =
    IsCollected-cons s (add s msg) (add_all (add s msg) msgs) msg msgs
      (add-IsCollected msg.type s msg refl) (add_all-IsCollected (add s msg) msgs)

-- A summary of any messages holds all of them, the contents of the texts, of the thinking and of the
-- errors, each in order, and the tool calls of every message that is no delta and no snapshot of
-- background tasks: those of its tool list without nil, or its single one if the list is empty.
pub add_all-collects :
    (msgs : List Message)
    → let s = add_all empty_summary msgs in
      (s.text_blocks ≡ contents is_text msgs)
      × (s.thinking_blocks ≡ contents is_thinking msgs)
      × (s.errors ≡ contents is_error msgs)
      × (s.tool_calls ≡ complete_tools msgs)
      × (s.messages ≡ msgs)
unfolding IsCollected
add_all-collects msgs = add_all-IsCollected empty_summary msgs

-- ===== src/Codex/Parse/Threads.antt =====
-- Which thread id the messages of a Codex process tell.
use agentrun.Prelude.{
  ℕ, ◌≡◌, refl, Str, bytes, str_eq, str_eq_refl, Bool, true, false, not, ◌&&◌, ◌||◌, Option, none,
  some, List, [], ◌∷◌, ◌++◌, if◌then◌else◌, is_empty, arith, append-nil, append_assoc, sym, ap, ◌∙◌,
  subst, lookup, if_intro, Bool-cases, inl, inr,
}
use agentrun.Message.{Message, message, other, result, system}
use agentrun.Scan.{Parsed, parsed, skip_line, parse_error}
use agentrun.Json.{Object, Fields, Codec, Decoding, invalid, decoded, get_string, object?, fields?}
use agentrun.Blocks.{is_blank}
use agentrun.Codex.Args.{no_uuid_sentinel}
use agentrun.Codex.Parse.{
  is_uuid, matches, started, started_again, thread_started, parse_usage, or_text, tool_message,
  error_message, parse_item, parse_item_completed, parse_turn_failed, by_type, by_decoding,
  parse_line, parse_lines, thread_id,
}

abbrev pub as_list : Str → List Str
as_list id = if is_empty id then [] else id ∷ []

abbrev pub told : Parsed → List Str
told (parsed msg) = as_list msg.resume_id
told _ = []

-- The resume ids that messages tell, in their order.
abbrev pub resume_ids : List Parsed → List Str
resume_ids [] = []
resume_ids (p ∷ ps) = told p ++ resume_ids ps

uuid-no_sentinel : (id : Str) → is_uuid id ≡ true → str_eq id no_uuid_sentinel ≡ false
unfolding is_uuid matches str_eq
uuid-no_sentinel [] e = refl
uuid-no_sentinel (b ∷ id) e = ground arith

-- A line tells what it captures.
abbrev Tells : Option Str → Parsed × Option Str → Type 0
Tells captured step = as_list (thread_id captured) ++ told step.0 ≡ as_list (thread_id step.1)

silent-Tells : (captured : Option Str) (p : Parsed) → told p ≡ [] → Tells captured (p, captured)
silent-Tells captured p e =
    ap (λ r. as_list (thread_id captured) ++ r) e ∙ append-nil (as_list (thread_id captured))

started-Tells :
    (captures : Bool) (id : Str) (captured : Option Str) (msg : Message)
    → (captures ≡ true → str_eq id no_uuid_sentinel ≡ false)
    → as_list msg.resume_id ≡ []
    → Tells captured
        (parsed (started captures id captured msg).0, (started captures id captured msg).1)
unfolding started thread_id
started-Tells true id none msg h e = rw (h refl) refl
started-Tells false id none msg h e = e ∙ sym (rw (str_eq_refl no_uuid_sentinel) refl)
started-Tells true id (some old) msg h e = elim (Bool-cases (str_eq old no_uuid_sentinel)) [
  | inl sentinel ↦ rw (sentinel, h refl) refl
  | inr uuid ↦
      let is : started true id (some old) msg ≡ (started_again id msg, some old) = simp uuid in
      subst (λ r. Tells (some old) (parsed r.0, r.1)) (sym is)
        (silent-Tells (some old) (parsed (started_again id msg)) e)
]
started-Tells false id (some old) msg h e = rw e (append-nil (as_list (thread_id (some old))))

thread_started-Tells :
    (raw : Object) (captured : Option Str) (msg : Message)
    → as_list msg.resume_id ≡ []
    → Tells captured
        (parsed (thread_started raw captured msg).0, (thread_started raw captured msg).1)
unfolding thread_started
thread_started-Tells raw captured msg e =
    let id = get_string raw (bytes "thread_id") in
    let differ = uuid-no_sentinel id in
    started-Tells (not (is_empty id) && is_uuid id) id captured msg (λ test. differ (ground arith))
      e

parse_item-resume_id :
    (codec : Codec) (item : Option Fields) (msg : Message)
    → (parse_item_completed codec item msg).resume_id ≡ msg.resume_id
unfolding parse_item_completed parse_item tool_message error_message
parse_item-resume_id codec none msg = refl
parse_item-resume_id codec (some fs) msg = ground arith

parse_turn_failed-resume_id :
    (err : Option Object) (msg : Message) → (parse_turn_failed err msg).resume_id ≡ msg.resume_id
unfolding parse_turn_failed error_message
parse_turn_failed-resume_id none msg = refl
parse_turn_failed-resume_id (some err) msg = refl

by_type-Tells :
    (codec : Codec) (type : Str) (raw : Object) (captured : Option Str) (msg : Message)
    → as_list msg.resume_id ≡ []
    → Tells captured (by_type codec type raw captured msg)
unfolding by_type parse_turn_failed error_message
by_type-Tells codec type raw captured msg e =
    if_intro (Tells captured) (str_eq type (bytes "thread.started"))
      (thread_started-Tells raw captured msg e)
      (if_intro (Tells captured)
        (str_eq type (bytes "turn.started") || str_eq type (bytes "item.started"))
        (silent-Tells captured skip_line refl)
        (if_intro (Tells captured) (str_eq type (bytes "item.completed"))
          (silent-Tells captured (parsed (parse_item_completed codec item msg))
            (ap as_list (parse_item-resume_id codec item msg) ∙ e))
          (if_intro (Tells captured) (str_eq type (bytes "turn.completed"))
            (silent-Tells captured
              (parsed (record msg {
                type = result;
                usage = parse_usage (object? (lookup (bytes "usage") raw));
              }))
              e)
            (if_intro (Tells captured) (str_eq type (bytes "turn.failed"))
              (silent-Tells captured
                (parsed (parse_turn_failed (object? (lookup (bytes "error") raw)) msg))
                (ap as_list (parse_turn_failed-resume_id (object? (lookup (bytes "error") raw)) msg)
                  ∙ e))
              (if_intro (Tells captured) (str_eq type (bytes "error"))
                (silent-Tells captured
                  (parsed (
                    error_message (get_string raw (bytes "code"))
                      (or_text (get_string raw (bytes "message")) (bytes "unknown error")) msg))
                  e)
                (silent-Tells captured (parsed (record msg { type = system; content = type }))
                  e))))))
  where
    item : Option Fields
    item = fields? (lookup (bytes "item") raw)

by_decoding-Tells :
    (codec : Codec) (now : ℕ) (line : Str) (d : Decoding) (captured : Option Str)
    → Tells captured (by_decoding codec now line d captured)
unfolding by_decoding
by_decoding-Tells codec now line (invalid err) captured =
    silent-Tells captured (parse_error (bytes "codex: invalid JSON: " ++ err)) refl
by_decoding-Tells codec now line (decoded raw) captured =
    let type = get_string raw (bytes "type") in
    if_intro (Tells captured) (is_empty type)
      (silent-Tells captured (parse_error (bytes "codex: missing or empty type field")) refl)
      (by_type-Tells codec type raw captured
        (record (message (other [])) { raw = line; timestamp = now }) refl)

parse_line-Tells :
    (codec : Codec) (now : ℕ) (line : Str) (captured : Option Str)
    → Tells captured (parse_line codec now line captured)
unfolding parse_line
parse_line-Tells codec now line captured =
    if_intro (Tells captured) (is_blank line) (silent-Tells captured skip_line refl)
      (by_decoding-Tells codec now line (codec.decode line) captured)

parse_lines-tell :
    (codec : Codec) (lines : List (ℕ × Str)) (captured : Option Str)
    → let (ps, after) = parse_lines codec lines captured in
      as_list (thread_id captured) ++ resume_ids ps ≡ as_list (thread_id after)
unfolding parse_lines
parse_lines-tell codec [] captured = append-nil (as_list (thread_id captured))
parse_lines-tell codec ((now, line) ∷ lines) captured =
    let first = parse_line codec now line captured in
    let rest = parse_lines codec lines first.1 in
    sym (append_assoc (as_list (thread_id captured)) (told first.0) (resume_ids rest.0))
    ∙ ap (λ r. r ++ resume_ids rest.0) (parse_line-Tells codec now line captured)
    ∙ parse_lines-tell codec lines first.1

-- Over all lines of a process, valid or not, messages tell at most one resume id, and it is the thread
-- id that the backend has captured at the end: they tell none exactly if it has captured none.
pub parse_lines-resume_ids :
    (codec : Codec) (lines : List (ℕ × Str))
    → let (ps, after) = parse_lines codec lines none in resume_ids ps ≡ as_list (thread_id after)
unfolding thread_id
parse_lines-resume_ids codec lines = parse_lines-tell codec lines none

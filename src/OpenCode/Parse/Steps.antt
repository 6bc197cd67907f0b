-- ===== src/OpenCode/Parse/Steps.antt =====
-- The session id that the lines of an OpenCode process capture, and resuming with it.
use agentrun.Prelude.{
  ℕ, ◌≡◌, refl, Str, bytes, Bool, true, false, not, ◌&&◌, Option, none, some, List, [], ◌∷◌, ◌++◌,
  if◌then◌else◌, is_empty, All, arith, append-nil, append_assoc, sym, ap, ◌∙◌, subst, lookup,
  str_eq, if_intro,
}
use agentrun.Session.{Session}
use agentrun.Message.{Message, message, other, text, thinking, system, MessageType}
use agentrun.Scan.{Parsed, parsed, skip_line, parse_error}
use agentrun.Json.{Object, Codec, Decoding, invalid, decoded, get_string, object?, contains_null}
use agentrun.Blocks.{is_blank}
use agentrun.OpenCode.Args.{is_session_id, resume_args, arguments}
use agentrun.OpenCode.Args.Resumes.{Resumes, IsSession, session-Resumes}
use agentrun.OpenCode.Parse.{
  part_text, parse_step_start, parse_tool_use, parse_step_finish, parse_error_event, by_type,
  parse_object, by_decoding, parse_line, parse_lines, timestamp_of,
}

abbrev pub told : Parsed → List Str
told (parsed msg) = if is_empty msg.resume_id then [] else msg.resume_id ∷ []
told _ = []

-- The resume ids that messages tell, in their order.
abbrev pub resume_ids : List Parsed → List Str
resume_ids [] = []
resume_ids (p ∷ ps) = told p ++ resume_ids ps

abbrev ids : Option Str → List Str
ids none = []
ids (some id) = id ∷ []

-- A line tells what it captures, and captures only session ids.
abbrev Tells : Option Str → Parsed × Option Str → Type 0
Tells captured step =
    (ids captured ++ told step.0 ≡ ids step.1)
    × (All IsSession (ids captured) → All IsSession (ids step.1))

silent-Tells : (captured : Option Str) (p : Parsed) → told p ≡ [] → Tells captured (p, captured)
silent-Tells captured p e = (ap (λ r. ids captured ++ r) e ∙ append-nil (ids captured), λ h. h)

captures-Tells :
    (test : Bool) (id : Str) (msg : Message)
    → (test ≡ true → IsSession id)
    → told (parsed msg) ≡ []
    → let step : Message × Option Str =
        if test
        then (record msg { type = MessageType.init; resume_id = id }, some id)
        else (record msg { type = MessageType.init }, none) in
      Tells none (parsed step.0, step.1)
captures-Tells true id msg h e = (rw (h refl).0 refl, λ all. (h refl, tt))
captures-Tells false id msg h e = (e, λ all. tt)

step_start-Tells :
    (raw : Object) (captured : Option Str) (msg : Message)
    → told (parsed msg) ≡ []
    → let step = parse_step_start raw captured msg in Tells captured (parsed step.0, step.1)
unfolding parse_step_start
step_start-Tells raw none msg e =
    let id = get_string raw (bytes "sessionID") in
    captures-Tells (not (is_empty id) && is_session_id id) id msg (λ test. ground arith) e
step_start-Tells raw (some old) msg e =
    let id = get_string raw (bytes "sessionID") in
    silent-Tells (some old)
      (parsed (record msg {
        type = system;
        content = if is_empty id then bytes "step_start" else bytes "step_start: " ++ id;
      }))
      e

tool_use-resume_id :
    (codec : Codec) (part : Option Object) (msg : Message)
    → (parse_tool_use codec part msg).resume_id ≡ msg.resume_id
unfolding parse_tool_use
tool_use-resume_id codec none msg = refl
tool_use-resume_id codec (some part) msg = refl

step_finish-resume_id :
    (part : Option Object) (msg : Message) → (parse_step_finish part msg).resume_id ≡ msg.resume_id
unfolding parse_step_finish
step_finish-resume_id part msg = ground arith

error_event-resume_id :
    (err : Option Object) (msg : Message) → (parse_error_event err msg).resume_id ≡ msg.resume_id
unfolding parse_error_event
error_event-resume_id none msg = refl
error_event-resume_id (some err) msg = refl

by_type-Tells :
    (codec : Codec) (type : Str) (raw : Object) (captured : Option Str) (msg : Message)
    → told (parsed msg) ≡ []
    → let step = by_type codec type raw captured msg in Tells captured (parsed step.0, step.1)
unfolding by_type
by_type-Tells codec type raw captured msg e =
    let part = object? (lookup (bytes "part") raw) in
    let err = object? (lookup (bytes "error") raw) in
    let P : Message × Option Str → Type 0 = λ r. Tells captured (parsed r.0, r.1) in
    let Q : Message → Type 0 = λ m. Tells captured (parsed m, captured) in
    let same : (m : Message) → m.resume_id ≡ msg.resume_id → Q m = λ m is.
      silent-Tells captured (parsed m) (ap (λ r. if is_empty r then [] else r ∷ []) is ∙ e) in
    if_intro P (str_eq type (bytes "step_start")) (step_start-Tells raw captured msg e) (
      if_intro Q (str_eq type (bytes "text"))
        (same (record msg { type = text; content = part_text part msg.content }) refl)
        (if_intro Q (str_eq type (bytes "tool_use"))
          (same (parse_tool_use codec part msg) (tool_use-resume_id codec part msg))
          (if_intro Q (str_eq type (bytes "step_finish"))
            (same (parse_step_finish part msg) (step_finish-resume_id part msg))
            (if_intro Q (str_eq type (bytes "reasoning"))
              (same (record msg { type = thinking; content = part_text part msg.content }) refl)
              (if_intro Q (str_eq type (bytes "error"))
                (same (parse_error_event err msg) (error_event-resume_id err msg))
                (same (record msg { type = system; content = type }) refl))))))

by_decoding-Tells :
    (unix_milli : ℕ → ℕ) (codec : Codec) (now : ℕ) (line : Str) (d : Decoding)
    (captured : Option Str)
    → Tells captured (by_decoding unix_milli codec now line d captured)
unfolding by_decoding parse_object
by_decoding-Tells unix_milli codec now line (invalid err) captured =
    silent-Tells captured (parse_error (bytes "opencode: invalid JSON: " ++ err)) refl
by_decoding-Tells unix_milli codec now line (decoded raw) captured =
    let type = get_string raw (bytes "type") in
    if_intro (Tells captured) (is_empty type)
      (silent-Tells captured (parse_error (bytes "opencode: missing or empty type field")) refl)
      (by_type-Tells codec type raw captured
        (record (message (other [])) { raw = line; timestamp = timestamp_of unix_milli now raw })
        refl)

parse_line-Tells :
    (unix_milli : ℕ → ℕ) (codec : Codec) (now : ℕ) (line : Str) (captured : Option Str)
    → Tells captured (parse_line unix_milli codec now line captured)
unfolding parse_line
parse_line-Tells unix_milli codec now line captured =
    if_intro (Tells captured) (is_blank line) (silent-Tells captured skip_line refl)
      (by_decoding-Tells unix_milli codec now line (codec.decode line) captured)

parse_lines-tell :
    (unix_milli : ℕ → ℕ) (codec : Codec) (lines : List (ℕ × Str)) (captured : Option Str)
    → let (ps, after) = parse_lines unix_milli codec lines captured in
      (ids captured ++ resume_ids ps ≡ ids after)
      × (All IsSession (ids captured) → All IsSession (ids after))
unfolding parse_lines
parse_lines-tell unix_milli codec [] captured = (append-nil (ids captured), λ all. all)
parse_lines-tell unix_milli codec ((now, line) ∷ lines) captured =
    let first = parse_line unix_milli codec now line captured in
    let rest = parse_lines unix_milli codec lines first.1 in
    let tells = parse_line-Tells unix_milli codec now line captured in
    let later = parse_lines-tell unix_milli codec lines first.1 in
    (
      sym (append_assoc (ids captured) (told first.0) (resume_ids rest.0))
          ∙ ap (λ r. r ++ resume_ids rest.0) tells.0
          ∙ later.0,
      λ all. later.1 (tells.1 all),
    )

-- If the lines of a process, valid or not, leave a session id captured, then it is the one resume id that
-- their messages tell, once, and ResumeArgs with any prompt without a null byte is not refused: its
-- arguments start with run --format json --session and that id, and end in the prompt, if it is not
-- empty, whatever the options say.
pub parse_lines-resume_args :
    (unix_milli : ℕ → ℕ) (codec : Codec) (lines : List (ℕ × Str)) (s : Session) (id prompt : Str)
    → (parse_lines unix_milli codec lines none).1 ≡ some id
    → contains_null prompt ≡ false
    → (resume_ids (parse_lines unix_milli codec lines none).0 ≡ id ∷ [])
      × ((args : List Str) × (resume_args (parse_lines unix_milli codec lines none).1 s prompt
            ≡ arguments args)
          × Resumes id (if is_empty prompt then [] else prompt ∷ []) args)
parse_lines-resume_args unix_milli codec lines s id prompt captured clean =
    let tells = parse_lines-tell unix_milli codec lines none in
    let session : All IsSession (ids (some id)) =
      subst (λ c. All IsSession (ids c)) captured (tells.1 tt) in
    let resumed = session-Resumes s id prompt session.0 clean in
    (
      tells.0 ∙ ap ids captured,
      (resumed.0, ap (λ c. resume_args c s prompt) captured ∙ resumed.1, resumed.2),
    )

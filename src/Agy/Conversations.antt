-- ===== src/Agy/Conversations.antt =====
-- Reading the session line that the shell wrapper of agy prints.
use agentrun.Prelude.{
  ℕ, ◌≡◌, refl, Str, bytes, str_eq, true, Option, some, [], ◌∷◌, ◌++◌, arith, append_assoc, ap, sym,
  starts_with, none,
}
use agentrun.Message.{message, init}
use agentrun.Scan.{parsed}
use agentrun.OptionValues.{trim_space}
use agentrun.OptionValues.Trims.{trim_space-braced}
use agentrun.Agy.{
  session_line, session_start, session_end, all_id_bytes, is_conversation_id, until_quote,
  session_match, by_match, parse_line,
}

until_quote-id :
    (id rest : Str) → all_id_bytes id ≡ true → until_quote (id ++ 34 ∷ rest) ≡ (id, 34 ∷ rest)
unfolding until_quote all_id_bytes
until_quote-id [] rest e = refl
until_quote-id (b ∷ id) rest e = ground (arith, until_quote-id id rest)

session_match-line :
    (id : Str)
    → all_id_bytes id ≡ true
    → session_match (session_start ++ id ++ session_end) ≡ some id
unfolding session_match starts_with str_eq
session_match-line id e = rw (until_quote-id id (bytes "}") e) refl

trim_space-line :
    (id : Str)
    → trim_space (session_start ++ id ++ session_end) ≡ session_start ++ id ++ session_end
trim_space-line id =
    let split : session_start ++ id ++ session_end
        ≡ 123 ∷ (bytes "\"type\":\"agy_session\",\"id\":\"" ++ id ++ 34 ∷ []) ++ 125 ∷ [] =
      ap (λ r. session_start ++ r) (sym (append_assoc id (34 ∷ []) (125 ∷ []))) in
    rw split (trim_space-braced (bytes "\"type\":\"agy_session\",\"id\":\"" ++ id ++ 34 ∷ []))

id_bytes : (id : Str) → is_conversation_id id ≡ true → all_id_bytes id ≡ true
unfolding is_conversation_id
id_bytes id e = ground arith

-- A session line that the wrapper prints with a conversation id becomes an init message that tells
-- exactly this id, and the backend keeps it unless it has kept one before, which stays.
pub parse_line-session :
    (now : ℕ) (id : Str) (captured : Option Str)
    → is_conversation_id id ≡ true
    → parse_line now (session_line id) captured ≡ (
      parsed (record (message init) { resume_id = id; timestamp = now }),
      some (elim captured [ none ↦ id | some old ↦ old ]),
    )
unfolding parse_line str_eq by_match session_line
parse_line-session now id none valid =
    rw (trim_space-line id, session_match-line id (id_bytes id valid), valid) refl
parse_line-session now id (some old) valid =
    rw (trim_space-line id, session_match-line id (id_bytes id valid), valid) refl

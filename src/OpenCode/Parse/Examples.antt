-- ===== src/OpenCode/Parse/Examples.antt =====
-- The theorem on captured session ids at three lines of a process, the first without a session id.
use agentrun.Prelude.{ℕ, ◌≡◌, refl, Str, bytes, none, some, List, [], ◌∷◌}
use agentrun.Session.{Session}
use agentrun.Json.{Codec, decoded, failed, string}
use agentrun.OpenCode.Args.{resume_args, arguments, is_session_id, all_alphanumeric}
use agentrun.OpenCode.Parse.{
  parse_lines, parse_line, by_decoding, parse_object, by_type, parse_step_start,
}
use agentrun.OpenCode.Args.Resumes.{Resumes}
use agentrun.OpenCode.Parse.Steps.{resume_ids, parse_lines-resume_args}

abbrev id : Str
id = bytes "ses_0123456789abcdefghij"

abbrev codec : Codec
codec = record {
  decode = λ line.
      decoded ((bytes "type", string (bytes "step_start")) ∷ (bytes "sessionID", string line) ∷ []);
  marshal = λ v. failed [];
}

abbrev lines : List (ℕ × Str)
lines = (1, bytes "odd") ∷ (2, id) ∷ (3, id) ∷ []

abbrev session : Session
session = record { id = []; cwd = []; model = bytes "gpt"; prompt = []; options = []; env = [] }

captured : (parse_lines (λ n. n) codec lines none).1 ≡ some id
unfolding parse_lines parse_line by_decoding parse_object by_type parse_step_start is_session_id
    all_alphanumeric agentrun.Blocks.is_blank agentrun.Json.get_string agentrun.Prelude.lookup
    agentrun.Prelude.str_eq agentrun.Prelude.starts_with
captured = refl

parse_lines-resume_args_example :
    (resume_ids (parse_lines (λ n. n) codec lines none).0 ≡ id ∷ [])
    × ((args : List Str) × (resume_args
            (parse_lines (λ n. n) codec lines none).1
            session
            (bytes "go on")
          ≡ arguments args)
        × Resumes id (bytes "go on" ∷ []) args)
unfolding agentrun.Json.contains_null agentrun.Prelude.contains_byte
parse_lines-resume_args_example =
    parse_lines-resume_args (λ n. n) codec lines session id (bytes "go on") captured refl

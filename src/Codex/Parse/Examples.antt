-- ===== src/Codex/Parse/Examples.antt =====
-- The theorem on thread ids at two lines of a process, the second of which starts a thread again.
use agentrun.Prelude.{ℕ, ◌≡◌, Str, bytes, none, List, [], ◌∷◌}
use agentrun.Json.{Codec, decoded, failed, string}
use agentrun.Codex.Parse.{parse_lines, thread_id}
use agentrun.Codex.Parse.Threads.{as_list, resume_ids, parse_lines-resume_ids}

abbrev uuid : Str
uuid = bytes "0195d2c8-63f5-7a03-9d1e-2f4b6a8c0e1f"

abbrev codec : Codec
codec = record {
  decode = λ line.
      decoded
        ((bytes "type", string (bytes "thread.started")) ∷ (bytes "thread_id", string line) ∷ []);
  marshal = λ v. failed [];
}

abbrev lines : List (ℕ × Str)
lines = (1, bytes "odd") ∷ (2, uuid) ∷ (3, uuid) ∷ []

parse_lines-resume_ids_example :
    resume_ids (parse_lines codec lines none).0
    ≡ as_list (thread_id (parse_lines codec lines none).1)
parse_lines-resume_ids_example = parse_lines-resume_ids codec lines

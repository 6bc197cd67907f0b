-- ===== src/Scan/ContextFill.antt =====
-- The context fill over a turn: the result reports the peak of the calls of its turn.
use agentrun.Prelude.{
  ℕ, ◌+◌, max, ◌≡◌, true, Option, none, some, List, [], ◌∷◌, arith, pos, pos_part, Bool, false,
  ◌++◌,
}
use agentrun.Message.{Message, Usage, is_result}
use agentrun.Scan.{Env, Scan, carry_stop_reason}
use agentrun.Scan.Enriched.{Enriched}

-- The input tokens of a call, with no bound; negative counts are taken as 0.
abbrev pub usage_sum : Option Usage → ℕ
usage_sum none = 0
usage_sum (some u) =
    pos_part u.input_tokens + pos_part u.cache_read_tokens + pos_part u.cache_write_tokens

abbrev pub call_sum : Message → ℕ
call_sum msg = usage_sum msg.usage

-- The largest call of some messages.
unfoldable pub peak : List Message → ℕ
peak [] = 0
peak (msg ∷ msgs) = max (call_sum msg) (peak msgs)

-- The messages from the last error of the backend on, behind those seen so far.
unfoldable pub since_error : List Message → List (Message × Bool) → List Message
since_error seen [] = seen
since_error seen ((msg, true) ∷ msgs) = since_error (msg ∷ []) msgs
since_error seen ((msg, false) ∷ msgs) = since_error (seen ++ msg ∷ []) msgs

usage_of_carried :
    (msg : Message) (s : Scan) → (carry_stop_reason msg s.last_stop_reason).0.usage ≡ msg.usage
unfolding carry_stop_reason
usage_of_carried msg s = ground arith

module _ (env : Env) (end : Message) (u : Usage) (h : is_result end.type ≡ true)
    (used : end.usage ≡ some u) (unset : u.context_used_tokens ≡ pos 0) where
  -- What the rest of a turn comes to, from the peak of what was seen so far.
  abbrev Peaks : List Message → Message × Scan → Type 0
  Peaks seen r =
      (r.0.usage ≡ some (record u { context_used_tokens = pos (peak seen) }))
      × (r.1.max_call_fill ≡ pos 0)

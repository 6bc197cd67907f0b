-- ===== src/Text.antt =====
-- The sanitizing of error texts, error codes and stop reasons: engine/internal/errfmt/errfmt.go and
-- engine/internal/stoputil/stoputil.go.
pub mod Utf8
pub mod Controls
mod Examples
use agentrun.Prelude.{
  ℕ, zero, suc, ◌==◌, ltb, leb, Str, Bool, true, false, ◌&&◌, ◌||◌, [], ◌∷◌, if◌then◌else◌, length,
  take,
}

abbrev max_len : ℕ
max_len = 4096

abbrev max_code_len : ℕ
max_code_len = 128

abbrev max_stop_reason_len : ℕ
max_stop_reason_len = 64

-- utf8.RuneStart: the byte is no continuation byte.
pub rune_start : ℕ → Bool
rune_start b = ltb b 128 || leb 192 b

-- utf8.RuneStart(s[n]). The source asks it only inside of s.
pub rune_start_at : Str → ℕ → Bool
unfolding rune_start
rune_start_at [] n = true
rune_start_at (b ∷ s) zero = rune_start b
rune_start_at (b ∷ s) (suc n) = rune_start_at s n

-- The loop that goes back from n to the start of a rune.
pub boundary : Str → ℕ → ℕ
unfolding rune_start_at
boundary s zero = zero
boundary s (suc n) = let rest = boundary s n in if rune_start_at s (suc n) then suc n else rest

-- truncateUTF8
pub truncate_utf8 : Str → ℕ → Str
unfolding boundary
truncate_utf8 s limit = if leb (length s) limit then s else take (boundary s limit) s

-- Truncate
pub truncate : Str → Str
unfolding truncate_utf8
truncate s = truncate_utf8 s max_len

-- The loop over the runes of a string that looks for a control character: an ASCII one, or a rune from
-- U+0080 to U+009F, whose bytes are 194 and one from 128 to 159. A byte below 128 and the byte 194
-- are never inside of a longer rune.
unfoldable pub has_control : Str → Bool
has_control [] = false
has_control (b ∷ []) = ltb b 32 || (b == 127)
has_control (b ∷ c ∷ s) =
    let rest = has_control (c ∷ s) in
    (ltb b 32 || (b == 127)) || (((b == 194) && (leb 128 c && ltb c 160)) || rest)

-- SanitizeCode
pub sanitize_code : Str → Str
unfolding has_control truncate_utf8
sanitize_code raw = if has_control raw then [] else truncate_utf8 raw max_code_len

-- Sanitize of stoputil, which has the loops of its own.
unfoldable pub sanitize_stop_reason : Str → Str
unfolding has_control boundary
sanitize_stop_reason raw =
    if has_control raw
    then []
    else if ltb max_stop_reason_len (length raw)
    then take (boundary raw max_stop_reason_len) raw
    else raw

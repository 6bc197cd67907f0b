-- ===== src/Text/Examples.antt =====
-- The theorems on errfmt.go and stoputil.go at concrete texts.
use agentrun.Prelude.{◌≤◌, ◌≡◌, refl, Str, false, List, [], ◌∷◌, length, All, bytes}
use agentrun.Text.{rune_start, truncate_utf8, has_control, sanitize_code, sanitize_stop_reason}
use agentrun.Text.Utf8.{IsRune, concat, fitting, truncate_utf8-fitting}
use agentrun.Text.Controls.{sanitize_clean}

-- The letter a, the two bytes of an e with an acute accent, and the three of the euro sign.
abbrev three_runes : List Str
three_runes = (97 ∷ []) ∷ (195 ∷ 169 ∷ []) ∷ (226 ∷ 130 ∷ 172 ∷ []) ∷ []

three_runes-IsRune : All IsRune three_runes
unfolding IsRune rune_start
three_runes-IsRune = ((refl, tt), ((refl, (refl, tt)), ((refl, (refl, (refl, tt))), tt)))

truncate_utf8-fitting_example :
    truncate_utf8 (concat three_runes) 5 ≡ concat (fitting 5 three_runes)
truncate_utf8-fitting_example = truncate_utf8-fitting three_runes 5 three_runes-IsRune

sanitize_clean_example :
    (has_control (sanitize_code (bytes "rate_limit")) ≡ false)
    × (length (sanitize_code (bytes "rate_limit")) ≤ 128)
    × (sanitize_code (sanitize_code (bytes "rate_limit")) ≡ sanitize_code (bytes "rate_limit"))
    × (has_control (sanitize_stop_reason (bytes "rate_limit")) ≡ false)
    × (length (sanitize_stop_reason (bytes "rate_limit")) ≤ 64)
    × (sanitize_stop_reason (sanitize_stop_reason (bytes "rate_limit"))
        ≡ sanitize_stop_reason (bytes "rate_limit"))
sanitize_clean_example = sanitize_clean (bytes "rate_limit")

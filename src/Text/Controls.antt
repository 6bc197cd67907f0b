-- ===== src/Text/Controls.antt =====
-- What a sanitized error code or stop reason looks like.
use agentrun.Prelude.{
  ℕ, zero, suc, ◌≤◌, ◌≡◌, refl, Str, false, [], ◌∷◌, arith, if◌then◌else◌, length, take,
  length-take, Bool-cases, inl, inr,
}
use agentrun.Text.{has_control, boundary, truncate_utf8, sanitize_code, sanitize_stop_reason}

has_control-take : (n : ℕ) (s : Str) → has_control s ≡ false → has_control (take n s) ≡ false
unfolding has_control
has_control-take zero s h = refl
has_control-take (suc n) [] h = refl
has_control-take (suc zero) (b ∷ []) h = h
has_control-take (suc (suc n)) (b ∷ []) h = h
has_control-take (suc zero) (b ∷ c ∷ s) h = ground arith
has_control-take (suc (suc n)) (b ∷ c ∷ s) h = ground (arith, has_control-take (suc n) (c ∷ s))

boundary_le : (s : Str) (n : ℕ) → boundary s n ≤ n
unfolding boundary
boundary_le s zero = omega arith
boundary_le s (suc n) = ground (arith, boundary_le s n)

truncate_utf8_le : (s : Str) (limit : ℕ) → length (truncate_utf8 s limit) ≤ limit
unfolding truncate_utf8
truncate_utf8_le s limit = ground (arith, length-take (boundary s limit) s, boundary_le s limit)

has_control-truncate_utf8 :
    (s : Str) (limit : ℕ) → has_control s ≡ false → has_control (truncate_utf8 s limit) ≡ false
unfolding truncate_utf8
has_control-truncate_utf8 s limit h = ground (arith, has_control-take (boundary s limit) s h)

-- What both sanitizers compute.
cut_clean : ℕ → Str → Str
cut_clean limit raw = if has_control raw then [] else truncate_utf8 raw limit

has_control-empty : has_control [] ≡ false
unfolding has_control
has_control-empty = refl

has_control-cut_clean : (limit : ℕ) (raw : Str) → has_control (cut_clean limit raw) ≡ false
unfolding cut_clean
has_control-cut_clean limit raw = elim (Bool-cases (has_control raw)) [
  | inl dirty ↦ rw dirty has_control-empty
  | inr clean ↦ rw clean (has_control-truncate_utf8 raw limit clean)
]

cut_clean_le : (limit : ℕ) (raw : Str) → length (cut_clean limit raw) ≤ limit
unfolding cut_clean
cut_clean_le limit raw = ground (arith, truncate_utf8_le raw limit)

-- A clean text within the limit is left as it is.
cut_clean_fixed :
    (limit : ℕ) (s : Str) → has_control s ≡ false → length s ≤ limit → cut_clean limit s ≡ s
unfolding cut_clean truncate_utf8
cut_clean_fixed limit s clean short = rw clean (ground arith)

cut_clean_idem :
    (limit : ℕ) (raw : Str) → cut_clean limit (cut_clean limit raw) ≡ cut_clean limit raw
cut_clean_idem limit raw =
    cut_clean_fixed limit (cut_clean limit raw) (has_control-cut_clean limit raw)
      (cut_clean_le limit raw)

code_lem : (raw : Str) → sanitize_code raw ≡ cut_clean 128 raw
unfolding sanitize_code cut_clean
code_lem raw = refl

-- The loops of stoputil do what those of errfmt do.
stop_reason_lem : (raw : Str) → sanitize_stop_reason raw ≡ cut_clean 64 raw
unfolding sanitize_stop_reason truncate_utf8 cut_clean
stop_reason_lem raw = ground arith

-- A sanitized error code or stop reason, of any bytes, has no control character, is of at most 128 or
-- 64 bytes, and is left as it is when it is sanitized again.
pub sanitize_clean :
    (raw : Str)
    → (has_control (sanitize_code raw) ≡ false)
      × (length (sanitize_code raw) ≤ 128)
      × (sanitize_code (sanitize_code raw) ≡ sanitize_code raw)
      × (has_control (sanitize_stop_reason raw) ≡ false)
      × (length (sanitize_stop_reason raw) ≤ 64)
      × (sanitize_stop_reason (sanitize_stop_reason raw) ≡ sanitize_stop_reason raw)
sanitize_clean raw =
    rw (code_lem raw, stop_reason_lem raw)
      (rw (code_lem (cut_clean 128 raw), stop_reason_lem (cut_clean 64 raw))
        (
          has_control-cut_clean 128 raw,
          cut_clean_le 128 raw,
          cut_clean_idem 128 raw,
          has_control-cut_clean 64 raw,
          cut_clean_le 64 raw,
          cut_clean_idem 64 raw,
        ))

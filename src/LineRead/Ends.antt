-- ===== src/LineRead/Ends.antt =====
-- ReadLine at the end of the stream.
use agentrun.Prelude.{
  ℕ, zero, suc, ◌+◌, ◌≤◌, ◌<◌, ◌≡◌, refl, ◌∙◌, ap, Str, true, false, Option, none, some, [], ◌∷◌,
  ◌++◌, arith, length, length-append, take, drop, take-append-drop, get_last?, append-nil, subst,
  sym, ℤ,
}
use native.Mathlib.Decide.{dec_lt}
use agentrun.LineRead.{
  Reader, buffer_full, read_slice, exceeds_max, newline, content_estimate, kept, is_last,
  finish_line, strip_newline, has_read, handle_eof_or_error, LineResult, line, eof, read_loop,
  read_line,
}
use agentrun.LineRead.Slices.{
  IsContent, read_slice-full, read_slice-ended, strip_cr, cut, IsContent-drop, kept-cut,
  read_line-of_loop,
}

finish_line-kept : (buf : Option Str) (c : Str) → finish_line buf c ≡ strip_newline (kept buf ++ c)
unfolding finish_line
finish_line-kept none c = refl
finish_line-kept (some buf) c = refl

fits-estimate :
    (limit : ℤ) (n m : ℕ) (fragment : Str)
    → n ≤ m
    → exceeds_max limit m ≡ false
    → exceeds_max limit (content_estimate n fragment) ≡ false
unfolding exceeds_max content_estimate
fits-estimate limit n m fragment le h = ground arith

read_slice-whole :
    (size : ℕ) (c : Str)
    → IsContent c
    → size ≤ length c
    → read_slice size c ≡ buffer_full (take size c) (drop size c)
read_slice-whole size c h le =
    rw (append-nil c, append-nil (drop size c)) at (read_slice-full size c [] h le)

module _ (lr : Reader) (roomy : 0 < lr.buf_size) (at_eof : lr.read_error ≡ none) where
  read_loop-last :
      (fuel : ℕ) (buf : Option Str) (c : Str)
      → IsContent c
      → length c < fuel
      → has_read buf c ≡ true
      → exceeds_max lr.max_line_size (length (kept buf ++ c)) ≡ false
      → read_loop fuel lr buf (length (kept buf)) c ≡ (line (strip_newline (kept buf ++ c)), [])
  unfolding read_loop handle_eof_or_error
  read_loop-last zero buf c h lt read ok = elim lt [ ]
  read_loop-last (suc fuel) buf c h lt read ok = elim (dec_lt (length c) lr.buf_size) [
    | yes fits ↦
        rw (read_slice-ended lr.buf_size c h fits, read_loop)
          (rw
            (
              fits-estimate lr.max_line_size (length (kept buf) + length c) _ c
                  (omega (arith, length-append (kept buf) c)) ok,
              at_eof,
            )
            (rw read (rw (finish_line-kept buf c))))
    | no longer ↦
        let (b, t, taken, whole, shorter) = cut lr.buf_size c roomy (omega arith) in
        let fewer : length (take lr.buf_size c) ≤ length c = omega (
          arith,
          ap length (take-append-drop lr.buf_size c),
          length-append (take lr.buf_size c) (drop lr.buf_size c),
        ) in
        rw (read_slice-whole lr.buf_size c h (omega arith), read_loop)
          (rw
            (
              fits-estimate lr.max_line_size (length (kept buf) + length (take lr.buf_size c)) _
                  (take lr.buf_size c) (omega (arith, length-append (kept buf) c)) ok,
              ← length-append (kept buf) (take lr.buf_size c),
              ← kept-cut lr.buf_size buf c,
            )
            (read_loop-last fuel (some (kept buf ++ take lr.buf_size c)) (drop lr.buf_size c)
              (IsContent-drop lr.buf_size c h) (omega arith) refl
              (rw (kept-cut lr.buf_size buf c) ok)))
  ]

pub strip_newline-content : (c : Str) → IsContent c → strip_newline c ≡ strip_cr c
unfolding strip_newline
strip_newline-content c h = rw (no_newline_last c h)
  where
    no_newline_last : (c : Str) → IsContent c → is_last newline (get_last? c) ≡ false
    no_newline_last [] h = refl
    no_newline_last (b ∷ []) h = h.0
    no_newline_last (b ∷ d ∷ c) h = no_newline_last (d ∷ c) h.1

read_line-empty :
    (lr : Reader) → 0 < lr.buf_size → lr.read_error ≡ none → lr.stream ≡ [] → (read_line lr).0 ≡ eof
unfolding read_loop handle_eof_or_error exceeds_max content_estimate
read_line-empty lr roomy at_eof s =
    ap (λ (p : LineResult × Reader). p.0)
      (read_line-of_loop lr [] [] eof s
        (rw (read_slice-ended lr.buf_size [] tt roomy, read_loop, at_eof) (ground arith)))

-- At the end of the stream, a last line with no newline is returned, without a carriage return at
-- its end, if all its bytes fit the limit; then, and on an empty stream, ReadLine returns io.EOF.
pub read_line-last :
    (lr : Reader) (b : ℕ) (c : Str)
    → 0 < lr.buf_size
    → lr.read_error ≡ none
    → IsContent (b ∷ c)
    → lr.stream ≡ b ∷ c
    → exceeds_max lr.max_line_size (length (b ∷ c)) ≡ false
    → (read_line lr ≡ (line (strip_cr (b ∷ c)), record lr { stream = [] }))
      × ((read_line (read_line lr).1).0 ≡ eof)
read_line-last lr b c roomy at_eof h s ok =
    let last = read_line-of_loop lr (b ∷ c) [] (line (strip_cr (b ∷ c))) s (
      read_loop-last lr roomy at_eof _ none (b ∷ c) h (omega (arith, ap length s)) refl ok
      ∙ ap (λ l. (line l, [])) (strip_newline-content (b ∷ c) h)) in
    (
      last,
      subst (λ (p : LineResult × Reader). (read_line p.1).0 ≡ eof) (sym last)
          (read_line-empty (record lr { stream = [] }) roomy at_eof refl),
    )

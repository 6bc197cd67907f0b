-- ===== src/LineRead/Lines.antt =====
-- ReadLine on a line that a newline ends: what it returns, and that the reader stands behind the
-- line afterwards, whatever the size of the buffer.
use agentrun.Prelude.{
  ℕ, zero, suc, ◌+◌, ◌-◌, ◌≤◌, ◌<◌, ◌≡◌, ap, Str, true, false, Option, none, some, ◌∷◌, ◌++◌, arith,
  length, length-append, take, drop, Bool-cases, inl, inr, ℤ,
}
use native.Mathlib.Decide.{dec_lt}
use agentrun.LineRead.{
  Reader, exceeds_max, newline, content_estimate, kept, discard_line, line, line_too_long,
  read_loop, read_line,
}
use agentrun.LineRead.Slices.{
  IsContent, read_slice-fits, read_slice-full, strip_cr, finish_line-line, measured_size, cut,
  IsContent-drop, estimate-take, kept-cut, read_line-of_loop,
}

exceeds_max_mono :
    (limit : ℤ) (n m : ℕ) → n ≤ m → exceeds_max limit n ≡ true → exceeds_max limit m ≡ true
unfolding exceeds_max
exceeds_max_mono limit n m le h = ground arith

exceeds_max_anti :
    (limit : ℤ) (n m : ℕ) → n ≤ m → exceeds_max limit m ≡ false → exceeds_max limit n ≡ false
unfolding exceeds_max
exceeds_max_anti limit n m le h = ground arith

module _ (lr : Reader) (roomy : 0 < lr.buf_size) (rest : Str) where
  -- The discarded rest of a line is the rest of the line.
  discard_line-line :
      (fuel : ℕ) (c : Str)
      → IsContent c
      → length c < fuel
      → discard_line fuel lr.buf_size (c ++ newline ∷ rest) ≡ rest
  unfolding discard_line
  discard_line-line zero c h lt = elim lt [ ]
  discard_line-line (suc fuel) c h lt = elim (dec_lt (length c) lr.buf_size) [
    | yes fits ↦ rw (read_slice-fits lr.buf_size c rest h fits, discard_line)
    | no longer ↦
        let (b, t, taken, whole, shorter) = cut lr.buf_size c roomy (omega arith) in
        rw (read_slice-full lr.buf_size c (newline ∷ rest) h (omega arith), discard_line)
          (discard_line-line fuel (drop lr.buf_size c) (IsContent-drop lr.buf_size c h)
            (omega arith))
  ]

  read_loop-accepts :
      (fuel : ℕ) (buf : Option Str) (c : Str)
      → IsContent c
      → length c < fuel
      → exceeds_max lr.max_line_size (length (strip_cr (kept buf ++ c))) ≡ false
      → read_loop fuel lr buf (length (kept buf)) (c ++ newline ∷ rest)
        ≡ (line (strip_cr (kept buf ++ c)), rest)
  unfolding read_loop
  read_loop-accepts zero buf c h lt ok = elim lt [ ]
  read_loop-accepts (suc fuel) buf c h lt ok = elim (dec_lt (length c) lr.buf_size) [
    | yes fits ↦
        rw (read_slice-fits lr.buf_size c rest h fits, read_loop)
          (rw (
            exceeds_max_anti lr.max_line_size _ _ (measured_size buf c).0 ok,
            finish_line-line buf c,
          ))
    | no longer ↦
        let (b, t, taken, whole, shorter) = cut lr.buf_size c roomy (omega arith) in
        rw (read_slice-full lr.buf_size c (newline ∷ rest) h (omega arith), read_loop)
          (rw
            (
              exceeds_max_anti lr.max_line_size _ _
                  (estimate-take lr.buf_size buf c roomy (omega arith)) ok,
              ← length-append (kept buf) (take lr.buf_size c),
              ← kept-cut lr.buf_size buf c,
            )
            (read_loop-accepts fuel (some (kept buf ++ take lr.buf_size c)) (drop lr.buf_size c)
              (IsContent-drop lr.buf_size c h) (omega arith) (rw (kept-cut lr.buf_size buf c) ok)))
  ]

  -- A content that passes the limit by more than one byte is refused.
  estimate : Option Str → Str → ℕ
  estimate buf c =
      content_estimate (length (kept buf) + length (take lr.buf_size c)) (take lr.buf_size c)

  read_loop-rejects :
      (fuel : ℕ) (buf : Option Str) (c : Str)
      → IsContent c
      → length c < fuel
      → exceeds_max lr.max_line_size (length (strip_cr (kept buf ++ c)) - 1) ≡ true
      → read_loop fuel lr buf (length (kept buf)) (c ++ newline ∷ rest) ≡ (line_too_long, rest)
  unfolding read_loop estimate
  read_loop-rejects zero buf c h lt big = elim lt [ ]
  read_loop-rejects (suc fuel) buf c h lt big = elim (dec_lt (length c) lr.buf_size) [
    | yes fits ↦
        rw (read_slice-fits lr.buf_size c rest h fits, read_loop)
          (rw (exceeds_max_mono lr.max_line_size _ _ (measured_size buf c).1 big))
    | no longer ↦
        let (b, t, taken, whole, shorter) = cut lr.buf_size c roomy (omega arith) in
        rw (read_slice-full lr.buf_size c (newline ∷ rest) h (omega arith), read_loop)
          (elim (Bool-cases (exceeds_max lr.max_line_size (estimate buf c))) [
            | inl over ↦ rw over (
                ap (λ w. (line_too_long, w))
                  (discard_line-line (suc fuel) (drop lr.buf_size c)
                    (IsContent-drop lr.buf_size c h) (omega arith)))
            | inr under ↦
                rw (under, ← length-append (kept buf) (take lr.buf_size c))
                  (read_loop-rejects fuel (some (kept buf ++ take lr.buf_size c))
                    (drop lr.buf_size c) (IsContent-drop lr.buf_size c h) (omega arith)
                    (rw (kept-cut lr.buf_size buf c) big))
          ])
  ]

enough :
    (lr : Reader) (c rest : Str)
    → lr.stream ≡ c ++ newline ∷ rest
    → length c < suc (length lr.stream)
enough lr c rest s = omega (arith, ap length s, length-append c (newline ∷ rest))

-- A line that a newline ends is returned without its line ending, and the reader stands behind it,
-- if its content fits the limit, whatever the size of the buffer.
pub read_line-accepts :
    (lr : Reader) (c rest : Str)
    → 0 < lr.buf_size
    → IsContent c
    → lr.stream ≡ c ++ newline ∷ rest
    → exceeds_max lr.max_line_size (length (strip_cr c)) ≡ false
    → read_line lr ≡ (line (strip_cr c), record lr { stream = rest })
read_line-accepts lr c rest roomy h s ok =
    read_line-of_loop lr _ rest (line (strip_cr c)) s
      (read_loop-accepts lr roomy rest _ none c h (enough lr c rest s) ok)

-- A line that a newline ends and whose content passes the limit by more than one byte is refused,
-- and the reader stands behind it too, so that the next line is read from its start.
pub read_line-rejects :
    (lr : Reader) (c rest : Str)
    → 0 < lr.buf_size
    → IsContent c
    → lr.stream ≡ c ++ newline ∷ rest
    → exceeds_max lr.max_line_size (length (strip_cr c) - 1) ≡ true
    → read_line lr ≡ (line_too_long, record lr { stream = rest })
read_line-rejects lr c rest roomy h s big =
    read_line-of_loop lr _ rest line_too_long s
      (read_loop-rejects lr roomy rest _ none c h (enough lr c rest s) big)

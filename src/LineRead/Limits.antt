-- ===== src/LineRead/Limits.antt =====
-- Two places where the limit of ReadLine depends on where a buffer ends.
use agentrun.Prelude.{
  ℕ, zero, suc, ◌+◌, ◌-◌, ◌<◌, ◌≡◌, refl, ◌∙◌, ap, Str, true, false, none, some, [], ◌∷◌, ◌++◌,
  arith, length, length-append, take, drop, get_last?, get_last?-append, drop_last-append,
  get_last?-append_nonempty, append_assoc, append-nil, pos, pos_part,
}
use agentrun.LineRead.{
  Reader, buffer_full, read_slice, exceeds_max, newline, carriage_return, newline_overhead,
  content_estimate, is_last, has_read, handle_eof_or_error, LineResult, line, line_too_long,
  read_loop, read_line,
}
use agentrun.LineRead.Slices.{
  IsContent, read_slice-full, read_slice-ended, strip_cr, read_line-of_loop, read_slice-fits,
  finish_line-line,
}
use agentrun.LineRead.Ends.{strip_newline-content}

IsContent-append : (a t : Str) → IsContent (a ++ t) → IsContent a × IsContent t
IsContent-append [] t h = (tt, h)
IsContent-append (b ∷ a) t h = let (ha, ht) = IsContent-append a t h.1 in ((h.0, ha), ht)

take-all : (n : ℕ) (a : Str) → length a ≡ n → (take n a ≡ a) × (drop n a ≡ [])
take-all zero [] e = (refl, refl)
take-all zero (b ∷ a) e = absurd (omega (arith, e))
take-all (suc n) [] e = (refl, refl)
take-all (suc n) (b ∷ a) e = let (t, d) = take-all n a (omega (arith, e)) in (ap (λ l. b ∷ l) t, d)

-- A fragment that fills the buffer.
read_slice-exact :
    (size : ℕ) (a t : Str)
    → IsContent a
    → length a ≡ size
    → read_slice size (a ++ t) ≡ buffer_full a t
read_slice-exact size a t h e =
    rw ((take-all size a e).0, (take-all size a e).1) at (read_slice-full size a t h (omega arith))

module _ (lr : Reader) (a : Str) (b : ℕ) (d rest : Str)
    (cr : is_last carriage_return (get_last? a) ≡ true)
    (not_cr : is_last carriage_return (get_last? (b ∷ d)) ≡ false)
    (limit : suc (pos_part lr.max_line_size) ≡ length (a ++ b ∷ d)) where
  -- Neither test sees the line as too long.
  overlong_estimate : exceeds_max lr.max_line_size (content_estimate (0 + length a) a) ≡ false
  unfolding exceeds_max content_estimate
  overlong_estimate = ground (arith, length-append a (b ∷ d))

  overlong_measure :
      exceeds_max lr.max_line_size (
        0
        + length a
        + length (b ∷ d ++ newline ∷ [])
        - newline_overhead (some a) (b ∷ d ++ newline ∷ []))
      ≡ false
  unfolding exceeds_max newline_overhead
  overlong_measure =
      rw (get_last?-append (b ∷ d) newline, drop_last-append (b ∷ d) newline)
        (ground (arith, length-append a (b ∷ d), length-append (b ∷ d) (newline ∷ [])))

  overlong_line : strip_cr (a ++ b ∷ d) ≡ a ++ b ∷ d
  overlong_line = rw (get_last?-append_nonempty a b d, not_cr)

  overlong_loop :
      (fuel : ℕ)
      → IsContent a
      → IsContent (b ∷ d)
      → length a ≡ lr.buf_size
      → length (b ∷ d) < lr.buf_size
      → read_loop (suc (suc fuel)) lr none 0 (a ++ (b ∷ d ++ newline ∷ rest))
        ≡ (line (a ++ b ∷ d), rest)
  unfolding read_loop
  overlong_loop fuel ha hd full fits =
      rw (read_slice-exact lr.buf_size a (b ∷ d ++ newline ∷ rest) ha full, read_loop)
        (rw overlong_estimate (
          rw (read_slice-fits lr.buf_size (b ∷ d) rest hd fits, read_loop)
            (rw overlong_measure
              (ap (λ l. (line l, rest)) (finish_line-line (some a) (b ∷ d) ∙ overlong_line)))))

-- The limit can be passed by one byte: a line whose first fragment fills the buffer and ends in a
-- carriage return, and whose rest fits the buffer and does not, is returned although it is one byte
-- longer than the limit.
pub read_line-overlong :
    (lr : Reader) (a : Str) (b : ℕ) (d rest : Str)
    → IsContent (a ++ b ∷ d)
    → length a ≡ lr.buf_size
    → is_last carriage_return (get_last? a) ≡ true
    → is_last carriage_return (get_last? (b ∷ d)) ≡ false
    → length (b ∷ d) < lr.buf_size
    → lr.stream ≡ (a ++ b ∷ d) ++ newline ∷ rest
    → suc (pos_part lr.max_line_size) ≡ length (a ++ b ∷ d)
    → (read_line lr).0 ≡ line (a ++ b ∷ d)
read_line-overlong lr a b d rest h full cr not_cr fits s limit =
    let (ha, hd) = IsContent-append a (b ∷ d) h in
    let whole : lr.stream ≡ a ++ (b ∷ d ++ newline ∷ rest) =
      s ∙ append_assoc a (b ∷ d) (newline ∷ rest) in
    let fuel : suc (length lr.stream) ≡ suc (suc (length lr.stream - 1)) =
      omega (arith, ap length whole, length-append a (b ∷ d ++ newline ∷ rest)) in
    ap (λ (p : LineResult × Reader). p.0)
      (read_line-of_loop lr (a ++ (b ∷ d ++ newline ∷ rest)) rest (line (a ++ b ∷ d)) whole (
        ap (λ n. read_loop n lr none 0 (a ++ (b ∷ d ++ newline ∷ rest))) fuel
        ∙ overlong_loop lr a b d rest cr not_cr limit (length lr.stream - 1) ha hd full fits))

abbrev pub reader_of : ℕ → ℕ → Str → Reader
reader_of size limit stream = record {
  buf_size = size;
  max_line_size = pos limit;
  stream = stream;
  read_error = none;
}

module _ (stream : Str) where
  fits_without_cr :
      (limit : ℕ)
      → is_last carriage_return (get_last? stream) ≡ true
      → length stream ≡ suc limit
      → exceeds_max (pos limit) (content_estimate (0 + length stream) stream) ≡ false
  unfolding exceeds_max content_estimate
  fits_without_cr limit cr long = ground arith

  too_long_with_cr :
      (limit : ℕ)
      → length stream ≡ suc limit
      → 0 < limit
      → exceeds_max (pos limit) (content_estimate (0 + length stream + 0) []) ≡ true
  unfolding exceeds_max content_estimate
  too_long_with_cr limit long p = ground arith

  fills :
      (limit : ℕ)
      → IsContent stream
      → length stream ≡ suc limit
      → read_slice (suc limit) stream ≡ buffer_full stream []
  fills limit h long = rw append-nil at (read_slice-exact (suc limit) stream [] h long)

  refused :
      (limit : ℕ)
      → IsContent stream
      → is_last carriage_return (get_last? stream) ≡ true
      → length stream ≡ suc limit
      → 0 < limit
      → read_loop (suc (suc limit)) (reader_of (suc limit) limit stream) none 0 stream
        ≡ (line_too_long, [])
  unfolding read_loop read_slice
  refused limit h cr long p =
      rw (fills limit h long, read_loop)
        (rw (fits_without_cr limit cr long) (rw (too_long_with_cr limit long p)))

  accepted :
      (size limit fuel : ℕ)
      → IsContent stream
      → is_last carriage_return (get_last? stream) ≡ true
      → length stream ≡ suc limit
      → 0 < limit
      → suc limit < size
      → read_loop (suc fuel) (reader_of size limit stream) none 0 stream
        ≡ (line (strip_cr stream), [])
  unfolding read_loop handle_eof_or_error
  accepted size limit fuel h cr long p lt =
      rw (read_slice-ended size stream h (omega arith), read_loop)
        (rw (fits_without_cr limit cr long, strip_newline-content stream h, nonempty) refl)
    where
      nonempty : has_read none stream ≡ true
      nonempty = ground arith

-- A last line can be refused for its carriage return: with a buffer that the line fills, it is too
-- long; with a larger buffer the same stream gives the line.
pub read_line-buffer_dependent :
    (stream : Str) (size limit : ℕ)
    → IsContent stream
    → is_last carriage_return (get_last? stream) ≡ true
    → length stream ≡ suc limit
    → 0 < limit
    → suc limit < size
    → ((read_line (reader_of (suc limit) limit stream)).0 ≡ line_too_long)
      × ((read_line (reader_of size limit stream)).0 ≡ line (strip_cr stream))
read_line-buffer_dependent stream size limit h cr long p lt = (
  ap (λ (p : LineResult × Reader). p.0)
      (read_line-of_loop (reader_of (suc limit) limit stream) stream [] line_too_long refl (
        ap (λ n. read_loop (suc n) (reader_of (suc limit) limit stream) none 0 stream) long
        ∙ refused stream limit h cr long p)),
  ap (λ (p : LineResult × Reader). p.0)
      (read_line-of_loop (reader_of size limit stream) stream [] (line (strip_cr stream)) refl
        (accepted stream size limit (length stream) h cr long p lt)),
)

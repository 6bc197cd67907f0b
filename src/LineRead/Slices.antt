-- ===== src/LineRead/Slices.antt =====
-- ReadSlice on a line that fits the buffer, on one that does not, and at the end of the stream; and
-- the bookkeeping of the line ending across two fragments.
use agentrun.Prelude.{
  ℕ, zero, suc, ◌+◌, ◌-◌, ◌≤◌, ◌<◌, ◌≡◌, refl, ap, Str, false, Option, none, some, [], ◌∷◌, ◌++◌,
  arith, if◌then◌else◌, ◌==◌, length, length-append, take, drop, get_last?, All, get_last?-append,
  drop_last-append, get_last?-append_nonempty, length-drop_last, append_assoc, append-nil,
  take-append-drop, length-take, subst, sym,
}
use agentrun.LineRead.{
  Reader, LineResult, read_loop, read_line, delimited, buffer_full, ended, read_slice, is_last,
  strip_last, strip_newline, newline, carriage_return, newline_overhead, content_estimate,
  finish_line, kept,
}

-- No newline among the bytes.
abbrev pub IsContent : Str → Type 0
IsContent = All (λ b. (b == newline) ≡ false)

pub read_slice-fits :
    (size : ℕ) (c rest : Str)
    → IsContent c
    → length c < size
    → read_slice size (c ++ newline ∷ rest) ≡ delimited (c ++ newline ∷ []) rest
unfolding read_slice
read_slice-fits zero c rest h lt = elim lt [ ]
read_slice-fits (suc n) [] rest h lt = refl
read_slice-fits (suc n) (b ∷ c) rest h lt = rw (h.0, read_slice-fits n c rest h.1 (omega arith))

pub read_slice-full :
    (size : ℕ) (c t : Str)
    → IsContent c
    → size ≤ length c
    → read_slice size (c ++ t) ≡ buffer_full (take size c) (drop size c ++ t)
unfolding read_slice
read_slice-full zero c t h le = refl
read_slice-full (suc n) [] t h le = absurd (omega arith)
read_slice-full (suc n) (b ∷ c) t h le = rw (h.0, read_slice-full n c t h.1 (omega arith))

pub read_slice-ended :
    (size : ℕ) (c : Str) → IsContent c → length c < size → read_slice size c ≡ ended c
unfolding read_slice
read_slice-ended zero c h lt = elim lt [ ]
read_slice-ended (suc n) [] h lt = refl
read_slice-ended (suc n) (b ∷ c) h lt = rw (h.0, read_slice-ended n c h.1 (omega arith))

-- The content of a line: without a carriage return at its end.
abbrev pub strip_cr : Str → Str
strip_cr = strip_last carriage_return

pub strip_newline-line : (c : Str) → strip_newline (c ++ newline ∷ []) ≡ strip_cr c
unfolding strip_newline
strip_newline-line c = rw (get_last?-append c newline, drop_last-append c newline)

pub length-strip_cr :
    (c : Str)
    → length c ≡ (
        if is_last carriage_return (get_last? c)
        then suc (length (strip_cr c))
        else length (strip_cr c))
length-strip_cr [] = refl
length-strip_cr (b ∷ c) = ground (arith, length-drop_last b c)

pub finish_line-line :
    (buf : Option Str) (c : Str) → finish_line buf (c ++ newline ∷ []) ≡ strip_cr (kept buf ++ c)
unfolding finish_line
finish_line-line none c = strip_newline-line c
finish_line-line (some buf) c =
    rw (← append_assoc buf c (newline ∷ [])) (strip_newline-line (buf ++ c))

-- The size that ReadLine tests for a line of content `c` behind the kept buffer is the size of its
-- content, or one less.
pub measured_size :
    (buf : Option Str) (c : Str)
    → let size =
        length (kept buf) + length (c ++ newline ∷ []) - newline_overhead buf (c ++ newline ∷ []) in
      (size ≤ length (strip_cr (kept buf ++ c))) × (length (strip_cr (kept buf ++ c)) - 1 ≤ size)
unfolding newline_overhead
measured_size buf [] = ground (arith, length-strip_cr (kept buf), append-nil (kept buf))
measured_size buf (b ∷ c) =
    rw (get_last?-append (b ∷ c) newline, drop_last-append (b ∷ c) newline)
      (ground (
        arith,
        length-strip_cr (kept buf ++ b ∷ c),
        get_last?-append_nonempty (kept buf) b c,
        length-append (kept buf) (b ∷ c),
        length-append (b ∷ c) (newline ∷ []),
      ))

-- What is tested in the middle of a line is no more than the size of its content.
pub estimate-le :
    (buf : Option Str) (b : ℕ) (t d : Str)
    → content_estimate (length (kept buf) + length (b ∷ t)) (b ∷ t)
      ≤ length (strip_cr (kept buf ++ (b ∷ t ++ d)))
unfolding content_estimate
estimate-le buf b t [] = rw append-nil (
    ground (
      arith,
      length-strip_cr (kept buf ++ b ∷ t),
      get_last?-append_nonempty (kept buf) b t,
      length-append (kept buf) (b ∷ t),
    ))
estimate-le buf b t (x ∷ d) = ground (
  arith,
  length-strip_cr (kept buf ++ (b ∷ t ++ x ∷ d)),
  length-append (kept buf) (b ∷ t ++ x ∷ d),
  length-append (b ∷ t) (x ∷ d),
)

-- A list that is long enough, cut after a positive number of bytes.
pub cut :
    (size : ℕ) (c : Str)
    → 0 < size
    → size ≤ length c
    → (b : ℕ) × (t : Str) × (take size c ≡ b ∷ t)
      × (b ∷ t ++ drop size c ≡ c)
      × (length (drop size c) + size ≡ length c)
cut zero c p le = elim p [ ]
cut (suc n) [] p le = elim le [ ]
cut (suc n) (b ∷ c) p le = (
  b,
  take n c,
  refl,
  ap (λ l. b ∷ l) (take-append-drop n c),
  omega (
    arith,
    ap length (take-append-drop n c),
    length-append (take n c) (drop n c),
    length-take n c,
  ),
)

pub IsContent-drop : (size : ℕ) (c : Str) → IsContent c → IsContent (drop size c)
IsContent-drop zero c h = h
IsContent-drop (suc n) [] h = h
IsContent-drop (suc n) (b ∷ c) h = IsContent-drop n c h.1

pub estimate-take :
    (size : ℕ) (buf : Option Str) (c : Str)
    → 0 < size
    → size ≤ length c
    → content_estimate (length (kept buf) + length (take size c)) (take size c)
      ≤ length (strip_cr (kept buf ++ c))
estimate-take size buf c p le =
    let (b, t, taken, whole, shorter) = cut size c p le in
    subst
      (λ w.
        content_estimate (length (kept buf) + length (take size c)) (take size c)
        ≤ length (strip_cr (kept buf ++ w)))
      whole
      (subst
        (λ w.
          content_estimate (length (kept buf) + length w) w
          ≤ length (strip_cr (kept buf ++ (b ∷ t ++ drop size c))))
        (sym taken) (estimate-le buf b t (drop size c)))

pub kept-cut :
    (size : ℕ) (buf : Option Str) (c : Str)
    → (kept buf ++ take size c) ++ drop size c ≡ kept buf ++ c
kept-cut size buf c = rw (append_assoc, take-append-drop)

-- ReadLine is its loop on the stream.
pub read_line-of_loop :
    (lr : Reader) (stream rest : Str) (r : LineResult)
    → lr.stream ≡ stream
    → read_loop (suc (length lr.stream)) lr none 0 stream ≡ (r, rest)
    → read_line lr ≡ (r, record lr { stream = rest })
unfolding read_line
read_line-of_loop lr stream rest r s e =
    ap (λ (p : LineResult × Str). (p.0, record lr { stream = p.1 }))
      (subst (λ w. read_loop (suc (length lr.stream)) lr none 0 w ≡ (r, rest)) (sym s) e)

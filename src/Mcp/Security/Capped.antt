-- ===== src/Mcp/Security/Capped.antt =====
-- What the capped writer holds.
use agentrun.Prelude.{
  ℕ, zero, suc, ◌-◌, ◌≤◌, ◌≡◌, refl, leb, ltb, Str, List, [], ◌∷◌, ◌++◌, map, if◌then◌else◌, length,
  take, min, length-take, arith, append_assoc, append-nil, sym, ap, ◌∙◌, if_cases,
}
use agentrun.Mcp.Security.{CappedWriter, write, reset, write_all}

abbrev pub concat : List Str → Str
concat [] = []
concat (p ∷ ps) = p ++ concat ps

take-short : (n : ℕ) (s : Str) → length s ≤ n → take n s ≡ s
take-short zero [] le = refl
take-short zero (b ∷ s) le = absurd (omega (arith, le))
take-short (suc n) [] le = refl
take-short (suc n) (b ∷ s) le = ap (λ r. b ∷ r) (take-short n s (omega (arith, le)))

take-append : (n : ℕ) (s t : Str) → take n (s ++ t) ≡ take n s ++ take (n - length s) t
take-append zero s t =
    let none_left : 0 ≡ 0 - length s = omega arith in ap (λ m. take m t) none_left
take-append (suc n) [] t = let all : suc n ≡ suc n - 0 = omega arith in ap (λ m. take m t) all
take-append (suc n) (b ∷ s) t =
    let left : n - length s ≡ suc n - suc (length s) = omega arith in
    ap (λ r. b ∷ r) (take-append n s t ∙ ap (λ m. take n s ++ take m t) left)

take-fits : (n : ℕ) (p : Str) → (if ltb n (length p) then take n p else p) ≡ take n p
take-fits n p =
    if_cases (λ r. r ≡ take n p) (ltb n (length p)) (λ long. refl)
      (λ fits. sym (take-short n p (ground arith)))

abbrev nothing : Str
nothing = []

take-nothing : (n : ℕ) → nothing ≡ take n nothing
take-nothing zero = refl
take-nothing (suc n) = refl

-- What the writer holds is the text from the first byte on, cut at its limit.
write-take :
    (s p : Str) (w : CappedWriter)
    → w.buf ≡ take w.max_bytes s
    → ((write p w).1.buf ≡ take w.max_bytes (s ++ p)) × ((write p w).1.max_bytes ≡ w.max_bytes)
unfolding write
write-take s p w h =
    let n = w.max_bytes in
    let held : length w.buf ≡ min n (length s) = ap length h ∙ length-take n s in
    let P : ℕ × CappedWriter → Type 0 = λ r. (r.1.buf ≡ take n (s ++ p)) × (r.1.max_bytes ≡ n) in
    if_cases P (leb n (length w.buf))
      (λ full.
        let none_left : n - length s ≡ 0 = ground arith in
        (
          h
              ∙ sym (append-nil (take n s))
              ∙ ap (λ m. take n s ++ take m p) (sym none_left)
              ∙ sym (take-append n s p),
          refl,
        ))
      (λ room.
        let same : length w.buf ≡ length s = ground arith in
        (
          ap (λ r. w.buf ++ r) (take-fits (n - length w.buf) p)
              ∙ ap (λ m. w.buf ++ take (n - m) p) same
              ∙ ap (λ r. r ++ take (n - length s) p) h
              ∙ sym (take-append n s p),
          refl,
        ))

write_all-take_from :
    (s : Str) (ps : List Str) (w : CappedWriter)
    → w.buf ≡ take w.max_bytes s
    → (write_all ps w).1.buf ≡ take w.max_bytes (s ++ concat ps)
unfolding write_all
write_all-take_from s [] w h = h ∙ ap (take w.max_bytes) (sym (append-nil s))
write_all-take_from s (p ∷ ps) w h =
    let first = write-take s p w h in
    let w' = (write p w).1 in
    write_all-take_from (s ++ p) ps w' (first.0 ∙ ap (λ m. take m (s ++ p)) (sym first.1))
    ∙ ap (λ m. take m ((s ++ p) ++ concat ps)) first.1
    ∙ ap (take w.max_bytes) (append_assoc s p (concat ps))

write_all-counts : (ps : List Str) (w : CappedWriter) → (write_all ps w).0 ≡ map length ps
unfolding write_all write
write_all-counts [] w = refl
write_all-counts (p ∷ ps) w = let rest = write_all-counts ps (write p w).1 in ground arith

-- After a reset, any writes leave in the buffer all that was written, from the first byte on, cut at the
-- limit, and each of them reports all of its bytes as written.
pub write_all-take :
    (ps : List Str) (w : CappedWriter)
    → ((write_all ps (reset w)).1.buf ≡ take w.max_bytes (concat ps))
      × ((write_all ps (reset w)).0 ≡ map length ps)
unfolding reset
write_all-take ps w =
    (write_all-take_from [] ps (reset w) (take-nothing w.max_bytes), write_all-counts ps (reset w))

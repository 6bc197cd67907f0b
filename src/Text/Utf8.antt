-- ===== src/Text/Utf8.antt =====
-- Truncation keeps whole runes.
use agentrun.Prelude.{
  ℕ, zero, suc, ◌+◌, ◌-◌, ◌≤◌, ◌<◌, leb, ◌≡◌, refl, Str, true, false, List, [], ◌∷◌, ◌++◌, arith,
  if◌then◌else◌, length, take, All, ap, length-append, Bool-cases, inl, inr, ◌∙◌, sym,
}
use agentrun.Text.{rune_start, rune_start_at, boundary, truncate_utf8}

-- The bytes of one rune: the first starts a rune, and the others do not.
unfoldable pub IsRune : Str → Type 0
IsRune [] = ⊥
IsRune (b ∷ rest) = (rune_start b ≡ true) × All (λ c. rune_start c ≡ false) rest

-- The bytes of a text that is given by its runes.
pub concat : List Str → Str
concat [] = []
concat (r ∷ runes) = r ++ concat runes

-- The runes from the first on whose bytes fit a limit.
pub fitting : ℕ → List Str → List Str
fitting limit [] = []
fitting limit (r ∷ runes) =
    let rest = fitting (limit - length r) runes in if leb (length r) limit then r ∷ rest else []

rune_start_at-append :
    (r s : Str) (n m : ℕ) → m ≡ length r + n → rune_start_at (r ++ s) m ≡ rune_start_at s n
unfolding rune_start_at
rune_start_at-append [] s n m e = ap (rune_start_at s) (omega arith)
rune_start_at-append (b ∷ r) s n zero e = absurd (omega arith)
rune_start_at-append (b ∷ r) s n (suc m) e = rune_start_at-append r s n m (omega arith)

boundary-start : (s : Str) (n : ℕ) → rune_start_at s n ≡ true → boundary s n ≡ n
unfolding boundary
boundary-start s zero h = refl
boundary-start s (suc n) h = rw h refl

-- Behind a whole rune, the loop does not go back into it.
boundary-append :
    (r s : Str) (n m : ℕ)
    → rune_start_at s 0 ≡ true
    → m ≡ length r + n
    → boundary (r ++ s) m ≡ length r + boundary s n
unfolding boundary
boundary-append r s zero m h e = boundary-start (r ++ s) m (rune_start_at-append r s 0 m e ∙ h) ∙ e
boundary-append r s (suc n) zero h e = absurd (omega arith)
boundary-append r s (suc n) (suc m) h e =
    ground
      (arith, rune_start_at-append r s (suc n) (suc m) e, boundary-append r s n m h (omega arith))

inside_rune :
    (conts s : Str) (n : ℕ)
    → All (λ c. rune_start c ≡ false) conts
    → n < length conts
    → rune_start_at (conts ++ s) n ≡ false
unfolding rune_start_at
inside_rune [] s n h lt = absurd (omega arith)
inside_rune (c ∷ conts) s zero h lt = h.0
inside_rune (c ∷ conts) s (suc n) h lt = inside_rune conts s n h.1 (omega arith)

-- Inside of the first rune, the loop goes back to its start.
boundary-inside :
    (b : ℕ) (conts s : Str) (n : ℕ)
    → All (λ c. rune_start c ≡ false) conts
    → n ≤ length conts
    → boundary (b ∷ conts ++ s) n ≡ 0
unfolding boundary rune_start_at
boundary-inside b conts s zero h le = refl
boundary-inside b conts s (suc n) h le =
    rw (inside_rune conts s n h (omega arith)) (boundary-inside b conts s n h (omega arith))

-- A text of whole runes starts with one, unless it is empty.
start-concat : (runes : List Str) → All IsRune runes → rune_start_at (concat runes) 0 ≡ true
unfolding rune_start_at concat IsRune
start-concat [] h = refl
start-concat ([] ∷ runes) h = absurd h.0
start-concat ((b ∷ r) ∷ runes) h = h.0.0

-- The boundary is the length of the runes that fit.
boundary-fitting :
    (runes : List Str) (limit : ℕ)
    → All IsRune runes
    → limit < length (concat runes)
    → boundary (concat runes) limit ≡ length (concat (fitting limit runes))
unfolding concat fitting IsRune
boundary-fitting [] limit h lt = absurd (omega arith)
boundary-fitting ([] ∷ runes) limit h lt = absurd h.0
boundary-fitting ((b ∷ r) ∷ runes) limit h lt = elim (Bool-cases (leb (length (b ∷ r)) limit)) [
  | inl whole ↦
      rw (whole, fitting)
        (boundary-append (b ∷ r) (concat runes) (limit - length (b ∷ r)) limit
            (start-concat runes h.1) (ground arith)
          ∙ ap (λ n. length (b ∷ r) + n)
              (boundary-fitting runes (limit - length (b ∷ r)) h.1
                (ground (arith, length-append (b ∷ r) (concat runes))))
          ∙ sym (length-append (b ∷ r) (concat (fitting (limit - length (b ∷ r)) runes))))
  | inr cut ↦ rw (cut, fitting) (boundary-inside b r (concat runes) limit h.0.1 (ground arith))
]

take-append : (r f c : Str) → take (length (r ++ f)) (r ++ c) ≡ r ++ take (length f) c
take-append [] f c = refl
take-append (b ∷ r) f c = ap (λ l. b ∷ l) (take-append r f c)

take-fitting :
    (runes : List Str) (limit : ℕ)
    → take (length (concat (fitting limit runes))) (concat runes) ≡ concat (fitting limit runes)
unfolding concat fitting
take-fitting [] limit = refl
take-fitting (r ∷ runes) limit = elim (Bool-cases (leb (length r) limit)) [
  | inl whole ↦
      let rest = fitting (limit - length r) runes in
      rw (whole, fitting)
        (take-append r (concat rest) (concat runes)
          ∙ ap (λ l. r ++ l) (take-fitting runes (limit - length r)))
  | inr cut ↦ rw (cut, fitting) refl
]

-- A text that fits is kept.
concat-fitting :
    (runes : List Str) (limit : ℕ)
    → length (concat runes) ≤ limit
    → concat (fitting limit runes) ≡ concat runes
unfolding concat fitting
concat-fitting [] limit le = refl
concat-fitting (r ∷ runes) limit le =
    let total = length-append r (concat runes) in
    ground (arith, total, concat-fitting runes (limit - length r))

-- A text that is made of whole runes is truncated to the whole runes, from the first on, whose bytes
-- fit the limit: no rune is split, and nothing of a text that fits is lost.
pub truncate_utf8-fitting :
    (runes : List Str) (limit : ℕ)
    → All IsRune runes
    → truncate_utf8 (concat runes) limit ≡ concat (fitting limit runes)
unfolding truncate_utf8
truncate_utf8-fitting runes limit h = elim (Bool-cases (leb (length (concat runes)) limit)) [
  | inl short ↦ rw short (sym (concat-fitting runes limit (ground arith)))
  | inr long ↦ rw (long, boundary-fitting runes limit h (ground arith)) (take-fitting runes limit)
]

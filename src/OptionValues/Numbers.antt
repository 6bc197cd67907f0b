-- ===== src/OptionValues/Numbers.antt =====
-- Numbers that a positive integer option gives, and the text of a number.
use agentrun.Prelude.{
  ℕ, zero, suc, ◌+◌, ◌/◌, ◌%◌, ◌≡◌, refl, ltb, leb, Str, Bool, true, false, not, ◌&&◌, [], ◌∷◌,
  if◌then◌else◌, contains_byte, arith, pos, All, All-append, if_intro,
}
use agentrun.Json.{digits, itoa}
use agentrun.OptionValues.{starts_with_dash}

abbrev is_digit : ℕ → Bool
is_digit b = leb 48 b && leb b 57

digits-is_digit : (fuel n : ℕ) → All (λ b. is_digit b ≡ true) (digits fuel n)
unfolding digits
digits-is_digit zero n = tt
digits-is_digit (suc fuel) n =
    All-append (λ b. is_digit b ≡ true) (if ltb n 10 then [] else digits fuel (n / 10))
      ((48 + n % 10) ∷ [])
      (if_intro (All (λ b. is_digit b ≡ true)) (ltb n 10) tt (digits-is_digit fuel (n / 10)))
      (ground arith, tt)

is_digit-no_null : (s : Str) → All (λ b. is_digit b ≡ true) s → contains_byte s 0 ≡ false
unfolding contains_byte
is_digit-no_null [] h = refl
is_digit-no_null (b ∷ s) h = let rest = is_digit-no_null s h.1 in let first = h.0 in ground arith

is_digit-dashless : (s : Str) → All (λ b. is_digit b ≡ true) s → starts_with_dash s ≡ false
unfolding starts_with_dash
is_digit-dashless [] h = refl
is_digit-dashless (b ∷ s) h = let first = h.0 in ground arith

-- The text of a number is no flag, and has no null byte.
pub itoa-dashless :
    (n : ℕ) → not (starts_with_dash (itoa (pos n))) && not (contains_byte (itoa (pos n)) 0) ≡ true
unfolding itoa
itoa-dashless n =
    let clean = is_digit-no_null (digits 20 n) (digits-is_digit 20 n) in
    let dashless = is_digit-dashless (digits 20 n) (digits-is_digit 20 n) in ground arith

-- ===== src/OptionValues/Trims.antt =====
-- A text between braces is trimmed to itself.
use agentrun.Prelude.{◌≡◌, refl, Str, false, [], ◌∷◌, ◌++◌, arith, ap}
use agentrun.Blocks.{one_byte_space, two_byte_space, three_byte_space, is_blank}
use agentrun.OptionValues.{trim_left, trim_right, trim_space}

is_blank-closed : (s : Str) → is_blank (s ++ 125 ∷ []) ≡ false
unfolding is_blank one_byte_space two_byte_space three_byte_space
is_blank-closed [] = refl
is_blank-closed (b ∷ []) = ground arith
is_blank-closed (b ∷ c ∷ []) = ground arith
is_blank-closed (b ∷ c ∷ d ∷ s) =
    ground (arith, is_blank-closed (c ∷ d ∷ s), is_blank-closed (d ∷ s), is_blank-closed s)

trim_right-closed : (s : Str) → trim_right (s ++ 125 ∷ []) ≡ s ++ 125 ∷ []
unfolding trim_right
trim_right-closed [] = rw (is_blank-closed []) refl
trim_right-closed (b ∷ s) = rw (is_blank-closed (b ∷ s)) (ap (λ r. b ∷ r) (trim_right-closed s))

trim_left-opened : (s : Str) → trim_left (123 ∷ s) ≡ 123 ∷ s
unfolding trim_left one_byte_space two_byte_space three_byte_space
trim_left-opened [] = refl
trim_left-opened (b ∷ []) = refl
trim_left-opened (b ∷ c ∷ s) = refl

pub trim_space-braced : (s : Str) → trim_space (123 ∷ s ++ 125 ∷ []) ≡ 123 ∷ s ++ 125 ∷ []
unfolding trim_space
trim_space-braced s = rw (trim_left-opened (s ++ 125 ∷ [])) (trim_right-closed (123 ∷ s))

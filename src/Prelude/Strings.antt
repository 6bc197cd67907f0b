-- ===== src/Prelude/Strings.antt =====
-- A Go string is a list of bytes. Literals are written `bytes "..."`.
use Prim.Native.Nat.{ℕ, ◌-◌}
use Prim.Native.Char.{code}
use Prim.Native.String.{String}
use mathlib.Core.Path.{◌≡◌, refl, sym, subst}
use mathlib.Core.Logic.{◌↔◌}
use mathlib.Core.Bool.{Bool, true, false}
use mathlib.Core.List.{List, [], ◌∷◌}
use native.Mathlib.Omega.{arith}
use agentrun.Prelude.Tests.{ltb, ◌==◌, if◌then◌else◌}
use agentrun.Prelude.Lists.{length, drop}

abbrev pub Str : Type 0
Str = List ℕ

-- The bytes of an ASCII literal.
abbrev pub bytes : String → Str
bytes String.[] = []
bytes (String.◌∷◌ c s) = code c ∷ bytes s

unfoldable pub str_eq : Str → Str → Bool
str_eq [] [] = true
str_eq [] (b ∷ t) = false
str_eq (a ∷ s) [] = false
str_eq (a ∷ s) (b ∷ t) = let rest = str_eq s t in if a == b then rest else false

-- strings.HasPrefix s t
unfoldable pub starts_with : Str → Str → Bool
starts_with s [] = true
starts_with [] (b ∷ t) = false
starts_with (a ∷ s) (b ∷ t) = let rest = starts_with s t in if a == b then rest else false

-- strings.HasSuffix s t
unfoldable pub ends_with : Str → Str → Bool
unfolding str_eq
ends_with s t = if ltb (length s) (length t) then false else str_eq (drop (length s - length t) s) t

-- strings.ContainsRune s r, at an ASCII character r
unfoldable pub contains_byte : Str → ℕ → Bool
contains_byte [] c = false
contains_byte (a ∷ s) c = let rest = contains_byte s c in if a == c then true else rest

-- s < t, in the order of the bytes
unfoldable pub str_lt : Str → Str → Bool
str_lt s [] = false
str_lt [] (b ∷ t) = true
str_lt (a ∷ s) (b ∷ t) =
    let rest = str_lt s t in if ltb a b then true else if a == b then rest else false

pub str_eq_refl : (s : Str) → str_eq s s ≡ true
unfolding str_eq
str_eq_refl [] = refl
str_eq_refl (a ∷ s) = ground (arith, str_eq_refl s)

pub str_eq_sound : (s t : Str) → str_eq s t ≡ true → s ≡ t
unfolding str_eq
str_eq_sound [] [] h = refl
str_eq_sound [] (b ∷ t) h = cc
str_eq_sound (a ∷ s) [] h = cc
str_eq_sound (a ∷ s) (b ∷ t) h = ground (arith, str_eq_sound s t)

pub str_eq_iff : (s t : Str) → (str_eq s t ≡ true) ↔ (s ≡ t)
str_eq_iff s t = (str_eq_sound s t, λ e. rw e (str_eq_refl t))

-- A text that equals one equals no other.
pub str_eq_exclusive : (s a b : Str) → str_eq a b ≡ false → str_eq s a ≡ true → str_eq s b ≡ false
str_eq_exclusive s a b differ e = subst (λ x. str_eq x b ≡ false) (sym (str_eq_sound s a e)) differ

pub str_lt_irrefl : (s : Str) → str_lt s s ≡ false
unfolding str_lt
str_lt_irrefl [] = refl
str_lt_irrefl (a ∷ s) = ground (arith, str_lt_irrefl s)

pub str_lt_trans : (s t u : Str) → str_lt s t ≡ true → str_lt t u ≡ true → str_lt s u ≡ true
unfolding str_lt
str_lt_trans s [] u h k = cc
str_lt_trans s (b ∷ t) [] h k = cc
str_lt_trans [] (b ∷ t) (c ∷ u) h k = refl
str_lt_trans (a ∷ s) (b ∷ t) (c ∷ u) h k = ground (arith, str_lt_trans s t u)

-- Of two different strings one is less.
pub str_lt_total : (s t : Str) → str_eq s t ≡ false → str_lt s t ≡ false → str_lt t s ≡ true
unfolding str_lt str_eq
str_lt_total [] [] e h = cc
str_lt_total [] (b ∷ t) e h = cc
str_lt_total (a ∷ s) [] e h = refl
str_lt_total (a ∷ s) (b ∷ t) e h = ground (arith, str_lt_total s t)

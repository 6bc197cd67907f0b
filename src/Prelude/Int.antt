-- ===== src/Prelude/Int.antt =====
-- Signed integers over the native numbers, for Go's `int`.
use Prim.Native.Nat.{ℕ, suc, ◌+◌, ◌-◌, ◌<◌, ◌%◌}
use mathlib.Core.Bool.{Bool, false}
use mathlib.Core.Path.{◌≡◌}
use native.Mathlib.Omega.{arith}
use agentrun.Prelude.Tests.{ltb, leb, if◌then◌else◌}

-- `negsuc n` is -(n + 1).
pub data ℤ : Type 0 where
  pos : ℕ → ℤ
  negsuc : ℕ → ℤ

-- max(0, z)
abbrev pub pos_part : ℤ → ℕ
pos_part (pos n) = n
pos_part (negsuc n) = 0

abbrev pub neg_part : ℤ → ℕ
neg_part (pos n) = 0
neg_part (negsuc n) = suc n

-- a - b, as an integer.
abbrev pub sub_ℕ : ℕ → ℕ → ℤ
sub_ℕ a b = if leb b a then pos (a - b) else negsuc (b - a - 1)

abbrev pub ltb_ℤ : ℤ → ℤ → Bool
ltb_ℤ a b = ltb (pos_part a + neg_part b) (pos_part b + neg_part a)

abbrev pub max_ℤ : ℤ → ℤ → ℤ
max_ℤ a b = if ltb_ℤ a b then b else a

abbrev pub is_zero_ℤ : ℤ → Bool
is_zero_ℤ (pos n) = ltb n 1
is_zero_ℤ (negsuc n) = false

abbrev pub two_63 : ℕ
two_63 = 9223372036854775808

abbrev pub two_64 : ℕ
two_64 = 18446744073709551616

-- A sum of non-negative terms in Go's 64-bit `int`: the low 64 bits, read in two's complement.
abbrev pub wrap_int64 : ℕ → ℤ
wrap_int64 n = let m = n % two_64 in if ltb m two_63 then pos m else negsuc (two_64 - 1 - m)

pub wrap_int64-pos : (n : ℕ) → n < two_63 → wrap_int64 n ≡ pos n
wrap_int64-pos n h = ground arith

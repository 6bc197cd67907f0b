-- ===== src/Prelude/Maps.antt =====
-- A Go map with string keys, as an association list. `put` and `delete` act on every entry of the
-- key, so the laws need no assumption on the list.
use mathlib.Core.Path.{◌≡◌}
use mathlib.Core.Bool.{Bool, true, false}
use mathlib.Core.List.{List, [], ◌∷◌}
use mathlib.Core.Option.{Option, none, some}
use native.Mathlib.Omega.{arith}
use agentrun.Prelude.Tests.{if◌then◌else◌}
use agentrun.Prelude.Strings.{Str, str_eq, str_eq_iff}

abbrev pub Assoc {ℓ} : Type ℓ → Type ℓ
Assoc V = List (Str × V)

-- A set of strings: `_, ok := m[k]`.
unfoldable pub contains : List Str → Str → Bool
contains [] k = false
contains (j ∷ m) k = let rest = contains m k in if str_eq j k then true else rest

module _ {ℓ} {V : Type ℓ} where
  unfoldable pub lookup : Str → Assoc V → Option V
  lookup k [] = none
  lookup k ((j, v) ∷ m) = let rest = lookup k m in if str_eq j k then some v else rest

  -- delete(m, k)
  unfoldable pub delete : Str → Assoc V → Assoc V
  delete k [] = []
  delete k ((j, v) ∷ m) = let rest = delete k m in if str_eq j k then rest else (j, v) ∷ rest

  -- m[k] = v
  unfoldable pub put : Str → V → Assoc V → Assoc V
  unfolding delete
  put k v m = (k, v) ∷ delete k m

  pub lookup-delete :
      (k j : Str) (m : Assoc V) → lookup j (delete k m) ≡ (if str_eq k j then none else lookup j m)
  unfolding lookup delete
  lookup-delete k j [] = ground arith
  lookup-delete k j ((i, v) ∷ m) =
      ground (arith, lookup-delete k j m, str_eq_iff i k, str_eq_iff i j, str_eq_iff k j)

  pub lookup-put :
      (k j : Str) (v : V) (m : Assoc V)
      → lookup j (put k v m) ≡ (if str_eq k j then some v else lookup j m)
  unfolding lookup put
  lookup-put k j v m = simp lookup-delete (ground arith)

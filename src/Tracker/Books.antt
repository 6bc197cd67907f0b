-- ===== src/Tracker/Books.antt =====
-- Lemmas on the pending map as a set of ids with a kind each: how many ids a kind has, and what
-- `put` and `delete` do to that number.
use agentrun.Prelude.{
  ℕ, suc, ◌≤◌, length, contains, ◌≡◌, refl, Str, true, none, some, List, [], ◌∷◌, arith,
  if◌then◌else◌, str_eq, str_eq_iff, str_eq_refl, Assoc, lookup, put, delete, lookup-delete,
}

-- How many ids are stored under the kind.
unfoldable pub count_kind : Str → Assoc Str → ℕ
count_kind k [] = 0
count_kind k ((id, kind) ∷ rest) = let n = count_kind k rest in if str_eq kind k then suc n else n

-- No key has two entries, as in a Go map.
abbrev pub IsMap {ℓ} : {V : Type ℓ} → Assoc V → Type ℓ
IsMap [] = Unit
IsMap ((k, v) ∷ rest) = (lookup k rest ≡ none) × IsMap rest

module _ {ℓ} {V : Type ℓ} where
  pub delete-absent : (k : Str) (m : Assoc V) → lookup k m ≡ none → delete k m ≡ m
  unfolding lookup delete
  delete-absent k [] h = refl
  delete-absent k ((j, v) ∷ m) h = ground (arith, delete-absent k m)

  pub IsMap-delete : (k : Str) (m : Assoc V) → IsMap m → IsMap (delete k m)
  unfolding delete
  IsMap-delete k [] h = h
  IsMap-delete k ((j, v) ∷ m) h = ground (arith, IsMap-delete k m, lookup-delete k j m)

  pub IsMap-put : (k : Str) (v : V) (m : Assoc V) → IsMap m → IsMap (put k v m)
  unfolding put
  IsMap-put k v m h = ground (arith, IsMap-delete k m, lookup-delete k k m, str_eq_refl k)

pub count_kind-put :
    (k id kind : Str) (m : Assoc Str)
    → lookup id m ≡ none
    → count_kind k (put id kind m)
      ≡ (if str_eq kind k then suc (count_kind k m) else count_kind k m)
unfolding count_kind put
count_kind-put k id kind m h = rw (delete-absent id m h)

pub count_kind-delete :
    (k id kind : Str) (m : Assoc Str)
    → IsMap m
    → lookup id m ≡ some kind
    → count_kind k m
      ≡ (if str_eq kind k then suc (count_kind k (delete id m)) else count_kind k (delete id m))
unfolding count_kind delete lookup
count_kind-delete k id kind [] d h = cc
count_kind-delete k id kind ((j, other) ∷ m) d h =
    ground (arith, count_kind-delete k id kind m, delete-absent j m, str_eq_iff j id)

pub count_kind-le-length : (k : Str) (m : Assoc Str) → count_kind k m ≤ length m
unfolding count_kind
count_kind-le-length k [] = omega arith
count_kind-le-length k ((id, kind) ∷ m) = ground (arith, count_kind-le-length k m)

length-delete : (k : Str) (m : Assoc Str) → IsMap m → length m ≤ suc (length (delete k m))
unfolding delete lookup
length-delete k [] h = omega arith
length-delete k ((j, v) ∷ m) h =
    ground (arith, length-delete k m, delete-absent j m, str_eq_iff j k)

-- A map whose keys all stand in a list has at most as many entries as the list.
pub length-le_of_keys :
    (ids : List Str) (m : Assoc Str)
    → IsMap m
    → ((id k : Str) → lookup id m ≡ some k → contains ids id ≡ true)
    → length m ≤ length ids
unfolding lookup contains
length-le_of_keys [] [] d h = omega arith
length-le_of_keys [] ((j, v) ∷ m) d h = absurd (cc (h j v (ground (arith, str_eq_refl j))))
length-le_of_keys (i ∷ ids) m d h = omega (
  arith,
  length-delete i m d,
  length-le_of_keys ids (delete i m) (IsMap-delete i m d)
      (λ id k found. ground (arith, lookup-delete i id m, h id k)),
)

-- ===== src/Session/Env.antt =====
-- What a subprocess reads from the entries that MergeEnv appends.
use agentrun.Prelude.{
  ◌==◌, ◌≡◌, refl, Str, false, Option, none, some, List, [], ◌∷◌, ◌++◌, if◌then◌else◌, Assoc,
  contains_byte, map, arith, drop, length,
}
use agentrun.Session.{validate_entry, validate_env, env_entry, merge_env, equals_sign}

-- How a program reads an entry of its environment: the name ends at the first equals sign.
pub cut : Str → Option (Str × Str)
cut [] = none
cut (b ∷ s) =
    let rest = cut s in
    if b == equals_sign
    then some ([], s)
    else elim rest [ none ↦ none | some (k, v) ↦ some (b ∷ k, v) ]

cut-env_entry :
    (k v : Str) → contains_byte k equals_sign ≡ false → cut (env_entry (k, v)) ≡ some (k, v)
unfolding cut env_entry contains_byte
cut-env_entry [] v h = ground arith
cut-env_entry (b ∷ k) v h = ground (arith, cut-env_entry k v)

map-cut-env_entry :
    (env : Assoc Str) → validate_env env ≡ none → map cut (map env_entry env) ≡ map some env
unfolding validate_env validate_entry
map-cut-env_entry [] h = refl
map-cut-env_entry ((k, v) ∷ env) h = ground (arith, cut-env_entry k v, map-cut-env_entry env)

drop-append : (xs ys : List Str) → drop (length xs) (xs ++ ys) ≡ ys
drop-append [] ys = refl
drop-append (x ∷ xs) ys = drop-append xs ys

-- The entries behind those of the parent; none where the parent's environment is inherited as it is.
pub own_entries : List Str → Option (List Str) → List Str
own_entries base none = []
own_entries base (some entries) = drop (length base) entries

-- If ValidateEnv accepts the variables, a program that reads what MergeEnv appends to the parent's
-- entries, cutting each at its first equals sign, finds exactly these names and values, in their
-- order.
pub merge_env-roundtrip :
    (base : List Str) (env : Assoc Str)
    → validate_env env ≡ none
    → map cut (own_entries base (merge_env base env)) ≡ map some env
unfolding merge_env own_entries
merge_env-roundtrip base [] h = refl
merge_env-roundtrip base ((k, v) ∷ env) h =
    rw (drop-append base (map env_entry ((k, v) ∷ env))) (map-cut-env_entry ((k, v) ∷ env) h)

-- ===== src/Session/Examples.antt =====
-- The theorems on session.go and session_options.go at concrete variables.
use agentrun.Prelude.{◌≡◌, refl, Str, bytes, none, some, List, [], ◌∷◌, Assoc, map, contains_byte}
use agentrun.Session.{validate_env, validate_entry, merge_env}
use agentrun.Session.Env.{cut, own_entries, merge_env-roundtrip}

abbrev parent_env : List Str
parent_env = bytes "HOME=/root" ∷ []

abbrev two_variables : Assoc Str
two_variables = (bytes "KEY", bytes "a=b") ∷ (bytes "DEBUG", []) ∷ []

two_variables-accepted : validate_env two_variables ≡ none
unfolding validate_env validate_entry contains_byte
two_variables-accepted = refl

merge_env-roundtrip_example :
    map cut (own_entries parent_env (merge_env parent_env two_variables)) ≡ map some two_variables
merge_env-roundtrip_example = merge_env-roundtrip parent_env two_variables two_variables-accepted

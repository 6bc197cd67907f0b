-- ===== src/Session.antt =====
-- The session and its environment variables: session.go, the effort level and the environment check of
-- session_options.go, and ValidateEffort of engine/cli/internal/optutil/optutil.go.
pub mod Env
mod Examples
use agentrun.Prelude.{
  ℕ, Str, bytes, Bool, ◌||◌, Option, none, some, List, [], ◌∷◌, ◌++◌, if◌then◌else◌, is_empty,
  Assoc, lookup, str_eq, contains_byte, map,
}

pub record Session : Type 0 where
  pub id : Str
  pub cwd : Str
  pub model : Str
  pub prompt : Str
  pub options : Assoc Str
  pub env : Assoc Str

-- m[k], with the zero value for a missing key.
abbrev pub get_or_empty : Assoc Str → Str → Str
get_or_empty m k = elim (lookup k m) [ none ↦ [] | some v ↦ v ]

-- Effort.Valid
unfoldable pub is_effort : Str → Bool
is_effort e = str_eq e (bytes "low") || str_eq e (bytes "medium") || str_eq e (bytes "high")

-- ValidateEffort: whether the option is acceptable.
unfoldable pub validate_effort : Assoc Str → Bool
unfolding is_effort
validate_effort opts = let e = get_or_empty opts (bytes "effort") in is_empty e || is_effort e

pub data EnvError : Type 0 where
  empty_key : EnvError
  key_has_equals key_has_null value_has_null : Str → EnvError

abbrev pub equals_sign : ℕ
equals_sign = 61

-- One round of the loop of ValidateEnv.
validate_entry : Str → Str → Option EnvError
validate_entry k v =
    if is_empty k
    then some empty_key
    else if contains_byte k equals_sign
    then some (key_has_equals k)
    else if contains_byte k 0
    then some (key_has_null k)
    else if contains_byte v 0
    then some (value_has_null k)
    else none

-- ValidateEnv, in the order of the list.
unfoldable pub validate_env : Assoc Str → Option EnvError
unfolding validate_entry
validate_env [] = none
validate_env ((k, v) ∷ env) =
    let rest = validate_env env in elim (validate_entry k v) [ some err ↦ some err | none ↦ rest ]

-- k + "=" + v
pub env_entry : Str × Str → Str
env_entry (k, v) = k ++ equals_sign ∷ v

-- MergeEnv: none is Go's nil, with which the subprocess inherits the parent's environment.
unfoldable pub merge_env : List Str → Assoc Str → Option (List Str)
unfolding env_entry
merge_env base extra = if is_empty extra then none else some (base ++ map env_entry extra)

-- ===== src/Mcp/Security.antt =====
-- The input checks of the MCP server, and the writer that collects stderr: cmd/agentrun-mcp/security.go.
--
-- filepath.EvalSymlinks and filepath.Rel of Go's library, which look at the file system and at paths, are
-- parameters, with none for an error; so is the replacement of credential patterns.
pub mod Capped
use agentrun.Prelude.{
  ℕ, zero, suc, ◌-◌, leb, ltb, ◌==◌, Str, bytes, starts_with, contains, Bool, not, ◌&&◌, ◌||◌,
  Option, none, some, List, [], ◌∷◌, ◌++◌, if◌then◌else◌, is_empty, length, take, drop_last, Assoc,
}
use agentrun.OptionValues.{is_abs}

-- envBlocklist
abbrev env_blocklist : List Str
env_blocklist =
    bytes "PATH"
    ∷ bytes "HOME"
    ∷ bytes "USER"
    ∷ bytes "SHELL"
    ∷ bytes "LD_PRELOAD"
    ∷ bytes "LD_LIBRARY_PATH"
    ∷ bytes "LD_AUDIT"
    ∷ bytes "LD_CONFIG"
    ∷ bytes "DYLD_INSERT_LIBRARIES"
    ∷ bytes "DYLD_LIBRARY_PATH"
    ∷ bytes "DYLD_FRAMEWORK_PATH"
    ∷ bytes "DYLD_FALLBACK_FRAMEWORK_PATH"
    ∷ bytes "BASH_ENV"
    ∷ bytes "ENV"
    ∷ []

-- envSensitivePatterns
abbrev env_sensitive_patterns : List Str
env_sensitive_patterns =
    bytes "_API_KEY"
    ∷ bytes "_SECRET"
    ∷ bytes "_TOKEN"
    ∷ bytes "_PASSWORD"
    ∷ bytes "_CREDENTIAL"
    ∷ []

-- strings.ToUpper, as far as an ASCII letter comes of it: of a small one, of U+0131 and of U+017F.
upper : Str → Str
upper [] = []
upper (b ∷ []) = (if leb 97 b && leb b 122 then b - 32 else b) ∷ []
upper (b ∷ c ∷ s) =
    let behind_one = upper (c ∷ s) in
    let behind_two = upper s in
    if (b == 196) && (c == 177)
    then 73 ∷ behind_two
    else if (b == 197) && (c == 191)
    then 83 ∷ behind_two
    else (if leb 97 b && leb b 122 then b - 32 else b) ∷ behind_one

-- strings.Contains(s, t)
has_part : Str → Str → Bool
has_part [] t = is_empty t
has_part (b ∷ s) t = let later = has_part s t in starts_with (b ∷ s) t || later

pub data EnvKeyError : Type 0 where
  blocked : Str → EnvKeyError
  sensitive : Str → Str → EnvKeyError

-- The loop over the patterns.
sensitive_in : Str → Str → List Str → Option EnvKeyError
unfolding has_part
sensitive_in k up [] = none
sensitive_in k up (pat ∷ patterns) =
    let later = sensitive_in k up patterns in
    if has_part up pat then some (sensitive k pat) else later

check_env_key : Str → Option EnvKeyError
unfolding upper sensitive_in
check_env_key k =
    if contains env_blocklist (upper k)
    then some (blocked k)
    else sensitive_in k (upper k) env_sensitive_patterns

-- validateEnvKeys, in the order of the list.
pub validate_env_keys : Assoc Str → Option EnvKeyError
unfolding check_env_key
validate_env_keys [] = none
validate_env_keys ((k, v) ∷ env) =
    let later = validate_env_keys env in
    elim (check_env_key k) [ some err ↦ some err | none ↦ later ]

-- allowedOptions
abbrev allowed_options : List Str
allowed_options =
    bytes "system_prompt"
    ∷ bytes "max_turns"
    ∷ bytes "thinking_budget"
    ∷ bytes "effort"
    ∷ bytes "agent_id"
    ∷ bytes "add_dirs"
    ∷ bytes "session_name"
    ∷ []

-- validateOptions: the first key that is not allowed.
pub validate_options : Assoc Str → Option Str
validate_options [] = none
validate_options ((k, v) ∷ opts) =
    let later = validate_options opts in if contains allowed_options k then later else some k

pub data CwdResult : Type 0 where
  accepted : Str → CwdResult
  not_absolute unresolved root_unresolved not_under escapes : CwdResult

-- filepath.EvalSymlinks and filepath.Rel.
pub record Paths : Type 0 where
  pub eval_symlinks : Str → Option Str
  pub rel : Str → Str → Option Str

check_rel : Str → Option Str → CwdResult
check_rel resolved none = not_under
check_rel resolved (some rel) = if starts_with rel (bytes "..") then escapes else accepted resolved

resolve_root : Paths → Str → Option Str → CwdResult
unfolding check_rel
resolve_root paths resolved none = root_unresolved
resolve_root paths resolved (some root) = check_rel resolved (paths.rel root resolved)

resolve_cwd : Paths → Str → Option Str → CwdResult
unfolding resolve_root
resolve_cwd paths root none = unresolved
resolve_cwd paths root (some resolved) = resolve_root paths resolved (paths.eval_symlinks root)

-- validateCWD
pub validate_cwd : Paths → Str → Str → CwdResult
unfolding resolve_cwd
validate_cwd paths cwd root =
    if is_empty cwd
    then accepted root
    else if not (is_abs cwd)
    then not_absolute
    else resolve_cwd paths root (paths.eval_symlinks cwd)

-- cappedWriter
pub record CappedWriter : Type 0 where
  pub buf : Str
  pub max_bytes : ℕ

-- cappedWriter.Write: the count that it returns, and the writer.
pub write : Str → CappedWriter → ℕ × CappedWriter
write p w =
    let remaining = w.max_bytes - length w.buf in
    if leb w.max_bytes (length w.buf) then (length p, w) else (
      length p,
      record w { buf = w.buf ++ (if ltb remaining (length p) then take remaining p else p) },
    )

-- cappedWriter.Reset
pub reset : CappedWriter → CappedWriter
reset w = record w { buf = [] }

-- A sequence of writes, with the counts that they return.
pub write_all : List Str → CappedWriter → List ℕ × CappedWriter
unfolding write
write_all [] w = ([], w)
write_all (p ∷ ps) w =
    let first = write p w in let rest = write_all ps first.1 in (first.0 ∷ rest.0, rest.1)

-- The loop of scrubStderr, with the test of utf8.DecodeLastRune as a parameter: whether the last bytes
-- are a whole rune. The fuel is the length of the text.
trim_partial : ℕ → (Str → Bool) → Str → Str
trim_partial zero ends_whole s = s
trim_partial (suc fuel) ends_whole s =
    let shorter = trim_partial fuel ends_whole (drop_last s) in
    if is_empty s then s else if ends_whole s then s else shorter

-- scrubStderr
pub scrub_stderr : (Str → Str) → (Str → Bool) → Str → ℕ → Str
unfolding trim_partial
scrub_stderr redact ends_whole raw max_bytes =
    let scrubbed = redact raw in
    if ltb max_bytes (length scrubbed)
    then trim_partial max_bytes ends_whole (take max_bytes scrubbed)
    else scrubbed

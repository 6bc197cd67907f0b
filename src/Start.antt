-- ===== src/Start.antt =====
-- The options of Engine.Start and the exit code of an error: options.go and errors.go.
--
-- An option is the call that made it; none is a nil option.
pub mod Latest
use agentrun.Prelude.{ℤ, pos, Str, Option, none, some, List, [], ◌∷◌}

-- StartOptions
pub record StartOptions : Type 0 where
  pub prompt : Str
  pub model : Str
  pub timeout : ℤ

pub data StartOption : Type 0 where
  with_prompt with_model : Str → StartOption
  with_timeout : ℤ → StartOption

-- WithPrompt, WithModel and WithTimeout: what the functions that they return do.
pub apply_start : StartOption → StartOptions → StartOptions
apply_start (with_prompt prompt) o = record o { prompt = prompt }
apply_start (with_model model) o = record o { model = model }
apply_start (with_timeout d) o = record o { timeout = d }

-- The loop of ResolveOptions.
pub apply_each : List (Option StartOption) → StartOptions → StartOptions
unfolding apply_start
apply_each [] o = o
apply_each (none ∷ opts) o = apply_each opts o
apply_each (some opt ∷ opts) o = apply_each opts (apply_start opt o)

-- ResolveOptions
pub resolve_options : List (Option StartOption) → StartOptions
unfolding apply_each
resolve_options opts = apply_each opts (record { prompt = []; model = []; timeout = pos 0 })

-- An error: one that wraps nothing, one that wraps others (errors.Join, or fmt.Errorf with %w), and an
-- ExitError with what it wraps, which is empty for nil.
mutual
  pub data Error : Type 0 where
    sentinel : Str → Error
    wrapping : Errors → Error
    exit_error : ℤ → Errors → Error

  pub data Errors : Type 0 where
    no_errors : Errors
    error_and : Error → Errors → Errors

-- ExitCode, with errors.As: the first ExitError, an error before what it wraps.
mutual
  pub exit_code : Error → Option ℤ
  exit_code (sentinel msg) = none
  exit_code (wrapping errs) = first_code errs
  exit_code (exit_error code errs) = some code

  pub first_code : Errors → Option ℤ
  first_code no_errors = none
  first_code (error_and err errs) =
      let later = first_code errs in elim (exit_code err) [ none ↦ later | some code ↦ some code ]

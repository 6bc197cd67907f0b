-- ===== src/Options.antt =====
-- The construction-time options of the CLI engine: engine/cli/options.go.
--
-- An option is a function on the options record; here it is the call that made it, and `apply` is what
-- that function does. Durations are nanoseconds. A set of names is a list without repetition, the
-- empty one for nil. The writer for stderr is of a type W that nothing here looks into.
pub mod Resolved
use agentrun.Prelude.{
  Str, Bool, true, false, Option, none, some, List, [], ◌∷◌, if◌then◌else◌, is_empty, contains, ℤ,
  pos, ltb_ℤ,
}

module _ {ℓ} (W : Type ℓ) where
  pub record EngineOptions : Type ℓ where
    pub output_buffer : ℤ
    pub max_line_size : ℤ
    pub grace_period : ℤ
    pub stderr_writer : Option W
    pub subagent_tools : List Str
    pub shell_tracking : Bool

  pub data EngineOption : Type ℓ where
    with_output_buffer with_max_line_size with_scanner_buffer : ℤ → EngineOption
    with_grace_period : ℤ → EngineOption
    with_stderr_writer : Option W → EngineOption
    with_subagent_tools : List Str → EngineOption
    with_shell_tracking : EngineOption

-- s[n] = struct{}{}
abbrev pub insert : Str → List Str → List Str
insert n s = if contains s n then s else n ∷ s

-- The loop of WithSubagentTools.
pub add_names : List Str → List Str → List Str
add_names [] s = s
add_names (n ∷ names) s = add_names names (if is_empty n then s else insert n s)

module _ {ℓ} {W : Type ℓ} where
  pub apply : EngineOption W → EngineOptions W → EngineOptions W
  unfolding add_names
  apply (with_output_buffer size) o =
      if ltb_ℤ (pos 0) size then record o { output_buffer = size } else o
  apply (with_max_line_size size) o = record o { max_line_size = size }
  apply (with_scanner_buffer size) o =
      if ltb_ℤ (pos 0) size then record o { max_line_size = size } else o
  apply (with_grace_period d) o = if ltb_ℤ (pos 0) d then record o { grace_period = d } else o
  apply (with_stderr_writer w) o = record o { stderr_writer = w }
  apply (with_subagent_tools names) o = record o {
    subagent_tools = add_names names o.subagent_tools;
  }
  apply with_shell_tracking o = record o { shell_tracking = true }

  -- The defaults: 100 messages, 128 MiB, 5 seconds.
  abbrev pub defaults : EngineOptions W
  defaults = record {
    output_buffer = pos 100;
    max_line_size = pos 134217728;
    grace_period = pos 5000000000;
    stderr_writer = none;
    subagent_tools = [];
    shell_tracking = false;
  }

  -- The loop of resolveEngineOptions, which skips nil.
  pub apply_all : List (Option (EngineOption W)) → EngineOptions W → EngineOptions W
  unfolding apply
  apply_all [] o = o
  apply_all (none ∷ opts) o = apply_all opts o
  apply_all (some opt ∷ opts) o = apply_all opts (apply opt o)

  -- resolveEngineOptions
  pub resolve_engine_options : List (Option (EngineOption W)) → EngineOptions W
  unfolding apply_all
  resolve_engine_options opts = apply_all opts defaults

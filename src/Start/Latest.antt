-- ===== src/Start/Latest.antt =====
-- Of the options of one kind the last call counts.
use agentrun.Prelude.{ℤ, pos, ◌≡◌, refl, Str, Option, none, some, List, [], ◌∷◌}
use agentrun.Start.{
  StartOptions, StartOption, with_prompt, with_model, with_timeout, apply_start, apply_each,
  resolve_options,
}

-- The values that the last call of each kind gives, or those given.
abbrev pub last_prompt : List (Option StartOption) → Str → Str
last_prompt [] v = v
last_prompt (some (with_prompt prompt) ∷ opts) v = last_prompt opts prompt
last_prompt (opt ∷ opts) v = last_prompt opts v

abbrev pub last_model : List (Option StartOption) → Str → Str
last_model [] v = v
last_model (some (with_model model) ∷ opts) v = last_model opts model
last_model (opt ∷ opts) v = last_model opts v

abbrev pub last_timeout : List (Option StartOption) → ℤ → ℤ
last_timeout [] v = v
last_timeout (some (with_timeout d) ∷ opts) v = last_timeout opts d
last_timeout (opt ∷ opts) v = last_timeout opts v

apply_each-last :
    (opts : List (Option StartOption)) (o : StartOptions)
    → apply_each opts o ≡ record {
      prompt = last_prompt opts o.prompt;
      model = last_model opts o.model;
      timeout = last_timeout opts o.timeout;
    }
unfolding apply_each apply_start
apply_each-last [] o = refl
apply_each-last (none ∷ opts) o = apply_each-last opts o
apply_each-last (some (with_prompt prompt) ∷ opts) o =
    apply_each-last opts (record o { prompt = prompt })
apply_each-last (some (with_model model) ∷ opts) o =
    apply_each-last opts (record o { model = model })
apply_each-last (some (with_timeout d) ∷ opts) o = apply_each-last opts (record o { timeout = d })

-- The resolved options have, for each kind, the value of the last option of that kind, or the zero value.
pub resolve_options-last :
    (opts : List (Option StartOption))
    → resolve_options opts ≡ record {
      prompt = last_prompt opts [];
      model = last_model opts [];
      timeout = last_timeout opts (pos 0);
    }
unfolding resolve_options
resolve_options-last opts =
    apply_each-last opts (record { prompt = []; model = []; timeout = pos 0 })

-- ===== src/Options/Resolved.antt =====
-- What the engine may rely on once its options are resolved.
use agentrun.Prelude.{
  ℕ, ◌≡◌, Str, str_eq, str_eq_iff, Bool, true, false, not, ◌&&◌, ◌||◌, Option, none, some, List, [],
  ◌∷◌, is_empty, contains, pos, ltb_ℤ, arith,
}
use agentrun.Options.{
  EngineOptions, EngineOption, with_output_buffer, with_scanner_buffer, with_grace_period,
  with_subagent_tools, insert, add_names, apply, defaults, apply_all, resolve_engine_options,
}

contains-insert :
    (m : Str) (s : List Str) (n : Str) → contains (insert m s) n ≡ (str_eq m n || contains s n)
unfolding contains
contains-insert m s n = ground (arith, str_eq_iff m n)

nonempty_equal : (b : ℕ) (m n : Str) → (str_eq (b ∷ m) n && is_empty n) ≡ false
unfolding str_eq
nonempty_equal b m [] = ground arith
nonempty_equal b m (c ∷ n) = ground arith

contains-add_names :
    (names s : List Str) (n : Str)
    → contains (add_names names s) n ≡ ((not (is_empty n) && contains names n) || contains s n)
unfolding add_names contains str_eq
contains-add_names [] s n = ground arith
contains-add_names ([] ∷ names) s [] = ground (arith, contains-add_names names s [])
contains-add_names ([] ∷ names) s (c ∷ n) = ground (arith, contains-add_names names s (c ∷ n))
contains-add_names ((b ∷ m) ∷ names) s n = ground (
  arith,
  contains-add_names names (insert (b ∷ m) s) n,
  contains-insert (b ∷ m) s n,
  nonempty_equal b m n,
)

module _ {ℓ} {W : Type ℓ} where
  -- Whether an option names a subagent tool.
  pub names_tool : List (Option (EngineOption W)) → Str → Bool
  names_tool [] n = false
  names_tool (some (with_subagent_tools names) ∷ opts) n = contains names n || names_tool opts n
  names_tool (_ ∷ opts) n = names_tool opts n

  IsUsable : EngineOptions W → Type 0
  IsUsable o = (ltb_ℤ (pos 0) o.output_buffer ≡ true) × (ltb_ℤ (pos 0) o.grace_period ≡ true)

  apply-IsUsable :
      (opt : EngineOption W) (o : EngineOptions W) → IsUsable o → IsUsable (apply opt o)
  unfolding apply IsUsable
  apply-IsUsable (with_output_buffer size) o h = ground (arith, h)
  apply-IsUsable (with_scanner_buffer size) o h = ground (arith, h)
  apply-IsUsable (with_grace_period d) o h = ground (arith, h)
  apply-IsUsable _ o h = h

  apply_all-IsUsable :
      (opts : List (Option (EngineOption W))) (o : EngineOptions W)
      → IsUsable o
      → IsUsable (apply_all opts o)
  unfolding apply_all
  apply_all-IsUsable [] o h = h
  apply_all-IsUsable (none ∷ opts) o h = apply_all-IsUsable opts o h
  apply_all-IsUsable (some opt ∷ opts) o h =
      apply_all-IsUsable opts (apply opt o) (apply-IsUsable opt o h)

  apply_all-names_tool :
      (opts : List (Option (EngineOption W))) (o : EngineOptions W) (n : Str)
      → contains (apply_all opts o).subagent_tools n
        ≡ ((not (is_empty n) && names_tool opts n) || contains o.subagent_tools n)
  unfolding apply_all apply names_tool
  apply_all-names_tool [] o n = ground arith
  apply_all-names_tool (none ∷ opts) o n = apply_all-names_tool opts o n
  apply_all-names_tool (some (with_subagent_tools names) ∷ opts) o n = ground (
    arith,
    apply_all-names_tool opts (apply (with_subagent_tools names) o) n,
    contains-add_names names o.subagent_tools n,
  )
  apply_all-names_tool (some (with_output_buffer size) ∷ opts) o n =
      ground (arith, apply_all-names_tool opts (apply (with_output_buffer size) o) n)
  apply_all-names_tool (some (with_scanner_buffer size) ∷ opts) o n =
      ground (arith, apply_all-names_tool opts (apply (with_scanner_buffer size) o) n)
  apply_all-names_tool (some (with_grace_period d) ∷ opts) o n =
      ground (arith, apply_all-names_tool opts (apply (with_grace_period d) o) n)
  apply_all-names_tool (some opt ∷ opts) o n = apply_all-names_tool opts (apply opt o) n

  -- Whatever options an engine is given, in any order and with nil among them, its output buffer and its
  -- grace period are positive, and its subagent tools are exactly the names, other than the empty
  -- one, that some WithSubagentTools was called with.
  pub resolve_engine_options_usable :
      (opts : List (Option (EngineOption W))) (n : Str)
      → let o = resolve_engine_options opts in
        (ltb_ℤ (pos 0) o.output_buffer ≡ true)
        × (ltb_ℤ (pos 0) o.grace_period ≡ true)
        × (contains o.subagent_tools n ≡ (not (is_empty n) && names_tool opts n))
  unfolding resolve_engine_options IsUsable contains
  resolve_engine_options_usable opts n =
      ground (
        arith,
        apply_all-IsUsable opts defaults (ground arith),
        apply_all-names_tool opts defaults n,
      )

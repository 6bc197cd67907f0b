-- ===== src/Claude/Args/Permission.antt =====
-- When a Claude subprocess runs without permission prompts.
use agentrun.Prelude.{
  ◌≡◌, refl, Str, bytes, str_eq, Bool, false, not, ◌&&◌, ◌||◌, Option, none, some, [], ◌∷◌,
  if◌then◌else◌, is_empty, Assoc, arith,
}
use agentrun.Session.{get_or_empty}
use agentrun.OptionValues.{opt_mode, opt_hitl, root_options_set}
use agentrun.Claude.Args.{map_permission, resolve_permission_flag, opt_permission_mode}

abbrev pub is_bypass : Option Str → Bool
is_bypass none = false
is_bypass (some flag) = str_eq flag (bytes "bypassPermissions")

backend_flag-is_bypass :
    (perm : Str)
    → is_bypass
        (if is_empty perm || str_eq perm (bytes "default") then none else map_permission perm)
      ≡ str_eq perm (bytes "bypassAll")
unfolding map_permission str_eq
backend_flag-is_bypass [] = refl
backend_flag-is_bypass (b ∷ perm) = ground arith

-- The flag that bypasses all permission prompts comes about exactly if HITL is off and the mode is not
-- plan, or if neither a mode nor a HITL level is set and the permission mode of the backend is bypassAll.
pub resolve_permission_flag-is_bypass :
    (opts : Assoc Str)
    → is_bypass (resolve_permission_flag opts) ≡ (
        if root_options_set opts
        then not (str_eq (get_or_empty opts opt_mode) (bytes "plan"))
          && str_eq (get_or_empty opts opt_hitl) (bytes "off")
        else str_eq (get_or_empty opts opt_permission_mode) (bytes "bypassAll"))
unfolding resolve_permission_flag str_eq
resolve_permission_flag-is_bypass opts =
    let backend = backend_flag-is_bypass (get_or_empty opts opt_permission_mode) in ground arith

-- ===== src/OptionValues.antt =====
-- The reading of session options: session_options.go without ValidateEnv, Mode and HITL of session.go,
-- and engine/cli/internal/optutil/optutil.go without ValidateEffort.
--
-- strings.TrimSpace, strings.Split, strings.ToLower of ASCII letters and strconv.Atoi of Go's library
-- are defined here on bytes.
pub mod Numbers
pub mod Trims
pub mod Entries
use agentrun.Prelude.{
  ℕ, zero, suc, ◌+◌, ◌*◌, ◌-◌, ◌==◌, ltb, leb, Str, bytes, str_eq, contains_byte, contains, Bool,
  true, false, not, ◌&&◌, ◌||◌, Option, none, some, List, [], ◌∷◌, ◌++◌, if◌then◌else◌, is_empty,
  Assoc, ℤ, pos, negsuc, two_63,
}
use agentrun.Blocks.{one_byte_space, two_byte_space, three_byte_space, is_blank}
use agentrun.Session.{get_or_empty}

-- strings.TrimLeftFunc(s, unicode.IsSpace)
pub trim_left : Str → Str
trim_left [] = []
trim_left (b ∷ []) = if one_byte_space b then [] else b ∷ []
trim_left (b ∷ c ∷ []) =
    let behind_one = trim_left (c ∷ []) in
    if one_byte_space b then behind_one else if two_byte_space b c then [] else b ∷ c ∷ []
trim_left (b ∷ c ∷ d ∷ s) =
    let behind_one = trim_left (c ∷ d ∷ s) in
    let behind_two = trim_left (d ∷ s) in
    let behind_three = trim_left s in
    if one_byte_space b
    then behind_one
    else if two_byte_space b c
    then behind_two
    else if three_byte_space b c d
    then behind_three
    else b ∷ c ∷ d ∷ s

-- The bytes up to the first place from which on there is only space.
pub trim_right : Str → Str
trim_right [] = []
trim_right (b ∷ s) = let rest = trim_right s in if is_blank (b ∷ s) then [] else b ∷ rest

-- strings.TrimSpace
pub trim_space : Str → Str
unfolding trim_left trim_right
trim_space s = trim_right (trim_left s)

-- The first line is the text that stands before it and the bytes up to the first newline.
split_from : Str → Str → List Str
split_from line [] = line ∷ []
split_from line (b ∷ s) =
    let ends = split_from [] s in
    let goes_on = split_from (line ++ b ∷ []) s in if b == 10 then line ∷ ends else goes_on

-- strings.Split(s, "\n")
pub split_lines : Str → List Str
unfolding split_from
split_lines s = split_from [] s

-- StringOption
pub string_option : Assoc Str → Str → Str → Str
string_option opts key default = let v = get_or_empty opts key in if is_empty v then default else v

-- The value of a text of decimal digits behind the digits of n.
pub digits_value : ℕ → Str → Option ℕ
digits_value n [] = some n
digits_value n (b ∷ s) =
    let rest = digits_value (10 * n + (b - 48)) s in if leb 48 b && leb b 57 then rest else none

in_range : Bool → Option ℕ → Option ℤ
in_range negative none = none
in_range false (some n) = if ltb n two_63 then some (pos n) else none
in_range true (some zero) = some (pos 0)
in_range true (some (suc n)) = if ltb n two_63 then some (negsuc n) else none

unsigned : Bool → Str → Option ℤ
unfolding in_range digits_value
unsigned negative [] = none
unsigned negative (b ∷ s) = in_range negative (digits_value 0 (b ∷ s))

-- strconv.Atoi
pub atoi : Str → Option ℤ
unfolding unsigned
atoi [] = none
atoi (b ∷ s) =
    if b == 45
    then unsigned true s
    else if b == 43
    then unsigned false s
    else unsigned false (b ∷ s)

-- The outcomes of ParsePositiveIntOption: absent, a number, or an error.
pub data IntOption : Type 0 where
  absent : IntOption
  given : ℕ → IntOption
  has_null not_integer not_positive : IntOption

positive : Option ℤ → IntOption
positive none = not_integer
positive (some (negsuc n)) = not_positive
positive (some (pos zero)) = not_positive
positive (some (pos (suc n))) = given (suc n)

-- ParsePositiveIntOption
unfoldable pub parse_positive_int_option : Assoc Str → Str → IntOption
unfolding positive atoi trim_space
parse_positive_int_option opts key =
    let v = get_or_empty opts key in
    if is_empty v
    then absent
    else if contains_byte v 0
    then has_null
    else positive (atoi (trim_space v))

abbrev list_entry : Str → List Str
list_entry p = if is_empty p || contains_byte p 0 then [] else p ∷ []

-- The loop of ParseListOption.
pub list_entries : List Str → List Str
unfolding trim_space
list_entries [] = []
list_entries (p ∷ parts) = list_entry (trim_space p) ++ list_entries parts

-- ParseListOption
unfoldable pub parse_list_option : Assoc Str → Str → List Str
unfolding list_entries split_lines
parse_list_option opts key =
    let v = get_or_empty opts key in if is_empty v then [] else list_entries (split_lines v)

lower : Str → Str
lower [] = []
lower (b ∷ s) = (if leb 65 b && leb b 90 then b + 32 else b) ∷ lower s

abbrev truthy : List Str
truthy = bytes "true" ∷ bytes "on" ∷ bytes "1" ∷ bytes "yes" ∷ []

abbrev falsy : List Str
falsy = bytes "false" ∷ bytes "off" ∷ bytes "0" ∷ bytes "no" ∷ []

-- The outcomes of ParseBoolOption.
pub data BoolOption : Type 0 where
  unset : BoolOption
  set : Bool → BoolOption
  unrecognized : BoolOption

-- ParseBoolOption
unfoldable pub parse_bool_option : Assoc Str → Str → BoolOption
unfolding lower trim_space
parse_bool_option opts key =
    let v = get_or_empty opts key in
    let word = lower (trim_space v) in
    if is_empty v
    then unset
    else if contains truthy word
    then set true
    else if contains falsy word
    then set false
    else unrecognized

-- The value of ParseBoolOption, which is false unless it is set.
abbrev pub is_set : BoolOption → Bool
is_set (set b) = b
is_set _ = false

abbrev pub opt_mode : Str
opt_mode = bytes "mode"

abbrev pub opt_hitl : Str
opt_hitl = bytes "hitl"

-- RootOptionsSet
unfoldable pub root_options_set : Assoc Str → Bool
root_options_set opts =
    not (is_empty (get_or_empty opts opt_mode)) || not (is_empty (get_or_empty opts opt_hitl))

-- Mode.Valid
unfoldable pub is_mode : Str → Bool
is_mode m = str_eq m (bytes "plan") || str_eq m (bytes "act")

-- HITL.Valid
unfoldable pub is_hitl : Str → Bool
is_hitl h = str_eq h (bytes "on") || str_eq h (bytes "off")

-- ValidateModeHITL: whether both options are acceptable.
unfoldable pub validate_mode_hitl : Assoc Str → Bool
unfolding is_mode is_hitl
validate_mode_hitl opts =
    let mode = get_or_empty opts opt_mode in
    let hitl = get_or_empty opts opt_hitl in
    (is_empty mode || is_mode mode) && (is_empty hitl || is_hitl hitl)

-- filepath.IsAbs, on Unix
unfoldable pub is_abs : Str → Bool
is_abs [] = false
is_abs (b ∷ s) = b == 47

unfoldable pub starts_with_dash : Str → Bool
starts_with_dash [] = false
starts_with_dash (b ∷ s) = b == 45

-- The test on a value that the backends make before it follows a flag: not empty, no null byte, and no
-- dash at its start.
abbrev pub is_safe : Str → Bool
is_safe v = not (is_empty v) && (not (contains_byte v 0) && not (starts_with_dash v))

-- args = append(args, flag, v), under a test
abbrev pub append_value : Bool → Str → Str → List Str → List Str
append_value test flag v args = if test then args ++ flag ∷ v ∷ [] else args

-- args = append(args, flag), under a test
abbrev pub append_flag : Bool → Str → List Str → List Str
append_flag test flag args = if test then args ++ flag ∷ [] else args

-- The loop of AppendAddDirs.
unfoldable pub add_dirs : List Str → Str → List Str → List Str
unfolding is_abs starts_with_dash
add_dirs args flag [] = args
add_dirs args flag (dir ∷ dirs) =
    add_dirs (if is_abs dir && not (starts_with_dash dir) then args ++ flag ∷ dir ∷ [] else args)
      flag dirs

-- AppendAddDirs
unfoldable pub append_add_dirs : List Str → Assoc Str → Str → List Str
unfolding add_dirs
append_add_dirs args opts flag = add_dirs args flag (parse_list_option opts (bytes "add_dirs"))

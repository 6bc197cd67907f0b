-- ===== src/CommandLine.antt =====
-- How a CLI reads its arguments, as a reference for the argument builders of the backends: a known
-- flag, with a value or without, until `--` or an argument that does not start with a dash.
pub mod Values
pub mod Flags
use agentrun.Prelude.{
  ◌≡◌, refl, Str, bytes, str_eq, Bool, true, not, ◌&&◌, ◌||◌, Option, none, some, List, [], ◌∷◌,
  ◌++◌, if◌then◌else◌, arith, contains, contains_byte, All, All-append, append_assoc, ◌∙◌, ℕ, leb,
  ◌==◌, is_empty, length,
}
use agentrun.OptionValues.{starts_with_dash}

-- The flags without a value, those whose value must not start with a dash, those with any value, and
-- those whose value must be a name.
pub record Grammar : Type 0 where
  pub bare : List Str
  pub guarded : List Str
  pub free : List Str
  pub named : List Str

abbrev pub dashes : Str
dashes = bytes "--"

-- A letter, a digit, an underscore or a dash.
abbrev is_name_byte : ℕ → Bool
is_name_byte b =
    (leb 97 b && leb b 122)
    || ((leb 65 b && leb b 90) || ((leb 48 b && leb b 57) || ((b == 95) || (b == 45))))

unfoldable pub all_name_bytes : Str → Bool
all_name_bytes [] = true
all_name_bytes (b ∷ s) = is_name_byte b && all_name_bytes s

-- One to 128 such bytes, the first of them no dash.
unfoldable pub is_name : Str → Bool
is_name v =
    not (is_empty v) && ((leb (length v) 128 && all_name_bytes v) && not (starts_with_dash v))

-- The positional arguments, or none if a flag is unknown or lacks its value.
unfoldable pub positionals : Grammar → List Str → Option (List Str)
positionals g [] = some []
positionals g (a ∷ []) =
    if str_eq a dashes
    then some []
    else if contains g.bare a
    then some []
    else if contains g.guarded a || (contains g.free a || contains g.named a)
    then none
    else if starts_with_dash a
    then none
    else some (a ∷ [])
positionals g (a ∷ v ∷ args) =
    let behind_flag = positionals g (v ∷ args) in
    let behind_value = positionals g args in
    if str_eq a dashes
    then some (v ∷ args)
    else if contains g.bare a
    then behind_flag
    else if contains g.guarded a
    then (if starts_with_dash v then none else behind_value)
    else if contains g.free a
    then behind_value
    else if contains g.named a
    then (if is_name v then behind_value else none)
    else if starts_with_dash a
    then none
    else some (a ∷ v ∷ args)

-- Arguments behind which the reading starts anew, as behind whole flags.
unfoldable pub ReadsOn : Grammar → List Str → Type 0
ReadsOn g args = (rest : List Str) → positionals g (args ++ rest) ≡ positionals g rest

-- An argument that the operating system takes: with no null byte.
abbrev pub is_argument : Str → Bool
is_argument a = not (contains_byte a 0)

-- Whole flags so far, and no null byte.
unfoldable pub IsBuilt : Grammar → List Str → Type 0
IsBuilt g args = ReadsOn g args × All (λ a. is_argument a ≡ true) args

unfoldable pub is_bare : Grammar → Str → Bool
is_bare g a = contains g.bare a && (not (str_eq a dashes) && is_argument a)

unfoldable pub is_guarded : Grammar → Str → Bool
is_guarded g a =
    (contains g.guarded a && not (contains g.bare a)) && (not (str_eq a dashes) && is_argument a)

unfoldable pub is_free : Grammar → Str → Bool
is_free g a =
    (contains g.free a && not (contains g.bare a || contains g.guarded a))
    && (not (str_eq a dashes) && is_argument a)

unfoldable pub is_named : Grammar → Str → Bool
is_named g a =
    (contains g.named a && not (contains g.bare a || (contains g.guarded a || contains g.free a)))
    && (not (str_eq a dashes) && is_argument a)

abbrev pub is_dashless : Str → Bool
is_dashless v = not (starts_with_dash v) && is_argument v

bare-positionals :
    (g : Grammar) (a : Str) (rest : List Str)
    → is_bare g a ≡ true
    → positionals g (a ∷ rest) ≡ positionals g rest
unfolding positionals is_bare
bare-positionals g a [] h = ground arith
bare-positionals g a (v ∷ rest) h = ground arith

guarded-positionals :
    (g : Grammar) (a v : Str) (rest : List Str)
    → is_guarded g a ≡ true
    → is_dashless v ≡ true
    → positionals g (a ∷ v ∷ rest) ≡ positionals g rest
unfolding positionals is_guarded
guarded-positionals g a v rest h dashless = ground arith

free-positionals :
    (g : Grammar) (a v : Str) (rest : List Str)
    → is_free g a ≡ true
    → positionals g (a ∷ v ∷ rest) ≡ positionals g rest
unfolding positionals is_free
free-positionals g a v rest h = ground arith

named-positionals :
    (g : Grammar) (a v : Str) (rest : List Str)
    → is_named g a ≡ true
    → is_name v ≡ true
    → positionals g (a ∷ v ∷ rest) ≡ positionals g rest
unfolding positionals is_named
named-positionals g a v rest h name = ground arith

pub nothing-IsBuilt : (g : Grammar) → IsBuilt g []
unfolding IsBuilt ReadsOn
nothing-IsBuilt g = (λ rest. refl, tt)

pub bare-IsBuilt :
    (g : Grammar) (args : List Str) (a : Str)
    → is_bare g a ≡ true
    → IsBuilt g args
    → IsBuilt g (args ++ a ∷ [])
unfolding IsBuilt ReadsOn is_bare
bare-IsBuilt g args a flag h = (
  λ rest. rw (append_assoc args (a ∷ []) rest) (h.0 (a ∷ rest) ∙ bare-positionals g a rest flag),
  All-append (λ b. is_argument b ≡ true) args (a ∷ []) h.1 (ground arith, tt),
)

pub guarded-IsBuilt :
    (g : Grammar) (args : List Str) (a v : Str)
    → is_guarded g a ≡ true
    → is_dashless v ≡ true
    → IsBuilt g args
    → IsBuilt g (args ++ a ∷ v ∷ [])
unfolding IsBuilt ReadsOn is_guarded
guarded-IsBuilt g args a v flag value h = (
  λ rest.
      rw (append_assoc args (a ∷ v ∷ []) rest)
        (h.0 (a ∷ v ∷ rest) ∙ guarded-positionals g a v rest flag value),
  All-append (λ b. is_argument b ≡ true) args (a ∷ v ∷ []) h.1 (ground arith, (ground arith, tt)),
)

pub free-IsBuilt :
    (g : Grammar) (args : List Str) (a v : Str)
    → is_free g a ≡ true
    → is_argument v ≡ true
    → IsBuilt g args
    → IsBuilt g (args ++ a ∷ v ∷ [])
unfolding IsBuilt ReadsOn is_free
free-IsBuilt g args a v flag value h = (
  λ rest.
      rw (append_assoc args (a ∷ v ∷ []) rest)
        (h.0 (a ∷ v ∷ rest) ∙ free-positionals g a v rest flag),
  All-append (λ b. is_argument b ≡ true) args (a ∷ v ∷ []) h.1 (ground arith, (value, tt)),
)

pub named-IsBuilt :
    (g : Grammar) (args : List Str) (a v : Str)
    → is_named g a ≡ true
    → is_name v ≡ true
    → is_argument v ≡ true
    → IsBuilt g args
    → IsBuilt g (args ++ a ∷ v ∷ [])
unfolding IsBuilt ReadsOn is_named
named-IsBuilt g args a v flag name value h = (
  λ rest.
      rw (append_assoc args (a ∷ v ∷ []) rest)
        (h.0 (a ∷ v ∷ rest) ∙ named-positionals g a v rest flag name),
  All-append (λ b. is_argument b ≡ true) args (a ∷ v ∷ []) h.1 (ground arith, (value, tt)),
)

-- ===== src/CommandLine/Flags.antt =====
-- Flags that are appended under a test, and what is read behind whole flags.
use agentrun.Prelude.{
  ◌≡◌, refl, Str, bytes, str_eq, str_eq_iff, Bool, true, false, not, ◌&&◌, some, List, [], ◌∷◌,
  ◌++◌, if◌then◌else◌, arith, contains, All, All-append, Bool-cases, inl, inr, if_intro, sym, ap,
  ◌∙◌,
}
use agentrun.OptionValues.{starts_with_dash, is_abs, add_dirs}
use agentrun.CommandLine.{
  Grammar, dashes, positionals, ReadsOn, is_argument, IsBuilt, is_bare, is_guarded, is_free,
  is_dashless, bare-IsBuilt, guarded-IsBuilt, free-IsBuilt, is_name, is_named, named-IsBuilt,
}

-- A flag that is appended if a test holds.
pub bare_if-IsBuilt :
    (g : Grammar) (args : List Str) (a : Str) (test : Bool)
    → is_bare g a ≡ true
    → IsBuilt g args
    → IsBuilt g (if test then args ++ a ∷ [] else args)
bare_if-IsBuilt g args a test flag h = if_intro (IsBuilt g) test (bare-IsBuilt g args a flag h) h

pub guarded_if-IsBuilt :
    (g : Grammar) (args : List Str) (a v : Str) (test : Bool)
    → is_guarded g a ≡ true
    → (test ≡ true → is_dashless v ≡ true)
    → IsBuilt g args
    → IsBuilt g (if test then args ++ a ∷ v ∷ [] else args)
guarded_if-IsBuilt g args a v true flag value h = guarded-IsBuilt g args a v flag (value refl) h
guarded_if-IsBuilt g args a v false flag value h = h

pub free_if-IsBuilt :
    (g : Grammar) (args : List Str) (a v : Str) (test : Bool)
    → is_free g a ≡ true
    → (test ≡ true → is_argument v ≡ true)
    → IsBuilt g args
    → IsBuilt g (if test then args ++ a ∷ v ∷ [] else args)
free_if-IsBuilt g args a v true flag value h = free-IsBuilt g args a v flag (value refl) h
free_if-IsBuilt g args a v false flag value h = h

pub named_if-IsBuilt :
    (g : Grammar) (args : List Str) (a v : Str) (test : Bool)
    → is_named g a ≡ true
    → (test ≡ true → is_name v ≡ true)
    → (test ≡ true → is_argument v ≡ true)
    → IsBuilt g args
    → IsBuilt g (if test then args ++ a ∷ v ∷ [] else args)
named_if-IsBuilt g args a v true flag name value h =
    named-IsBuilt g args a v flag (name refl) (value refl) h
named_if-IsBuilt g args a v false flag name value h = h

pub add_dirs-IsBuilt :
    (g : Grammar) (args : List Str) (a : Str) (dirs : List Str)
    → is_guarded g a ≡ true
    → All (λ d. is_argument d ≡ true) dirs
    → IsBuilt g args
    → IsBuilt g (add_dirs args a dirs)
unfolding add_dirs
add_dirs-IsBuilt g args a [] flag clean h = h
add_dirs-IsBuilt g args a (dir ∷ dirs) flag clean h =
    add_dirs-IsBuilt g
      (if is_abs dir && not (starts_with_dash dir) then args ++ a ∷ dir ∷ [] else args) a dirs flag
      clean.1
      (guarded_if-IsBuilt g args a dir (is_abs dir && not (starts_with_dash dir)) flag
        (λ test. and_both clean.0 test) h)
  where
    and_both :
        is_argument dir ≡ true
        → is_abs dir && not (starts_with_dash dir) ≡ true
        → is_dashless dir ≡ true
    and_both clean test = ground arith

-- What is read behind whole flags, and that no argument has a null byte.
pub IsBuilt-positionals :
    (g : Grammar) (args rest : List Str)
    → IsBuilt g args
    → All (λ a. is_argument a ≡ true) rest
    → (positionals g (args ++ rest) ≡ positionals g rest)
      × All (λ a. is_argument a ≡ true) (args ++ rest)
unfolding IsBuilt ReadsOn
IsBuilt-positionals g args rest h clean =
    (h.0 rest, All-append (λ a. is_argument a ≡ true) args rest h.1 clean)

all_dashed : List Str → Bool
all_dashed [] = true
all_dashed (a ∷ flags) = starts_with_dash a && all_dashed flags

-- All flags start with a dash.
unfoldable pub is_dashed : Grammar → Bool
unfolding all_dashed
is_dashed g =
    all_dashed g.bare && (all_dashed g.guarded && (all_dashed g.free && all_dashed g.named))

dashless-absent :
    (flags : List Str) (a : Str)
    → all_dashed flags ≡ true
    → starts_with_dash a ≡ false
    → contains flags a ≡ false
unfolding all_dashed contains
dashless-absent [] a h e = refl
dashless-absent (b ∷ flags) a h e =
    let rest : all_dashed flags ≡ true → contains flags a ≡ false =
      λ k. dashless-absent flags a k e in
    elim (Bool-cases (str_eq b a)) [
      | inl same ↦
          let dash : starts_with_dash b ≡ true = ground arith in
          let clash : true ≡ false = sym dash ∙ ap starts_with_dash ((str_eq_iff b a).0 same) ∙ e in
          absurd (cc clash)
      | inr other ↦ ground arith
    ]

dashless-no_dashes : (a : Str) → starts_with_dash a ≡ false → str_eq a dashes ≡ false
unfolding starts_with_dash str_eq
dashless-no_dashes [] e = refl
dashless-no_dashes (b ∷ a) e = ground arith

-- An argument that does not start with a dash is positional, as is all behind it.
pub dashless-positionals :
    (g : Grammar) (a : Str)
    → is_dashed g ≡ true
    → starts_with_dash a ≡ false
    → positionals g (a ∷ []) ≡ some (a ∷ [])
unfolding positionals is_dashed
dashless-positionals g a h e =
    let bare = dashless-absent g.bare a in
    let guarded = dashless-absent g.guarded a in
    let free = dashless-absent g.free a in
    let named = dashless-absent g.named a in let no_dashes = dashless-no_dashes a e in ground arith

-- All arguments behind the separator are positional.
pub separator-positionals :
    (g : Grammar) (rest : List Str) → positionals g (bytes "--" ∷ rest) ≡ some rest
unfolding positionals str_eq
separator-positionals g [] = refl
separator-positionals g (v ∷ rest) = refl

-- ===== src/OptionValues/Entries.antt =====
-- The entries of a list option.
use agentrun.Prelude.{
  ◌≡◌, refl, Str, Bool, true, false, not, ◌&&◌, ◌||◌, List, [], ◌∷◌, if◌then◌else◌, is_empty,
  contains_byte, All, All-append, Assoc, if_intro, arith,
}
use agentrun.Session.{get_or_empty}
use agentrun.OptionValues.{list_entry, list_entries, split_lines, trim_space, parse_list_option}

abbrev pub is_entry : Str → Bool
is_entry p = not (is_empty p) && not (contains_byte p 0)

list_entry-is_entry :
    (p : Str) (skipped : Bool)
    → is_empty p || contains_byte p 0 ≡ skipped
    → All (λ e. is_entry e ≡ true) (if skipped then [] else p ∷ [])
list_entry-is_entry p true e = tt
list_entry-is_entry p false e = (ground arith, tt)

list_entries-is_entry : (parts : List Str) → All (λ e. is_entry e ≡ true) (list_entries parts)
unfolding list_entries
list_entries-is_entry [] = tt
list_entries-is_entry (p ∷ parts) =
    All-append (λ e. is_entry e ≡ true) (list_entry (trim_space p)) (list_entries parts)
      (list_entry-is_entry (trim_space p)
        (is_empty (trim_space p) || contains_byte (trim_space p) 0) refl)
      (list_entries-is_entry parts)

pub parse_list_option-is_entry :
    (opts : Assoc Str) (key : Str) → All (λ e. is_entry e ≡ true) (parse_list_option opts key)
unfolding parse_list_option
parse_list_option-is_entry opts key =
    if_intro (All (λ e. is_entry e ≡ true)) (is_empty (get_or_empty opts key)) tt
      (list_entries-is_entry (split_lines (get_or_empty opts key)))

pub parse_list_option-has_no_null :
    (opts : Assoc Str) (key : Str)
    → All (λ e. not (contains_byte e 0) ≡ true) (parse_list_option opts key)
parse_list_option-has_no_null opts key =
    without_null (parse_list_option opts key) (parse_list_option-is_entry opts key)
  where
    without_null :
        (entries : List Str)
        → All (λ e. is_entry e ≡ true) entries
        → All (λ e. not (contains_byte e 0) ≡ true) entries
    without_null [] h = tt
    without_null (e ∷ entries) h = (ground arith, without_null entries h.1)

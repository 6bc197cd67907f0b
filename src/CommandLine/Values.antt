-- ===== src/CommandLine/Values.antt =====
-- Values that the backends test before they follow a flag.
use agentrun.Prelude.{
  ◌≡◌, refl, Str, bytes, str_eq, str_eq_iff, contains_byte, true, not, ◌&&◌, is_empty, arith, sym,
  subst,
}
use agentrun.Session.{is_effort}
use agentrun.Json.{contains_null}
use agentrun.OptionValues.{starts_with_dash, is_safe}
use agentrun.CommandLine.{is_argument, is_dashless}

-- A value that equals a word which is none of a flag.
pub word-is_dashless : (v w : Str) → is_dashless w ≡ true → str_eq v w ≡ true → is_dashless v ≡ true
word-is_dashless v w h same = subst (λ x. is_dashless x ≡ true) (sym ((str_eq_iff v w).0 same)) h

pub is_effort-is_dashless : (e : Str) → is_effort e ≡ true → is_dashless e ≡ true
unfolding is_effort starts_with_dash contains_byte
is_effort-is_dashless e h =
    let low = word-is_dashless e (bytes "low") refl in
    let medium = word-is_dashless e (bytes "medium") refl in
    let high = word-is_dashless e (bytes "high") refl in ground arith

pub is_safe-is_dashless : (v : Str) → is_safe v ≡ true → is_dashless v ≡ true
is_safe-is_dashless v h = ground arith

pub without_null :
    (v : Str) → not (is_empty v) && not (contains_null v) ≡ true → is_argument v ≡ true
unfolding contains_null
without_null v h = ground arith

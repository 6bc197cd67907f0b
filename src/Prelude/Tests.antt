-- ===== src/Prelude/Tests.antt =====
-- Boolean tests on the native numbers, the conditional, and case splits that keep the equation.
use Prim.Native.Nat.{ℕ, compare, Ordering}
use mathlib.Core.Path.{◌≡◌, refl, subst}
use mathlib.Core.Logic.{◌↔◌, ◌⊎◌, inl, inr}
use mathlib.Core.Bool.{Bool, true, false}
use mathlib.Core.Option.{Option, none, some}
use native.Mathlib.Omega.{arith}

abbrev pub ltb : ℕ → ℕ → Bool
ltb a b = elim (compare a b) [ Ordering.lt ↦ true | _ ↦ false ]

abbrev pub leb : ℕ → ℕ → Bool
leb a b = elim (compare a b) [ Ordering.gt ↦ false | _ ↦ true ]

infix 50 ◌==◌
abbrev pub ◌==◌ : ℕ → ℕ → Bool
a == b = elim (compare a b) [ Ordering.eq ↦ true | _ ↦ false ]

infix 1 if◌then◌else◌
abbrev pub if◌then◌else◌ {ℓ} : {A : Type ℓ} → Bool → A → A → A
if true then x else y = x
if false then x else y = y

pub ==_iff : (a b : ℕ) → ((a == b) ≡ true) ↔ (a ≡ b)
==_iff a b = ground arith

pub Bool-cases : (b : Bool) → (b ≡ true) ⊎ (b ≡ false)
Bool-cases true = inl refl
Bool-cases false = inr refl

pub Option-cases {ℓ} : {A : Type ℓ} (o : Option A) → (o ≡ none) ⊎ ((a : A) × (o ≡ some a))
Option-cases none = inl refl
Option-cases (some a) = inr (a, refl)

abbrev pub has {ℓ} : {A : Type ℓ} → Option A → Bool
has none = false
has (some a) = true

pub some_inj {ℓ} : {A : Type ℓ} {a b : A} → some a ≡ some b → a ≡ b
some_inj e = cc

-- A conditional satisfies what both of its branches do.
pub if_intro {ℓ κ} :
    {A : Type ℓ} (P : A → Type κ) {a b : A} (test : Bool) → P a → P b → P (if test then a else b)
if_intro P true h k = h
if_intro P false h k = k

pub if_cases {ℓ κ} :
    {A : Type ℓ} (P : A → Type κ) {a b : A} (test : Bool)
    → (test ≡ true → P a)
    → (test ≡ false → P b)
    → P (if test then a else b)
if_cases P true h k = h refl
if_cases P false h k = k refl

-- A value that is built unless a test holds.
pub of_unless {ℓ κ} :
    {A : Type ℓ} {a b : A} (test : Bool) (P : A → Type κ)
    → (if test then none else some a) ≡ some b
    → P a
    → P b
of_unless true P h pa = absurd (cc h)
of_unless false P h pa = subst P (some_inj h) pa

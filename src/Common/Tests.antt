-- ===== src/Common/Tests.antt =====
-- Boolean tests on native numbers and on texts, the conditional, and case lemmas.
use Prim.Native.Nat.{ℕ, compare, Ordering}
use Prim.Native.String.{String}
use mathlib.Core.Path.{◌≡◌, refl}
use mathlib.Core.Logic.{◌≢◌, ◌↔◌, ◌⊎◌, inl, inr}
use mathlib.Core.Bool.{Bool, true, false}
use mathlib.Core.Option.{Option, none, some}
use text.Mathlib.TextEquality.{eq_iff}
use text.Mathlib.Text.{◌==◌ as text_eq}

abbrev pub ltb : ℕ → ℕ → Bool
ltb a b = elim (compare a b) [ Ordering.lt ↦ true | _ ↦ false ]

abbrev pub leb : ℕ → ℕ → Bool
leb a b = elim (compare a b) [ Ordering.gt ↦ false | _ ↦ true ]

infix 50 ◌==◌
abbrev pub ◌==◌ : ℕ → ℕ → Bool
a == b = elim (compare a b) [ Ordering.eq ↦ true | _ ↦ false ]

-- `==` of Go's strings.
abbrev pub str_eq : String → String → Bool
str_eq a b = text_eq a b

infix 1 if◌then◌else◌
abbrev pub if◌then◌else◌ {ℓ} : {A : Type ℓ} → Bool → A → A → A
if true then x else y = x
if false then x else y = y

pub str_eq_iff : (a b : String) → (str_eq a b ≡ true) ↔ (a ≡ b)
str_eq_iff a b = eq_iff a b

pub str_eq_refl : (a : String) → str_eq a a ≡ true
str_eq_refl a = (eq_iff a a).1 refl

pub Bool-cases : (b : Bool) → (b ≡ true) ⊎ (b ≡ false)
Bool-cases true = inl refl
Bool-cases false = inr refl

pub Option-cases {ℓ} : {A : Type ℓ} (o : Option A) → (o ≡ none) ⊎ ((a : A) × (o ≡ some a))
Option-cases none = inl refl
Option-cases (some a) = inr (a, refl)

-- Two texts are equal, or their test says that they differ.
pub str_cases : (a b : String) → (a ≡ b) ⊎ (str_eq a b ≡ false)
str_cases a b = elim (Bool-cases (str_eq a b)) [ inl e ↦ inl ((eq_iff a b).0 e) | inr e ↦ inr e ]

pub some_inj {ℓ} : {A : Type ℓ} {a b : A} → some a ≡ some b → a ≡ b
some_inj e = cc

pub str_ne : {a b : String} → a ≢ b → str_eq a b ≡ false
str_ne {a} {b} h = elim (str_cases a b) [ inl e ↦ absurd (h e) | inr e ↦ e ]

pub ne_of_str_eq : (a b : String) → str_eq a b ≡ false → a ≢ b
ne_of_str_eq a b h e = absurd (differ (str_eq a b) h ((eq_iff a b).1 e))
  where
    differ : (t : Bool) → t ≡ false → t ≡ true → ⊥
    differ true p q = cc
    differ false p q = cc

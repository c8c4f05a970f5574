-- ===== src/Common/Members.antt =====
-- Members of a list that a test or a predicate picks.
use mathlib.Core.List.Memᴰ
use mathlib.Core.Path.{◌≡◌, refl, sym, subst}
use mathlib.Core.Logic.{◌↔◌, inl, inr}
use mathlib.Core.Bool.{Bool, true, false, not}
use mathlib.Core.List.{List, [], ◌∷◌, Memᴰ}
use conference_go.Common.Tests.{Bool-cases}
use conference_go.Common.Lists.{any}

pub true-ne-false : {b : Bool} → b ≡ true → b ≡ false → ⊥
true-ne-false {b} p q = cc

-- What holds of all, and of some, of the members of a list.
abbrev pub Every {ℓ} : {A : Type ℓ} → (A → Type 0) → List A → Type ℓ
Every {A = A} P l = (x : A) → Memᴰ x l → P x

abbrev pub Exists {ℓ} : {A : Type ℓ} → (A → Type 0) → List A → Type ℓ
Exists {A = A} P l = (x : A) × Memᴰ x l × P x

-- A test that reflects a predicate, on the members of a list.
module _ {A : Type 0} (P : A → Type 0) (test : A → Bool)
    (reflects : (x : A) → (test x ≡ true) ↔ P x) where
  pub any_iff : (l : List A) → (any test l ≡ true) ↔ Exists P l
  any_iff [] = (λ e. cc, λ (x, m, _). absurd (Memᴰ.not-nil m))
  any_iff (y ∷ l) = elim (Bool-cases (test y)) [
    | inl k ↦ rw k (λ _. (y, Memᴰ.head refl, (reflects y).0 k), λ _. refl)
    | inr k ↦ rw k (
      λ e. let (x, m, q) = (any_iff l).0 e in (x, Memᴰ.tail m, q),
      λ (x, m, q). elim (Memᴰ.cases_cons m) [
        | inl e ↦ absurd (true-ne-false ((reflects y).1 (subst P e q)) k)
        | inr m' ↦ (any_iff l).1 (x, m', q)
      ],
    )
  ]

  -- A counterexample to the predicate is what the test of its opposite finds.
  pub none-any : (l : List A) → (any (λ x. not (test x)) l ≡ false) ↔ Every P l
  none-any [] = (λ e x m. absurd (Memᴰ.not-nil m), λ _. refl)
  none-any (y ∷ l) = elim (Bool-cases (test y)) [
    | inl k ↦ rw k (
      λ e x m. elim (Memᴰ.cases_cons m) [
        | inl e' ↦ subst P (sym e') ((reflects y).0 k)
        | inr m' ↦ (none-any l).0 e x m'
      ],
      λ h. (none-any l).1 (λ x m. h x (Memᴰ.tail m)),
    )
    | inr k ↦ rw k (λ e. cc, λ h. absurd (true-ne-false ((reflects y).1 (h y (Memᴰ.head refl))) k))
  ]

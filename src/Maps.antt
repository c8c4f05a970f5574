-- ===== src/Maps.antt =====
-- Go's maps with texts as keys: association lists in which no key occurs twice.
pub mod Keyed
use mathlib.Core.List.Memᴰ
use conference_go.Common.{
  String, List, [], ◌∷◌, Option, none, some, str_eq, str_eq_iff, if◌then◌else◌, ◌≡◌, refl, ◌∙◌, inl,
  inr, arith, Bool-cases, Memᴰ, some_inj, ap, ap₂, sym, str_eq_refl,
}

abbrev pub AssocMap {ℓ} : Type ℓ → Type ℓ
AssocMap A = List (String × A)

module _ {ℓ} {A : Type ℓ} where
  -- `m[key]`
  unfoldable pub lookup : String → AssocMap A → Option A
  lookup id [] = none
  lookup id ((key, v) ∷ m) = if str_eq key id then some v else lookup id m

  -- `m[id] = v`
  unfoldable pub insert : String → A → AssocMap A → AssocMap A
  insert id v [] = (id, v) ∷ []
  insert id v ((key, old) ∷ m) = if str_eq key id then (key, v) ∷ m else (key, old) ∷ insert id v m

  -- `delete(m, id)`
  unfoldable pub erase : String → AssocMap A → AssocMap A
  erase id [] = []
  erase id ((key, old) ∷ m) =
      let rest = erase id m in if str_eq key id then rest else (key, old) ∷ rest

  pub lookup-insert :
      (j id : String) (v : A) (m : AssocMap A)
      → lookup j (insert id v m) ≡ (if str_eq id j then some v else lookup j m)
  unfolding lookup insert
  lookup-insert j id v [] = refl
  lookup-insert j id v ((key, old) ∷ m) =
      ground (arith, str_eq_iff key id, str_eq_iff key j, str_eq_iff id j, lookup-insert j id v m)

  pub lookup-erase :
      (j id : String) (m : AssocMap A)
      → lookup j (erase id m) ≡ (if str_eq id j then none else lookup j m)
  unfolding lookup erase
  lookup-erase j id [] = ground arith
  lookup-erase j id ((key, old) ∷ m) =
      ground (arith, str_eq_iff key id, str_eq_iff key j, str_eq_iff id j, lookup-erase j id m)

  -- No key occurs twice.
  abbrev pub AreDistinct : AssocMap A → Type ℓ
  AreDistinct [] = Unit
  AreDistinct ((key, v) ∷ m) = (lookup key m ≡ none) × AreDistinct m

  pub insert-AreDistinct :
      (key : String) (v : A) (m : AssocMap A) → AreDistinct m → AreDistinct (insert key v m)
  unfolding insert lookup
  insert-AreDistinct key v [] h = (refl, tt)
  insert-AreDistinct key v ((k, old) ∷ m) (h, hs) = elim (Bool-cases (str_eq k key)) [
    | inl e ↦ rw ((str_eq_iff k key).1 ((str_eq_iff k key).0 e)) (h, hs)
    | inr ne ↦ rw ne (
      lookup-insert k key v m ∙ ground (arith, h, ne, str_eq_iff key k, str_eq_iff k key),
      insert-AreDistinct key v m hs,
    )
  ]

  -- An entry of the list is what its key finds.
  pub mem-lookup :
      (key : String) (v : A) (m : AssocMap A)
      → AreDistinct m
      → Memᴰ (key, v) m
      → lookup key m ≡ some v
  unfolding lookup
  mem-lookup key v [] h d = absurd (Memᴰ.not-nil d)
  mem-lookup key v ((k, w) ∷ m) (h, hs) d = elim (Memᴰ.cases_cons d) [
    | inl e ↦ rw (
      sym (ap (λ (p : String × A). p.0) e),
      str_eq_refl key,
      sym (ap (λ (p : String × A). p.1) e),
    )
    | inr d' ↦ ground (arith, h, mem-lookup key v m hs d', str_eq_iff k key)
  ]

  pub lookup_mem : (key : String) (v : A) (m : AssocMap A) → lookup key m ≡ some v → Memᴰ (key, v) m
  unfolding lookup
  lookup_mem key v [] e = cc
  lookup_mem key v ((k, w) ∷ m) e = elim (Bool-cases (str_eq k key)) [
    | inl q ↦
        Memᴰ.head (
          ap₂ (λ a b. (a, b)) (sym ((str_eq_iff k key).0 q)) (sym (some_inj (rw (q, lookup) at e))))
    | inr q ↦ Memᴰ.tail (lookup_mem key v m (rw (q, lookup) at e))
  ]

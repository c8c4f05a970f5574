-- ===== src/Maps/Keyed.antt =====
-- Go's maps with keys of another type than texts, by a test of the keys.
use conference_go.Common.{
  Bool, true, List, [], ◌∷◌, Option, none, some, if◌then◌else◌, ◌≡◌, refl, ◌↔◌, arith,
}

abbrev pub KeyMap {ℓ} : Type ℓ → Type ℓ → Type ℓ
KeyMap K A = List (K × A)

module _ {ℓ} {K A : Type ℓ} (eq : K → K → Bool) where
  -- `m[key]`
  unfoldable pub find_key : K → KeyMap K A → Option A
  find_key key [] = none
  find_key key ((k, v) ∷ m) = if eq k key then some v else find_key key m

  -- `m[key] = v`
  unfoldable pub put_key : K → A → KeyMap K A → KeyMap K A
  put_key key v [] = (key, v) ∷ []
  put_key key v ((k, old) ∷ m) = if eq k key then (k, v) ∷ m else (k, old) ∷ put_key key v m

  -- `delete(m, key)`
  unfoldable pub delete_key : K → KeyMap K A → KeyMap K A
  delete_key key [] = []
  delete_key key ((k, old) ∷ m) =
      let rest = delete_key key m in if eq k key then rest else (k, old) ∷ rest

  module _ (h : (a b : K) → (eq a b ≡ true) ↔ (a ≡ b)) where
    pub find-put_key :
        (j key : K) (v : A) (m : KeyMap K A)
        → find_key j (put_key key v m) ≡ (if eq key j then some v else find_key j m)
    unfolding find_key put_key
    find-put_key j key v [] = refl
    find-put_key j key v ((k, old) ∷ m) =
        ground (arith, h k key, h k j, h key j, find-put_key j key v m)

    pub find-delete_key :
        (j key : K) (m : KeyMap K A)
        → find_key j (delete_key key m) ≡ (if eq key j then none else find_key j m)
    unfolding find_key delete_key
    find-delete_key j key [] = ground arith
    find-delete_key j key ((k, old) ∷ m) =
        ground (arith, h k key, h k j, h key j, find-delete_key j key m)

-- ===== src/Collection.antt =====
-- utils/collection.go: the helpers on slices. A slice is a list, and a nil slice reads as an empty one.
pub mod Compact
pub mod Search
pub mod Unordered
use conference_go.Common.{
  ℕ, zero, suc, ◌+◌, Bool, true, false, not, List, [], ◌∷◌, ◌++◌, Option, none, some, if◌then◌else◌,
  get_elem?, set, take, length,
}

module _ {ℓ} {A : Type ℓ} where
  -- `InSlice`, with its comparer
  unfoldable pub in_slice : List A → A → (A → A → Bool) → Bool
  in_slice [] target comparer = false
  in_slice (e ∷ slice) target comparer =
      if comparer e target then true else in_slice slice target comparer

  -- `InSlice2` and `SliceAnyMatch`
  unfoldable pub slice_any_match : List A → (A → Bool) → Bool
  slice_any_match [] predicate = false
  slice_any_match (v ∷ slice) predicate =
      if predicate v then true else slice_any_match slice predicate

  -- `SliceAllMatch`
  unfoldable pub slice_all_match : List A → (A → Bool) → Bool
  slice_all_match [] predicate = true
  slice_all_match (v ∷ slice) predicate =
      if not (predicate v) then false else slice_all_match slice predicate

  unfoldable pub index_from : ℕ → List A → A → (A → A → Bool) → Option ℕ
  index_from i [] target comparer = none
  index_from i (e ∷ slice) target comparer =
      let later = index_from (suc i) slice target comparer in
      if comparer e target then some i else later

  -- `IndexOf`; the result -1 is `none`.
  unfoldable pub index_of : List A → A → (A → A → Bool) → Option ℕ
  unfolding index_from
  index_of slice target comparer = index_from 0 slice target comparer

  -- `SliceAppendNoRepeat`
  unfoldable pub slice_append_no_repeat : (A → A → Bool) → List A → List A → List A
  unfolding in_slice
  slice_append_no_repeat eq slice [] = slice
  slice_append_no_repeat eq slice (value ∷ values) =
      slice_append_no_repeat eq (if in_slice slice value eq then slice else slice ++ value ∷ [])
        values

  -- The loop of a removal that appends what it keeps to a new slice.
  unfoldable pub kept_copy : (A → Bool) → List A → List A → List A
  kept_copy keep out [] = out
  kept_copy keep out (v ∷ slice) = kept_copy keep (if keep v then out ++ v ∷ [] else out) slice

  -- The same loop on `slice[0:0]`: it writes to the array that it reads. Rounds left, the index, and
  -- the length of what is kept.
  unfoldable pub kept_in_place : (A → Bool) → ℕ → ℕ → ℕ → List A → List A
  kept_in_place keep zero i pos array = take pos array
  kept_in_place keep (suc n) i pos array = elim (get_elem? array i) [
    | none ↦ take pos array
    | some v ↦
        kept_in_place keep n (suc i) (if keep v then suc pos else pos)
          (if keep v then set array pos v else array)
  ]

  unfoldable pub kept : (A → Bool) → List A → Bool → List A
  unfolding kept_copy kept_in_place
  kept keep slice true = kept_copy keep [] slice
  kept keep slice false = kept_in_place keep (length slice) 0 0 slice

  -- `SliceRemoveIf`
  unfoldable pub slice_remove_if : List A → Bool → (A → Bool) → List A
  unfolding kept
  slice_remove_if [] copy cond = []
  slice_remove_if (v ∷ slice) copy cond = kept (λ v. not (cond v)) (v ∷ slice) copy

  -- `SliceRemoveByValue`
  unfoldable pub slice_remove_by_value : (A → A → Bool) → List A → Bool → A → List A
  unfolding kept
  slice_remove_by_value eq [] copy value = []
  slice_remove_by_value eq (v ∷ slice) copy value = kept (λ v. not (eq v value)) (v ∷ slice) copy

  -- `SliceRemoveByValues`
  unfoldable pub slice_remove_by_values : (A → A → Bool) → List A → Bool → List A → List A
  unfolding kept in_slice
  slice_remove_by_values eq [] copy values = []
  slice_remove_by_values eq (v ∷ slice) copy values =
      kept (λ v. not (in_slice values v eq)) (v ∷ slice) copy

  -- `SliceRemoveByValuesAndReturnRemoved`
  unfoldable pub slice_remove_by_values_and_return_removed :
      (A → A → Bool) → List A → Bool → List A → List A × List A
  unfolding kept kept_copy in_slice
  slice_remove_by_values_and_return_removed eq [] copy values = ([], [])
  slice_remove_by_values_and_return_removed eq (v ∷ slice) copy values = (
    kept (λ v. not (in_slice values v eq)) (v ∷ slice) copy,
    kept_copy (λ v. in_slice values v eq) [] (v ∷ slice),
  )

  -- The loop of `SliceMapChange`: in place, with a mapper that may change what it keeps. A short result
  -- is cloned, which gives the same list.
  unfoldable pub map_in_place : (A → Option A) → ℕ → ℕ → ℕ → List A → List A
  map_in_place mapper zero i pos array = take pos array
  map_in_place mapper (suc n) i pos array = elim (get_elem? array i) [
    | none ↦ take pos array
    | some v ↦ elim (mapper v) [
      | none ↦ map_in_place mapper n (suc i) pos array
      | some o ↦ map_in_place mapper n (suc i) (suc pos) (set array pos o)
    ]
  ]

  unfoldable pub slice_map_change : List A → (A → Option A) → List A
  unfolding map_in_place
  slice_map_change slice mapper = map_in_place mapper (length slice) 0 0 slice

module _ {ℓ κ} {A : Type ℓ} {B : Type κ} where
  -- The loop of `SliceMapNew`: it fills the front of a new slice, of which it returns the filled part.
  map_new_from : (A → Option B) → List B → List A → List B
  map_new_from mapper out [] = out
  map_new_from mapper out (v ∷ slice) = elim (mapper v) [
    | none ↦ map_new_from mapper out slice
    | some o ↦ map_new_from mapper (out ++ o ∷ []) slice
  ]

  -- `SliceMapNew`; a mapper that says `remove` gives `none`.
  unfoldable pub slice_map_new : List A → (A → Option B) → List B
  unfolding map_new_from
  slice_map_new slice mapper = map_new_from mapper [] slice

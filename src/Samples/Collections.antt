-- ===== src/Samples/Collections.antt =====
-- utils/collection.go on small inputs.
use mathlib.Core.List.Memᴰ
use conference_go.Common.{
  inl, inr, ne_of_str_eq, ℕ, suc, String, Bool, true, false, List, [], ◌∷◌, Option, none, some,
  ◌==◌, if◌then◌else◌, ◌≡◌, refl, str_eq,
}
use conference_go.Collection.{
  index_of, slice_append_no_repeat, slice_map_change, slice_remove_by_value, slice_remove_by_values,
}
use conference_go.Collection.Search.{AreUnrepeated}

abbrev numbers : List ℕ
numbers = 3 ∷ 0 ∷ 5 ∷ 0 ∷ 7 ∷ []

abbrev is_zero : ℕ → Bool
is_zero n = n == 0

abbrev next_of_filled : ℕ → Option ℕ
next_of_filled n = if is_zero n then none else some (suc n)

abbrev same : ℕ → ℕ → Bool
same a b = a == b

collection_runs :
    (slice_map_change numbers next_of_filled ≡ 4 ∷ 6 ∷ 8 ∷ [])
    × (slice_remove_by_value same numbers false 0 ≡ 3 ∷ 5 ∷ 7 ∷ [])
    × (slice_remove_by_values same numbers true (7 ∷ 0 ∷ []) ≡ 3 ∷ 5 ∷ [])
unfolding slice_map_change slice_remove_by_value slice_remove_by_values
collection_runs = (refl, refl, refl)

abbrev kinds : List String
kinds = "video" ∷ "audio" ∷ []

search_runs :
    (index_of kinds "audio" str_eq ≡ some 1)
    × (index_of kinds "text" str_eq ≡ none)
    × (slice_append_no_repeat str_eq kinds ("text" ∷ "audio" ∷ "text" ∷ [])
        ≡ "video" ∷ "audio" ∷ "text" ∷ [])
unfolding index_of slice_append_no_repeat
search_runs = (refl, refl, refl)

kinds_unrepeated : AreUnrepeated kinds
kinds_unrepeated = (
  λ m. elim (Memᴰ.cases_cons m) [
    | inl e ↦ ne_of_str_eq "video" "audio" refl e
    | inr m ↦ Memᴰ.not-nil m
  ],
  (λ m. Memᴰ.not-nil m, tt),
)

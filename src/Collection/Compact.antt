-- ===== src/Collection/Compact.antt =====
-- The loops that write to the array which they read give what a copy would give.
use conference_go.Common.{
  ℕ, zero, suc, Bool, true, false, not, List, [], ◌∷◌, ◌++◌, Option, none, some, if◌then◌else◌,
  get_elem?, set, take, length, ◌≡◌, refl, ◌∙◌, sym, ap₂, arith, Bool-cases, Option-cases,
  get_elem?-append, set-append, take-append, length-append, append-nil, append_assoc, inl, inr,
}
use conference_go.Collection.{
  kept_copy, kept_in_place, kept, slice_remove_if, map_in_place, slice_map_change, slice_map_new,
  map_new_from, slice_remove_by_values_and_return_removed, in_slice,
}

abbrev pub push_front {κ} : {B : Type κ} → Option B → List B → List B
push_front none out = out
push_front (some o) out = o ∷ out

module _ {ℓ κ} {A : Type ℓ} {B : Type κ} where
  -- What the mapper makes of each member, in order, without what it removes.
  abbrev pub mapped : (A → Option B) → List A → List B
  mapped mapper [] = []
  mapped mapper (v ∷ rest) = push_front (mapper v) (mapped mapper rest)

  map_new_from_lem :
      (mapper : A → Option B) (slice : List A) (out : List B)
      → map_new_from mapper out slice ≡ out ++ mapped mapper slice
  unfolding map_new_from
  map_new_from_lem mapper [] out = sym (append-nil out)
  map_new_from_lem mapper (v ∷ slice) out = elim (Option-cases (mapper v)) [
    | inl e ↦ rw (e, map_new_from) (map_new_from_lem mapper slice out)
    | inr (o, e) ↦
        rw (e, map_new_from)
          (map_new_from_lem mapper slice (out ++ o ∷ [])
            ∙ append_assoc out (o ∷ []) (mapped mapper slice))
  ]

module _ {ℓ} {A : Type ℓ} where
  -- The array is what is kept, then old members, then what is not yet read.
  pub record Split (w g rest : List A) (n i pos : ℕ) (array : List A) : Type ℓ where
    pub rounds : n ≡ length rest
    pub index : i ≡ length (w ++ g)
    pub position : pos ≡ length w
    pub contents : array ≡ (w ++ g) ++ rest

  snoc : (w g rest : List A) (v : A) → (w ++ g) ++ v ∷ rest ≡ (w ++ (g ++ v ∷ [])) ++ rest
  snoc w g rest v = simp append_assoc

  pub Split-drop :
      (w g rest : List A) (v : A) (n i pos : ℕ) (array : List A)
      → Split w g (v ∷ rest) (suc n) i pos array
      → Split w (g ++ v ∷ []) rest n (suc i) pos array
  Split-drop w g rest v n i pos array s = record {
    rounds = omega (arith, s.rounds);
    index = omega (
      arith,
      s.index,
      length-append w g,
      length-append w (g ++ v ∷ []),
      length-append g (v ∷ []),
    );
    position = s.position;
    contents = s.contents ∙ snoc w g rest v;
  }

  -- The free places after a write.
  abbrev pub shifted : List A → A → List A
  shifted [] v = []
  shifted (x ∷ g) v = g ++ v ∷ []

  pub Split-keep :
      (w g rest : List A) (v o : A) (n i pos : ℕ) (array : List A)
      → Split w g (v ∷ rest) (suc n) i pos array
      → Split (w ++ o ∷ []) (shifted g v) rest n (suc i) (suc pos) (set array pos o)
  Split-keep w [] rest v o n i pos array s = record {
    rounds = omega (arith, s.rounds);
    index = omega (
      arith,
      s.index,
      length-append w [],
      length-append (w ++ o ∷ []) [],
      length-append w (o ∷ []),
    );
    position = omega (arith, s.position, length-append w (o ∷ []));
    contents = ap₂ (λ a p. set a p o) s.contents s.position ∙ simp append_assoc (simp (set-append));
  }
  Split-keep w (x ∷ g) rest v o n i pos array s = record {
    rounds = omega (arith, s.rounds);
    index = omega (
      arith,
      s.index,
      length-append w (x ∷ g),
      length-append (w ++ o ∷ []) (g ++ v ∷ []),
      length-append w (o ∷ []),
      length-append g (v ∷ []),
    );
    position = omega (arith, s.position, length-append w (o ∷ []));
    contents = ap₂ (λ a p. set a p o) s.contents s.position ∙ simp append_assoc (simp (set-append));
  }

module _ {ℓ} {A : Type ℓ} (mapper : A → Option A) where
  map_in_place_lem :
      (w g rest : List A) (n i pos : ℕ) (array : List A)
      → Split w g rest n i pos array
      → map_in_place mapper n i pos array ≡ w ++ mapped mapper rest
  unfolding map_in_place
  map_in_place_lem w g [] zero i pos array s =
      ap₂ take s.position s.contents ∙ simp (append_assoc) (simp (take-append, append-nil))
  map_in_place_lem w g [] (suc n) i pos array s = absurd (omega (arith, s.rounds))
  map_in_place_lem w g (v ∷ rest) zero i pos array s = absurd (omega (arith, s.rounds))
  map_in_place_lem w g (v ∷ rest) (suc n) i pos array s = elim (Option-cases (mapper v)) [
    | inl e ↦
        rw (read, map_in_place, e)
          (map_in_place_lem w (g ++ v ∷ []) rest n (suc i) pos array
            (Split-drop w g rest v n i pos array s))
    | inr (o, e) ↦
        rw (read, map_in_place, e)
          (map_in_place_lem (w ++ o ∷ []) (shifted g v) rest n (suc i) (suc pos) (set array pos o)
              (Split-keep w g rest v o n i pos array s)
            ∙ append_assoc w (o ∷ []) (mapped mapper rest))
  ]
    where
      read : get_elem? array i ≡ some v
      read = ap₂ get_elem? s.contents s.index ∙ get_elem?-append (w ++ g) v rest

module _ {ℓ} {A : Type ℓ} where
  -- `SliceMapChange`, which works in place, returns what `SliceMapNew` returns for the same mapper.
  pub slice_map_change_lem :
      (slice : List A) (mapper : A → Option A)
      → slice_map_change slice mapper ≡ slice_map_new slice mapper
  unfolding slice_map_change slice_map_new
  slice_map_change_lem slice mapper =
      map_in_place_lem mapper [] [] slice (length slice) 0 0 slice
        (record { rounds = refl; index = refl; position = refl; contents = refl })
      ∙ sym (map_new_from_lem mapper slice [])

  abbrev keep_mapper : (A → Bool) → A → Option A
  keep_mapper keep v = if keep v then some v else none

  -- The members that pass the test, in order.
  abbrev pub sift : (A → Bool) → List A → List A
  sift keep [] = []
  sift keep (v ∷ rest) = if keep v then v ∷ sift keep rest else sift keep rest

  mapped-keep_mapper :
      (keep : A → Bool) (slice : List A) → mapped (keep_mapper keep) slice ≡ sift keep slice
  mapped-keep_mapper keep [] = refl
  mapped-keep_mapper keep (v ∷ rest) = ground (arith, mapped-keep_mapper keep rest)

  kept_in_place-map :
      (keep : A → Bool) (n i pos : ℕ) (array : List A)
      → kept_in_place keep n i pos array ≡ map_in_place (keep_mapper keep) n i pos array
  unfolding kept_in_place map_in_place
  kept_in_place-map keep zero i pos array = refl
  kept_in_place-map keep (suc n) i pos array = elim (Option-cases (get_elem? array i)) [
    | inl e ↦ rw (e, kept_in_place, map_in_place)
    | inr (v, e) ↦
        rw (e, kept_in_place, map_in_place)
          (elim (Bool-cases (keep v)) [
            | inl k ↦
                rw (k, map_in_place) (kept_in_place-map keep n (suc i) (suc pos) (set array pos v))
            | inr k ↦ rw (k, map_in_place) (kept_in_place-map keep n (suc i) pos array)
          ])
  ]

  kept_copy_lem :
      (keep : A → Bool) (slice out : List A) → kept_copy keep out slice ≡ out ++ sift keep slice
  unfolding kept_copy
  kept_copy_lem keep [] out = sym (append-nil out)
  kept_copy_lem keep (v ∷ slice) out = elim (Bool-cases (keep v)) [
    | inl k ↦ rw k (kept_copy_lem keep slice (out ++ v ∷ []) ∙ append_assoc out (v ∷ []) _)
    | inr k ↦ rw k (kept_copy_lem keep slice out)
  ]

  pub slice_map_change-sift :
      (keep : A → Bool) (slice : List A)
      → slice_map_change slice (λ v. if keep v then some v else none) ≡ sift keep slice
  unfolding slice_map_change
  slice_map_change-sift keep slice =
      map_in_place_lem (keep_mapper keep) [] [] slice (length slice) 0 0 slice
        (record { rounds = refl; index = refl; position = refl; contents = refl })
      ∙ mapped-keep_mapper keep slice

  pub kept_lem :
      (keep : A → Bool) (slice : List A) (copy : Bool) → kept keep slice copy ≡ sift keep slice
  unfolding kept
  kept_lem keep slice true = kept_copy_lem keep slice []
  kept_lem keep slice false =
      kept_in_place-map keep (length slice) 0 0 slice
      ∙ map_in_place_lem (keep_mapper keep) [] [] slice (length slice) 0 0 slice
          (record { rounds = refl; index = refl; position = refl; contents = refl })
      ∙ mapped-keep_mapper keep slice

  -- `SliceRemoveIf` returns the members that fail the condition, in order, whether it copies them to a
  -- new slice or moves them within the old one.
  pub slice_remove_if_lem :
      (slice : List A) (copy : Bool) (cond : A → Bool)
      → slice_remove_if slice copy cond ≡ sift (λ v. not (cond v)) slice
  unfolding slice_remove_if
  slice_remove_if_lem [] copy cond = refl
  slice_remove_if_lem (v ∷ slice) copy cond = kept_lem (λ v. not (cond v)) (v ∷ slice) copy

  -- A slice is split by `SliceRemoveByValuesAndReturnRemoved` into the members that are not among the
  -- values and those that are, both in order, whether it copies or not.
  pub slice_remove_by_values_and_return_removed_lem :
      (eq : A → A → Bool) (slice : List A) (copy : Bool) (values : List A)
      → slice_remove_by_values_and_return_removed eq slice copy values
        ≡ (sift (λ v. not (in_slice values v eq)) slice, sift (λ v. in_slice values v eq) slice)
  unfolding slice_remove_by_values_and_return_removed
  slice_remove_by_values_and_return_removed_lem eq [] copy values = refl
  slice_remove_by_values_and_return_removed_lem eq (v ∷ slice) copy values = λ i. (
    kept_lem (λ v. not (in_slice values v eq)) (v ∷ slice) copy i,
    kept_copy_lem (λ v. in_slice values v eq) (v ∷ slice) [] i,
  )

-- ===== src/Collection/Search.antt =====
-- What the searches in slices find.
use mathlib.Core.List.Memᴰ
use conference_go.Common.{
  ℕ, suc, ◌+◌, Option, none, some, ◌++◌, ◌⊎◌, ◌≢◌, arith, true-ne-false, Bool, true, false, List,
  [], ◌∷◌, ◌≡◌, refl, ◌↔◌, Bool-cases, inl, inr, sym, Memᴰ,
}
use conference_go.Collection.{in_slice, index_from, index_of, slice_append_no_repeat}

module _ {ℓ} {A : Type ℓ} where
  -- With a comparer that tests for equality, `InSlice` answers true exactly on the members.
  pub in_slice_iff :
      (eq : A → A → Bool) (h : (a b : A) → (eq a b ≡ true) ↔ (a ≡ b)) (slice : List A) (target : A)
      → (in_slice slice target eq ≡ true) ↔ Memᴰ target slice
  unfolding in_slice
  in_slice_iff eq h [] target = (λ e. cc, λ m. absurd (Memᴰ.not-nil m))
  in_slice_iff eq h (e ∷ slice) target = elim (Bool-cases (eq e target)) [
    | inl k ↦ rw k (λ _. Memᴰ.head (sym ((h e target).0 k)), λ _. refl)
    | inr k ↦ rw k (
      λ i. Memᴰ.tail ((in_slice_iff eq h slice target).0 i),
      λ m. elim (Memᴰ.cases_cons m) [
        | inl e' ↦ absurd (differ (h e target) k (sym e'))
        | inr m' ↦ (in_slice_iff eq h slice target).1 m'
      ],
    )
  ]
    where
      differ : {b : Bool} {X : Type ℓ} → (b ≡ true) ↔ X → b ≡ false → X → ⊥
      differ {b} i k x = not_both b (i.1 x) k
        where
          not_both : (b : Bool) → b ≡ true → b ≡ false → ⊥
          not_both b p q = cc

  -- No member occurs twice.
  abbrev pub AreUnrepeated : List A → Type ℓ
  AreUnrepeated [] = Unit
  AreUnrepeated (x ∷ slice) = (¬ Memᴰ x slice) × AreUnrepeated slice

  -- One value more: it is a member already, or it comes to the end.
  known_value :
      {X : Type ℓ} (x value : A) (slice values : List A)
      → Memᴰ value slice
      → X ↔ (Memᴰ x slice ⊎ Memᴰ x values)
      → X ↔ (Memᴰ x slice ⊎ Memᴰ x (value ∷ values))
  known_value x value slice values k (to, from) = (
    λ m. elim (to m) [ inl m ↦ inl m | inr m ↦ inr (Memᴰ.tail m) ],
    elim [
      | inl m ↦ from (inl m)
      | inr m ↦ elim (Memᴰ.cases_cons m) [
        | inl e ↦ from (inl (Memᴰ.cast e k))
        | inr m ↦ from (inr m)
      ]
    ],
  )

  new_value :
      {X : Type ℓ} (x value : A) (slice values : List A)
      → X ↔ (Memᴰ x (slice ++ value ∷ []) ⊎ Memᴰ x values)
      → X ↔ (Memᴰ x slice ⊎ Memᴰ x (value ∷ values))
  new_value x value slice values (to, from) = (
    λ m. elim (to m) [
      | inl m ↦ elim (Memᴰ.append_cases slice m) [
        | inl m ↦ inl m
        | inr m ↦ inr (Memᴰ.head (Memᴰ.eq_of_singleton m))
      ]
      | inr m ↦ inr (Memᴰ.tail m)
    ],
    elim [
      | inl m ↦ from (inl (Memᴰ.append_left (value ∷ []) m))
      | inr m ↦ elim (Memᴰ.cases_cons m) [
        | inl e ↦ from (inl (Memᴰ.append_right slice (Memᴰ.head e)))
        | inr m ↦ from (inr m)
      ]
    ],
  )

  -- A search that starts at `i` finds the first member equal to the target, or none is.
  pub data IsFirst (target : A) : List A → ℕ → Type ℓ where
    here : {e : A} {slice : List A} → e ≡ target → IsFirst target (e ∷ slice) 0
    later :
        {e : A} {slice : List A} {k : ℕ}
        → e ≢ target
        → IsFirst target slice k
        → IsFirst target (e ∷ slice) (suc k)

  abbrev pub IsFound : ℕ → List A → A → Option ℕ → Type ℓ
  IsFound i slice target none = ¬ Memᴰ target slice
  IsFound i slice target (some n) = (k : ℕ) × (n ≡ i + k) × IsFirst target slice k

  module _ (eq : A → A → Bool) (h : (a b : A) → (eq a b ≡ true) ↔ (a ≡ b)) where
    IsFound-later :
        (i : ℕ) (e : A) (slice : List A) (target : A) (o : Option ℕ)
        → e ≢ target
        → IsFound (suc i) slice target o
        → IsFound i (e ∷ slice) target o
    IsFound-later i e slice target none ne n =
        λ m. elim (Memᴰ.cases_cons m) [ inl q ↦ ne (sym q) | inr m ↦ n m ]
    IsFound-later i e slice target (some n) ne (k, q, f) = (suc k, omega (arith, q), later ne f)

    index_from-IsFound :
        (i : ℕ) (slice : List A) (target : A)
        → IsFound i slice target (index_from i slice target eq)
    unfolding index_from
    index_from-IsFound i [] target = λ m. Memᴰ.not-nil m
    index_from-IsFound i (e ∷ slice) target = elim (Bool-cases (eq e target)) [
      | inl k ↦ rw k (0, omega arith, here ((h e target).0 k))
      | inr k ↦ rw k (
          IsFound-later i e slice target _ (λ q. true-ne-false ((h e target).1 q) k)
            (index_from-IsFound (suc i) slice target))
    ]

    -- With a comparer that tests for equality, `IndexOf` gives the index of the first member equal to
    -- the target, and no index (that is -1) exactly if there is none.
    pub index_of-IsFound :
        (slice : List A) (target : A) → IsFound 0 slice target (index_of slice target eq)
    unfolding index_of
    index_of-IsFound slice target = index_from-IsFound 0 slice target

    AreUnrepeated-snoc :
        (slice : List A) (x : A)
        → AreUnrepeated slice
        → ¬ Memᴰ x slice
        → AreUnrepeated (slice ++ x ∷ [])
    AreUnrepeated-snoc [] x d n = (n, tt)
    AreUnrepeated-snoc (e ∷ slice) x (n', d) n = (
      λ m. elim (Memᴰ.append_cases slice m) [
        | inl m ↦ n' m
        | inr m ↦ n (Memᴰ.head (sym (Memᴰ.eq_of_singleton m)))
      ],
      AreUnrepeated-snoc slice x d (λ m. n (Memᴰ.tail m)),
    )

    -- On a slice in which no member occurs twice, and with a comparer that tests for equality, the
    -- result of `SliceAppendNoRepeat` has no member twice, and it has the members of the slice and
    -- the values.
    pub slice_append_no_repeat-AreUnrepeated :
        (slice values : List A)
        → AreUnrepeated slice
        → AreUnrepeated (slice_append_no_repeat eq slice values)
          × ((x : A)
              → Memᴰ x (slice_append_no_repeat eq slice values) ↔ (Memᴰ x slice ⊎ Memᴰ x values))
    unfolding slice_append_no_repeat
    slice_append_no_repeat-AreUnrepeated slice [] d =
        (d, λ x. (inl, elim [ inl m ↦ m | inr m ↦ absurd (Memᴰ.not-nil m) ]))
    slice_append_no_repeat-AreUnrepeated slice (value ∷ values) d =
        elim (Bool-cases (in_slice slice value eq)) [
          | inl k ↦
              let (d', to) = slice_append_no_repeat-AreUnrepeated slice values d in
              rw k (
                d',
                λ x. known_value x value slice values ((in_slice_iff eq h slice value).0 k) (to x),
              )
          | inr k ↦
              let new =
                AreUnrepeated-snoc slice value d
                  (λ m. true-ne-false ((in_slice_iff eq h slice value).1 m) k) in
              let (d', to) =
                slice_append_no_repeat-AreUnrepeated (slice ++ value ∷ []) values new in
              rw k (d', λ x. new_value x value slice values (to x))
        ]

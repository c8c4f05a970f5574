-- ===== src/Collection/Unordered.antt =====
-- utils/collection.go, `SliceRemoveIfIgnoreOrder`: a member that goes is replaced by the last one that
-- stays. The loop reads and writes only `slice[i..last]`, which is the list `window` of the model.
use mathlib.Core.List.Memᴰ
use conference_go.Common.{
  ℕ, zero, suc, ◌≤◌, Bool, true, false, List, [], ◌∷◌, if◌then◌else◌, length, ◌≡◌, refl, arith, ap,
  sym, ◌∙◌, ◌↔◌, ◌⊎◌, inl, inr, Bool-cases, Memᴰ, true-ne-false,
}

module _ {ℓ} {A : Type ℓ} where
  abbrev kept_before : Bool → A → List A → List A
  kept_before true v [] = []
  kept_before false v [] = v ∷ []
  kept_before gone v (w ∷ rest) = v ∷ w ∷ rest

  -- The inner loop: `last` passes the members at the end that go.
  unfoldable pub trim : (A → Bool) → List A → List A
  trim cond [] = []
  trim cond (v ∷ window) = kept_before (cond v) v (trim cond window)

  -- A list that is not empty, without its last member, and that member.
  unfoldable pub split_last : A → List A → List A × A
  split_last v [] = ([], v)
  split_last v (w ∷ window) = let (front, x) = split_last w window in (v ∷ front, x)

  abbrev replaced : (List A → List A) → List A → List A
  replaced rounds [] = []
  replaced rounds (w ∷ rest) = let (front, x) = split_last w rest in x ∷ rounds front

  -- The rounds of the outer loop, at most as many as the fuel.
  unfoldable pub sweep : ℕ → (A → Bool) → List A → List A
  unfolding trim split_last
  sweep zero cond window = []
  sweep (suc k) cond [] = []
  sweep (suc k) cond (v ∷ window) =
      let rest = sweep k cond window in
      if cond v then replaced (sweep k cond) (trim cond window) else v ∷ rest

  -- `SliceRemoveIfIgnoreOrder`
  unfoldable pub slice_remove_if_ignore_order : List A → (A → Bool) → List A
  unfolding sweep
  slice_remove_if_ignore_order slice cond = sweep (length slice) cond slice

  mem-split_last :
      (x v : A) (l : List A)
      → Memᴰ x (v ∷ l) ↔ (Memᴰ x (split_last v l).0 ⊎ (x ≡ (split_last v l).1))
  unfolding split_last
  mem-split_last x v [] = (
    λ m. elim (Memᴰ.cases_cons m) [ inl e ↦ inr e | inr m' ↦ absurd (Memᴰ.not-nil m') ],
    elim [ inl m ↦ absurd (Memᴰ.not-nil m) | inr e ↦ Memᴰ.head e ],
  )
  mem-split_last x v (w ∷ l) = (
    λ m. elim (Memᴰ.cases_cons m) [
      | inl e ↦ inl (Memᴰ.head e)
      | inr m' ↦ elim ((mem-split_last x w l).0 m') [ inl n ↦ inl (Memᴰ.tail n) | inr e ↦ inr e ]
    ],
    elim [
      | inl m ↦ elim (Memᴰ.cases_cons m) [
        | inl e ↦ Memᴰ.head e
        | inr n ↦ Memᴰ.tail ((mem-split_last x w l).1 (inl n))
      ]
      | inr e ↦ Memᴰ.tail ((mem-split_last x w l).1 (inr e))
    ],
  )

  length-split_last : (v : A) (l : List A) → length (split_last v l).0 ≡ length l
  unfolding split_last
  length-split_last v [] = refl
  length-split_last v (w ∷ l) = ap suc (length-split_last w l)

  module _ (cond : A → Bool) where
    -- The last member, if there is one, stays.
    abbrev LastStays : List A → Type 0
    LastStays [] = Unit
    LastStays (v ∷ l) = cond (split_last v l).1 ≡ false

    kept_before-LastStays :
        (b : Bool) (v : A) (r : List A) → cond v ≡ b → LastStays r → LastStays (kept_before b v r)
    unfolding split_last
    kept_before-LastStays true v [] e h = tt
    kept_before-LastStays false v [] e h = e
    kept_before-LastStays true v (w ∷ r) e h = h
    kept_before-LastStays false v (w ∷ r) e h = h

    trim-LastStays : (l : List A) → LastStays (trim cond l)
    unfolding trim
    trim-LastStays [] = tt
    trim-LastStays (v ∷ l) = kept_before-LastStays (cond v) v (trim cond l) refl (trim-LastStays l)

    mem-kept_before :
        (x : A) (b : Bool) (v : A) (r : List A)
        → cond v ≡ b
        → cond x ≡ false
        → Memᴰ x (v ∷ r) ↔ Memᴰ x (kept_before b v r)
    mem-kept_before x true v [] e s = (
      λ m. elim (Memᴰ.cases_cons m) [
        | inl q ↦ absurd (true-ne-false e (ap cond (sym q) ∙ s))
        | inr m' ↦ m'
      ],
      λ m. absurd (Memᴰ.not-nil m),
    )
    mem-kept_before x false v [] e s = (λ m. m, λ m. m)
    mem-kept_before x true v (w ∷ r) e s = (λ m. m, λ m. m)
    mem-kept_before x false v (w ∷ r) e s = (λ m. m, λ m. m)

    mem-trim : (x : A) (l : List A) → cond x ≡ false → Memᴰ x l ↔ Memᴰ x (trim cond l)
    unfolding trim
    mem-trim x [] s = (λ m. m, λ m. m)
    mem-trim x (v ∷ l) s =
        let step = mem-kept_before x (cond v) v (trim cond l) refl s in
        let rest = mem-trim x l s in
        (
          λ m.
              step.0
                (elim (Memᴰ.cases_cons m) [ inl e ↦ Memᴰ.head e | inr n ↦ Memᴰ.tail (rest.0 n) ]),
          λ m. elim (Memᴰ.cases_cons (step.1 m)) [
            | inl e ↦ Memᴰ.head e
            | inr n ↦ Memᴰ.tail (rest.1 n)
          ],
        )

    length-kept_before :
        (b : Bool) (v : A) (r : List A) → length (kept_before b v r) ≤ suc (length r)
    length-kept_before true v [] = omega arith
    length-kept_before false v [] = omega arith
    length-kept_before true v (w ∷ r) = omega arith
    length-kept_before false v (w ∷ r) = omega arith

    length-trim : (l : List A) → length (trim cond l) ≤ length l
    unfolding trim
    length-trim [] = omega arith
    length-trim (v ∷ l) = omega (arith, length-kept_before (cond v) v (trim cond l), length-trim l)

    -- Exactly the members that stay are in the list.
    abbrev Keeps : List A → List A → Type ℓ
    Keeps out l = (x : A) → Memᴰ x out ↔ (Memᴰ x l × (cond x ≡ false))

    replaced-Keeps :
        (rounds : List A → List A) (k : ℕ)
        → ((l : List A) → length l ≤ k → Keeps (rounds l) l)
        → (r : List A) → LastStays r
        → length r ≤ suc k
        → Keeps (replaced rounds r) r
    replaced-Keeps rounds k ih [] s h x =
        (λ m. absurd (Memᴰ.not-nil m), λ (m, _). absurd (Memᴰ.not-nil m))
    replaced-Keeps rounds k ih (w ∷ r) s h x =
        let kept = ih (split_last w r).0 (omega (arith, h, length-split_last w r)) x in
        let parts = mem-split_last x w r in
        (
          λ m. elim (Memᴰ.cases_cons m) [
            | inl e ↦ (parts.1 (inr e), ap cond e ∙ s)
            | inr n ↦ (parts.1 (inl (kept.0 n).0), (kept.0 n).1)
          ],
          λ (m, c). elim (parts.0 m) [ inl n ↦ Memᴰ.tail (kept.1 (n, c)) | inr e ↦ Memᴰ.head e ],
        )

    sweep-Keeps : (k : ℕ) (l : List A) → length l ≤ k → Keeps (sweep k cond l) l
    unfolding sweep
    sweep-Keeps zero [] h x = (λ m. absurd (Memᴰ.not-nil m), λ (m, _). m)
    sweep-Keeps zero (v ∷ l) h x = absurd (omega (arith, h))
    sweep-Keeps (suc k) [] h x = (λ m. absurd (Memᴰ.not-nil m), λ (m, _). m)
    sweep-Keeps (suc k) (v ∷ l) h x = elim (Bool-cases (cond v)) [
      | inl c ↦ rw c (
          let out =
            replaced-Keeps (sweep k cond) k (sweep-Keeps k) (trim cond l) (trim-LastStays l)
              (omega (arith, h, length-trim l)) x in
          (
            λ m. let (n, s) = out.0 m in (Memᴰ.tail ((mem-trim x l s).1 n), s),
            λ (m, s). elim (Memᴰ.cases_cons m) [
              | inl e ↦ absurd (true-ne-false c (ap cond (sym e) ∙ s))
              | inr n ↦ out.1 ((mem-trim x l s).0 n, s)
            ],
          ))
      | inr c ↦ rw c (
          let rest = sweep-Keeps k l (omega (arith, h)) x in
          (
            λ m. elim (Memᴰ.cases_cons m) [
              | inl e ↦ (Memᴰ.head e, ap cond e ∙ c)
              | inr n ↦ (Memᴰ.tail (rest.0 n).0, (rest.0 n).1)
            ],
            λ (m, s). elim (Memᴰ.cases_cons m) [
              | inl e ↦ Memᴰ.head e
              | inr n ↦ Memᴰ.tail (rest.1 (n, s))
            ],
          ))
    ]

    -- What is left has exactly the members of the slice for which the condition does not hold.
    pub slice_remove_if_ignore_order_iff :
        (slice : List A) (x : A)
        → Memᴰ x (slice_remove_if_ignore_order slice cond) ↔ (Memᴰ x slice × (cond x ≡ false))
    unfolding slice_remove_if_ignore_order
    slice_remove_if_ignore_order_iff slice = sweep-Keeps (length slice) slice (omega arith)

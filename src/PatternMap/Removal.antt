-- ===== src/PatternMap/Removal.antt =====
-- What removal leaves in a tree.
use conference_go.Common.{
  String, true, List, [], ◌∷◌, Option, none, some, str_eq_refl, if◌then◌else◌, ◌≡◌, refl, ◌≢◌, ◌∙◌,
  Bool-cases, Option-cases, inl, inr, sym, subst, str_cases, ap,
}
use conference_go.PatternMap.{
  PatternTree, node, Children, leaf, child, find, put, delete, is_empty, or_empty, remove_data,
}
use conference_go.PatternMap.Paths.{data_via, data_at, find-put, find-delete}

module _ {ℓ} {T : Type ℓ} where
  -- Two trees keep the same data under every path but `ps`.
  abbrev pub SameElsewhere : List String → PatternTree T → PatternTree T → Type ℓ
  SameElsewhere ps t t' = (qs : List String) → qs ≢ ps → data_at qs t' ≡ data_at qs t

  abbrev pub IsChild : String → Children T → PatternTree T → Type ℓ
  IsChild p cs t = (qs : List String) → data_via (data_at qs) (find p cs) ≡ data_at qs t

  pub data_at-empty : (qs : List String) → data_at {T = T} qs (node none leaf) ≡ none
  unfolding find
  data_at-empty [] = refl
  data_at-empty (q ∷ qs) = refl

  pub or_empty-IsChild : (p : String) (cs : Children T) → IsChild p cs (or_empty (find p cs))
  or_empty-IsChild p cs qs = via (find p cs)
    where
      via : (o : Option (PatternTree T)) → data_via (data_at qs) o ≡ data_at qs (or_empty o)
      via none = sym (data_at-empty qs)
      via (some t) = refl

  module _ (d : Option T) (cs : Children T) (p : String) where
    pub put_self :
        (t : PatternTree T) (qs : List String)
        → data_at (p ∷ qs) (node d (put p t cs)) ≡ data_at qs t
    put_self t qs = rw (find-put p p t cs, str_eq_refl p)

    -- Putting back a child that differs under `ks` only.
    pub put-SameElsewhere :
        (ks : List String) (t t' : PatternTree T)
        → IsChild p cs t
        → SameElsewhere ks t t'
        → SameElsewhere (p ∷ ks) (node d cs) (node d (put p t' cs))
    put-SameElsewhere ks t t' c s [] h = refl
    put-SameElsewhere ks t t' c s (k ∷ qs) h = elim (str_cases p k) [
      | inl e ↦
          subst
            (λ (k : String).
              k ∷ qs ≢ p ∷ ks
              → data_at (k ∷ qs) (node d (put p t' cs)) ≡ data_at (k ∷ qs) (node d cs))
            e (λ h. put_self t' qs ∙ s qs (λ e'. h (ap (λ l. p ∷ l) e')) ∙ sym (c qs)) h
      | inr ne ↦ rw (find-put k p t' cs, ne)
    ]

    pub delete_self : (qs : List String) → data_at (p ∷ qs) (node d (delete p cs)) ≡ none
    delete_self qs = rw (find-delete p p cs, str_eq_refl p)

    -- Deleting a child that kept data under `ks` only.
    pub delete-SameElsewhere :
        (ks : List String)
        → ((qs : List String) → qs ≢ ks → data_at (p ∷ qs) (node d cs) ≡ none)
        → SameElsewhere (p ∷ ks) (node d cs) (node d (delete p cs))
    delete-SameElsewhere ks n [] h = refl
    delete-SameElsewhere ks n (k ∷ qs) h = elim (str_cases p k) [
      | inl e ↦
          subst
            (λ (k : String).
              k ∷ qs ≢ p ∷ ks
              → data_at (k ∷ qs) (node d (delete p cs)) ≡ data_at (k ∷ qs) (node d cs))
            e (λ h. delete_self qs ∙ sym (n qs (λ e'. h (ap (λ l. p ∷ l) e')))) h
      | inr ne ↦ rw (find-delete k p cs, ne)
    ]

  pub is_empty-data_at :
      (t : PatternTree T) → is_empty t ≡ true → (qs : List String) → data_at qs t ≡ none
  unfolding is_empty
  is_empty-data_at (node none leaf) h qs = data_at-empty qs
  is_empty-data_at (node none (child _ _ _)) h qs = cc
  is_empty-data_at (node (some _) leaf) h qs = cc
  is_empty-data_at (node (some _) (child _ _ _)) h qs = cc

  pub record Removes (ks : List String) (t t' : PatternTree T) : Type ℓ where
    pub gone : data_at ks t' ≡ none
    pub rest : SameElsewhere ks t t'

  pub found-IsChild :
      (p : String) (cs : Children T) {t : PatternTree T} → find p cs ≡ some t → IsChild p cs t
  found-IsChild p cs e qs = ap (data_via (data_at qs)) e

  pub remove_data-Removes : (ks : List String) (t : PatternTree T) → Removes ks t (remove_data ks t)
  unfolding remove_data
  remove_data-Removes [] (node d cs) = record { gone = refl; rest = elsewhere }
    where
      elsewhere : SameElsewhere [] (node d cs) (node none cs)
      elsewhere [] h = absurd (h refl)
      elsewhere (q ∷ qs) h = refl
  remove_data-Removes (key ∷ ks) (node d cs) = elim (Option-cases (find key cs)) [
    | inl e ↦ rw (e, remove_data) (record { gone = rw e; rest = λ qs h. refl })
    | inr (next, e) ↦ rw (e, remove_data) (below next e (remove_data-Removes ks next))
  ]
    where
      below :
          (next : PatternTree T)
          → find key cs ≡ some next
          → Removes ks next (remove_data ks next)
          → Removes (key ∷ ks) (node d cs) (
              let next' = remove_data ks next in
              if is_empty next' then node d (delete key cs) else node d (put key next' cs))
      below next e r = elim (Bool-cases (is_empty (remove_data ks next))) [
        | inl h ↦ rw h (record {
          gone = delete_self d cs key ks;
          rest =
              delete-SameElsewhere d cs key ks
                (λ qs ne. found-IsChild key cs e qs ∙ sym (r.rest qs ne) ∙ is_empty-data_at _ h qs);
        })
        | inr h ↦ rw h (record {
          gone = put_self d cs key (remove_data ks next) ks ∙ r.gone;
          rest =
              put-SameElsewhere d cs key ks next (remove_data ks next) (found-IsChild key cs e)
                r.rest;
        })
      ]

-- ===== src/Room/Matches.antt =====
-- When a pattern selects a room, part by part.
use conference_go.Common.{
  ◌≤◌, String, true, false, List, [], ◌∷◌, ◌≡◌, refl, ◌⊎◌, inl, inr, arith, str_eq, str_eq_iff,
  str_eq_refl, Bool-cases, length, subst, sym,
}
use conference_go.Room.{is_double_star, skip_double_stars}

-- `*` stands for one part, `**` for any number of them, any other part for itself.
pub data Matches : List String → List String → Type 0 where
  done : Matches [] []
  same : {p : String} {ps rs : List String} → Matches ps rs → Matches (p ∷ ps) (p ∷ rs)
  one : {p r : String} {ps rs : List String} → p ≡ "*" → Matches ps rs → Matches (p ∷ ps) (r ∷ rs)
  none_left : {p : String} {ps rs : List String} → p ≡ "**" → Matches ps rs → Matches (p ∷ ps) rs
  one_more :
      {p r : String} {ps rs : List String}
      → p ≡ "**"
      → Matches (p ∷ ps) rs
      → Matches (p ∷ ps) (r ∷ rs)

pub Matches_refl : (ps : List String) → Matches ps ps
Matches_refl [] = done
Matches_refl (p ∷ ps) = same (Matches_refl ps)

pub Matches-double_star : (rs : List String) → Matches ("**" ∷ []) rs
Matches-double_star [] = none_left refl done
Matches-double_star (r ∷ rs) = one_more refl (Matches-double_star rs)

-- A pattern with a part that matches nothing at all is made of `**`, and matches everything.
pub Matches_widen :
    {p : String} {ps : List String} → Matches (p ∷ ps) [] → (rs : List String) → Matches (p ∷ ps) rs
Matches_widen d [] = d
Matches_widen (none_left q m) (r ∷ rs) = one_more q (Matches_widen (none_left q m) rs)

-- `P` holds of the list or of a part of it that is left after some first members.
abbrev pub Later : (List String → Type 0) → List String → Type 0
Later P [] = P []
Later P (r ∷ rs) = P (r ∷ rs) ⊎ Later P rs

pub star-ne-double_star : str_eq "*" "**" ≡ false
star-ne-double_star = refl

pub not-double_star : {p : String} → p ≡ "*" → p ≡ "**" → ⊥
not-double_star e e' = cc (star-ne-double_star, str_eq_refl "**")

pub skip-double_star :
    (p : String) (ps : List String)
    → is_double_star p ≡ true
    → skip_double_stars (p ∷ ps) ≡ skip_double_stars ps
unfolding skip_double_stars
skip-double_star p ps e = rw e

pub skip-other :
    (p : String) (ps : List String) → is_double_star p ≡ false → skip_double_stars (p ∷ ps) ≡ p ∷ ps
unfolding skip_double_stars
skip-other p ps e = rw e

-- Matching from the left, past a run of `**`.
pub unskip : {ps rs : List String} → Matches ps rs → Later (Matches (skip_double_stars ps)) rs
unfolding skip_double_stars
unskip done = done
unskip (same {p} {ps} {rs} d) = elim (Bool-cases (is_double_star p)) [
  | inl e ↦
      subst (λ (l : List String). Later (Matches l) (p ∷ rs)) (sym (skip-double_star p ps e))
        (inr (unskip d))
  | inr e ↦ rw (skip-other p ps e) (inl (same d))
]
unskip (one {p} {r} {ps} {rs} e d) = elim (Bool-cases (is_double_star p)) [
  | inl e' ↦ absurd (not-double_star e ((str_eq_iff p "**").0 e'))
  | inr e' ↦ rw (skip-other p ps e') (inl (one e d))
]
unskip (none_left {p} {ps} {rs} e d) =
    rw (skip-double_star p ps ((str_eq_iff p "**").1 e)) (unskip d)
unskip (one_more {p} {r} {ps} {rs} e d) = inr (unskip d)

pub reskip :
    (ps : List String) {rs : List String} → Matches (skip_double_stars ps) rs → Matches ps rs
unfolding skip_double_stars
reskip [] d = d
reskip (p ∷ ps) d = elim (Bool-cases (is_double_star p)) [
  | inl e ↦ none_left ((str_eq_iff p "**").0 e) (reskip ps (rw (skip-double_star p ps e) at d))
  | inr e ↦ (rw (skip-other p ps e) at d)
]

module _ {p : String} (e : p ≡ "**") (ps : List String) where
  pub Later-Matches :
      (rs : List String) → Later (Matches (skip_double_stars ps)) rs → Matches (p ∷ ps) rs
  Later-Matches [] d = none_left e (reskip ps d)
  Later-Matches (r ∷ rs) (inl d) = none_left e (reskip ps d)
  Later-Matches (r ∷ rs) (inr l) = one_more e (Later-Matches rs l)

  pub Matches-Later :
      {rs : List String} → Matches (p ∷ ps) rs → Later (Matches (skip_double_stars ps)) rs
  unfolding skip_double_stars
  Matches-Later {rs} d = rw (skip-double_star p ps ((str_eq_iff p "**").1 e)) at (unskip d)

pub Later-nil : (rs : List String) → Later (Matches []) rs
Later-nil [] = done
Later-nil (r ∷ rs) = inr (Later-nil rs)

pub skip-head :
    (ps : List String) {q : String} {qs : List String}
    → skip_double_stars ps ≡ q ∷ qs
    → is_double_star q ≡ false
unfolding skip_double_stars
skip-head [] e = cc
skip-head (p ∷ ps) {q} {qs} e = elim (Bool-cases (is_double_star p)) [
  | inl s ↦ skip-head ps (rw (skip-double_star p ps s) at e)
  | inr s ↦ ground (arith, skip-other p ps s)
]

pub length-skip-le : (ps : List String) → length (skip_double_stars ps) ≤ length ps
unfolding skip_double_stars
length-skip-le [] = omega arith
length-skip-le (p ∷ ps) = ground (arith, length-skip-le ps)

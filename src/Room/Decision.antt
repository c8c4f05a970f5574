-- ===== src/Room/Decision.antt =====
-- `matchRoom` decides whether the parts of a pattern match those of a room.
use conference_go.Common.{
  Decides-ok, ℕ, zero, suc, ◌≤◌, String, Bool, true, false, List, [], ◌∷◌, ◌≡◌, refl, ◌↔◌, ◌⊎◌, inl,
  inr, arith, str_eq, str_eq_iff, Bool-cases, length, all, Result, ok, panic, Decides, Decides-iff,
  ◌>>=◌, if◌then◌else◌, subst, ap, ◌||◌,
}
use conference_go.Room.{
  is_double_star, skip_double_stars, match_later, Matcher, next_round, after_double_star,
  match_round, match_parts,
}
use conference_go.Room.Matches.{
  Later-Matches, Matches-Later, done, same, one, none_left, one_more, Matches, Later-nil, skip-head,
  length-skip-le, Later,
}

match_later-Decides :
    (m : Matcher) (ps rs : List String)
    → ¬ Matches ps []
    → ((r : String) (rs : List String) → Decides (Matches ps (r ∷ rs)) (m ps (r ∷ rs)))
    → Decides (Later (Matches ps) rs) (match_later m ps rs)
unfolding match_later
match_later-Decides m ps [] n h = n
match_later-Decides m ps (r ∷ rs) n h =
    step (m ps (r ∷ rs)) (match_later m ps rs) (h r rs) (match_later-Decides m ps rs n h)
  where
    step :
        (now later : Result Bool)
        → Decides (Matches ps (r ∷ rs)) now
        → Decides (Later (Matches ps) rs) later
        → Decides
            (Matches ps (r ∷ rs) ⊎ Later (Matches ps) rs)
            (◌>>=◌ now (λ b. if b then ok true else later))
    step (ok true) later d l = inl d
    step (ok false) (ok true) d l = inr l
    step (ok false) (ok false) d l = elim [ inl x ↦ d x | inr x ↦ l x ]
    step (ok false) (panic _) d l = l
    step (panic _) later d l = d

all-double_star_iff : (ps : List String) → (all is_double_star ps ≡ true) ↔ Matches ps []
all-double_star_iff ps = (to ps, from)
  where
    to : (ps : List String) → all is_double_star ps ≡ true → Matches ps []
    to [] h = done
    to (p ∷ ps) h = none_left ((str_eq_iff p "**").0 (ground arith)) (to ps (ground arith))

    from : {ps : List String} → Matches ps [] → all is_double_star ps ≡ true
    from done = refl
    from (none_left {p} {ps} e d) = ground (arith, (str_eq_iff p "**").1 e, from d)

next_round-Decides :
    (m : Matcher) (ps rs : List String)
    → ((p r : String) (qs ts : List String)
        → ps ≡ p ∷ qs
        → Decides (Matches (p ∷ qs) (r ∷ ts)) (m (p ∷ qs) (r ∷ ts)))
    → Decides (Matches ps rs) (next_round m ps rs)
unfolding next_round
next_round-Decides m [] [] h = done
next_round-Decides m [] (r ∷ rs) h = λ d. elim d [ ]
next_round-Decides m (p ∷ ps) [] h = Decides-ok _ (all-double_star_iff (p ∷ ps))
next_round-Decides m (p ∷ ps) (r ∷ rs) h = h p r ps rs refl

not-Matches-nil : {q : String} {qs : List String} → is_double_star q ≡ false → ¬ Matches (q ∷ qs) []
not-Matches-nil {q} h (none_left e d) = cc (h, (str_eq_iff q "**").1 e)

after_double_star-Decides :
    (m : Matcher) (qs rs : List String)
    → ((q : String) (t : List String) → qs ≡ q ∷ t → is_double_star q ≡ false)
    → ((q r : String) (t ts : List String)
        → qs ≡ q ∷ t
        → Decides (Matches (q ∷ t) (r ∷ ts)) (m (q ∷ t) (r ∷ ts)))
    → Decides (Later (Matches qs) rs) (after_double_star m qs rs)
unfolding after_double_star
after_double_star-Decides m [] rs k h = Later-nil rs
after_double_star-Decides m (q ∷ qs) rs k h =
    match_later-Decides m (q ∷ qs) rs (not-Matches-nil (k q qs refl)) (λ r ts. h q r qs ts refl)

-- A part other than `**` takes exactly one part of the room.
step_iff :
    {p r : String} {ps rs : List String}
    → is_double_star p ≡ false
    → (Matches (p ∷ ps) (r ∷ rs)) ↔ (((p ≡ "*") ⊎ (p ≡ r)) × Matches ps rs)
step_iff {p} {r} h = (to h, from)
  where
    to :
        {p r : String} {ps rs : List String}
        → is_double_star p ≡ false
        → Matches (p ∷ ps) (r ∷ rs)
        → ((p ≡ "*") ⊎ (p ≡ r)) × Matches ps rs
    to h (same d) = (inr refl, d)
    to h (one e d) = (inl e, d)
    to {p} h (none_left e d) = cc (h, (str_eq_iff p "**").1 e)
    to {p} h (one_more e d) = cc (h, (str_eq_iff p "**").1 e)

    from : {ps rs : List String} → ((p ≡ "*") ⊎ (p ≡ r)) × Matches ps rs → Matches (p ∷ ps) (r ∷ rs)
    from (inl e, d) = one e d
    from {ps} {rs} (inr e, d) = subst (λ (x : String). Matches (p ∷ ps) (x ∷ rs)) e (same d)

takes : (p r : String) → (str_eq p "*" || str_eq p r) ≡ true → (p ≡ "*") ⊎ (p ≡ r)
takes p r h = ground (arith, str_eq_iff p "*", str_eq_iff p r)

passes : (p r : String) → (str_eq p "*" || str_eq p r) ≡ false → ¬ ((p ≡ "*") ⊎ (p ≡ r))
passes p r h = elim [
  | inl e ↦ ground (arith, str_eq_iff p "*")
  | inr e ↦ ground (arith, str_eq_iff p "*", str_eq_iff p r)
]

match_round-Decides :
    (f : ℕ) (p r : String) (ps rs : List String)
    → suc (length ps) ≤ f
    → Decides (Matches (p ∷ ps) (r ∷ rs)) (match_round f (p ∷ ps) (r ∷ rs))
unfolding match_round
match_round-Decides zero p r ps rs h = absurd (omega arith)
match_round-Decides (suc f) p r ps rs h = elim (Bool-cases (is_double_star p)) [
  | inl e ↦ rw e (
      Decides-iff _ (Later-Matches (starred e) ps (r ∷ rs), Matches-Later (starred e) ps)
        (after_double_star-Decides (match_round f) (skip_double_stars ps) (r ∷ rs)
          (λ q t. skip-head ps)
          (λ q r' t ts eq.
            match_round-Decides f q r' t ts (omega (arith, length-skip-le ps, ap length eq)))))
  | inr e ↦ rw e (elim (Bool-cases (str_eq p "*" || str_eq p r)) [
    | inl hit ↦ rw hit (
        Decides-iff {G = Matches ps rs} {H = Matches (p ∷ ps) (r ∷ rs)}
          (next_round (match_round f) ps rs)
          (λ d. (step_iff e).1 (takes p r hit, d), λ d. ((step_iff e).0 d).1)
          (next_round-Decides (match_round f) ps rs
            (λ q r' t ts eq. match_round-Decides f q r' t ts (omega (arith, ap length eq)))))
    | inr miss ↦ rw miss (λ d. passes p r miss ((step_iff e).0 d).0)
  ])
]
  where
    starred : is_double_star p ≡ true → p ≡ "**"
    starred e = (str_eq_iff p "**").0 e

-- `matchRoom` neither runs past the end of its arguments nor out of fuel, and answers true exactly
-- when the parts of the room match the parts of the pattern, if both have at least one part.
pub match_parts-Decides :
    (p r : String) (ps rs : List String)
    → Decides (Matches (p ∷ ps) (r ∷ rs)) (match_parts (p ∷ ps) (r ∷ rs))
unfolding match_parts
match_parts-Decides p r ps rs = match_round-Decides (length (p ∷ ps)) p r ps rs (omega arith)

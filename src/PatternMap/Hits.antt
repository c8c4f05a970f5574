-- ===== src/PatternMap/Hits.antt =====
-- Which data a tree keeps under patterns that match, by the cases of the first part.
use conference_go.Common.{
  String, Bool, true, false, List, [], ◌∷◌, Option, none, some, ◌≡◌, refl, ◌⊎◌, ◌↔◌, inl, inr,
  subst,
}
use conference_go.Room.Matches.{
  Matches_widen, Matches-double_star, not-double_star, Matches, done, same, one, none_left,
  one_more,
}
use conference_go.PatternMap.{PatternTree, node, Children, find}
use conference_go.PatternMap.Paths.{data_via, data_at}

-- The rest of a pattern whose node was reached through `**`.
abbrev pub reached : Bool → List String → List String
reached true ps = "**" ∷ ps
reached false ps = ps

module _ {ℓ} {T : Type ℓ} where
  abbrev pub data_below : List String → Option (PatternTree T) → Option T
  data_below ps o = data_via (data_at ps) o

module _ {ℓ} {T : Type ℓ} (x : T) where
  -- `x` is kept below `t` under a path that matches the parts.
  abbrev pub Hits : PatternTree T → List String → Bool → Type ℓ
  Hits t ms double = (ps : List String) × (data_at ps t ≡ some x) × Matches (reached double ps) ms

  -- The same below a child, if there is one.
  abbrev pub HitsBelow : Option (PatternTree T) → List String → Bool → Type ℓ
  HitsBelow o ms double =
      (ps : List String) × (data_below ps o ≡ some x) × Matches (reached double ps) ms

  module _ (d : Option T) (cs : Children T) where
    pub Hits-nil : ((d ≡ some x) ⊎ HitsBelow (find "**" cs) [] false) ↔ Hits (node d cs) [] false
    Hits-nil = (to, λ (ps, e, m). from ps e m)
      where
        to : (d ≡ some x) ⊎ HitsBelow (find "**" cs) [] false → Hits (node d cs) [] false
        to (inl e) = ([], e, done)
        to (inr (ps, e, m)) = ("**" ∷ ps, e, none_left refl m)

        from :
            (ps : List String)
            → data_at ps (node d cs) ≡ some x
            → Matches ps []
            → (d ≡ some x) ⊎ HitsBelow (find "**" cs) [] false
        from ps e done = inl e
        from (p ∷ ps) e (none_left q m) =
            inr (ps, subst (λ (k : String). data_below ps (find k cs) ≡ some x) q e, m)

    unfoldable pub ByKey : String → List String → Type ℓ
    ByKey key ms =
        (HitsBelow (find "**" cs) (key ∷ ms) true ⊎ HitsBelow (find "*" cs) ms false)
        ⊎ HitsBelow (find key cs) ms false

    pub Hits-cons :
        (key : String) (ms : List String) → ByKey key ms ↔ Hits (node d cs) (key ∷ ms) false
    unfolding ByKey
    Hits-cons key ms = (to, λ (ps, e, m). from ps e m)
      where
        to : ByKey key ms → Hits (node d cs) (key ∷ ms) false
        to (inl (inl (ps, e, m))) = ("**" ∷ ps, e, m)
        to (inl (inr (ps, e, m))) = ("*" ∷ ps, e, one refl m)
        to (inr (ps, e, m)) = (key ∷ ps, e, same m)

        at_child :
            {k j : String} (ps : List String)
            → k ≡ j
            → data_below ps (find k cs) ≡ some x
            → data_below ps (find j cs) ≡ some x
        at_child ps q e = subst (λ (k : String). data_below ps (find k cs) ≡ some x) q e

        from :
            {key : String} {ms : List String} (ps : List String)
            → data_at ps (node d cs) ≡ some x
            → Matches ps (key ∷ ms)
            → ByKey key ms
        from [] e m = elim m [ ]
        from (p ∷ ps) e (same m) = inr (ps, e, m)
        from (p ∷ ps) e (one q m) = inl (inr (ps, at_child ps q e, m))
        from (p ∷ ps) e (none_left q m) = inl (inl (ps, at_child ps q e, none_left refl m))
        from {key} {ms} (p ∷ ps) e (one_more q m) = inl (
            inl (
              ps,
              at_child ps q e,
              one_more refl (subst (λ (k : String). Matches (k ∷ ps) ms) q m),
            ))

  -- The data at each later part, when the node stays where it is.
  abbrev pub HitsLater : PatternTree T → List String → Type ℓ
  HitsLater t [] = none ≡ some x
  HitsLater t (key ∷ ms) = Hits t (key ∷ ms) false ⊎ HitsLater t ms

  HitsLater-Hits : (t : PatternTree T) (ms : List String) → HitsLater t ms → Hits t ms true
  HitsLater-Hits t [] s = cc
  HitsLater-Hits t (key ∷ ms) (inl (ps, e, m)) = (ps, e, none_left refl m)
  HitsLater-Hits t (key ∷ ms) (inr s) =
      let (ps, e, m) = HitsLater-Hits t ms s in (ps, e, one_more refl m)

  gather :
      (t : PatternTree T) {p : String} (ps ms : List String)
      → p ≡ "**"
      → data_at ps t ≡ some x
      → Matches (p ∷ ps) ms
      → HitsLater t ms ⊎ Matches ps []
  gather t ps [] q e (none_left _ m) = inr m
  gather t ps (key ∷ ms) q e (same m) = elim (gather t ps ms refl e (none_left refl m)) [
    | inl s ↦ inl (inr s)
    | inr d ↦ inr d
  ]
  gather t ps (key ∷ ms) q e (one q' m) = absurd (not-double_star q' q)
  gather t ps (key ∷ ms) q e (none_left _ m) = inl (inl (ps, e, m))
  gather t ps (key ∷ ms) q e (one_more _ m) = elim (gather t ps ms q e m) [
    | inl s ↦ inl (inr s)
    | inr d ↦ inr d
  ]

  module _ (d : Option T) (cs : Children T) where
    pub Hits-double :
        (key : String) (ms : List String)
        → (((d ≡ some x) ⊎ Hits (node d cs) (key ∷ ms) false) ⊎ HitsLater (node d cs) ms)
          ↔ Hits (node d cs) (key ∷ ms) true
    Hits-double key ms = (to, λ (ps, e, m). from ps e (gather (node d cs) ps (key ∷ ms) refl e m))
      where
        to :
            ((d ≡ some x) ⊎ Hits (node d cs) (key ∷ ms) false) ⊎ HitsLater (node d cs) ms
            → Hits (node d cs) (key ∷ ms) true
        to (inl (inl e)) = ([], e, Matches-double_star (key ∷ ms))
        to (inl (inr (ps, e, m))) = (ps, e, none_left refl m)
        to (inr s) = HitsLater-Hits (node d cs) (key ∷ ms) (inr s)

        from :
            (ps : List String)
            → data_at ps (node d cs) ≡ some x
            → HitsLater (node d cs) (key ∷ ms) ⊎ Matches ps []
            → ((d ≡ some x) ⊎ Hits (node d cs) (key ∷ ms) false) ⊎ HitsLater (node d cs) ms
        from ps e (inl (inl h)) = inl (inr h)
        from ps e (inl (inr s)) = inr s
        from [] e (inr m) = inl (inl e)
        from (p ∷ ps) e (inr m) = inl (inr (p ∷ ps, e, Matches_widen m (key ∷ ms)))

    pub Hits-nil_double : (double : Bool) → Hits (node d cs) [] false ↔ Hits (node d cs) [] double
    Hits-nil_double false = (λ h. h, λ h. h)
    Hits-nil_double true = (λ (ps, e, m). (ps, e, none_left refl m), λ (ps, e, m). (ps, e, drop m))
      where
        drop : {p : String} {ps : List String} → Matches (p ∷ ps) [] → Matches ps []
        drop (none_left _ m) = m

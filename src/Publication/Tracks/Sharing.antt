-- ===== src/Publication/Tracks/Sharing.antt =====
-- The second loop of `MatchTracks` shares out the groups.
use mathlib.Core.List.Memᴰ
use mathlib.Core.List.{Permᴰ}
use conference_go.Common.{
  true-ne-false, String, Bool, true, false, List, [], ◌∷◌, ◌++◌, if◌then◌else◌, ◌≡◌, refl, ◌∙◌, ◌↔◌,
  ◌⊎◌, inl, inr, Bool-cases, Memᴰ, subst,
}
use conference_go.Proto.{Track}
use conference_go.Publication.Tracks.{Groups, share_groups}

-- Go iterates over a map in some order, and meets every entry once.
abbrev pub IsIteration : (Groups → Groups) → Type 0
IsIteration iteration = (groups : Groups) → Permᴰ (iteration groups) groups

pub mem-Perm : {A : Type 0} {x : A} {l l' : List A} → Permᴰ l l' → Memᴰ x l → Memᴰ x l'
mem-Perm Permᴰ.nil m = m
mem-Perm (Permᴰ.cons e d) m = elim (Memᴰ.cases_cons m) [
  | inl q ↦ Memᴰ.head (q ∙ e)
  | inr m ↦ Memᴰ.tail (mem-Perm d m)
]
mem-Perm (Permᴰ.swap e e') m = elim (Memᴰ.cases_cons m) [
  | inl q ↦ Memᴰ.tail (Memᴰ.head (q ∙ e))
  | inr m ↦ elim (Memᴰ.cases_cons m) [
    | inl q ↦ Memᴰ.head (q ∙ e')
    | inr m ↦ Memᴰ.tail (Memᴰ.tail m)
  ]
]
mem-Perm (Permᴰ.trans d d') m = mem-Perm d' (mem-Perm d m)

-- The track is in a group that the test accepts, or does not accept.
abbrev pub InGroup : (List Track → Bool) → Bool → Groups → Track → Type 0
InGroup accepts b groups x =
    (key : String) × (ts : List Track) × Memᴰ (key, ts) groups × (accepts ts ≡ b) × Memᴰ x ts

mem_append :
    {A K : Type 0} (k : K) (x : A) (l l' : List A) → Memᴰ x (l ++ l') ↔ (Memᴰ x l ⊎ (K × Memᴰ x l'))
mem_append k x l l' = (
  λ m. elim (Memᴰ.append_cases l m) [ inl h ↦ inl h | inr h ↦ inr (k, h) ],
  elim [ inl h ↦ Memᴰ.append_left l' h | inr (_, h) ↦ Memᴰ.append_right l h ],
)

module _ (accepts : List Track → Bool) where
  abbrev pub pick : Bool → List Track × List Track → List Track
  pick true r = r.0
  pick false r = r.1

  InGroup-cons :
      (b : Bool) (key : String) (ts : List Track) (groups : Groups) (x : Track)
      → InGroup accepts b ((key, ts) ∷ groups) x
        ↔ (((accepts ts ≡ b) × Memᴰ x ts) ⊎ InGroup accepts b groups x)
  InGroup-cons b key ts groups x = (
    λ (k, us, m, a, d). elim (Memᴰ.cases_cons m) [
      | inl e ↦ inl (subst (λ (p : String × List Track). (accepts p.1 ≡ b) × Memᴰ x p.1) e (a, d))
      | inr m ↦ inr (k, us, m, a, d)
    ],
    elim [
      | inl (a, d) ↦ (key, ts, Memᴰ.head refl, a, d)
      | inr (k, us, m, a, d) ↦ (k, us, Memᴰ.tail m, a, d)
    ],
  )

  -- The second loop adds the accepted groups to the one list and the others to the other.
  pub share_groups_iff :
      (b : Bool) (groups : Groups) (matched unmatched : List Track) (x : Track)
      → Memᴰ x (pick b (share_groups accepts groups matched unmatched))
        ↔ (Memᴰ x (pick b (matched, unmatched)) ⊎ InGroup accepts b groups x)
  unfolding share_groups
  share_groups_iff b [] matched unmatched x =
      (inl, elim [ inl m ↦ m | inr (k, ts, m, _, _) ↦ absurd (Memᴰ.not-nil m) ])
  share_groups_iff b ((key, ts) ∷ groups) matched unmatched x = elim (Bool-cases (accepts ts)) [
    | inl k ↦
        rw k (regroup (mem_pick b true k) (share_groups_iff b groups (matched ++ ts) unmatched x))
    | inr k ↦
        rw k (regroup (mem_pick b false k) (share_groups_iff b groups matched (unmatched ++ ts) x))
  ]
    where
      mem_pick :
          (b a : Bool)
          → accepts ts ≡ a
          → Memᴰ x (pick b (if a then (matched ++ ts, unmatched) else (matched, unmatched ++ ts)))
            ↔ (Memᴰ x (pick b (matched, unmatched)) ⊎ ((accepts ts ≡ b) × Memᴰ x ts))
      mem_pick true true k = mem_append k x matched ts
      mem_pick true false k = (inl, elim [ inl m ↦ m | inr (e, _) ↦ absurd (true-ne-false e k) ])
      mem_pick false true k = (inl, elim [ inl m ↦ m | inr (e, _) ↦ absurd (true-ne-false k e) ])
      mem_pick false false k = mem_append k x unmatched ts

      regroup :
          {X Y : Type 0}
          → Y ↔ (Memᴰ x (pick b (matched, unmatched)) ⊎ ((accepts ts ≡ b) × Memᴰ x ts))
          → X ↔ (Y ⊎ InGroup accepts b groups x)
          → X ↔ (Memᴰ x (pick b (matched, unmatched)) ⊎ InGroup accepts b ((key, ts) ∷ groups) x)
      regroup (f, g) (f', g') =
          let (to, from) = InGroup-cons b key ts groups x in
          (
            λ h. elim (f' h) [
              | inl y ↦ elim (f y) [ inl m ↦ inl m | inr q ↦ inr (from (inl q)) ]
              | inr i ↦ inr (from (inr i))
            ],
            elim [
              | inl m ↦ g' (inl (g (inl m)))
              | inr i ↦ elim (to i) [ inl q ↦ g' (inl (g (inr q))) | inr i ↦ g' (inr i) ]
            ],
          )

-- ===== src/PatternMap/Collect.antt =====
-- `Collect` returns exactly the data kept under the patterns that match.
use mathlib.Core.Option
use mathlib.Core.List.Memᴰ
use conference_go.Common.{
  String, Bool, true, false, List, [], ◌∷◌, Option, none, some, str_eq, ◌≡◌, refl, ◌⊎◌, ◌↔◌, inl,
  inr, Bool-cases, Option-cases, sym, some_inj, Memᴰ, ap,
}
use conference_go.Room.Matches.{Matches}
use conference_go.PatternMap.{
  PatternTree, node, Children, leaf, child, find, append_data, chain_children, chain_node, follow,
  visit_children, visit_plain, visit_later, visit, collect, collect_child, collect_parts,
}
use conference_go.PatternMap.Hits.{
  Hits, HitsBelow, HitsLater, ByKey, Hits-nil, Hits-cons, Hits-double, Hits-nil_double,
}
use conference_go.PatternMap.Paths.{data_in, tree_ind}

then_iff {ℓ} : {R X Y A B : Type ℓ} → X ↔ (R ⊎ A) → Y ↔ (X ⊎ B) → Y ↔ (R ⊎ (A ⊎ B))
then_iff (f, g) (f', g') = (
  λ y. elim (f' y) [
    | inl x ↦ elim (f x) [ inl r ↦ inl r | inr a ↦ inr (inl a) ]
    | inr b ↦ inr (inr b)
  ],
  elim [
    | inl r ↦ g' (inl (g (inl r)))
    | inr (inl a) ↦ g' (inl (g (inr a)))
    | inr (inr b) ↦ g' (inr b)
  ],
)

or_iff {ℓ} : {R X A B : Type ℓ} → A ↔ B → X ↔ (R ⊎ A) → X ↔ (R ⊎ B)
or_iff (f, g) (to, from) = (
  λ x. elim (to x) [ inl r ↦ inl r | inr a ↦ inr (f a) ],
  elim [ inl r ↦ from (inl r) | inr b ↦ from (inr (g b)) ],
)

module _ {ℓ} {T : Type ℓ} where
  chain_found : Option (PatternTree T) → List T → List T
  chain_found none results = results
  chain_found (some t) results = chain_node t results

  chain_children-find :
      (cs : Children T) (results : List T)
      → chain_children cs results ≡ chain_found (find "**" cs) results
  unfolding chain_children find chain_found
  chain_children-find leaf results = refl
  chain_children-find (child k t cs) results = elim (Bool-cases (str_eq k "**")) [
    | inl e ↦ rw e
    | inr e ↦ rw e (chain_children-find cs results)
  ]

  collect_child-find :
      (cs : Children T) (key : String) → collect_child cs key ≡ Option.map collect (find key cs)
  unfolding collect find
  collect_child-find leaf key = refl
  collect_child-find (child k t cs) key = elim (Bool-cases (str_eq k key)) [
    | inl e ↦ rw e
    | inr e ↦ rw e (collect_child-find cs key)
  ]

module _ {ℓ} {T : Type ℓ} (x : T) where
  abbrev IsExact : PatternTree T → Type ℓ
  IsExact t =
      (ms : List String) (double : Bool) (results : List T)
      → Memᴰ x (collect t ms double results) ↔ (Memᴰ x results ⊎ Hits x t ms double)

  append_data_iff :
      (d : Option T) (results : List T)
      → Memᴰ x (append_data d results) ↔ (Memᴰ x results ⊎ (d ≡ some x))
  append_data_iff none results = (inl, elim [ inl m ↦ m | inr e ↦ cc ])
  append_data_iff (some y) results = (
    λ m. elim (Memᴰ.append_cases results m) [
      | inl m ↦ inl m
      | inr m ↦ inr (ap some (sym (Memᴰ.eq_of_singleton m)))
    ],
    elim [
      | inl m ↦ Memᴰ.append_left (y ∷ []) m
      | inr e ↦ Memᴰ.append_right results (Memᴰ.head (sym (some_inj e)))
    ],
  )

  chain_found_iff :
      (o : Option (PatternTree T)) (results : List T)
      → ((t : PatternTree T)
          → o ≡ some t
          → Memᴰ x (chain_node t results) ↔ (Memᴰ x results ⊎ Hits x t [] false))
      → Memᴰ x (chain_found o results) ↔ (Memᴰ x results ⊎ HitsBelow x o [] false)
  unfolding chain_found
  chain_found_iff none results h = (inl, elim [ inl m ↦ m | inr (ps, e, m) ↦ cc ])
  chain_found_iff (some t) results h = h t refl

  chain_node_iff :
      (t : PatternTree T) (results : List T)
      → Memᴰ x (chain_node t results) ↔ (Memᴰ x results ⊎ Hits x t [] false)
  unfolding chain_children
  chain_node_iff =
      tree_ind
        (λ t.
          (results : List T) → Memᴰ x (chain_node t results) ↔ (Memᴰ x results ⊎ Hits x t [] false))
        (λ d cs ih results. rw chain_children-find (
          or_iff (Hits-nil x d cs) (
            then_iff (append_data_iff d results) (
              chain_found_iff (find "**" cs) (append_data d results)
                (λ t e. ih "**" t e (append_data d results))))))

  module _ (d : Option T) (cs : Children T) where
    module _ (ih : (key : String) (t : PatternTree T) → find key cs ≡ some t → IsExact t) where
      follow_iff :
          (key : String) (ms : List String) (double : Bool) (results : List T)
          → Memᴰ x (follow (collect_child cs key) ms double results)
            ↔ (Memᴰ x results ⊎ HitsBelow x (find key cs) ms double)
      follow_iff key ms double results = rw collect_child-find (elim (Option-cases (find key cs)) [
        | inl e ↦ rw e (inl, elim [ inl m ↦ m | inr (ps, e', m) ↦ cc ])
        | inr (t, e) ↦ rw e (ih key t e ms double results)
      ])

      visit_children_iff :
          (key : String) (ms : List String) (results : List T)
          → Memᴰ x (visit_children (collect_child cs) key ms results)
            ↔ (Memᴰ x results ⊎ ByKey x d cs key ms)
      unfolding ByKey
      visit_children_iff key ms results =
          then_iff (then_iff (follow_iff "**" (key ∷ ms) true _) (follow_iff "*" ms false _))
            (follow_iff key ms false _)

      visit_plain_iff :
          (ms : List String) (results : List T)
          → Memᴰ x (visit_plain d cs (collect_child cs) ms results)
            ↔ (Memᴰ x results ⊎ Hits x (node d cs) ms false)
      unfolding chain_children
      visit_plain_iff [] results = chain_node_iff (node d cs) results
      visit_plain_iff (key ∷ ms) results =
          or_iff (Hits-cons x d cs key ms) (visit_children_iff key ms results)

      visit_later_iff :
          (ms : List String) (results : List T)
          → Memᴰ x (visit_later d cs (collect_child cs) ms results)
            ↔ (Memᴰ x results ⊎ HitsLater x (node d cs) ms)
      unfolding visit_later
      visit_later_iff [] results = (inl, elim [ inl m ↦ m | inr e ↦ cc ])
      visit_later_iff (key ∷ ms) results =
          then_iff (visit_plain_iff (key ∷ ms) results) (visit_later_iff ms _)

      visit_iff :
          (ms : List String) (double : Bool) (results : List T)
          → Memᴰ x (visit d cs (collect_child cs) ms double results)
            ↔ (Memᴰ x results ⊎ Hits x (node d cs) ms double)
      unfolding visit
      visit_iff [] double results =
          or_iff (Hits-nil_double x d cs double) (visit_plain_iff [] results)
      visit_iff (key ∷ ms) false results = visit_plain_iff (key ∷ ms) results
      visit_iff (key ∷ ms) true results = or_iff (Hits-double x d cs key ms) (
          then_iff (then_iff (append_data_iff d results) (visit_plain_iff (key ∷ ms) _))
            (visit_later_iff ms _))

  collect-IsExact : (t : PatternTree T) → IsExact t
  unfolding collect
  collect-IsExact = tree_ind IsExact (λ d cs ih. visit_iff d cs ih)

  -- `Collect` on the parts of a room returns a datum exactly if it is kept under a pattern whose parts
  -- match them.
  pub collect_parts_iff :
      (key : String) (ms : List String) (inner : Children T)
      → Memᴰ x (collect_parts (key ∷ ms) inner)
        ↔ ((ps : List String) × (data_in ps inner ≡ some x) × Matches ps (key ∷ ms))
  unfolding collect_parts
  collect_parts_iff key ms inner =
      let all =
        or_iff (Hits-cons x none inner key ms)
          (visit_children_iff none inner (λ k t e. collect-IsExact t) key ms []) in
      (λ m. elim (all.0 m) [ inl n ↦ absurd (Memᴰ.not-nil n) | inr h ↦ h ], λ h. all.1 (inr h))

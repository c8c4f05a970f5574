-- ===== src/PatternMap/Paths.antt =====
-- What a tree keeps under a path, and how the map operations of the children change it.
use conference_go.Common.{
  String, Bool, true, false, List, [], ◌∷◌, Option, none, some, str_eq, str_eq_iff, if◌then◌else◌,
  ◌≡◌, refl, arith, subst, some_inj,
}
use conference_go.PatternMap.{PatternTree, node, Children, leaf, child, find, put, delete}

module _ {ℓ} {T : Type ℓ} where
  mutual
    unfolding find

    tree_ind_node :
        (P : PatternTree T → Type ℓ)
        → ((d : Option T) (cs : Children T)
            → ((key : String) (t : PatternTree T) → find key cs ≡ some t → P t)
            → P (node d cs))
        → (t : PatternTree T) → P t
    tree_ind_node P h (node d cs) = h d cs (tree_ind_child P h cs)

    tree_ind_child :
        (P : PatternTree T → Type ℓ)
        → ((d : Option T) (cs : Children T)
            → ((key : String) (t : PatternTree T) → find key cs ≡ some t → P t)
            → P (node d cs))
        → (cs : Children T) (key : String) (t : PatternTree T) → find key cs ≡ some t
        → P t
    tree_ind_child P h leaf key t e = cc
    tree_ind_child P h (child k u cs) key t e =
        by_key (str_eq k key) (tree_ind_node P h u) (tree_ind_child P h cs key t) e
      where
        by_key :
            (b : Bool)
            → P u
            → (find key cs ≡ some t → P t)
            → (if b then some u else find key cs) ≡ some t
            → P t
        by_key true p q e' = subst P (some_inj e') p
        by_key false p q e' = q e'

  -- Induction over a tree: what holds of all children that a key finds holds of the node.
  pub tree_ind :
      (P : PatternTree T → Type ℓ)
      → ((d : Option T) (cs : Children T)
          → ((key : String) (t : PatternTree T) → find key cs ≡ some t → P t)
          → P (node d cs))
      → (t : PatternTree T) → P t
  tree_ind P h t = tree_ind_node P h t

  abbrev pub data_via : (PatternTree T → Option T) → Option (PatternTree T) → Option T
  data_via f none = none
  data_via f (some t) = f t

  abbrev pub data_at : List String → PatternTree T → Option T
  data_at [] (node d cs) = d
  data_at (key ∷ ks) (node d cs) = data_via (data_at ks) (find key cs)

  -- What a `PatternMap` keeps under the parts of a pattern.
  abbrev pub data_in : List String → Children T → Option T
  data_in ps cs = data_at ps (node none cs)

  pub find-put :
      (j k : String) (t : PatternTree T) (cs : Children T)
      → find j (put k t cs) ≡ (if str_eq k j then some t else find j cs)
  unfolding find put
  find-put j k t leaf = refl
  find-put j k t (child i u cs) =
      ground (arith, str_eq_iff i k, str_eq_iff i j, str_eq_iff k j, find-put j k t cs)

  pub find-delete :
      (j k : String) (cs : Children T)
      → find j (delete k cs) ≡ (if str_eq k j then none else find j cs)
  unfolding find delete
  find-delete j k leaf = ground arith
  find-delete j k (child i u cs) =
      ground (arith, str_eq_iff i k, str_eq_iff i j, str_eq_iff k j, find-delete j k cs)

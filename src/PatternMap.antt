-- ===== src/PatternMap.antt =====
-- signal/utils.go: `PatternTree` and `PatternMap`, which keep data under dotted patterns and collect
-- what is kept under the patterns that match a room.
pub mod Paths
pub mod Hits
pub mod Collect
pub mod Removal
pub mod Update
pub mod Rooms
use conference_go.Common.{
  String, Bool, true, false, ◌||◌, List, [], ◌∷◌, ◌++◌, Option, none, some, str_eq, if◌then◌else◌,
  Result, ok, panic, impossible, ◌>>=◌, ◌>>◌,
}
use conference_go.Room.{split, check_pattern, check_room}

-- `hasData` and `data` are one option: every write keeps `data` zero where `hasData` is false.
-- The map of children is an association list; a nil map reads as an empty one.
mutual
  pub data PatternTree {ℓ} (T : Type ℓ) : Type ℓ where
    node : Option T → Children T → PatternTree T

  pub data Children {ℓ} (T : Type ℓ) : Type ℓ where
    leaf : Children T
    child : String → PatternTree T → Children T → Children T

-- The mapper sees the old data, if there is any, and gives the new data, or `none` to remove it.
abbrev pub Mapper {ℓ} : Type ℓ → Type ℓ
Mapper T = Option T → Option T

-- The parts left, `doubleStar`, and the results so far.
abbrev pub Collector {ℓ} : Type ℓ → Type ℓ
Collector T = List String → Bool → List T → List T

module _ {ℓ} {T : Type ℓ} where
  -- `children[key]`
  unfoldable pub find : String → Children T → Option (PatternTree T)
  find key leaf = none
  find key (child k t cs) = if str_eq k key then some t else find key cs

  -- `children[key] = t`
  unfoldable pub put : String → PatternTree T → Children T → Children T
  put key t leaf = child key t leaf
  put key t (child k u cs) = if str_eq k key then child k t cs else child k u (put key t cs)

  -- `delete(children, key)`
  unfoldable pub delete : String → Children T → Children T
  delete key leaf = leaf
  delete key (child k t cs) = if str_eq k key then delete key cs else child k t (delete key cs)

  abbrev pub has_data : PatternTree T → Option T
  has_data (node d cs) = d

  abbrev pub children : PatternTree T → Children T
  children (node d cs) = cs

  -- `&PatternTree[T]{}`
  abbrev pub empty_tree : PatternTree T
  empty_tree = node none leaf

  unfoldable pub is_empty : PatternTree T → Bool
  is_empty (node none leaf) = true
  is_empty (node _ _) = false

  abbrev pub or_empty : Option (PatternTree T) → PatternTree T
  or_empty none = empty_tree
  or_empty (some t) = t

  -- `PatternTree.removePatternData`
  unfoldable pub remove_data : List String → PatternTree T → PatternTree T
  remove_data [] (node d cs) = node none cs
  remove_data (key ∷ ks) (node d cs) = elim (find key cs) [
    | none ↦ node d cs
    | some next ↦
        let next' = remove_data ks next in
        if is_empty next' then node d (delete key cs) else node d (put key next' cs)
  ]

  -- `PatternMap.removePatternData`
  unfoldable pub remove_pattern_data : List String → Children T → Result (Children T)
  remove_pattern_data [] inner = panic impossible
  remove_pattern_data (key ∷ ks) inner = elim (find key inner) [
    | none ↦ ok inner
    | some pt ↦ ok (put key (remove_data ks pt) inner)
  ]

  -- The last round of the loop: what the mapper asked for is stored, unless it is removal.
  abbrev pub store : String → PatternTree T → Option T → Children T → Children T × Bool
  store p pt none inner = (inner, true)
  store p pt (some new) inner = (put p (node (some new) (children pt)) inner, false)

  -- The loop of `UpdatePatternData` over the parts: the inner map with what it has created, and
  -- whether the mapper asked for removal.
  unfoldable pub descend : Mapper T → List String → Children T → Children T × Bool
  descend mapper [] inner = (inner, false)
  descend mapper (p ∷ []) inner =
      let pt = or_empty (find p inner) in store p pt (mapper (has_data pt)) inner
  descend mapper (p ∷ q ∷ ps) inner =
      let pt = or_empty (find p inner) in
      let (below, removed) = descend mapper (q ∷ ps) (children pt) in
      (put p (node (has_data pt) below) inner, removed)

  unfoldable pub update_parts : List String → Mapper T → Children T → Result (Children T)
  unfolding descend remove_pattern_data
  update_parts ps mapper inner =
      let (inner', removed) = descend mapper ps inner in
      if removed then remove_pattern_data ps inner' else ok inner'

  -- `UpdatePatternData`
  unfoldable pub update_pattern_data : String → Mapper T → Children T → Result (Children T)
  unfolding update_parts
  update_pattern_data pattern mapper inner = do
    check_pattern pattern
    update_parts (split pattern) mapper inner

  abbrev pub append_data : Option T → List T → List T
  append_data none results = results
  append_data (some x) results = results ++ x ∷ []

  -- Without parts left: the data of the node, and along its chain of `**` children.
  unfoldable mutual
    pub chain_children : Children T → List T → List T
    chain_children leaf results = results
    chain_children (child k t cs) results =
        let here = chain_node t results in
        let there = chain_children cs results in if str_eq k "**" then here else there

    pub chain_node : PatternTree T → List T → List T
    chain_node (node d cs) results = chain_children cs (append_data d results)

  abbrev pub follow : Option (Collector T) → Collector T
  follow none ms double results = results
  follow (some c) ms double results = c ms double results

  -- The three children that can take the part `key`.
  abbrev pub visit_children :
      (String → Option (Collector T)) → String → List String → List T → List T
  visit_children kids key ms results =
      follow (kids key) ms false
        (follow (kids "*") ms false (follow (kids "**") (key ∷ ms) true results))

  abbrev pub visit_plain :
      Option T → Children T → (String → Option (Collector T)) → List String → List T → List T
  visit_plain d cs kids [] results = chain_children cs (append_data d results)
  visit_plain d cs kids (key ∷ ms) results = visit_children kids key ms results

  -- The last loop: the same node again, without `doubleStar`, at each later part.
  unfoldable pub visit_later :
      Option T → Children T → (String → Option (Collector T)) → List String → List T → List T
  visit_later d cs kids [] results = results
  visit_later d cs kids (key ∷ ms) results =
      visit_later d cs kids ms (visit_plain d cs kids (key ∷ ms) results)

  unfoldable pub visit : Option T → Children T → (String → Option (Collector T)) → Collector T
  visit d cs kids [] double results = visit_plain d cs kids [] results
  visit d cs kids (key ∷ ms) false results = visit_plain d cs kids (key ∷ ms) results
  visit d cs kids (key ∷ ms) true results =
      visit_later d cs kids ms (visit_plain d cs kids (key ∷ ms) (append_data d results))

  -- `PatternTree.collect`; `collect_child cs key` is `collect` of the child that `key` has, if any.
  unfoldable mutual
    pub collect : PatternTree T → List String → Bool → List T → List T
    collect (node d cs) = visit d cs (collect_child cs)

    pub collect_child : Children T → String → Option (Collector T)
    collect_child leaf key = none
    collect_child (child k t cs) key =
        if str_eq k key then some (collect t) else collect_child cs key

  -- `PatternMap.Collect`, on the parts of the room
  unfoldable pub collect_parts : List String → Children T → List T
  collect_parts [] inner = []
  collect_parts (key ∷ ms) inner = visit_children (collect_child inner) key ms []

  -- `PatternMap.Collect`
  unfoldable pub collect_room : String → Children T → Result (List T)
  collect_room room inner = do check_room room; ok (collect_parts (split room) inner)

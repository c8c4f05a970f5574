-- ===== src/Publication/Selection.antt =====
-- Which tracks a pattern selects, and the proof that `Match` decides it.
use conference_go.Common.{
  true-ne-false, Every, Exists, none-any, ◌%◌, String, Bool, true, false, not, List, [], ◌∷◌,
  Option, none, some, any, length, str_eq_iff, if◌then◌else◌, ◌≡◌, refl, ◌↔◌, ◌⊎◌, inl, inr, arith,
  Bool-cases, Memᴰ, ok, Decides,
}
use conference_go.Maps.{lookup}
use conference_go.Proto.{
  PatternOp, PublicationPattern, pattern, Patterns, nil, cons, Track, publish_id, stream_id,
  track_id, track_rid, track_label_all_match, track_label_some_match, track_label_none_match,
  track_label_all_has, track_label_some_has, track_label_none_has, track_type,
}
use conference_go.Publication.{is_value, is_some, each_pair, each_name}

-- The arguments of the label operators, as names with their values.
abbrev pub pairs : List String → List (String × String)
pairs [] = []
pairs (key ∷ []) = []
pairs (key ∷ value ∷ args) = (key, value) ∷ pairs args

abbrev pub HasValue : Track → String × String → Type 0
HasValue t p = lookup p.0 t.labels ≡ some p.1

abbrev pub HasLabel : Track → String → Type 0
HasLabel t name = (value : String) × (lookup name t.labels ≡ some value)

abbrev pub LeafSelects : PatternOp → List String → Track → Type 0
LeafSelects publish_id args t = Memᴰ t.pub_id args
LeafSelects stream_id args t = Memᴰ t.stream_id args
LeafSelects track_id args t = Memᴰ t.global_id args
LeafSelects track_rid args t = Memᴰ t.rid args
LeafSelects track_type args t = Memᴰ t.kind args
LeafSelects track_label_all_match args t = Every (HasValue t) (pairs args)
LeafSelects track_label_some_match args t = Exists (HasValue t) (pairs args)
LeafSelects track_label_none_match args t = ¬ Exists (HasValue t) (pairs args)
LeafSelects track_label_all_has args t = Every (HasLabel t) args
LeafSelects track_label_some_has args t = Exists (HasLabel t) args
LeafSelects track_label_none_has args t = ¬ Exists (HasLabel t) args
LeafSelects _ args t = ⊥

-- When a pattern selects a track; all, and one, of the patterns of a list.
unfoldable mutual
  pub Selects : PublicationPattern → Track → Type 0
  Selects (pattern PatternOp.all args cs) t = AllSelect cs t
  Selects (pattern PatternOp.some args cs) t = OneSelects cs t
  Selects (pattern PatternOp.none args cs) t = ¬ OneSelects cs t
  Selects (pattern op args cs) t = LeafSelects op args t

  pub AllSelect : Patterns → Track → Type 0
  AllSelect nil t = Unit
  AllSelect (cons c cs) t = Selects c t × AllSelect cs t

  pub OneSelects : Patterns → Track → Type 0
  OneSelects nil t = ⊥
  OneSelects (cons c cs) t = Selects c t ⊎ OneSelects cs t

pub Decides-if :
    {G : Type 0} (b : Bool) → (b ≡ true) ↔ G → Decides G (ok (if b then true else false))
Decides-if true e = e.0 refl
Decides-if false e = λ g. absurd (true-ne-false (e.1 g) refl)

pub Decides-unless :
    {G : Type 0} (b : Bool) → (b ≡ true) ↔ G → Decides (¬ G) (ok (if b then false else true))
Decides-unless true e = λ n. n (e.0 refl)
Decides-unless false e = λ g. absurd (true-ne-false (e.1 g) refl)

-- A test that reflects a predicate, on the members of a list.
module _ {A : Type 0} (P : A → Type 0) (test : A → Bool)
    (reflects : (x : A) → (test x ≡ true) ↔ P x) where
  pub Decides-Every :
      (l : List A) → Decides (Every P l) (ok (if any (λ x. not (test x)) l then false else true))
  Decides-Every l = elim (Bool-cases (any (λ x. not (test x)) l)) [
    | inl k ↦ rw k (λ h. true-ne-false k ((none-any P test reflects l).1 h))
    | inr k ↦ rw k ((none-any P test reflects l).0 k)
  ]

-- The loops of `Match` look for a member that passes the test.
pub each_name_lem :
    (test : String → Bool) (answer : Bool) (args : List String)
    → each_name test answer args ≡ (if any test args then answer else not answer)
unfolding each_name
each_name_lem test answer [] = refl
each_name_lem test answer (name ∷ args) = elim (Bool-cases (test name)) [
  | inl k ↦ rw k
  | inr k ↦ rw k (each_name_lem test answer args)
]

pub each_pair_lem :
    (test : String → String → Bool) (answer : Bool) (args : List String)
    → length args % 2 ≡ 0
    → each_pair test answer args
      ≡ ok (if any (λ (p : String × String). test p.0 p.1) (pairs args) then answer else not answer)
unfolding each_pair
each_pair_lem test answer [] h = refl
each_pair_lem test answer (key ∷ []) h = absurd (omega (arith, h))
each_pair_lem test answer (key ∷ value ∷ args) h = elim (Bool-cases (test key value)) [
  | inl k ↦ rw k
  | inr k ↦ rw k (each_pair_lem test answer args (omega (arith, h)))
]

pub is_value_iff :
    (value : String) (o : Option String) → (is_value value o ≡ true) ↔ (o ≡ some value)
is_value_iff value none = (λ e. cc, λ e. cc)
is_value_iff value (some v) = ground (arith, str_eq_iff v value)

pub is_some_iff : (o : Option String) → (is_some o ≡ true) ↔ ((value : String) × (o ≡ some value))
is_some_iff none = (λ e. cc, λ (v, e). cc)
is_some_iff (some v) = (λ _. (v, refl), λ _. refl)

-- ===== src/Publication/Matching.antt =====
-- On a pattern that `Validate` accepts, `Match` decides which tracks are selected.
use conference_go.Common.{
  Decides-ok, any_iff, ◌%◌, String, Bool, true, false, not, List, Option, none, some, length,
  str_eq, str_eq_iff, if◌then◌else◌, ◌≡◌, refl, ◌↔◌, ◌⊎◌, inl, inr, arith, Memᴰ, Result, ok, panic,
  ◌>>=◌, Decides, Decides-iff,
}
use conference_go.Maps.{lookup}
use conference_go.Collection.{in_slice}
use conference_go.Collection.Search.{in_slice_iff}
use conference_go.Proto.{
  PatternOp, PublicationPattern, pattern, Patterns, nil, cons, Track, publish_id, stream_id,
  track_id, track_rid, track_label_all_match, track_label_some_match, track_label_none_match,
  track_label_all_has, track_label_some_has, track_label_none_has, track_type, other,
}
use conference_go.Publication.{
  PatternError, check_args_num, check_pairs, or_else, validate, validate_each, validate_args,
  match_label, has_label, is_same, match_leaf, match_pattern, match_children,
}
use conference_go.Publication.Selection.{
  pairs, HasValue, HasLabel, LeafSelects, Selects, AllSelect, OneSelects, Decides-if,
  Decides-unless, Decides-Every, each_name_lem, each_pair_lem, is_value_iff, is_some_iff,
}

or_else-none : (a b : Option PatternError) → or_else a b ≡ none → (a ≡ none) × (b ≡ none)
or_else-none none b e = (refl, e)
or_else-none (some err) b e = cc

check_pairs-even : (args : List String) → check_pairs args ≡ none → length args % 2 ≡ 0
check_pairs-even args h = ground (arith, h)

in_args-Decides :
    (x : String) (args : List String) → Decides (Memᴰ x args) (ok (in_slice args x str_eq))
in_args-Decides x args = Decides-ok (in_slice args x str_eq) (in_slice_iff str_eq str_eq_iff args x)

module _ (t : Track) where
  abbrev value_test : String × String → Bool
  value_test p = match_label t p.0 p.1

  value_test_iff : (p : String × String) → (value_test p ≡ true) ↔ HasValue t p
  value_test_iff p = is_value_iff p.1 (lookup p.0 t.labels)

  has_label_iff : (name : String) → (has_label t name ≡ true) ↔ HasLabel t name
  has_label_iff name = is_some_iff (lookup name t.labels)

  match_leaf-Decides :
      (op : PatternOp) (args : List String)
      → validate_args op args ≡ none
      → Decides (LeafSelects op args t) (match_leaf op args t)
  unfolding match_leaf
  match_leaf-Decides PatternOp.all args h = λ x. x
  match_leaf-Decides PatternOp.some args h = λ x. x
  match_leaf-Decides PatternOp.none args h = λ x. x
  match_leaf-Decides publish_id args h = in_args-Decides t.pub_id args
  match_leaf-Decides stream_id args h = in_args-Decides t.stream_id args
  match_leaf-Decides track_id args h = in_args-Decides t.global_id args
  match_leaf-Decides track_rid args h = in_args-Decides t.rid args
  match_leaf-Decides track_type args h = in_args-Decides t.kind args
  match_leaf-Decides track_label_all_match args h =
      rw (each_pair_lem (λ k v. not (match_label t k v)) false args (check_pairs-even args h))
        (Decides-Every (HasValue t) value_test value_test_iff (pairs args))
  match_leaf-Decides track_label_some_match args h =
      rw (each_pair_lem (match_label t) true args (check_pairs-even args h))
        (Decides-if _ (any_iff (HasValue t) value_test value_test_iff (pairs args)))
  match_leaf-Decides track_label_none_match args h =
      rw (each_pair_lem (match_label t) false args (check_pairs-even args h))
        (Decides-unless _ (any_iff (HasValue t) value_test value_test_iff (pairs args)))
  match_leaf-Decides track_label_all_has args h =
      rw (each_name_lem (λ n. not (has_label t n)) false args)
        (Decides-Every (HasLabel t) (has_label t) has_label_iff args)
  match_leaf-Decides track_label_some_has args h =
      rw (each_name_lem (has_label t) true args)
        (Decides-if _ (any_iff (HasLabel t) (has_label t) has_label_iff args))
  match_leaf-Decides track_label_none_has args h =
      rw (each_name_lem (has_label t) false args)
        (Decides-unless _ (any_iff (HasLabel t) (has_label t) has_label_iff args))
  match_leaf-Decides (other n) args h = λ x. x

-- One round of each loop over the children.
module _ (G H : Type 0) where
  all_round :
      (r rest : Result Bool)
      → Decides G r
      → Decides H rest
      → Decides (G × H) (r >>= λ b. if is_same false b then ok false else rest)
  all_round (ok true) rest g h = Decides-iff rest (λ x. (g, x), λ p. p.1) h
  all_round (ok false) rest g h = λ p. g p.0
  all_round (panic e) rest g h = absurd g

  some_round :
      (r rest : Result Bool)
      → Decides G r
      → Decides H rest
      → Decides (G ⊎ H) (r >>= λ b. if is_same true b then ok true else rest)
  some_round (ok true) rest g h = inl g
  some_round (ok false) rest g h =
      Decides-iff rest (inr, elim [ inl x ↦ absurd (g x) | inr x ↦ x ]) h
  some_round (panic e) rest g h = absurd g

  none_round :
      (r rest : Result Bool)
      → Decides G r
      → Decides (¬ H) rest
      → Decides (¬ (G ⊎ H)) (r >>= λ b. if is_same true b then ok false else rest)
  none_round (ok true) rest g h = λ n. n (inl g)
  none_round (ok false) rest g h =
      Decides-iff rest (λ n. elim [ inl x ↦ g x | inr x ↦ n x ], λ n x. n (inr x)) h
  none_round (panic e) rest g h = absurd g

module _ (t : Track) where
  mutual
    unfolding validate match_pattern Selects

    match_valid :
        (p : PublicationPattern) → validate p ≡ none → Decides (Selects p t) (match_pattern p t)
    match_valid (pattern PatternOp.all args cs) h =
        all_match cs (or_else-none (check_args_num args 0 false) (validate_each cs) h).1
    match_valid (pattern PatternOp.some args cs) h =
        some_match cs (or_else-none (check_args_num args 0 false) (validate_each cs) h).1
    match_valid (pattern PatternOp.none args cs) h =
        none_match cs (or_else-none (check_args_num args 0 false) (validate_each cs) h).1
    match_valid (pattern op args nil) h = match_leaf-Decides t op args h
    match_valid (pattern op args (cons c cs)) h = cc

    all_match :
        (cs : Patterns)
        → validate_each cs ≡ none
        → Decides (AllSelect cs t) (match_children false false cs t)
    all_match nil h = tt
    all_match (cons c cs) h =
        let (hc, hs) = or_else-none (validate c) (validate_each cs) h in
        all_round (Selects c t) (AllSelect cs t) (match_pattern c t) _ (match_valid c hc)
          (all_match cs hs)

    some_match :
        (cs : Patterns)
        → validate_each cs ≡ none
        → Decides (OneSelects cs t) (match_children true true cs t)
    some_match nil h = λ x. x
    some_match (cons c cs) h =
        let (hc, hs) = or_else-none (validate c) (validate_each cs) h in
        some_round (Selects c t) (OneSelects cs t) (match_pattern c t) _ (match_valid c hc)
          (some_match cs hs)

    none_match :
        (cs : Patterns)
        → validate_each cs ≡ none
        → Decides (¬ OneSelects cs t) (match_children true false cs t)
    none_match nil h = λ x. x
    none_match (cons c cs) h =
        let (hc, hs) = or_else-none (validate c) (validate_each cs) h in
        none_round (Selects c t) (OneSelects cs t) (match_pattern c t) _ (match_valid c hc)
          (none_match cs hs)

-- On a pattern that `Validate` accepts `Match` returns, and answers true exactly on the tracks that
-- the pattern selects.
pub match_pattern-Decides :
    (p : PublicationPattern) (t : Track)
    → validate p ≡ none
    → Decides (Selects p t) (match_pattern p t)
match_pattern-Decides p t h = match_valid t p h

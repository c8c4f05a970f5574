-- ===== src/Publication/Validity.antt =====
-- What `Validate` accepts.
use conference_go.Common.{
  ◌≤◌, ◌%◌, String, true, false, List, [], ◌∷◌, Option, none, some, length, str_eq_iff, ◌≡◌, refl,
  ◌↔◌, ◌⊎◌, arith,
}
use conference_go.Proto.{
  PatternOp, PublicationPattern, pattern, Patterns, nil, cons, publish_id, stream_id, track_id,
  track_rid, track_label_all_match, track_label_some_match, track_label_none_match,
  track_label_all_has, track_label_some_has, track_label_none_has, track_type, other,
}
use conference_go.Publication.{
  PatternError, or_else, check_args_num, check_pairs, check_track_type, validate_args, validate,
  validate_each,
}

-- At least one pair, and no name without its value.
abbrev pub ArePairs : List String → Type 0
ArePairs args = (2 ≤ length args) × (length args % 2 ≡ 0)

abbrev pub StartsWithKind : List String → Type 0
StartsWithKind [] = ⊥
StartsWithKind (t ∷ args) = (t ≡ "video") ⊎ (t ≡ "audio")

-- The arguments that an operator without children takes; the first three operators have children.
abbrev pub Takes : PatternOp → List String → Type 0
Takes PatternOp.all args = Unit
Takes PatternOp.some args = Unit
Takes PatternOp.none args = Unit
Takes track_label_all_match args = ArePairs args
Takes track_label_some_match args = ArePairs args
Takes track_label_none_match args = ArePairs args
Takes track_type args = StartsWithKind args
Takes (other n) args = ⊥
Takes _ args = 1 ≤ length args

-- The operators on patterns take no arguments, the others no children.
unfoldable mutual
  pub IsWellFormed : PublicationPattern → Type 0
  IsWellFormed (pattern PatternOp.all args cs) = (length args ≡ 0) × AreWellFormed cs
  IsWellFormed (pattern PatternOp.some args cs) = (length args ≡ 0) × AreWellFormed cs
  IsWellFormed (pattern PatternOp.none args cs) = (length args ≡ 0) × AreWellFormed cs
  IsWellFormed (pattern op args nil) = Takes op args
  IsWellFormed (pattern op args (cons c cs)) = ⊥

  pub AreWellFormed : Patterns → Type 0
  AreWellFormed nil = Unit
  AreWellFormed (cons c cs) = IsWellFormed c × AreWellFormed cs

or_else_iff :
    {P Q : Type 0} (a b : Option PatternError)
    → (a ≡ none) ↔ P
    → (b ≡ none) ↔ Q
    → (or_else a b ≡ none) ↔ (P × Q)
or_else_iff none b f g = (λ e. (f.0 refl, g.0 e), λ (p, q). g.1 q)
or_else_iff (some err) b f g = (λ e. cc, λ (p, q). f.1 p)

no_args_iff : (args : List String) → (check_args_num args 0 false ≡ none) ↔ (length args ≡ 0)
no_args_iff args = ground arith

one_arg_iff : (args : List String) → (check_args_num args 1 true ≡ none) ↔ (1 ≤ length args)
one_arg_iff args = ground arith

check_pairs_iff : (args : List String) → (check_pairs args ≡ none) ↔ ArePairs args
check_pairs_iff args = ground arith

check_track_type_iff : (args : List String) → (check_track_type args ≡ none) ↔ StartsWithKind args
check_track_type_iff [] = (λ e. cc, λ h. absurd h)
check_track_type_iff (t ∷ args) = ground (arith, str_eq_iff t "video", str_eq_iff t "audio")

validate_args_iff :
    (op : PatternOp) (args : List String) → (validate_args op args ≡ none) ↔ Takes op args
validate_args_iff PatternOp.all args = (λ e. tt, λ u. refl)
validate_args_iff PatternOp.some args = (λ e. tt, λ u. refl)
validate_args_iff PatternOp.none args = (λ e. tt, λ u. refl)
validate_args_iff publish_id args = one_arg_iff args
validate_args_iff stream_id args = one_arg_iff args
validate_args_iff track_id args = one_arg_iff args
validate_args_iff track_rid args = one_arg_iff args
validate_args_iff track_label_all_has args = one_arg_iff args
validate_args_iff track_label_some_has args = one_arg_iff args
validate_args_iff track_label_none_has args = one_arg_iff args
validate_args_iff track_label_all_match args = check_pairs_iff args
validate_args_iff track_label_some_match args = check_pairs_iff args
validate_args_iff track_label_none_match args = check_pairs_iff args
validate_args_iff track_type args = check_track_type_iff args
validate_args_iff (other n) args = (λ e. cc, λ h. absurd h)

mutual
  unfolding validate IsWellFormed

  accepted_iff : (p : PublicationPattern) → (validate p ≡ none) ↔ IsWellFormed p
  accepted_iff (pattern PatternOp.all args cs) =
      or_else_iff (check_args_num args 0 false) (validate_each cs) (no_args_iff args)
        (all_accepted_iff cs)
  accepted_iff (pattern PatternOp.some args cs) =
      or_else_iff (check_args_num args 0 false) (validate_each cs) (no_args_iff args)
        (all_accepted_iff cs)
  accepted_iff (pattern PatternOp.none args cs) =
      or_else_iff (check_args_num args 0 false) (validate_each cs) (no_args_iff args)
        (all_accepted_iff cs)
  accepted_iff (pattern op args nil) = validate_args_iff op args
  accepted_iff (pattern op args (cons c cs)) = (λ e. cc, λ h. absurd h)

  all_accepted_iff : (cs : Patterns) → (validate_each cs ≡ none) ↔ AreWellFormed cs
  all_accepted_iff nil = (λ e. tt, λ u. refl)
  all_accepted_iff (cons c cs) =
      or_else_iff (validate c) (validate_each cs) (accepted_iff c) (all_accepted_iff cs)

-- `Validate` accepts exactly the patterns in which, at every level, the operators on patterns have no
-- arguments, and the others have no children and the arguments they need: names with their values,
-- `video` or `audio` first, or at least one argument.
pub validate_iff : (p : PublicationPattern) → (validate p ≡ none) ↔ IsWellFormed p
validate_iff p = accepted_iff p

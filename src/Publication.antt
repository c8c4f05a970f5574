-- ===== src/Publication.antt =====
-- model/pattern.go: the patterns by which a socket asks for the tracks of others.
pub mod Selection
pub mod Matching
pub mod Tracks
pub mod Validity
use conference_go.Common.{
  ℕ, zero, suc, ◌%◌, String, Bool, true, false, not, ◌||◌, ◌&&◌, List, [], ◌∷◌, Option, none, some,
  ltb, ◌==◌, str_eq, if◌then◌else◌, length, Result, ok, panic, index, ◌>>=◌,
}
use conference_go.Maps.{lookup}
use conference_go.Collection.{in_slice}
use conference_go.Proto.{
  PatternOp, PublicationPattern, pattern, Patterns, nil, cons, Track, publish_id, stream_id,
  track_id, track_rid, track_label_all_match, track_label_some_match, track_label_none_match,
  track_label_all_has, track_label_some_has, track_label_none_has, track_type, other,
}

-- `PatternOp.String`
abbrev pub op_name : PatternOp → String
op_name PatternOp.all = "ALL"
op_name PatternOp.some = "SOME"
op_name PatternOp.none = "NONE"
op_name publish_id = "PUBLISH_ID"
op_name stream_id = "STREAM_ID"
op_name track_id = "TRACK_ID"
op_name track_rid = "TRACK_RID"
op_name track_label_all_match = "TRACK_LABEL_ALL_MATCH"
op_name track_label_some_match = "TRACK_LABEL_SOME_MATCH"
op_name track_label_none_match = "TRACK_LABEL_NONE_MATCH"
op_name track_label_all_has = "TRACK_LABEL_ALL_HAS"
op_name track_label_some_has = "TRACK_LABEL_SOME_HAS"
op_name track_label_none_has = "TRACK_LABEL_NONE_HAS"
op_name track_type = "TRACK_TYPE"
op_name (other n) = "UNKNOWN"

-- The `InvalidPubPattern` errors; the numbers are those of the arguments that were asked for.
pub data PatternError : Type 0 where
  exactly at_least : ℕ → PatternError
  no_children wrong_type odd_args : PatternError
  unknown_op : ℕ → PatternError

-- `if err = …; err != nil { return err }`, and then the rest
abbrev pub or_else : Option PatternError → Option PatternError → Option PatternError
or_else none later = later
or_else (some err) later = some err

-- `checkArgsNum`
abbrev pub check_args_num : List String → ℕ → Bool → Option PatternError
check_args_num args n at_least? =
    if not at_least? && not (length args == n)
    then some (exactly n)
    else if at_least? && ltb (length args) n
    then some (at_least n)
    else none

-- `me.Args[0]` is read after the check that it is there.
abbrev pub check_track_type : List String → Option PatternError
check_track_type [] = check_args_num [] 1 true
check_track_type (t ∷ args) =
    or_else (check_args_num (t ∷ args) 1 true)
      (if not (str_eq t "video") && not (str_eq t "audio") then some wrong_type else none)

abbrev pub check_pairs : List String → Option PatternError
check_pairs args = if ltb (length args) 2 || not (length args % 2 == 0) then some odd_args else none

-- The inner switch of `Validate`, for the operators without children.
abbrev pub validate_args : PatternOp → List String → Option PatternError
validate_args PatternOp.all args = none
validate_args PatternOp.some args = none
validate_args PatternOp.none args = none
validate_args publish_id args = check_args_num args 1 true
validate_args stream_id args = check_args_num args 1 true
validate_args track_id args = check_args_num args 1 true
validate_args track_rid args = check_args_num args 1 true
validate_args track_label_all_match args = check_pairs args
validate_args track_label_some_match args = check_pairs args
validate_args track_label_none_match args = check_pairs args
validate_args track_label_all_has args = check_args_num args 1 true
validate_args track_label_some_has args = check_args_num args 1 true
validate_args track_label_none_has args = check_args_num args 1 true
validate_args track_type args = check_track_type args
validate_args (other n) args = some (unknown_op n)

-- The default case of `Validate`.
abbrev pub validate_leaf : PatternOp → List String → Patterns → Option PatternError
validate_leaf op args nil = validate_args op args
validate_leaf op args (cons c cs) = some no_children

-- `Validate`; `validate_each` is its loop over the children.
unfoldable mutual
  pub validate : PublicationPattern → Option PatternError
  validate (pattern PatternOp.all args cs) =
      or_else (check_args_num args 0 false) (validate_each cs)
  validate (pattern PatternOp.some args cs) =
      or_else (check_args_num args 0 false) (validate_each cs)
  validate (pattern PatternOp.none args cs) =
      or_else (check_args_num args 0 false) (validate_each cs)
  validate (pattern op args cs) = validate_leaf op args cs

  pub validate_each : Patterns → Option PatternError
  validate_each nil = none
  validate_each (cons c cs) = or_else (validate c) (validate_each cs)

abbrev pub is_value : String → Option String → Bool
is_value value none = false
is_value value (some v) = str_eq v value

abbrev pub is_some : Option String → Bool
is_some none = false
is_some (some v) = true

-- `MatchLabel`
abbrev pub match_label : Track → String → String → Bool
match_label track name value = is_value value (lookup name track.labels)

-- `HasLabel`
abbrev pub has_label : Track → String → Bool
has_label track name = is_some (lookup name track.labels)

-- The loops of `Match` give an answer at the first member where a test holds, and the opposite one
-- when they come to the end. First the loops over pairs of arguments, which read `Args[i+1]`.
unfoldable pub each_pair : (String → String → Bool) → Bool → List String → Result Bool
each_pair test answer [] = ok (not answer)
each_pair test answer (key ∷ []) = panic index
each_pair test answer (key ∷ value ∷ args) =
    let later = each_pair test answer args in if test key value then ok answer else later

-- The loops over single arguments.
unfoldable pub each_name : (String → Bool) → Bool → List String → Bool
each_name test answer [] = not answer
each_name test answer (name ∷ args) =
    let later = each_name test answer args in if test name then answer else later

abbrev pub is_same : Bool → Bool → Bool
is_same true b = b
is_same false b = not b

-- The cases of `Match` for the operators without children.
unfoldable pub match_leaf : PatternOp → List String → Track → Result Bool
unfolding in_slice each_pair each_name lookup
match_leaf publish_id args t = ok (in_slice args t.pub_id str_eq)
match_leaf stream_id args t = ok (in_slice args t.stream_id str_eq)
match_leaf track_id args t = ok (in_slice args t.global_id str_eq)
match_leaf track_rid args t = ok (in_slice args t.rid str_eq)
match_leaf track_label_all_match args t = each_pair (λ k v. not (match_label t k v)) false args
match_leaf track_label_some_match args t = each_pair (match_label t) true args
match_leaf track_label_none_match args t = each_pair (match_label t) false args
match_leaf track_label_all_has args t = ok (each_name (λ n. not (has_label t n)) false args)
match_leaf track_label_some_has args t = ok (each_name (has_label t) true args)
match_leaf track_label_none_has args t = ok (each_name (has_label t) false args)
match_leaf track_type args t = ok (in_slice args t.kind str_eq)
match_leaf _ args t = ok false

-- `Match`; `match_children` is its loops over the children, which stop where `Match` gives `stop`.
unfoldable mutual
  unfolding match_leaf

  pub match_pattern : PublicationPattern → Track → Result Bool
  match_pattern (pattern PatternOp.all args cs) t = match_children false false cs t
  match_pattern (pattern PatternOp.some args cs) t = match_children true true cs t
  match_pattern (pattern PatternOp.none args cs) t = match_children true false cs t
  match_pattern (pattern op args cs) t = match_leaf op args t

  pub match_children : Bool → Bool → Patterns → Track → Result Bool
  match_children stop answer nil t = ok (not answer)
  match_children stop answer (cons c cs) t =
      let later = match_children stop answer cs t in
      match_pattern c t >>= λ b. if is_same stop b then ok answer else later

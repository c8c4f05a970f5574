-- ===== src/Samples/Publications.antt =====
-- model/pattern.go on small inputs.
use mathlib.Core.List.Permᴰ
use conference_go.Common.{
  String, true, List, [], ◌∷◌, none, some, ◌≡◌, refl, ok, panic, index, Decides, Memᴰ, ◌↔◌,
}
use conference_go.Proto.{
  PatternOp, PublicationPattern, pattern, nil, cons, Track, publish_id, track_type,
  track_label_some_match, track_label_none_has,
}
use conference_go.Publication.{wrong_type, odd_args, no_children, exactly, validate, match_pattern}
use conference_go.Publication.Selection.{Selects}
use conference_go.Publication.Matching.{match_pattern-Decides}
use conference_go.Publication.Validity.{IsWellFormed, validate_iff}
use conference_go.Publication.Tracks.{match_tracks}
use conference_go.Publication.Tracks.Offered.{IsOffered, match_tracks_iff}

abbrev track_of : String → String → List (String × String) → Track
track_of kind pub_id labels = record {
  kind = kind;
  pub_id = pub_id;
  global_id = "g";
  local_id = "l";
  bind_id = "b";
  rid = "";
  stream_id = "s";
  codec = none;
  labels = labels;
}

abbrev camera : Track
camera = track_of "video" "p" (("uid", "7") ∷ [])

abbrev voice : Track
voice = track_of "audio" "p" (("uid", "7") ∷ [])

abbrev screen : Track
screen = track_of "video" "q" (("uid", "7") ∷ ("screen", "yes") ∷ [])

-- What belongs to user 7, without a screen.
abbrev wanted : PublicationPattern
wanted = pattern PatternOp.all [] (
    cons (pattern track_label_some_match ("uid" ∷ "7" ∷ "uid" ∷ "8" ∷ []) nil)
      (cons (pattern track_label_none_has ("shared" ∷ []) nil) nil))

wanted_valid : validate wanted ≡ none
unfolding validate
wanted_valid = refl

publication_runs :
    (match_pattern wanted screen ≡ ok true)
    × (match_pattern (pattern track_label_some_match ("uid" ∷ []) nil) camera ≡ panic index)
    × (validate (pattern track_label_some_match ("uid" ∷ []) nil) ≡ some odd_args)
    × (validate (pattern track_type ("text" ∷ []) nil) ≡ some wrong_type)
    × (validate (pattern track_type ("video" ∷ "text" ∷ []) nil) ≡ none)
    × (validate (pattern publish_id ("p" ∷ []) (cons wanted nil)) ≡ some no_children)
    × (validate (pattern PatternOp.none ("p" ∷ []) nil) ≡ some (exactly 0))
    × (match_tracks (λ groups. groups) wanted (camera ∷ screen ∷ voice ∷ []) ("audio" ∷ [])
        ≡ ok (camera ∷ voice ∷ [], screen ∷ []))
unfolding match_pattern validate match_tracks
publication_runs = (refl, refl, refl, refl, refl, refl, refl, refl)

match_pattern-Decides_example : Decides (Selects wanted screen) (match_pattern wanted screen)
match_pattern-Decides_example = match_pattern-Decides wanted screen wanted_valid

match_tracks_iff_example :
    (r : List Track × List Track) × (match_tracks
        (λ groups. groups)
        wanted
        (camera ∷ screen ∷ voice ∷ [])
        ("audio" ∷ [])
      ≡ ok r)
    × ((x : Track) → Memᴰ x r.0 ↔ IsOffered wanted (camera ∷ screen ∷ voice ∷ []) ("audio" ∷ []) x)
    × ((x : Track)
        → Memᴰ x r.1 ↔ (
            Memᴰ x (camera ∷ screen ∷ voice ∷ [])
            × ¬ IsOffered wanted (camera ∷ screen ∷ voice ∷ []) ("audio" ∷ []) x))
match_tracks_iff_example =
    match_tracks_iff (λ groups. groups) wanted (camera ∷ screen ∷ voice ∷ []) ("audio" ∷ [])
      (λ groups. Permᴰ.refl groups) wanted_valid

validate_iff_example : (validate wanted ≡ none) ↔ IsWellFormed wanted
validate_iff_example = validate_iff wanted

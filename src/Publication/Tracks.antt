-- ===== src/Publication/Tracks.antt =====
-- model/pattern.go, `MatchTracks`: the tracks that a pattern selects, in publications that have tracks of
-- the kinds asked for.
pub mod Kinds
pub mod Groups
pub mod Sharing
pub mod Offered
use conference_go.Common.{
  String, Bool, true, false, not, ◌||◌, ◌&&◌, List, [], ◌∷◌, ◌++◌, Option, none, some, str_eq,
  if◌then◌else◌, Result, ok, panic, ◌>>=◌,
}
use conference_go.Maps.{AssocMap, lookup, insert}
use conference_go.Collection.{in_slice}
use conference_go.Proto.{PublicationPattern, Track}
use conference_go.Publication.{match_pattern}

-- `tracksByPub`
abbrev pub Groups : Type 0
Groups = AssocMap (List Track)

abbrev pub or_nil : Option (List Track) → List Track
or_nil none = []
or_nil (some ts) = ts

-- `tracksByPub[pub] = append(tracksByPub[pub], track)`
unfoldable pub add_track : Track → Groups → Groups
unfolding lookup insert
add_track t groups = insert t.pub_id (or_nil (lookup t.pub_id groups) ++ t ∷ []) groups

-- The first loop: the selected tracks by their publications, and the others.
unfoldable pub group_tracks :
    PublicationPattern → List Track → Groups → List Track → Result (Groups × List Track)
unfolding match_pattern add_track
group_tracks p [] groups unmatched = ok (groups, unmatched)
group_tracks p (t ∷ tracks) groups unmatched = match_pattern p t >>= λ b.
    (if b
      then group_tracks p tracks (add_track t groups) unmatched
      else group_tracks p tracks groups (unmatched ++ t ∷ []))

-- `videoCond` after a track, and `audioCond`
abbrev pub video_after : Bool → Track → Bool
video_after video t = if str_eq t.kind "video" then true else video

abbrev pub audio_after : Bool → Track → Bool
audio_after audio t =
    if str_eq t.kind "video" then audio else if str_eq t.kind "audio" then true else audio

-- The loop over the tracks of a publication, left when both conditions hold; whether both hold then.
unfoldable pub find_kinds : Bool → Bool → List Track → Bool
find_kinds video audio [] = video && audio
find_kinds video audio (t ∷ ts) =
    let later = find_kinds (video_after video t) (audio_after audio t) ts in
    if video_after video t && audio_after audio t then true else later

-- Whether a publication has what is required of it.
unfoldable pub has_kinds : Bool → Bool → List Track → Bool
unfolding find_kinds
has_kinds req_video req_audio ts =
    if req_video || req_audio then find_kinds (not req_video) (not req_audio) ts else true

-- The second loop, over the map in the order of its iteration.
unfoldable pub share_groups :
    (List Track → Bool) → Groups → List Track → List Track → List Track × List Track
share_groups accepts [] matched unmatched = (matched, unmatched)
share_groups accepts ((key, ts) ∷ groups) matched unmatched =
    if accepts ts
    then share_groups accepts groups (matched ++ ts) unmatched
    else share_groups accepts groups matched (unmatched ++ ts)

-- `MatchTracks`. The order in which Go iterates a map is a parameter.
unfoldable pub match_tracks :
    (Groups → Groups)
    → PublicationPattern
    → List Track
    → List String
    → Result (List Track × List Track)
unfolding group_tracks share_groups has_kinds in_slice
match_tracks iteration p tracks req_types = group_tracks p tracks [] [] >>= λ (groups, unmatched).
    ok (
      share_groups
        (has_kinds (in_slice req_types "video" str_eq) (in_slice req_types "audio" str_eq))
        (iteration groups) [] unmatched)

-- ===== src/Publication/Tracks/Kinds.antt =====
-- Which publications `MatchTracks` accepts.
use conference_go.Common.{
  String, Bool, false, not, ◌||◌, ◌&&◌, List, [], ◌∷◌, str_eq, any, ◌≡◌, refl, arith, str_cases,
  subst, sym, inl, inr,
}
use conference_go.Proto.{Track}
use conference_go.Publication.Tracks.{video_after, audio_after, find_kinds, has_kinds}

abbrev pub is_kind : String → Track → Bool
is_kind kind t = str_eq t.kind kind

not_both : (s : String) → str_eq s "video" && str_eq s "audio" ≡ false
not_both s = elim (str_cases s "video") [
  | inl e ↦ subst (λ (s : String). str_eq s "video" && str_eq s "audio" ≡ false) (sym e) refl
  | inr h ↦ rw h refl
]

-- The loop finds what it looks for, wherever it stops.
find_kinds_lem :
    (video audio : Bool) (ts : List Track)
    → find_kinds video audio ts
      ≡ (video || any (is_kind "video") ts) && (audio || any (is_kind "audio") ts)
unfolding find_kinds
find_kinds_lem video audio [] = ground arith
find_kinds_lem video audio (t ∷ ts) =
    ground (arith, not_both t.kind, find_kinds_lem (video_after video t) (audio_after audio t) ts)

pub has_kinds_lem :
    (req_video req_audio : Bool) (ts : List Track)
    → has_kinds req_video req_audio ts
      ≡ (not req_video || any (is_kind "video") ts) && (not req_audio || any (is_kind "audio") ts)
unfolding has_kinds
has_kinds_lem req_video req_audio ts =
    ground (arith, find_kinds_lem (not req_video) (not req_audio) ts)

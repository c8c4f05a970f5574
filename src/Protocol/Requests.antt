-- ===== src/Protocol/Requests.antt =====
-- Which requests are accepted.
use conference_go.Common.{
  ℕ, suc, List, [], ◌∷◌, Option, none, some, str_eq_iff, ok, panic, nil_pointer, ◌≡◌, ◌≢◌, ◌↔◌, ◌⊎◌,
  refl, arith, ap, sym, subst, All, ok_inj, some_inj,
}
use conference_go.Proto.{PublicationPattern}
use conference_go.Publication.{PatternError, validate}
use conference_go.Publication.Validity.{IsWellFormed, validate_iff}
use conference_go.Protocol.{
  TrackToPublish, PublishMessage, SubscribeMessage, check_bind_ids, check_tracks, check_no_tracks,
  validate_publish, validate_subscribe, check_pattern_of, pattern_error,
}

-- Every track has a bind id.
abbrev pub AreBound : List TrackToPublish → Type 0
AreBound tracks = All (λ t. t.bind_id ≢ "") tracks

check_bind_ids_iff :
    (i : ℕ) (tracks : List TrackToPublish) → (check_bind_ids i tracks ≡ none) ↔ AreBound tracks
unfolding check_bind_ids
check_bind_ids_iff i [] = (λ e. tt, λ h. refl)
check_bind_ids_iff i (t ∷ tracks) =
    ground (arith, str_eq_iff t.bind_id "", check_bind_ids_iff (suc i) tracks)

-- A request to publish that has what its operator needs, and no more.
abbrev pub IsPublish : PublishMessage → Type 0
IsPublish m =
    ((m.op ≡ 0) × (m.id ≡ "") × (m.tracks ≢ []) × AreBound m.tracks)
    ⊎ ((m.op ≡ 1) × (m.id ≢ "") × (m.tracks ≡ []))

check_tracks_iff :
    (tracks : List TrackToPublish)
    → (check_tracks tracks ≡ none) ↔ ((tracks ≢ []) × AreBound tracks)
check_tracks_iff [] = (λ e. cc, λ (n, h). absurd (n refl))
check_tracks_iff (t ∷ tracks) =
    let bound = check_bind_ids_iff 0 (t ∷ tracks) in
    (λ e. (λ q. cc, bound.0 e), λ (n, h). bound.1 h)

check_no_tracks_iff :
    (tracks : List TrackToPublish) → (check_no_tracks tracks ≡ none) ↔ (tracks ≡ [])
check_no_tracks_iff [] = (λ e. refl, λ e. refl)
check_no_tracks_iff (t ∷ tracks) = (λ e. cc, λ e. cc)

-- A request to publish is accepted exactly if it adds, without an id, at least one track and all its tracks
-- have bind ids, or it removes, with an id and without tracks.
pub validate_publish_iff : (m : PublishMessage) → (validate_publish m ≡ none) ↔ IsPublish m
unfolding validate_publish
validate_publish_iff m =
    ground (arith, str_eq_iff m.id "", check_tracks_iff m.tracks, check_no_tracks_iff m.tracks)

-- A request to subscribe that has what its operator needs.
abbrev pub IsSubscribe : SubscribeMessage → Type 0
IsSubscribe m =
    ((((m.op ≡ 0) × (m.id ≡ "")) ⊎ ((m.op ≡ 1) × (m.id ≢ "")))
      × ((p : PublicationPattern) × (m.pattern ≡ some p) × IsWellFormed p))
    ⊎ ((m.op ≡ 2) × (m.id ≢ ""))

-- A request whose pattern is read although it is not there.
abbrev pub IsHollow : SubscribeMessage → Type 0
IsHollow m = (((m.op ≡ 0) × (m.id ≡ "")) ⊎ ((m.op ≡ 1) × (m.id ≢ ""))) × (m.pattern ≡ none)

no_error : (o : Option PatternError) → pattern_error o ≡ none → o ≡ none
no_error none e = refl
no_error (some x) e = cc

check_pattern_of_iff :
    (o : Option PublicationPattern)
    → ((check_pattern_of o ≡ ok none) ↔ ((p : PublicationPattern) × (o ≡ some p) × IsWellFormed p))
      × ((check_pattern_of o ≡ panic nil_pointer) ↔ (o ≡ none))
check_pattern_of_iff none = ((λ e. cc, λ (p, e, h). cc), (λ e. refl, λ e. refl))
check_pattern_of_iff (some p) = (
  (
    λ e. (p, refl, (validate_iff p).0 (no_error (validate p) (ok_inj e))),
    λ (q, e, w).
        ap (λ o. ok (pattern_error o))
          ((validate_iff p).1 (subst IsWellFormed (sym (some_inj e)) w)),
  ),
  (λ e. cc, λ e. cc),
)

-- A request to subscribe, without a null among the children of its pattern, is accepted exactly if it
-- adds, without an id, or updates, with one, and has a well formed pattern, or removes with an id; the
-- check panics exactly if it adds or updates so and the pattern itself is not there.
pub validate_subscribe_iff :
    (m : SubscribeMessage)
    → ((validate_subscribe m ≡ ok none) ↔ IsSubscribe m)
      × ((validate_subscribe m ≡ panic nil_pointer) ↔ IsHollow m)
unfolding validate_subscribe
validate_subscribe_iff m = ground (arith, str_eq_iff m.id "", check_pattern_of_iff m.pattern)

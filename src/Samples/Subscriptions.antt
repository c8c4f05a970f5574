-- ===== src/Samples/Subscriptions.antt =====
-- signal/model.go: a subscription and the tracks of a publication, on small inputs.
use mathlib.Core.List.Memᴰ
use mathlib.Core.List.Permᴰ
use conference_go.Common.{
  inr, subst, sym, str_eq, ◌||◌, String, true, false, List, [], ◌∷◌, none, some, ◌≡◌, ◌↔◌, inl,
  refl, ok, Every, All,
}
use conference_go.Maps.{AreDistinct, lookup}
use conference_go.Proto.{
  PatternOp, PublicationPattern, pattern, nil, Track, StateMessage, track_type,
}
use conference_go.Publication.{validate}
use conference_go.Publication.Tracks.{Groups}
use conference_go.Publication.Tracks.Offered.{IsOffered}
use conference_go.Router.{Maker, Accepter, Router}
use conference_go.Router.Lifetime.{IsMade}
use conference_go.Subscription.{
  Subscription, SubscribedTrack, Peer, Tracked, SentMessages, new_entry, accept_state,
  update_pattern, close_subscription,
}
use conference_go.Subscription.Held.{IsServed, IsHeld}
use conference_go.Subscription.Taking.{CanTake}
use conference_go.Subscription.Accepting.{IsAcceptance, accept_state_lem}
use conference_go.Subscription.Updates.{tracks_held, update_pattern_lem}
use conference_go.Subscription.Runs.{
  Move, stated, updated, track_ended, other_bound, other_unbound, IsForeign, moves, moves-IsServed,
}
use conference_go.Subscription.Closing.{IsFree, close_subscription_lem}

abbrev pub pub_uuid : String
pub_uuid = "6ba7b810-9dad-11d1-80b4-00c04fd430c8"

abbrev local_uuid : String
local_uuid = "f47ac10b-58cc-4372-a567-0e02b2c3d479"

abbrev pub stream_uuid : String
stream_uuid = "7d444840-9dc0-11d1-b245-5ffdce74fad2"

-- The known ones of the UUIDs
abbrev pub maker : Maker
maker = record {
  is_uuid = λ s. str_eq s pub_uuid || str_eq s local_uuid || str_eq s stream_uuid;
  makes_local = λ t. true;
}

abbrev pub track_named : String → String → Track
track_named id kind = record {
  kind = kind;
  pub_id = pub_uuid;
  global_id = id;
  local_id = local_uuid;
  bind_id = "0";
  rid = "";
  stream_id = stream_uuid;
  codec = none;
  labels = [];
}

abbrev pub camera : Track
camera = track_named "camera" "video"

abbrev voice : Track
voice = track_named "voice" "audio"

abbrev published : StateMessage
published = record {
  router = none;
  pub_id = pub_uuid;
  addr = "10.0.0.2:90";
  tracks = camera ∷ voice ∷ [];
}

abbrev videos : PublicationPattern
videos = pattern track_type ("video" ∷ []) nil

abbrev all_tracks : PublicationPattern
all_tracks = pattern PatternOp.all [] nil

abbrev sub : Subscription
sub = record {
  id = "sub";
  is_closed = false;
  req_types = "video" ∷ [];
  sub_pattern = videos;
  accepted_pub_id = "";
  accepted_track = [];
}

abbrev pub router : Router
router = record {
  id = "n";
  cur_chan = 0;
  track2transports = [];
  track2accepters = [];
  addr_map = [];
}

abbrev peer : Peer
peer = record {
  is_made = true;
  maker = maker;
  takes_track = λ _. true;
  local_id = λ id. id;
  stream_id = λ _. "stream";
  mid_of = λ _. "1";
}

abbrev same_order : Groups → Groups
same_order groups = groups

videos_valid : validate videos ≡ none
unfolding validate
videos_valid = refl

all_tracks_valid : validate all_tracks ≡ none
unfolding validate
all_tracks_valid = refl

can_make : Every (λ t. IsMade maker t) (camera ∷ voice ∷ [])
can_make x m = elim (Memᴰ.cases_cons m) [
  | inl q ↦ subst (λ t. IsMade maker t) (sym q) (refl, refl, refl, refl)
  | inr m' ↦ elim (Memᴰ.cases_cons m') [
    | inl q ↦ subst (λ t. IsMade maker t) (sym q) (refl, refl, refl, refl)
    | inr n ↦ absurd (Memᴰ.not-nil n)
  ]
]

can_take : Every (CanTake peer router) (camera ∷ voice ∷ [])
unfolding lookup
can_take x m = (λ (a, e, _). cc, λ n. can_make x m, refl)

no_entries : IsServed "sub" [] router
unfolding lookup
no_entries j st e = cc

accept_state_lem_example :
    (out : Subscription × Router × SentMessages) × (accept_state same_order peer 2 published sub
        router
      ≡ ok out)
    × IsAcceptance peer 2 published sub router out
accept_state_lem_example =
    accept_state_lem same_order peer 2 published sub router (λ groups. Permᴰ.refl groups)
      videos_valid refl (inl refl) refl can_take no_entries

-- The subscription has the camera, whose accepter is open.
abbrev held : Tracked
held = ("camera", new_entry peer camera) ∷ []

abbrev accepter : Accepter
accepter = record { closed = false; subs = "sub" ∷ []; ref_count = 1 }

abbrev at_camera : Subscription
at_camera = record sub { accepted_pub_id = pub_uuid; accepted_track = held }

abbrev with_camera : Router
with_camera = record router { track2accepters = ("camera", accepter) ∷ [] }

subscription_runs :
    (accept_state same_order peer 2 published sub router
      ≡ ok (
        at_camera,
        with_camera,
        some (
          record { router = none; pub_id = pub_uuid; transport_id = "n"; tracks = camera ∷ [] },
          record {
            sub_id = "sub";
            pub_id = pub_uuid;
            sdp_id = 2;
            tracks = (new_entry peer camera).pub_track ∷ [];
          },
        ),
      ))
    × (moves same_order (stated peer 2 published ∷ track_ended "camera" ∷ []) (sub, router)
        ≡ ok (
          record at_camera { accepted_track = [] },
          record router {
            track2accepters = ("camera", record { closed = true; subs = []; ref_count = 0 }) ∷ [];
          },
        ))
unfolding accept_state moves
subscription_runs = (refl, refl)

camera_comes :
    moves same_order (stated peer 2 published ∷ []) (sub, router) ≡ ok (at_camera, with_camera)
unfolding moves
camera_comes = refl

camera-IsServed : IsServed "sub" held with_camera
camera-IsServed =
    moves-IsServed same_order (stated peer 2 published ∷ []) sub at_camera router with_camera refl
      (tt, tt) camera_comes

-- A state, the use of the accepter by another subscription and its end, and a new pattern.
abbrev life : List Move
life =
    stated peer 2 published
    ∷ other_bound maker "other" camera
    ∷ other_unbound "other" "camera"
    ∷ updated all_tracks ("video" ∷ [])
    ∷ []

life_runs :
    moves same_order life (sub, router)
    ≡ ok (
      record at_camera { sub_pattern = all_tracks },
      record router {
        track2accepters =
            ("camera", record { closed = false; subs = "sub" ∷ []; ref_count = 1 }) ∷ [];
      },
    )
unfolding moves
life_runs = refl

others : All (IsForeign "sub") life
others = (tt, (tt, ((λ e. cc), (tt, tt))))

moves-IsServed_example : IsServed "sub" held with_camera
moves-IsServed_example =
    moves-IsServed same_order life sub (record at_camera { sub_pattern = all_tracks }) router
      with_camera refl others life_runs

held_distinct : AreDistinct held
unfolding lookup
held_distinct = (refl, tt)

update_pattern_lem_example :
    (s' : Subscription) × (update_pattern same_order all_tracks ("audio" ∷ []) at_camera ≡ ok s')
    × IsServed "sub" s'.accepted_track with_camera
    × (s'.sub_pattern ≡ all_tracks)
    × (s'.accepted_pub_id ≡ pub_uuid)
    × ((j : String)
        → IsHeld j s'.accepted_track ↔ (
            (st : SubscribedTrack) × (lookup j held ≡ some st)
            × IsOffered all_tracks (tracks_held held) ("audio" ∷ []) st.pub_track))
update_pattern_lem_example =
    update_pattern_lem same_order all_tracks ("audio" ∷ []) at_camera with_camera
      (λ groups. Permᴰ.refl groups) all_tracks_valid held_distinct camera-IsServed

camera_held : IsHeld "camera" held
unfolding lookup
camera_held = (new_entry peer camera, refl)

close_subscription_lem_example :
    ((close_subscription at_camera with_camera).0.is_closed ≡ true)
    × ((close_subscription at_camera with_camera).0.accepted_track ≡ [])
    × IsFree "sub" "camera" (close_subscription at_camera with_camera).1
close_subscription_lem_example = close_subscription_lem at_camera with_camera "camera" camera_held

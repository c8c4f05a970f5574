-- ===== src/Signaling.antt =====
-- signal/model.go: what a session does with the requests of its client and the messages of other
-- sessions about publications, and how it is closed.
pub mod Reactions
pub mod Silence
pub mod Requests
use conference_go.Common.{
  ℕ, zero, suc, ◌+◌, ◌==◌, String, Bool, true, false, List, [], ◌∷◌, ◌++◌, Option, none, some,
  str_eq, length, if◌then◌else◌, Result, ok, panic, fuel, impossible, nil_pointer, ◌>>=◌,
}
use conference_go.Maps.{AssocMap, lookup, insert, erase}
use conference_go.Proto.{PublicationPattern, Track, StateMessage, SelectMessage, WantMessage}
use conference_go.Message.{RoomMessage, want, state, select}
use conference_go.Messager.{
  Messager, Topic, on_state, on_want, on_select, on_want_participant, on_state_participant,
  on_state_leave, on_ping, on_pong, on_custom, on_custom_ack, off_topic,
}
use conference_go.Context.{Context, joined_rooms, cluster_emit, leave_room, room_router}
use conference_go.Context.Handlers.{matches_room}
use conference_go.Protocol.{
  PublishMessage, SubscribeMessage, RequestError, validate_publish, validate_subscribe,
}
use conference_go.Publication.Tracks.{Groups}
use conference_go.Router.{Router}
use conference_go.Transceivers.{Transceiver}
use conference_go.Subscription.{
  Subscription, Peer, SentMessages, accept_state, update_pattern, close_subscription,
  next_sdp_msg_id,
}
use conference_go.Publisher.{
  PublishedTrack, Publication, new_tracks, publication_state, satify_select_track,
}

-- The part of `SignalContext` that is about tracks, with the router of its node, how many UUIDs were
-- drawn, and the counter for negotiations
pub record Session : Type 0 where
  pub ctx : Context
  pub router : Router
  pub subscriptions : AssocMap Subscription
  pub publications : AssocMap Publication
  pub drawn : ℕ
  pub sdp_msg_id : ℕ

-- What a request is answered with: an error, or the id it is about.
pub data RequestReply : Type 0 where
  refused : RequestError → RequestReply
  sub_not_exist : String → RequestReply
  done : String → RequestReply

-- The loop that draws UUIDs until one is not a key, for at most so many rounds
unfoldable pub fresh_id {ℓ} : {A : Type ℓ} → (ℕ → String) → ℕ → ℕ → AssocMap A → Result (String × ℕ)
unfolding lookup
fresh_id uuid zero n m = panic fuel
fresh_id uuid (suc k) n m = elim (lookup (uuid n) m) [
  | none ↦ ok (uuid n, suc n)
  | some v ↦ fresh_id uuid k (suc n) m
]

abbrev pub remove_publication :
    String → AssocMap Publication → Option Publication → AssocMap Publication × RequestReply
remove_publication id pubs none = (pubs, done "")
remove_publication id pubs (some p) = (erase p.id pubs, done id)

-- `Publish`
module _ (uuid : ℕ → String) where
  abbrev pub added_publication : PublishMessage → Session → String × ℕ → Session × RequestReply
  added_publication m s (id, n) = (
    record s {
      publications =
          insert id
            (record { id = id; is_closed = false; tracks = new_tracks uuid n id m.tracks [] })
            s.publications;
      drawn = n + length m.tracks;
    },
    done id,
  )

  abbrev pub published :
      PublishMessage → Session → Option RequestError → Result (Session × RequestReply)
  published m s (some e) = ok (s, refused e)
  published m s none =
      if m.op == 0
      then (fresh_id uuid (suc (length s.publications)) s.drawn s.publications >>= λ x.
          ok (added_publication m s x))
      else if m.op == 1
      then (let (pubs, r) = remove_publication m.id s.publications (lookup m.id s.publications) in
          ok (record s { publications = pubs }, r))
      else panic impossible

  unfoldable pub publish : PublishMessage → Session → Result (Session × RequestReply)
  unfolding validate_publish fresh_id new_tracks lookup insert erase
  publish m s = published m s (validate_publish m)

-- The wish that `Subscribe` sends to the room of the request
abbrev pub wish : SubscribeMessage → Session → List RoomMessage
wish m s =
    cluster_emit
      (want (record {
        router = some (room_router m.room);
        req_types = [];
        pub_pattern = m.pattern;
        transport_id = s.router.id;
      }))
      s.ctx

abbrev pub Subscribed : Type 0
Subscribed = Session × RequestReply × List RoomMessage

module _ (iteration : Groups → Groups) (uuid : ℕ → String) where
  abbrev pub new_subscription : String → SubscribeMessage → PublicationPattern → Subscription
  new_subscription id m p = record {
    id = id;
    is_closed = false;
    req_types = m.req_types;
    sub_pattern = p;
    accepted_pub_id = "";
    accepted_track = [];
  }

  abbrev pub added_subscription :
      SubscribeMessage → Session → Option PublicationPattern → Result Subscribed
  added_subscription m s none = panic nil_pointer
  added_subscription m s (some p) =
      fresh_id uuid (suc (length s.subscriptions)) s.drawn s.subscriptions >>= λ (id, n). ok (
        record s { subscriptions = insert id (new_subscription id m p) s.subscriptions; drawn = n },
        done id,
        wish m s,
      )

  abbrev pub updated_subscription :
      SubscribeMessage
      → Session
      → Option PublicationPattern
      → Option Subscription
      → Result Subscribed
  updated_subscription m s p none = ok (s, sub_not_exist m.id, [])
  updated_subscription m s none (some sub) = panic nil_pointer
  updated_subscription m s (some p) (some sub) =
      update_pattern iteration p m.req_types sub >>= λ sub'.
      ok (record s { subscriptions = insert m.id sub' s.subscriptions }, done sub'.id, wish m s)

  abbrev pub removed_subscription : SubscribeMessage → Session → Option Subscription → Subscribed
  removed_subscription m s none = (s, sub_not_exist m.id, [])
  removed_subscription m s (some sub) =
      let (_, r, _) = close_subscription sub s.router in
      (record s { subscriptions = erase m.id s.subscriptions; router = r }, done sub.id, [])

  abbrev pub subscribed : SubscribeMessage → Session → Option RequestError → Result Subscribed
  subscribed m s (some e) = ok (s, refused e, [])
  subscribed m s none =
      if m.op == 0
      then added_subscription m s m.pattern
      else if m.op == 1
      then updated_subscription m s m.pattern (lookup m.id s.subscriptions)
      else if m.op == 2
      then ok (removed_subscription m s (lookup m.id s.subscriptions))
      else panic impossible

  -- `Subscribe`. Other subscriptions that lose an accepter with one that is removed are left out.
  unfoldable pub subscribe : SubscribeMessage → Session → Result Subscribed
  unfolding validate_subscribe fresh_id cluster_emit update_pattern close_subscription lookup insert
      erase
  subscribe m s = validate_subscribe m >>= subscribed m s

abbrev pub state_of_tracks : String → String → List Track → Context → List RoomMessage
state_of_tracks addr pub_id [] ctx = []
state_of_tracks addr pub_id (t ∷ ts) ctx =
    cluster_emit (state (record { router = none; pub_id = pub_id; addr = addr; tracks = t ∷ ts }))
      ctx

-- The loop of `StateWant`
unfoldable pub state_each :
    (Groups → Groups)
    → String
    → WantMessage
    → Context
    → AssocMap Publication
    → Result (List RoomMessage)
unfolding publication_state cluster_emit
state_each iteration addr m ctx [] = ok []
state_each iteration addr m ctx ((id, p) ∷ pubs) = publication_state iteration m p >>= λ ts.
    state_each iteration addr m ctx pubs >>= λ rest. ok (state_of_tracks addr p.id ts ctx ++ rest)

-- `StateWant`
unfoldable pub state_want :
    (Groups → Groups) → String → WantMessage → Session → Result (List RoomMessage)
unfolding state_each matches_room
state_want iteration addr m s =
    if matches_room (want m) s.ctx then state_each iteration addr m s.ctx s.publications else ok []

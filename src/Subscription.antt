-- ===== src/Subscription.antt =====
-- signal/model.go, `Subscription`: the tracks of a publication that a session takes over from the router
-- of its node. The router keeps one accepter for a track, so the accepter is known by the id of the track.
pub mod Held
pub mod Taking
pub mod Changes
pub mod Accepting
pub mod Updates
pub mod Losses
pub mod Served
pub mod Returns
pub mod Runs
pub mod Closing
use conference_go.Common.{
  ℕ, ◌+◌, ◌%◌, ◌^◌, String, Bool, true, false, not, ◌&&◌, ◌||◌, List, [], ◌∷◌, ◌++◌, Option, none,
  some, str_eq, if◌then◌else◌, Result, ok, panic, invalid, fuel, ◌>>=◌, map,
}
use conference_go.Maps.{AssocMap, lookup, insert, erase}
use conference_go.Proto.{PublicationPattern, Track, StateMessage, SelectMessage}
use conference_go.Publication.Tracks.{Groups, match_tracks}
use conference_go.Router.{
  Maker, has_sub, Accepter, Router, bind_sub, accept_track, unbind_router_sub,
}

pub record SubscribedTrack : Type 0 where
  pub pub_track : Track
  pub sid : String
  pub mid : String
  pub accepter : String

pub record Subscription : Type 0 where
  pub id : String
  pub is_closed : Bool
  pub req_types : List String
  pub sub_pattern : PublicationPattern
  pub accepted_pub_id : String
  pub accepted_track : AssocMap SubscribedTrack

pub record SubscribedMessage : Type 0 where
  pub sub_id : String
  pub pub_id : String
  pub sdp_id : ℕ
  pub tracks : List Track

-- What the WebRTC library answers: whether there is a connection, whether it takes the track of an
-- accepter, the id and the stream of that track, and the mid of its sender.
pub record Peer : Type 0 where
  pub is_made : Bool
  pub maker : Maker
  pub takes_track : String → Bool
  pub local_id : String → String
  pub stream_id : String → String
  pub mid_of : String → String

abbrev pub Tracked : Type 0
Tracked = AssocMap SubscribedTrack

-- `Remove`, of the entry of a track if there is one
abbrev pub remove_found : Tracked → Option SubscribedTrack → Tracked
remove_found held none = held
remove_found held (some st) = erase st.pub_track.global_id held

-- The loops over the unmatched tracks.
unfoldable pub remove_unmatched : List Track → Tracked → Tracked
unfolding lookup erase
remove_unmatched [] held = held
remove_unmatched (t ∷ ts) held = remove_unmatched ts (remove_found held (lookup t.global_id held))

-- The copy of a track, once its ids are those of the session's own connection
abbrev pub as_local : Peer → SubscribedTrack → Track → Track
as_local peer st t = record t {
  local_id = peer.local_id st.accepter;
  bind_id = st.mid;
  stream_id = st.sid;
}

-- A new entry shares its track with what is sent, so its ids are the local ones too.
abbrev pub new_entry : Peer → Track → SubscribedTrack
new_entry peer t = record {
  pub_track = record t {
    local_id = peer.local_id t.global_id;
    bind_id = peer.mid_of t.global_id;
    stream_id = peer.stream_id t.global_id;
  };
  sid = peer.stream_id t.global_id;
  mid = peer.mid_of t.global_id;
  accepter = t.global_id;
}

abbrev pub bound_at : String → String → Router → Option Accepter → Router
bound_at sub_id track_id r none = r
bound_at sub_id track_id r (some a) = record r {
  track2accepters = insert track_id (bind_sub sub_id a) r.track2accepters;
}

-- `BindSub` of the accepter of a track
unfoldable pub bind_accepter : String → String → Router → Router
unfolding lookup insert bind_sub
bind_accepter sub_id track_id r = bound_at sub_id track_id r (lookup track_id r.track2accepters)

abbrev pub Taken : Type 0
Taken = Tracked × Router × List Track × Bool

-- What a track without an entry is given, with its accepter (a round that never ends is a fault)
abbrev pub with_taken : Peer → String → Track → Tracked → Router × Bool → Result Taken
with_taken peer sub_id t held (r, is_taken) =
    if not is_taken
    then panic fuel
    else if not (peer.takes_track t.global_id)
    then panic invalid
    else ok (
      insert t.global_id (new_entry peer t) held,
      bind_accepter sub_id t.global_id r,
      (new_entry peer t).pub_track ∷ [],
      true,
    )

-- A round of the loop over the matched tracks, for a track with an entry and for one without
abbrev pub taken_over :
    Peer → String → Track → Tracked → Router → Option SubscribedTrack → Result Taken
taken_over peer sub_id t held r (some st) = ok (held, r, as_local peer st t ∷ [], false)
taken_over peer sub_id t held r none =
    accept_track 1 peer.maker t r >>= with_taken peer sub_id t held

abbrev pub more_tracks : List Track → Bool → Taken → Result Taken
more_tracks sent need_neg (held, r, ts, b) = ok (held, r, sent ++ ts, need_neg || b)

-- The loop over the matched tracks: also the tracks to send, and whether to negotiate
unfoldable pub take_over : Peer → String → List Track → Tracked → Router → Result Taken
unfolding lookup insert accept_track bind_accepter
take_over peer sub_id [] held r = ok (held, r, [], false)
take_over peer sub_id (t ∷ ts) held r =
    taken_over peer sub_id t held r (lookup t.global_id held) >>= λ (held', r', sent, b).
    take_over peer sub_id ts held' r' >>= more_tracks sent b

-- What is sent for new tracks: the selection to the nodes, and the tracks to the client.
abbrev pub SentMessages : Type 0
SentMessages = Option (SelectMessage × SubscribedMessage)

abbrev pub sent_for :
    Subscription → Router → StateMessage → ℕ → List Track → List Track → Bool → SentMessages
sent_for s r msg sdp_id matched tracks false = none
sent_for s r msg sdp_id matched tracks true = some (
  record { router = none; pub_id = msg.pub_id; transport_id = r.id; tracks = matched },
  record { sub_id = s.id; pub_id = msg.pub_id; sdp_id = sdp_id; tracks = tracks },
)

abbrev pub accept_matched :
    Peer
    → ℕ
    → StateMessage
    → List Track
    → Subscription
    → Router
    → Result (Subscription × Router × SentMessages)
accept_matched peer sdp_id msg [] s r = ok (s, r, none)
accept_matched peer sdp_id msg (t ∷ ts) s r =
    if not peer.is_made
    then panic invalid
    else (take_over peer s.id (t ∷ ts) s.accepted_track r >>= λ (held, r', tracks, need_neg). ok (
      record s { accepted_pub_id = msg.pub_id; accepted_track = held },
      r',
      sent_for s r' msg sdp_id (t ∷ ts) tracks need_neg,
    ))

-- A publication that is accepted loses the tracks that no longer match, and with the last match its
-- place.
abbrev pub pub_id_left : List Track → String → String
pub_id_left [] id = ""
pub_id_left (t ∷ ts) id = id

abbrev pub forget_unmatched : List Track → List Track → Subscription → Subscription
forget_unmatched matched unmatched s = record s {
  accepted_pub_id = pub_id_left matched s.accepted_pub_id;
  accepted_track = remove_unmatched unmatched s.accepted_track;
}

module _ (iteration : Groups → Groups) where
  -- `Subscription.AcceptTrack`. The id for the negotiation is what `NextSdpMsgId` would give.
  unfoldable pub accept_state :
      Peer
      → ℕ
      → StateMessage
      → Subscription
      → Router
      → Result (Subscription × Router × SentMessages)
  unfolding match_tracks take_over remove_unmatched
  accept_state peer sdp_id msg s r =
      if s.is_closed
      then ok (s, r, none)
      else if not (str_eq s.accepted_pub_id "") && not (str_eq s.accepted_pub_id msg.pub_id)
      then ok (s, r, none)
      else (match_tracks iteration s.sub_pattern msg.tracks s.req_types >>= λ (matched, unmatched).
          accept_matched peer sdp_id msg matched
            (if str_eq s.accepted_pub_id msg.pub_id
              then forget_unmatched matched unmatched s
              else s)
            r)

  -- `UpdatePattern`
  unfoldable pub update_pattern :
      PublicationPattern → List String → Subscription → Result Subscription
  unfolding match_tracks remove_unmatched
  update_pattern p req_types s =
      match_tracks iteration p
        (map (λ (e : String × SubscribedTrack). e.1.pub_track) s.accepted_track) req_types
      >>= λ (matched, unmatched). ok (record s {
        accepted_track = remove_unmatched unmatched s.accepted_track;
        req_types = req_types;
        sub_pattern = p;
      })

-- `NextSdpMsgId`: the counter of 32 bits
unfoldable pub next_sdp_msg_id : ℕ → ℕ
next_sdp_msg_id n = (n + 2) % 2 ^ 32

abbrev pub unbind_found : String → Tracked → Option SubscribedTrack → Tracked
unbind_found track_id held none = held
unbind_found track_id held (some st) =
    if str_eq st.accepter track_id then erase st.pub_track.global_id held else held

-- The loop of `UnbindAccepter` over the entries, of which each is read when its turn comes
unfoldable pub unbind_each : String → Tracked → Tracked → Tracked
unfolding lookup erase
unbind_each track_id [] held = held
unbind_each track_id ((key, old) ∷ entries) held =
    unbind_each track_id entries (unbind_found track_id held (lookup key held))

-- `UnbindAccepter`
unfoldable pub unbind_accepter : String → Subscription → Subscription
unfolding unbind_each
unbind_accepter track_id s = record s {
  accepted_track = unbind_each track_id s.accepted_track s.accepted_track;
}

-- The subscriptions of a closed accepter unbind it.
unfoldable pub lose_accepter : String → List String → Subscription → Subscription
unfolding unbind_accepter
lose_accepter track_id subs s = if has_sub s.id subs then unbind_accepter track_id s else s

-- The loop of `Close`, with the subscriptions that lose the accepter of a track
unfoldable pub release_all : String → Tracked → Router → Router × List (String × List String)
unfolding unbind_router_sub
release_all sub_id [] r = (r, [])
release_all sub_id ((track_id, st) ∷ held) r =
    let (r', subs) = unbind_router_sub sub_id track_id r in
    let (after, rest) = release_all sub_id held r' in (after, (track_id, subs) ∷ rest)

-- `Subscription.Close`
unfoldable pub close_subscription :
    Subscription → Router → Subscription × Router × List (String × List String)
unfolding release_all
close_subscription s r =
    let (r', lost) = release_all s.id s.accepted_track r in
    (record s { is_closed = true; accepted_track = [] }, r', lost)

-- ===== src/Publisher.antt =====
-- signal/model.go, `Publication` and `PublishedTrack`: the tracks that a session publishes, from the wish
-- to publish them to the packets that they send.

pub mod Consumers
pub mod Delivery
pub mod Ends
use conference_go.Common.{
  ℕ, suc, ◌==◌, String, Char, code, Bool, true, false, not, ◌&&◌, List, [], ◌∷◌, ◌++◌, Option, none,
  some, str_eq, if◌then◌else◌, Result, ok, panic, nil_pointer, invalid, ◌>>=◌,
}
use conference_go.Maps.{AssocMap, lookup, insert}
use conference_go.Collection.{slice_remove_by_value}
use conference_go.Proto.{Track, StateMessage, SelectMessage, WantMessage, PublicationPattern}
use conference_go.Protocol.{TrackToPublish, new_rtp_codec_parameters}
use conference_go.Publication.Tracks.{Groups, match_tracks}
use conference_go.Transceivers.{RemoteTrack, Transceiver, find_tracks_remote_by_mid_and_rid}
use conference_go.Frames.{Bytes}
use conference_go.Packets.{Packet, Made, new_eof_packet, new_packet_from_buf}
use conference_go.Router.{Router, publish_track, remove_track}

-- A consumer is a number for the pointer; the channel that ends the reader is there while it reads.
pub record PublishedTrack : Type 0 where
  pub track : Track
  pub remote : Option RemoteTrack
  pub consumers : List ℕ
  pub is_reading : Bool

pub record Publication : Type 0 where
  pub id : String
  pub is_closed : Bool
  pub tracks : AssocMap PublishedTrack

-- `Publish`: the track as it is kept, under its new id
abbrev pub new_track : String → String → TrackToPublish → PublishedTrack
new_track pub_id tid t = record {
  track = record {
    kind = t.kind;
    pub_id = pub_id;
    global_id = tid;
    local_id = "";
    bind_id = t.bind_id;
    rid = t.rid;
    stream_id = t.sid;
    codec = none;
    labels = t.labels;
  };
  remote = none;
  consumers = [];
  is_reading = false;
}

-- The loop that makes the tracks, with the UUIDs in the order in which they are drawn
unfoldable pub new_tracks :
    (ℕ → String)
    → ℕ
    → String
    → List TrackToPublish
    → AssocMap PublishedTrack
    → AssocMap PublishedTrack
unfolding insert
new_tracks uuid n pub_id [] made = made
new_tracks uuid n pub_id (t ∷ ts) made =
    new_tracks uuid (suc n) pub_id ts (insert (uuid n) (new_track pub_id (uuid n) t) made)

abbrev pub has_one : List ℕ → Bool
has_one [] = false
has_one (c ∷ []) = true
has_one (c ∷ d ∷ cs) = false

-- The last consumer takes the channel along; to close a channel that is not there is a fault.
abbrev pub with_consumers : PublishedTrack → List ℕ → Result PublishedTrack
with_consumers pt (c ∷ cs) = ok (record pt { consumers = c ∷ cs })
with_consumers pt [] =
    if pt.is_reading
    then ok (record pt { consumers = []; is_reading = false })
    else panic nil_pointer

-- `removeConsumer`
unfoldable pub remove_consumer : ℕ → PublishedTrack → Result PublishedTrack
unfolding slice_remove_by_value
remove_consumer c pt = with_consumers pt (slice_remove_by_value ◌==◌ pt.consumers true c)

-- `OnRTPPacket`; what it returns is `removeConsumer`.
unfoldable pub on_rtp_packet : ℕ → PublishedTrack → PublishedTrack
on_rtp_packet c pt =
    let cs = pt.consumers ++ c ∷ [] in
    record pt { consumers = cs; is_reading = if has_one cs then true else pt.is_reading }

-- What the reader of a track hands to a consumer: bytes, or an error, which may be that of a closed
-- connection (`IsRTPClosedError`).
pub data Reading : Type 0 where
  read : Bytes → Reading
  read_closed read_failed : Reading

-- The consumers that are called, each with what it gets
abbrev pub Consumed : Type 0
Consumed = PublishedTrack × List (ℕ × Reading)

abbrev pub called : ℕ → Reading → Consumed → Result Consumed
called c x (pt, calls) = ok (pt, (c, x) ∷ calls)

-- The loop of `consumes` over the consumers that there are when a packet or an error is read; a
-- consumer answers whether it stops.
unfoldable pub consume_each :
    (ℕ → Reading → Bool) → Reading → List ℕ → PublishedTrack → Result Consumed
unfolding remove_consumer
consume_each stops x [] pt = ok (pt, [])
consume_each stops x (c ∷ cs) pt =
    (if stops c x then remove_consumer c pt else ok pt) >>= consume_each stops x cs >>= called c x

unfoldable pub consumes : (ℕ → Reading → Bool) → Reading → PublishedTrack → Result Consumed
unfolding consume_each
consumes stops x pt = consume_each stops x pt.consumers pt

-- The bytes of an ASCII text, and more than 127 for another character
abbrev pub codes : String → Bytes
codes String.[] = []
codes (String.◌∷◌ c s) = code c ∷ codes s

abbrev pub is_bind : PublishedTrack → Bool
is_bind pt = elim pt.remote [ none ↦ false | some rt ↦ true ]

abbrev pub is_remote : RemoteTrack → Option RemoteTrack → Bool
is_remote rt none = false
is_remote rt (some old) = rt.handle == old.handle

-- The part of `PublishedTrack.Bind` under its lock
abbrev pub bound : PublishedTrack → Option RemoteTrack → PublishedTrack × Bool
bound pt none = (pt, false)
bound pt (some rt) =
    if is_remote rt pt.remote
    then (pt, true)
    else if not (str_eq rt.codec.mime_type "")
    then (
      record pt {
        remote = some rt;
        track = record pt.track {
          codec = some (new_rtp_codec_parameters rt.codec);
          local_id = rt.id;
        };
      },
      true,
    )
    else (pt, false)

-- The message `published` is sent for a bound track, whose answer the client may fail to give.
abbrev pub told : (Track → Bool) → PublishedTrack × Bool → PublishedTrack × Bool
told acked (pt, success) = (pt, success && acked pt.track)

-- `PublishedTrack.Bind`
unfoldable pub bind_track :
    (Track → Bool) → List Transceiver → PublishedTrack → Result (PublishedTrack × Bool)
unfolding find_tracks_remote_by_mid_and_rid new_rtp_codec_parameters
bind_track acked ts pt =
    find_tracks_remote_by_mid_and_rid ts pt.track.stream_id (codes pt.track.bind_id) pt.track.rid
    >>= λ (rt, t). ok (told acked (bound pt rt))

unfoldable pub bind_tracks :
    (Track → Bool) → List Transceiver → AssocMap PublishedTrack → Result (AssocMap PublishedTrack)
unfolding bind_track
bind_tracks acked ts [] = ok []
bind_tracks acked ts ((tid, pt) ∷ pts) = bind_track acked ts pt >>= λ (pt', success).
    bind_tracks acked ts pts >>= λ rest. ok ((tid, pt') ∷ rest)

-- `isAllBind`
unfoldable pub is_all_bind : AssocMap PublishedTrack → Bool
is_all_bind [] = true
is_all_bind ((tid, pt) ∷ pts) = let rest = is_all_bind pts in is_bind pt && rest

-- The tracks, and those that are bound.
abbrev pub tracks_of_all : AssocMap PublishedTrack → List Track
tracks_of_all [] = []
tracks_of_all ((tid, pt) ∷ pts) = pt.track ∷ tracks_of_all pts

unfoldable pub bound_tracks : AssocMap PublishedTrack → List Track
bound_tracks [] = []
bound_tracks ((tid, pt) ∷ pts) =
    let rest = bound_tracks pts in if is_bind pt then pt.track ∷ rest else rest

-- `Publication.Bind`, with the state that is sent to the nodes once all tracks are bound
unfoldable pub bind_publication :
    (Track → Bool)
    → List Transceiver
    → String
    → Publication
    → Result (Publication × Option StateMessage)
unfolding bind_tracks is_all_bind
bind_publication acked ts addr p = bind_tracks acked ts p.tracks >>= λ pts. ok (
  record p { tracks = pts },
  if is_all_bind pts
      then some (record { router = none; pub_id = p.id; addr = addr; tracks = tracks_of_all pts })
      else none,
)

-- `Publication.State`. A pattern that is not there is read for the first bound track.
abbrev pub state_for :
    (Groups → Groups) → List String → List Track → Option PublicationPattern → Result (List Track)
state_for iteration req_types [] none = ok []
state_for iteration req_types (t ∷ ts) none = panic nil_pointer
state_for iteration req_types ts (some p) =
    match_tracks iteration p ts req_types >>= λ (matched, unmatched). ok matched

unfoldable pub publication_state :
    (Groups → Groups) → WantMessage → Publication → Result (List Track)
unfolding match_tracks bound_tracks
publication_state iteration want p =
    state_for iteration want.req_types (bound_tracks p.tracks) want.pub_pattern

-- `PublishedTrack.SatifySelect`, with the number of the consumer that it makes
abbrev pub selected :
    String → ℕ → PublishedTrack → Router → Option RemoteTrack → PublishedTrack × Router × Bool
selected transport_id c pt r none = (pt, r, false)
selected transport_id c pt r (some rt) =
    (on_rtp_packet c pt, (publish_track pt.track.global_id transport_id r).0, true)

unfoldable pub satify_select_track :
    Bool
    → List Transceiver
    → String
    → ℕ
    → PublishedTrack
    → Router
    → Result (PublishedTrack × Router × Bool)
unfolding find_tracks_remote_by_mid_and_rid on_rtp_packet publish_track
satify_select_track is_closed ts transport_id c pt r =
    if is_closed
    then ok (pt, r, false)
    else (find_tracks_remote_by_mid_and_rid ts pt.track.stream_id (codes pt.track.bind_id)
          pt.track.rid
        >>= λ (rt, t). ok (selected transport_id c pt r rt))

abbrev pub sent_packet : Router → Bool → Made → Result (Router × Option Packet × Bool)
sent_packet r stop (Made.made p) = ok (r, some p, stop)
sent_packet r stop Made.bad_uuid = panic invalid
sent_packet r stop Made.too_big = panic invalid
sent_packet r stop Made.not_marshalled = panic invalid

-- The consumer that `SatifySelect` makes: the router, the packet for the channel, and whether it stops
module _ (parse : String → Option Bytes) (print : Bytes → String) (pool : Packet)
    (track_id : String) where
  unfoldable pub forward : Bool → Reading → Router → Result (Router × Option Packet × Bool)
  unfolding remove_track new_eof_packet new_packet_from_buf
  forward is_closed read_failed r = panic invalid
  forward is_closed read_closed r =
      sent_packet (remove_track track_id r) true (new_eof_packet parse print track_id pool)
  forward true (read b) r =
      sent_packet (remove_track track_id r) true (new_eof_packet parse print track_id pool)
  forward false (read []) r = ok (r, none, false)
  forward false (read (x ∷ b)) r =
      sent_packet r false (new_packet_from_buf parse print track_id (x ∷ b) pool)

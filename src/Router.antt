-- ===== src/Router.antt =====
-- signal/router.go: the tracks that a node sends to other nodes and accepts from them. A packet crosses
-- between nodes by UDP.
pub mod Lifetime
pub mod Relay
use conference_go.Common.{
  ℕ, zero, suc, ◌+◌, ◌-◌, ◌%◌, ◌^◌, ◌==◌, String, Bool, true, false, not, ◌&&◌, ◌||◌, List, [], ◌∷◌,
  ◌++◌, Option, none, some, str_eq, if◌then◌else◌, Result, ok, panic, ◌>>=◌, index, invalid, take,
  drop,
}
use conference_go.Maps.{AssocMap, lookup, insert, erase}
use conference_go.Proto.{Track}
use conference_go.Frames.{Bytes}
use conference_go.Packets.{
  Packet, SetupPacket, transport, wrong_size, wrong_magic, packet_content, slice, is_eof,
  is_data_packet, is_eof_packet, is_setup, is_setup_ark, extract_packet, decode_setup_packet,
  new_setup_ark_packet_buf, packet_track_header_size,
}

-- The subscriptions are their ids; the count of references is an `int64`.
pub record Accepter : Type 0 where
  pub closed : Bool
  pub subs : List String
  pub ref_count : ℕ

-- What `NewAccepter` needs of other code: `uuid.MustParse` panics for a text that is no UUID, and
-- `webrtc.NewTrackLocalStaticRTP` may refuse the track.
pub record Maker : Type 0 where
  pub is_uuid : String → Bool
  pub makes_local : Track → Bool

-- The two calls of `NewUUID`, with the id of the publication as the base
abbrev pub has_uuids : Maker → Track → Bool
has_uuids mk t = mk.is_uuid t.local_id && mk.is_uuid t.pub_id && mk.is_uuid t.stream_id

abbrev pub empty_accepter : Accepter
empty_accepter = record { closed = false; subs = []; ref_count = 1 }

-- `NewAccepter`
abbrev pub new_accepter : Maker → Track → Result Accepter
new_accepter mk t =
    if not (has_uuids mk t)
    then panic invalid
    else if not (mk.makes_local t)
    then panic invalid
    else ok empty_accepter

abbrev pub has_sub : String → List String → Bool
has_sub id [] = false
has_sub id (s ∷ subs) = str_eq s id || has_sub id subs

unfoldable pub without_sub : String → List String → List String
without_sub id [] = []
without_sub id (s ∷ subs) = let rest = without_sub id subs in if str_eq s id then rest else s ∷ rest

-- `BindSub` and `UnbindSub`
unfoldable pub bind_sub : String → Accepter → Accepter
bind_sub id a = if has_sub id a.subs then a else record a { subs = id ∷ a.subs }

unfoldable pub unbind_sub : String → Accepter → Accepter
unfolding without_sub
unbind_sub id a = if has_sub id a.subs then record a { subs = without_sub id a.subs } else a

-- `Write`: whether the bytes reach the local track, or the accepter is closed.
unfoldable pub write_rtp : Accepter → Bool
write_rtp a = not a.closed

-- `Ref`
unfoldable pub ref : Accepter → Accepter × Bool
ref a = if a.closed then (a, false) else (record a { ref_count = (a.ref_count + 1) % 2 ^ 64 }, true)

abbrev pub count_after : Bool → ℕ → ℕ
count_after force n = if force then 0 else (n + (2 ^ 64 - 1)) % 2 ^ 64

-- `Accepter.Close`, and the subscriptions that it unbinds
unfoldable pub close : Bool → Accepter → Accepter × List String × Bool
close force a =
    let n = count_after force a.ref_count in
    if n == 0
    then (record { closed = true; subs = []; ref_count = n }, a.subs, true)
    else (record a { ref_count = n }, [], false)

pub record Router : Type 0 where
  pub id : String
  pub cur_chan : ℕ
  pub track2transports : AssocMap (AssocMap ℕ)
  pub track2accepters : AssocMap Accepter
  pub addr_map : AssocMap String

-- The transports of a track.
abbrev pub transports_of : Option (AssocMap ℕ) → AssocMap ℕ
transports_of none = []
transports_of (some ts) = ts

-- `PublishTrack`, with the number of the channel for the packets
unfoldable pub publish_track : String → String → Router → Router × ℕ
unfolding lookup insert
publish_track track_id transport_id r =
    let ts = insert transport_id 0 (transports_of (lookup track_id r.track2transports)) in
    (
      record r {
        cur_chan = (r.cur_chan + 1) % 4;
        track2transports =
            if str_eq transport_id r.id
            then r.track2transports
            else insert track_id ts r.track2transports;
      },
      r.cur_chan,
    )

-- `RemoveTrack`
unfoldable pub remove_track : String → Router → Router
unfolding erase
remove_track track_id r = record r { track2transports = erase track_id r.track2transports }

abbrev pub put_accepter : String → Router → Accepter → Router
put_accepter track_id r a = record r { track2accepters = insert track_id a r.track2accepters }

abbrev pub taken : Maker → Track → Router → Option Accepter → Result (Router × Bool)
taken mk t r none = new_accepter mk t >>= λ a. ok (put_accepter t.global_id r a, true)
taken mk t r (some a) = let (a', is_open) = ref a in ok (put_accepter t.global_id r a', is_open)

-- One round of `AcceptTrack`, and whether it ends with an accepter
unfoldable pub accept_once : Maker → Track → Router → Result (Router × Bool)
unfolding ref lookup insert
accept_once mk t r = taken mk t r (lookup t.global_id r.track2accepters)

-- `AcceptTrack`, for at most so many rounds
unfoldable pub accept_track : ℕ → Maker → Track → Router → Result (Router × Bool)
unfolding accept_once
accept_track zero mk t r = ok (r, false)
accept_track (suc k) mk t r = accept_once mk t r >>= λ (r', is_done).
    if is_done then ok (r', true) else accept_track k mk t r'

-- A packet for the accepter of a track, if there is one.
pub data Outcome : Type 0 where
  no_accepter closed_accepter : Outcome
  written : Bytes → Outcome
  ended : List String → Outcome

abbrev write_accepter : Bytes → Router → Option Accepter → Router × Outcome
write_accepter b r none = (r, no_accepter)
write_accepter b r (some a) = (r, if write_rtp a then written b else closed_accepter)

abbrev pub end_accepter : String → Router → Option Accepter → Router × Outcome
end_accepter track_id r none = (r, no_accepter)
end_accepter track_id r (some a) =
    let (a', subs, _) = close true a in
    (record r { track2accepters = insert track_id a' r.track2accepters }, ended subs)

abbrev pub address_first : Option String → List String → List String
address_first none rest = rest
address_first (some addr) rest = addr ∷ rest

-- The addresses of the transports of a track; a transport without an address is left out.
unfoldable pub addresses : AssocMap String → AssocMap ℕ → List String
unfolding lookup
addresses addr_map [] = []
addresses addr_map ((t, v) ∷ ts) =
    let rest = addresses addr_map ts in address_first (lookup t addr_map) rest

-- What becomes of a packet on the node itself.
unfoldable pub consume_packet : Packet → Bytes → Router → Result (Router × Outcome)
unfolding lookup insert close write_rtp is_eof_packet
consume_packet p b r =
    if is_eof_packet b
    then ok (end_accepter p.track_id r (lookup p.track_id r.track2accepters))
    else (slice packet_track_header_size p.n p.bytes >>= λ payload.
        ok (write_accepter payload r (lookup p.track_id r.track2accepters)))

abbrev pub routed :
    List String
    → Bytes
    → Result (Router × Outcome)
    → Result (Router × List String × Bytes × Outcome)
routed addrs b (ok (r, o)) = ok (r, addrs, b, o)
routed addrs b (panic e) = panic e

-- A round of the second loop of `run`: the addresses that get the packet's bytes, and what becomes of it here
unfoldable pub route : Packet → Router → Result (Router × List String × Bytes × Outcome)
unfolding addresses consume_packet
route p r = packet_content p >>= λ b.
    routed (addresses r.addr_map (transports_of (lookup p.track_id r.track2transports))) b
      (consume_packet p b r)

-- A round of the first loop of `run`: a setup from an address is remembered and acknowledged.
abbrev set_up :
    (Bytes → String) → String → Router → Result SetupPacket → Result (Router × Option Bytes)
set_up print addr r (ok (transport id)) =
    ok (
      record r { addr_map = insert (print id) addr r.addr_map },
      some (new_setup_ark_packet_buf id),
    )
set_up print addr r (ok wrong_size) = ok (r, none)
set_up print addr r (ok wrong_magic) = ok (r, none)
set_up print addr r (panic e) = panic e

unfoldable pub on_setup :
    (Bytes → String) → Bytes → ℕ → String → Router → Result (Router × Option Bytes)
unfolding decode_setup_packet new_setup_ark_packet_buf insert
on_setup print buf n addr r = set_up print addr r (decode_setup_packet buf n)

-- What comes back from another node: besides the router, whether the setup is known to have arrived
abbrev pub Received : Type 0
Received = Router × Outcome × Bool

module _ (parse : String → Option Bytes) (print : Bytes → String) where
  -- A round of the reader in `makeSureExternelConn`
  unfoldable pub receive : Bytes → Router → Result Received
  unfolding is_data_packet is_setup is_setup_ark is_eof_packet extract_packet lookup insert close
      write_rtp
  receive s r =
      if is_data_packet s
      then (extract_packet parse print s >>= λ p.
          let (r', o) = write_accepter p.1 r (lookup p.0 r.track2accepters) in ok (r', o, false))
      else if is_setup_ark s
      then ok (r, no_accepter, is_setup s)
      else if is_eof_packet s
      then (extract_packet parse print s >>= λ p.
          let (r', o) = end_accepter p.0 r (lookup p.0 r.track2accepters) in ok (r', o, false))
      else ok (r, no_accepter, false)

abbrev unbound : String → String → Router → Option Accepter → Router × List String
unbound sub_id track_id r none = (r, [])
unbound sub_id track_id r (some a) =
    let (a', subs, _) = close false (unbind_sub sub_id a) in
    (record r { track2accepters = insert track_id a' r.track2accepters }, subs)

-- `Router.UnbindSub`
unfoldable pub unbind_router_sub : String → String → Router → Router × List String
unfolding close unbind_sub lookup insert
unbind_router_sub sub_id track_id r = unbound sub_id track_id r (lookup track_id r.track2accepters)

-- ===== src/Samples/Nodes.antt =====
-- signal/router.go: a track between two nodes.
use mathlib.Core.List.Memᴰ
use conference_go.Common.{
  ℕ, ◌≤◌, ◌<◌, ◌==◌, ltb, String, true, false, List, [], ◌∷◌, Option, none, some, str_eq,
  if◌then◌else◌, ok, panic, index, invalid, length, ◌≡◌, ◌⊎◌, ◌↔◌, refl, arith,
}
use conference_go.Maps.{lookup}
use conference_go.Proto.{Track}
use conference_go.Frames.{Bytes}
use conference_go.Packets.{
  Packet, made, zeros, packet_max_size, packet_content, new_data_packet, new_packet_from_buf,
}
use conference_go.Packets.Buffers.{length-zeros}
use conference_go.Packets.Tracks.{Reads, new_packet_from_buf-Reads}
use conference_go.Router.{
  Maker, Accepter, Router, written, closed_accepter, empty_accepter, close, receive, accept_track,
}
use conference_go.Router.Relay.{IsSent, route-receive}
use conference_go.Router.Lifetime.{
  Use, begin, finish, after_uses, after_uses_lem, IsClosedAt, CanMake, IsMade, accept_track_iff,
}

abbrev pub track_uuid : Bytes
track_uuid = zeros 16

abbrev pub parse : String → Option Bytes
parse t = if str_eq t "t" then some track_uuid else none

abbrev pub print : Bytes → String
print b = "t"

abbrev pub pool : Packet
pool = record { track_id = ""; bytes = zeros 1600; n = 0 }

abbrev pub payload : Bytes
payload = 128 ∷ 96 ∷ []

pub pool_full : length pool.bytes ≡ packet_max_size
pool_full = length-zeros 1600

pub uuid_size : length track_uuid ≡ 16
uuid_size = length-zeros 16

new_packet_from_buf-Reads_example :
    (q : Packet) × (new_packet_from_buf parse print "t" payload pool ≡ made q)
    × (((length payload ≤ 1580)
          × Reads parse print q (ltb 0 (length payload)) false track_uuid payload)
        ⊎ ((1580 < length payload) × (packet_content q ≡ panic index)))
new_packet_from_buf-Reads_example =
    new_packet_from_buf-Reads parse print "t" track_uuid pool pool_full refl uuid_size payload

abbrev pub here : Router
here = record {
  id = "h";
  cur_chan = 0;
  track2transports = ("t", ("n", 0) ∷ []) ∷ [];
  track2accepters = [];
  addr_map = ("n", "10.0.0.2:90") ∷ [];
}

abbrev pub accepter : Accepter
accepter = record { closed = false; subs = "s" ∷ []; ref_count = 1 }

abbrev pub there : Router
there = record {
  id = "n";
  cur_chan = 0;
  track2transports = [];
  track2accepters = ("t", accepter) ∷ [];
  addr_map = [];
}

published : lookup "t" here.track2transports ≡ some (("n", 0) ∷ [])
unfolding lookup
published = refl

pub known_addr : lookup "n" here.addr_map ≡ some "10.0.0.2:90"
unfolding lookup
known_addr = refl

pub accepted : lookup "t" there.track2accepters ≡ some accepter
unfolding lookup
accepted = refl

to_there : Memᴰ.Memᴰ {A = String × ℕ} ("n", 0) (("n", 0) ∷ [])
to_there = Memᴰ.head refl

route-receive_example :
    (q : Packet) × (b : Bytes) × (new_data_packet parse print "t"
        (length payload)
        (some payload)
        pool
      ≡ made q)
    × IsSent here "10.0.0.2:90" q b
    × (receive parse print b there
        ≡ ok (there, if accepter.closed then closed_accepter else written payload, false))
route-receive_example =
    route-receive parse print "t" track_uuid refl refl uuid_size here there (("n", 0) ∷ []) "n"
      "10.0.0.2:90" 0 accepter published to_there known_addr accepted pool pool_full payload
      (omega arith) (omega arith)

abbrev uses : List Use
uses = begin ∷ begin ∷ finish ∷ []

after_uses_lem_example :
    ((after_uses empty_accepter uses).closed ≡ false)
    × ((after_uses empty_accepter uses).ref_count ≡ 2)
    × ((close false (after_uses empty_accepter uses)).2 ≡ (2 == 1))
after_uses_lem_example = after_uses_lem uses 2 (omega arith) refl

-- A track that is there, of which one id is no UUID
abbrev maker : Maker
maker = record {
  is_uuid = λ s. str_eq s "6ba7b810-9dad-11d1-80b4-00c04fd430c8";
  makes_local = λ t. true;
}

abbrev accepted_track : Track
accepted_track = record {
  kind = "video";
  pub_id = "6ba7b810-9dad-11d1-80b4-00c04fd430c8";
  global_id = "t";
  local_id = "l";
  bind_id = "0";
  rid = "";
  stream_id = "6ba7b810-9dad-11d1-80b4-00c04fd430c8";
  codec = none;
  labels = [];
}

accept_track_iff_example :
    (((r' : Router) × (accept_track 2 maker accepted_track there ≡ ok (r', true)))
      ↔ ((¬ IsClosedAt "t" there) × CanMake maker accepted_track there))
    × ((accept_track 2 maker accepted_track there ≡ panic invalid)
        ↔ ((lookup "t" there.track2accepters ≡ none) × ¬ IsMade maker accepted_track))
    × (IsClosedAt "t" there
        → (r' : Router) × (accept_track 1 maker accepted_track there ≡ ok (r', false)))
accept_track_iff_example = accept_track_iff 1 maker accepted_track there

-- ===== src/Publisher/Delivery.antt =====
-- From the selection of a published track to the accepter of another node.
use mathlib.Core.List.Memᴰ
use conference_go.Common.{
  ℕ, ◌≤◌, ◌<◌, String, true, false, List, [], ◌∷◌, Option, some, str_eq, str_eq_refl, Result, ok,
  panic, index, ◌>>=◌, ◌≡◌, refl, ◌∙◌, ◌⊎◌, inl, inr, arith, Memᴰ, sym, ap, length, if◌then◌else◌,
  ltb,
}
use conference_go.Maps.{AssocMap, lookup, insert, lookup-insert, lookup_mem}
use conference_go.Frames.{Bytes}
use conference_go.Packets.{
  Packet, Made, made, bad_uuid, too_big, not_marshalled, packet_max_size, buf_packet,
  new_packet_from_buf, packet_content,
}
use conference_go.Packets.Tracks.{Reads, new_packet_from_buf-Reads}
use conference_go.Router.{
  Accepter, Router, written, closed_accepter, transports_of, publish_track, receive,
}
use conference_go.Router.Relay.{IsSent, route-IsSent, receive-data, ltb-true}
use conference_go.Transceivers.{RemoteTrack, Transceiver, Found, find_tracks_remote_by_mid_and_rid}
use conference_go.Publisher.{
  PublishedTrack, read, codes, on_rtp_packet, selected, satify_select_track, sent_packet, forward,
}

-- The transport is in the table for the track, and the rest of the router is that of before.
publish_track-lookup :
    (track_id t : String) (r : Router)
    → str_eq t r.id ≡ false
    → (ts : AssocMap ℕ) × (lookup track_id (publish_track track_id t r).0.track2transports
        ≡ some ts)
      × Memᴰ (t, 0) ts
      × ((publish_track track_id t r).0.addr_map ≡ r.addr_map)
unfolding publish_track
publish_track-lookup track_id t r n =
    let ts : AssocMap ℕ = insert t 0 (transports_of (lookup track_id r.track2transports)) in
    (
      ts,
      rw n (lookup-insert track_id track_id ts r.track2transports ∙ rw (str_eq_refl track_id) refl),
      lookup_mem t 0 ts (
          lookup-insert t t 0 (transports_of (lookup track_id r.track2transports))
          ∙ rw (str_eq_refl t) refl),
      refl,
    )

abbrev track_of_made : Made → String
track_of_made (made q) = q.track_id
track_of_made bad_uuid = ""
track_of_made too_big = ""
track_of_made not_marshalled = ""

module _ (parse : String → Option Bytes) (print : Bytes → String) (pool : Packet) where
  new_packet_from_buf-track :
      (track_id : String) (id raw : Bytes) (q : Packet)
      → parse track_id ≡ some id
      → new_packet_from_buf parse print track_id raw pool ≡ made q
      → q.track_id ≡ track_id
  unfolding new_packet_from_buf
  new_packet_from_buf-track track_id id raw q known e =
      ap track_of_made (sym e ∙ ap (buf_packet parse print track_id raw pool) known)

  forward-read :
      (track_id : String) (raw : Bytes) (r : Router)
      → 0 < length raw
      → forward parse print pool track_id false (read raw) r
        ≡ sent_packet r false (new_packet_from_buf parse print track_id raw pool)
  unfolding forward
  forward-read track_id [] r pos = absurd (omega (arith, pos))
  forward-read track_id (x ∷ raw) r pos = refl

-- A published track that is found among the transceivers is selected by another node, whose address is
-- known: from then on the 1 to 1580 bytes that are read of the track become a packet that is sent to
-- this address, and the node there writes exactly these bytes to its accepter of the track, if open.
pub satify_select-receive :
    (parse : String → Option Bytes) (print : Bytes → String) (pool : Packet) (id : Bytes)
    (pt : PublishedTrack) (c : ℕ) (trs : List Transceiver) (rt : RemoteTrack)
    (tr : Option Transceiver) (here there : Router) (t addr : String) (a : Accepter) (raw : Bytes)
    → parse pt.track.global_id ≡ some id
    → print id ≡ pt.track.global_id
    → length id ≡ 16
    → length pool.bytes ≡ packet_max_size
    → find_tracks_remote_by_mid_and_rid trs pt.track.stream_id (codes pt.track.bind_id) pt.track.rid
      ≡ ok (some rt, tr)
    → str_eq t here.id ≡ false
    → lookup t here.addr_map ≡ some addr
    → lookup pt.track.global_id there.track2accepters ≡ some a
    → 0 < length raw
    → length raw ≤ 1580
    → (pt' : PublishedTrack) × (here' : Router) × (satify_select_track false trs t c pt here
        ≡ ok (pt', here', true))
      × Memᴰ c pt'.consumers
      × (q : Packet) × (b : Bytes) × (forward parse print pool pt.track.global_id false
            (read raw)
            here'
          ≡ ok (here', some q, false))
      × IsSent here' addr q b
      × (receive parse print b there
          ≡ ok (there, if a.closed then closed_accepter else written raw, false))
unfolding satify_select_track on_rtp_packet
satify_select-receive parse print pool id pt c trs rt tr here there t addr a raw known same l full
      found n known_addr accepted pos fits =
    let here' : Router = (publish_track pt.track.global_id t here).0 in
    let (ts, published, m, addrs) = publish_track-lookup pt.track.global_id t here n in
    let (q, e, reads) =
      new_packet_from_buf-Reads parse print pt.track.global_id id pool full known l raw in
    let (b, cnt, d, _, x) = short q reads in
    let d' = d ∙ ltb-true 0 (length raw) pos in
    (
      on_rtp_packet c pt,
      here',
      ap (λ (f : Result Found). f >>= λ (o, w). ok (selected t c pt here o)) found,
      Memᴰ.append_right pt.consumers (Memᴰ.head refl),
      q,
      b,
      forward-read parse print pool pt.track.global_id raw here' pos
          ∙ ap (sent_packet here' false) e,
      route-IsSent parse print pt.track.global_id id known same l here' there ts t addr 0 a
          published m (ap (lookup t) addrs ∙ known_addr) accepted pool full q b
          (new_packet_from_buf-track parse print pool pt.track.global_id id raw q known e) cnt
          (inl d'),
      receive-data parse print there a pt.track.global_id id b raw d' x same accepted,
    )
  where
    short :
        (q : Packet)
        → ((length raw ≤ 1580) × Reads parse print q (ltb 0 (length raw)) false id raw)
          ⊎ ((1580 < length raw) × (packet_content q ≡ panic index))
        → Reads parse print q (ltb 0 (length raw)) false id raw
    short q (inl (_, r)) = r
    short q (inr (k, _)) = absurd (omega (arith, k, fits))

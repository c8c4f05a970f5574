-- ===== src/Publisher/Ends.antt =====
-- What becomes of the packet that ends a published track.
use conference_go.Common.{
  String, Bool, true, [], Option, none, some, str_eq_refl, ok, ◌≡◌, refl, ◌∙◌, ◌⊎◌, inl, inr, sym,
  ap, subst, length,
}
use conference_go.Maps.{lookup, lookup-erase}
use conference_go.Frames.{Bytes}
use conference_go.Packets.{
  Packet, Made, made, bad_uuid, too_big, not_marshalled, packet_max_size, new_eof_packet,
  eof_packet, is_eof_packet,
}
use conference_go.Packets.Tracks.{new_eof_packet-Reads}
use conference_go.Router.{
  Router, Outcome, remove_track, addresses, consume_packet, end_accepter, route,
}
use conference_go.Publisher.{Reading, read, read_closed, sent_packet, forward}

-- The consumer is called after its publication is closed, or with the error of a closed connection.
abbrev pub IsLast : Bool → Reading → Type 0
IsLast is_closed x = (x ≡ read_closed) ⊎ ((is_closed ≡ true) × ((b : Bytes) × (x ≡ read b)))

abbrev track_of_made : Made → String
track_of_made (made q) = q.track_id
track_of_made bad_uuid = ""
track_of_made too_big = ""
track_of_made not_marshalled = ""

module _ (parse : String → Option Bytes) (print : Bytes → String) (pool : Packet)
    (track_id : String) where
  forward-last :
      (is_closed : Bool) (x : Reading) (r : Router)
      → IsLast is_closed x
      → forward parse print pool track_id is_closed x r
        ≡ sent_packet (remove_track track_id r) true (new_eof_packet parse print track_id pool)
  unfolding forward
  forward-last is_closed x r (inl e) = rw e refl
  forward-last is_closed x r (inr (c, (b, e))) = rw (c, e) refl

  new_eof_packet-track :
      (id : Bytes) (q : Packet)
      → parse track_id ≡ some id
      → new_eof_packet parse print track_id pool ≡ made q
      → q.track_id ≡ track_id
  unfolding new_eof_packet
  new_eof_packet-track id q known e =
      ap track_of_made (sym e ∙ ap (eof_packet parse print track_id pool) known)

  remove_track-lookup :
      (r : Router) → lookup track_id (remove_track track_id r).track2transports ≡ none
  unfolding remove_track
  remove_track-lookup r =
      lookup-erase track_id track_id r.track2transports ∙ rw (str_eq_refl track_id) refl

  -- The last call of the consumer that `SatifySelect` makes removes the track from the router and gives the
  -- packet for its end, which the router then sends to no other node.
  pub route-forward :
      (is_closed : Bool) (x : Reading) (r : Router) (id : Bytes)
      → IsLast is_closed x
      → length pool.bytes ≡ packet_max_size
      → parse track_id ≡ some id
      → length id ≡ 16
      → (q : Packet) × (b : Bytes) × (after : Router) × (o : Outcome) × (forward parse print pool
            track_id is_closed x r
          ≡ ok (remove_track track_id r, some q, true))
        × (is_eof_packet b ≡ true)
        × (route q (remove_track track_id r) ≡ ok (after, [], b, o))
  unfolding route consume_packet addresses
  route-forward is_closed x r id last full known h =
      let (q, e, (b, c, d, n, _)) =
        new_eof_packet-Reads parse print track_id id pool full known h in
      let (after, o) =
        end_accepter q.track_id (remove_track track_id r)
          (lookup q.track_id (remove_track track_id r).track2accepters) in
      (
        q,
        b,
        after,
        o,
        forward-last is_closed x r last ∙ ap (sent_packet (remove_track track_id r) true) e,
        n,
        rw (c, n, transports q (new_eof_packet-track id q known e)) refl,
      )
    where
      transports :
          (q : Packet)
          → q.track_id ≡ track_id
          → lookup q.track_id (remove_track track_id r).track2transports ≡ none
      transports q same =
          subst (λ t. lookup t (remove_track track_id r).track2transports ≡ none) (sym same)
            (remove_track-lookup r)

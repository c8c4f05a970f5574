-- ===== src/Samples/Publishing.antt =====
-- signal/model.go: a published track, its consumers and the transceivers, on small inputs.
use conference_go.Common.{
  inr, ◌==◌, true, false, not, List, [], ◌∷◌, none, some, ◌≡◌, refl, ok, panic, nil_pointer, inl,
  if◌then◌else◌, arith, Memᴰ,
}
use conference_go.Collection.Compact.{sift}
use conference_go.Protocol.{WebrtcParameters}
use conference_go.Frames.{Bytes, digits}
use conference_go.Packets.{Packet, is_eof_packet}
use conference_go.Router.{Router, Outcome, remove_track, route, receive, written, closed_accepter}
use conference_go.Router.Relay.{IsSent}
use conference_go.Transceivers.{
  RemoteTrack, Transceiver, find_transiver_by_sender, get_mid_from_sender,
  find_tracks_remote_by_mid_and_rid, track_of_receiver,
}
use conference_go.Transceivers.Naming.{find_tracks_remote-get_mid}
use conference_go.Publisher.{
  PublishedTrack, consumes, remove_consumer, satify_select_track, forward, read, read_closed,
  read_failed, codes,
}
use conference_go.Publisher.Consumers.{IsReader, consumes_lem}
use conference_go.Publisher.Ends.{route-forward}
use conference_go.Publisher.Delivery.{satify_select-receive}
use conference_go.Samples.Subscriptions.{track_named, stream_uuid}
use conference_go.Samples.Nodes.{
  track_uuid, parse, print, pool, payload, here, accepter, there, pool_full, uuid_size, known_addr,
  accepted,
}

abbrev vp8 : WebrtcParameters
vp8 = record {
  mime_type = "video/VP8";
  clock_rate = 90000;
  channels = 0;
  sdp_fmtp_line = "";
  rtcp_feedback = [];
  payload_type = 96;
}

abbrev remote_camera : RemoteTrack
remote_camera = record { handle = 1; id = "r"; rid = ""; stream_id = stream_uuid; codec = vp8 }

-- The first transceiver has its mid, the second has none yet.
abbrev transceivers : List Transceiver
transceivers =
    record { mid = b'0' ∷ []; sender = 5; receiver = some (remote_camera ∷ []) }
    ∷ record { mid = []; sender = 6; receiver = none }
    ∷ []

abbrev second : Transceiver
second = record { mid = []; sender = 6; receiver = none }

sender_found : find_transiver_by_sender 0 transceivers 6 ≡ some (second, 1)
unfolding find_transiver_by_sender
sender_found = refl

find_tracks_remote-get_mid_example :
    find_tracks_remote_by_mid_and_rid transceivers "s" (get_mid_from_sender transceivers 6) ""
    ≡ ok (track_of_receiver "s" "" none, some second)
find_tracks_remote-get_mid_example =
    find_tracks_remote-get_mid transceivers 6 "s" "" second 1 (omega arith) sender_found (inl refl)

abbrev track : PublishedTrack
track = record {
  track = track_named "t" "video";
  remote = some remote_camera;
  consumers = 1 ∷ 2 ∷ 3 ∷ [];
  is_reading = true;
}

track_read : IsReader track
track_read = (
  ((λ e. omega (arith, e), (λ e. omega (arith, e), tt)), ((λ e. omega (arith, e), tt), (tt, tt))),
  refl,
)

consumes_lem_example :
    (pt' : PublishedTrack) × (consumes (λ c x. c == 2) (read payload) track
      ≡ ok (pt', (1, read payload) ∷ (2, read payload) ∷ (3, read payload) ∷ []))
    × (pt'.consumers ≡ sift (λ c. not (c == 2)) (1 ∷ 2 ∷ 3 ∷ []))
    × IsReader pt'
consumes_lem_example = consumes_lem (λ c x. c == 2) (read payload) track track_read

publisher_runs :
    (get_mid_from_sender transceivers 6 ≡ b'p' ∷ b'o' ∷ b's' ∷ b':' ∷ b'1' ∷ [])
    × (consumes (λ c x. c == 2) read_failed track
        ≡ ok (
          record track { consumers = 1 ∷ 3 ∷ [] },
          (1, read_failed) ∷ (2, read_failed) ∷ (3, read_failed) ∷ [],
        ))
    × (consumes (λ c x. true) read_closed track
        ≡ ok (
          record track { consumers = []; is_reading = false },
          (1, read_closed) ∷ (2, read_closed) ∷ (3, read_closed) ∷ [],
        ))
    × (remove_consumer 1 (record track { consumers = []; is_reading = false }) ≡ panic nil_pointer)
unfolding get_mid_from_sender consumes remove_consumer digits
publisher_runs = (refl, refl, refl, refl)

camera_found :
    find_tracks_remote_by_mid_and_rid transceivers stream_uuid (codes "0") ""
    ≡ ok (
      some remote_camera,
      some (record { mid = b'0' ∷ []; sender = 5; receiver = some (remote_camera ∷ []) }),
    )
unfolding find_tracks_remote_by_mid_and_rid
camera_found = refl

satify_select-receive_example :
    (pt' : PublishedTrack) × (here' : Router) × (satify_select_track false transceivers "n" 4 track
        here
      ≡ ok (pt', here', true))
    × Memᴰ 4 pt'.consumers
    × (q : Packet) × (b : Bytes) × (forward parse print pool "t" false (read payload) here'
        ≡ ok (here', some q, false))
    × IsSent here' "10.0.0.2:90" q b
    × (receive parse print b there
        ≡ ok (there, if accepter.closed then closed_accepter else written payload, false))
satify_select-receive_example =
    satify_select-receive parse print pool track_uuid track 4 transceivers remote_camera
      (some (record { mid = b'0' ∷ []; sender = 5; receiver = some (remote_camera ∷ []) })) here
      there "n" "10.0.0.2:90" accepter payload refl refl uuid_size pool_full camera_found refl
      known_addr accepted (omega arith) (omega arith)

route-forward_example :
    (q : Packet) × (b : Bytes) × (after : Router) × (o : Outcome) × (forward parse print pool "t"
        true
        (read payload)
        here
      ≡ ok (remove_track "t" here, some q, true))
    × (is_eof_packet b ≡ true)
    × (route q (remove_track "t" here) ≡ ok (after, [], b, o))
route-forward_example =
    route-forward parse print pool "t" true (read payload) here track_uuid
      (inr (refl, (payload, refl))) pool_full refl uuid_size

-- ===== src/Samples/Protocol.antt =====
-- model/messages.go and model/common.go: requests and codecs.
use conference_go.Common.{[], ◌∷◌, none, ok, panic, nil_pointer, ◌≡◌, ◌↔◌, refl}
use conference_go.Proto.{RtpCodecParameters}
use conference_go.Protocol.{
  TrackToPublish, PublishMessage, SubscribeMessage, validate_publish, validate_subscribe,
  check_bind_ids,
}
use conference_go.Protocol.Requests.{IsSubscribe, IsHollow, validate_subscribe_iff}

abbrev pub camera : TrackToPublish
camera = record { kind = "video"; bind_id = "1"; rid = ""; sid = "s"; labels = [] }

abbrev pub publish_camera : PublishMessage
publish_camera = record { op = 0; id = ""; tracks = camera ∷ [] }

pub publish_camera_runs : validate_publish publish_camera ≡ none
unfolding validate_publish check_bind_ids
publish_camera_runs = refl

-- The pattern is missing.
abbrev hollow : SubscribeMessage
hollow = record { op = 0; id = ""; req_types = []; pattern = none; room = "" }

hollow_runs : validate_subscribe hollow ≡ panic nil_pointer
unfolding validate_subscribe
hollow_runs = refl

validate_subscribe_iff_example :
    ((validate_subscribe hollow ≡ ok none) ↔ IsSubscribe hollow)
    × ((validate_subscribe hollow ≡ panic nil_pointer) ↔ IsHollow hollow)
validate_subscribe_iff_example = validate_subscribe_iff hollow

abbrev opus : RtpCodecParameters
opus = record {
  mime_type = "audio/opus";
  clock_rate = 48000;
  channels = 2;
  sdp_fmtp_line = "";
  rtcp_feedback = [];
  payload_type = 111;
}

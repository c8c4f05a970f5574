-- ===== src/Protocol.antt =====
-- model/messages.go and model/common.go: the checks of a client's requests to publish and to subscribe,
-- and the conversions of codec parameters. An operator is the number that the message has.
pub mod Requests
pub mod Codecs
use conference_go.Common.{
  ℕ, suc, ◌%◌, ◌^◌, ◌==◌, String, Bool, true, false, not, List, [], ◌∷◌, Option, none, some, str_eq,
  if◌then◌else◌, Result, ok, panic, nil_pointer, ◌>>=◌, map,
}
use conference_go.Proto.{PublicationPattern, Track, RtpCodecParameters, RtcpFeedback}
use conference_go.Publication.{PatternError, validate}

pub record TrackToPublish : Type 0 where
  pub kind : String
  pub bind_id : String
  pub rid : String
  pub sid : String
  pub labels : List (String × String)

pub record PublishMessage : Type 0 where
  pub op : ℕ
  pub id : String
  pub tracks : List TrackToPublish

pub record SubscribeMessage : Type 0 where
  pub op : ℕ
  pub id : String
  pub req_types : List String
  pub pattern : Option PublicationPattern
  pub room : String

-- The errors of the two methods `Validate`.
pub data RequestError : Type 0 where
  needless_id missing_id no_tracks needless_tracks : RequestError
  no_bind_id : ℕ → RequestError
  invalid_op : ℕ → RequestError
  bad_pattern : PatternError → RequestError

-- The loop over the tracks, from the index.
unfoldable pub check_bind_ids : ℕ → List TrackToPublish → Option RequestError
check_bind_ids i [] = none
check_bind_ids i (t ∷ tracks) =
    let rest = check_bind_ids (suc i) tracks in
    if str_eq t.bind_id "" then some (no_bind_id i) else rest

abbrev pub check_tracks : List TrackToPublish → Option RequestError
check_tracks [] = some no_tracks
check_tracks (t ∷ tracks) = check_bind_ids 0 (t ∷ tracks)

abbrev pub check_no_tracks : List TrackToPublish → Option RequestError
check_no_tracks [] = none
check_no_tracks (t ∷ tracks) = some needless_tracks

-- `PublishMessage.Validate`
unfoldable pub validate_publish : PublishMessage → Option RequestError
unfolding check_bind_ids
validate_publish m =
    if m.op == 0
    then (if not (str_eq m.id "") then some needless_id else check_tracks m.tracks)
    else if m.op == 1
    then (if str_eq m.id "" then some missing_id else check_no_tracks m.tracks)
    else some (invalid_op m.op)

abbrev pub pattern_error : Option PatternError → Option RequestError
pattern_error none = none
pattern_error (some e) = some (bad_pattern e)

-- `Validate(m.Pattern)` reads the operator of a pattern that may be nil.
abbrev pub check_pattern_of : Option PublicationPattern → Result (Option RequestError)
check_pattern_of none = panic nil_pointer
check_pattern_of (some p) = ok (pattern_error (validate p))

-- `SubscribeMessage.Validate`
unfoldable pub validate_subscribe : SubscribeMessage → Result (Option RequestError)
unfolding validate
validate_subscribe m =
    if m.op == 0
    then (if not (str_eq m.id "") then ok (some needless_id) else check_pattern_of m.pattern)
    else if m.op == 1
    then (if str_eq m.id "" then ok (some missing_id) else check_pattern_of m.pattern)
    else if m.op == 2
    then ok (if str_eq m.id "" then some missing_id else none)
    else ok (some (invalid_op m.op))

-- The parameters of a codec as the WebRTC library has them, with 16 bits for the channels and 8 for the
-- payload type.
pub record WebrtcParameters : Type 0 where
  pub mime_type : String
  pub clock_rate : ℕ
  pub channels : ℕ
  pub sdp_fmtp_line : String
  pub rtcp_feedback : List (String × String)
  pub payload_type : ℕ

abbrev feedback_of : String × String → RtcpFeedback
feedback_of (kind, parameter) = record { kind = kind; parameter = parameter }

abbrev feedback_to : RtcpFeedback → String × String
feedback_to f = (f.kind, f.parameter)

unfoldable pub feedbacks_of : List (String × String) → List RtcpFeedback
feedbacks_of [] = []
feedbacks_of (f ∷ fs) = feedback_of f ∷ feedbacks_of fs

unfoldable pub feedbacks_to : List RtcpFeedback → List (String × String)
feedbacks_to [] = []
feedbacks_to (f ∷ fs) = feedback_to f ∷ feedbacks_to fs

-- `NewRTPCodecParameters`
unfoldable pub new_rtp_codec_parameters : WebrtcParameters → RtpCodecParameters
unfolding feedbacks_of
new_rtp_codec_parameters w = record {
  mime_type = w.mime_type;
  clock_rate = w.clock_rate;
  channels = w.channels;
  sdp_fmtp_line = w.sdp_fmtp_line;
  rtcp_feedback = feedbacks_of w.rtcp_feedback;
  payload_type = w.payload_type;
}

-- `RTPCodecParametersToWebrtc`
unfoldable pub rtp_codec_parameters_to_webrtc : RtpCodecParameters → WebrtcParameters
unfolding feedbacks_to
rtp_codec_parameters_to_webrtc p = record {
  mime_type = p.mime_type;
  clock_rate = p.clock_rate;
  channels = p.channels % 2 ^ 16;
  sdp_fmtp_line = p.sdp_fmtp_line;
  rtcp_feedback = feedbacks_to p.rtcp_feedback;
  payload_type = p.payload_type % 2 ^ 8;
}

-- `CopyTrack`
unfoldable pub copy_track : Track → Track
copy_track t = record {
  kind = t.kind;
  pub_id = t.pub_id;
  global_id = t.global_id;
  local_id = t.local_id;
  bind_id = t.bind_id;
  rid = t.rid;
  stream_id = t.stream_id;
  codec = t.codec;
  labels = t.labels;
}

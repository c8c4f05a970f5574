-- ===== src/Proto.antt =====
-- proto/message.proto: the messages that clients and nodes exchange. A message field that may be
-- absent is an option, a repeated field a list, a map an association list.
use conference_go.Common.{ℕ, String, Bool, List, Option}

-- Enumerations of proto3 are open: `other` is a number that the file does not name.
pub data PatternOp : Type 0 where
  all some none publish_id stream_id track_id track_rid : PatternOp
  track_label_all_match track_label_some_match track_label_none_match : PatternOp
  track_label_all_has track_label_some_has track_label_none_has track_type : PatternOp
  other : ℕ → PatternOp

mutual
  pub data PublicationPattern : Type 0 where
    pattern : PatternOp → List String → Patterns → PublicationPattern

  -- The children, none of which is a null
  pub data Patterns : Type 0 where
    nil : Patterns
    cons : PublicationPattern → Patterns → Patterns

pub record Router : Type 0 where
  pub room : String
  pub node_from : String
  pub node_to : String
  pub socket_from : String
  pub socket_to : String

pub record RtcpFeedback : Type 0 where
  pub kind : String
  pub parameter : String

pub record RtpCodecParameters : Type 0 where
  pub mime_type : String
  pub clock_rate : ℕ
  pub channels : ℕ
  pub sdp_fmtp_line : String
  pub rtcp_feedback : List RtcpFeedback
  pub payload_type : ℕ

pub record Track : Type 0 where
  pub kind : String
  pub pub_id : String
  pub global_id : String
  pub local_id : String
  pub bind_id : String
  pub rid : String
  pub stream_id : String
  pub codec : Option RtpCodecParameters
  pub labels : List (String × String)

pub record WantMessage : Type 0 where
  pub router : Option Router
  pub req_types : List String
  pub pub_pattern : Option PublicationPattern
  pub transport_id : String

pub record StateMessage : Type 0 where
  pub router : Option Router
  pub pub_id : String
  pub addr : String
  pub tracks : List Track

pub record SelectMessage : Type 0 where
  pub router : Option Router
  pub pub_id : String
  pub transport_id : String
  pub tracks : List Track

pub record WantParticipantMessage : Type 0 where
  pub router : Option Router

pub record StateParticipantMessage : Type 0 where
  pub router : Option Router
  pub user_id : String
  pub user_name : String
  pub socket_id : String
  pub join_id : ℕ

pub record StateLeaveMessage : Type 0 where
  pub router : Option Router
  pub user_id : String
  pub socket_id : String
  pub join_id : ℕ

pub record PingMessage : Type 0 where
  pub router : Option Router
  pub msg_id : ℕ

pub record PongMessage : Type 0 where
  pub router : Option Router
  pub msg_id : ℕ

pub record CustomMessage : Type 0 where
  pub router : Option Router
  pub content : String
  pub msg_id : ℕ
  pub ack : Bool

pub record CustomClusterMessage : Type 0 where
  pub evt : String
  pub msg : Option CustomMessage

pub record CustomAckMessage : Type 0 where
  pub router : Option Router
  pub msg_id : ℕ
  pub content : String
  pub err : Bool

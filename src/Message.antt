-- ===== src/Message.antt =====
-- proto/message.ext.go: the interface `RoomMessage` and what each message does for it. A value of the
-- interface is a pointer to one of the messages that is not nil.
pub mod Laws
pub mod Client
use conference_go.Common.{
  ℕ, String, Bool, true, false, List, [], ◌∷◌, Option, none, some, str_eq, if◌then◌else◌,
}
use conference_go.Proto.{
  Router, WantMessage, StateMessage, SelectMessage, WantParticipantMessage, StateParticipantMessage,
  StateLeaveMessage, PingMessage, PongMessage, CustomMessage, CustomClusterMessage,
  CustomAckMessage,
}

pub data RoomMessage : Type 0 where
  want : WantMessage → RoomMessage
  state : StateMessage → RoomMessage
  select : SelectMessage → RoomMessage
  want_participant : WantParticipantMessage → RoomMessage
  state_participant : StateParticipantMessage → RoomMessage
  state_leave : StateLeaveMessage → RoomMessage
  ping : PingMessage → RoomMessage
  pong : PongMessage → RoomMessage
  custom : CustomMessage → RoomMessage
  custom_cluster : CustomClusterMessage → RoomMessage
  custom_ack : CustomAckMessage → RoomMessage

-- `&Router{}`
abbrev pub empty_router : Router
empty_router = record { room = ""; node_from = ""; node_to = ""; socket_from = ""; socket_to = "" }

abbrev pub or_empty_router : Option Router → Router
or_empty_router none = empty_router
or_empty_router (some r) = r

abbrev pub empty_custom : CustomMessage
empty_custom = record { router = none; content = ""; msg_id = 0; ack = false }

abbrev pub or_empty_custom : Option CustomMessage → CustomMessage
or_empty_custom none = empty_custom
or_empty_custom (some m) = m

abbrev pub custom_router : Option CustomMessage → Option Router
custom_router none = none
custom_router (some m) = m.router

-- `GetRouter`
unfoldable pub get_router : RoomMessage → Option Router
get_router (want m) = m.router
get_router (state m) = m.router
get_router (select m) = m.router
get_router (want_participant m) = m.router
get_router (state_participant m) = m.router
get_router (state_leave m) = m.router
get_router (ping m) = m.router
get_router (pong m) = m.router
get_router (custom m) = m.router
get_router (custom_cluster m) = custom_router m.msg
get_router (custom_ack m) = m.router

unfoldable pub get_room : RoomMessage → String
unfolding get_router
get_room m = (or_empty_router (get_router m)).room

-- `Router.CopyPlain`, which gives an empty router for a nil one.
unfoldable pub copy_router : Option Router → Router
copy_router r = record {
  room = (or_empty_router r).room;
  node_from = (or_empty_router r).node_from;
  node_to = (or_empty_router r).node_to;
  socket_from = (or_empty_router r).socket_from;
  socket_to = (or_empty_router r).socket_to;
}

-- `fixRouter`
unfoldable pub fix_router : Router → String → String → String → Router
fix_router r room socket_id node = record r {
  room = if str_eq r.room "" then room else r.room;
  socket_from = socket_id;
  node_from = node;
}

-- The methods `FixRouter`: a router that is missing is made first.
module _ (room socket_id node : String) where
  abbrev pub fixed : Option Router → Option Router
  fixed r = some (fix_router (or_empty_router r) room socket_id node)

  abbrev pub fixed_custom : Option CustomMessage → CustomMessage
  fixed_custom m = record (or_empty_custom m) { router = fixed (custom_router m) }

  unfoldable pub fix_message : RoomMessage → RoomMessage
  unfolding fix_router
  fix_message (want m) = want (record m { router = fixed m.router })
  fix_message (state m) = state (record m { router = fixed m.router })
  fix_message (select m) = select (record m { router = fixed m.router })
  fix_message (want_participant m) = want_participant (record m { router = fixed m.router })
  fix_message (state_participant m) = state_participant (record m { router = fixed m.router })
  fix_message (state_leave m) = state_leave (record m { router = fixed m.router })
  fix_message (ping m) = ping (record m { router = fixed m.router })
  fix_message (pong m) = pong (record m { router = fixed m.router })
  fix_message (custom m) = custom (record m { router = fixed m.router })
  fix_message (custom_cluster m) = custom_cluster (record m { msg = some (fixed_custom m.msg) })
  fix_message (custom_ack m) = custom_ack (record m { router = fixed m.router })

-- The methods `CopyPlain`
abbrev pub copied : Option Router → Option Router
copied r = some (copy_router r)

unfoldable pub copy_custom : Option CustomMessage → CustomMessage
unfolding copy_router
copy_custom m = record {
  router = copied (custom_router m);
  content = (or_empty_custom m).content;
  msg_id = (or_empty_custom m).msg_id;
  ack = (or_empty_custom m).ack;
}

unfoldable pub copy_plain : RoomMessage → RoomMessage
unfolding copy_router copy_custom
copy_plain (want m) = want (record {
  router = copied m.router;
  req_types = m.req_types;
  pub_pattern = m.pub_pattern;
  transport_id = m.transport_id;
})
copy_plain (state m) =
    state (record { router = copied m.router; pub_id = m.pub_id; addr = m.addr; tracks = m.tracks })
copy_plain (select m) = select (record {
  router = copied m.router;
  pub_id = m.pub_id;
  transport_id = m.transport_id;
  tracks = m.tracks;
})
copy_plain (want_participant m) = want_participant (record { router = copied m.router })
copy_plain (state_participant m) = state_participant (record {
  router = copied m.router;
  user_id = m.user_id;
  user_name = m.user_name;
  socket_id = m.socket_id;
  join_id = m.join_id;
})
copy_plain (state_leave m) = state_leave (record {
  router = copied m.router;
  user_id = m.user_id;
  socket_id = m.socket_id;
  join_id = m.join_id;
})
copy_plain (ping m) = ping (record { router = copied m.router; msg_id = m.msg_id })
copy_plain (pong m) = pong (record { router = copied m.router; msg_id = m.msg_id })
copy_plain (custom m) = custom (copy_custom (some m))
copy_plain (custom_cluster m) =
    custom_cluster (record { evt = m.evt; msg = some (copy_custom m.msg) })
copy_plain (custom_ack m) =
    custom_ack
      (record { router = copied m.router; msg_id = m.msg_id; content = m.content; err = m.err })

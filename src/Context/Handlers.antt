-- ===== src/Context/Handlers.antt =====
-- signal/model.go: the handlers that pass a message of the cluster on to the client.
use conference_go.Common.{
  ◌==◌, String, Bool, true, false, not, ◌&&◌, ◌||◌, Option, none, some, str_eq, if◌then◌else◌,
}
use conference_go.Proto.{
  Router, StateParticipantMessage, StateLeaveMessage, PingMessage, PongMessage,
  CustomClusterMessage, CustomAckMessage,
}
use conference_go.Message.{
  RoomMessage, want, state, select, want_participant, state_participant, state_leave, ping, pong,
  custom, custom_cluster, custom_ack, or_empty_custom, get_router,
}
use conference_go.Message.Client.{ClientMessage, to_client_message}
use conference_go.Context.{Context, join_id_of_room}

abbrev pub in_joined_room : Option Router → Context → Bool
in_joined_room none ctx = false
in_joined_room (some r) ctx =
    if str_eq r.room "" then false else not (join_id_of_room r.room ctx == 0)

-- `matchRoom`
unfoldable pub matches_room : RoomMessage → Context → Bool
unfolding get_router join_id_of_room
matches_room msg ctx = in_joined_room (get_router msg) ctx

abbrev pub to_socket : Option Router → Bool → Context → Bool
to_socket none strict ctx = false
to_socket (some r) strict ctx =
    if strict then str_eq r.socket_to ctx.id else str_eq r.socket_to "" || str_eq r.socket_to ctx.id

-- `matchSocketTo`
unfoldable pub matches_socket_to : RoomMessage → Bool → Context → Bool
unfolding get_router
matches_socket_to msg strict ctx = to_socket (get_router msg) strict ctx

-- An event that is emitted to the client.
pub data ClientEvent : Type 0 where
  participant_join participant_leave ping_event pong_event custom_ack_event : ClientEvent
  custom_event : String → ClientEvent

abbrev pub to_client : Bool → ClientEvent → RoomMessage → Option (ClientEvent × ClientMessage)
to_client true ev msg = some (ev, to_client_message msg)
to_client false ev msg = none

-- `AcceptParticipants`
unfoldable pub accept_participants :
    StateParticipantMessage → Context → Option (ClientEvent × ClientMessage)
unfolding matches_room to_client_message
accept_participants m ctx =
    to_client (matches_room (state_participant m) ctx) participant_join (state_participant m)

-- `StateParticipantLeave`
unfoldable pub state_participant_leave :
    StateLeaveMessage → Context → Option (ClientEvent × ClientMessage)
unfolding matches_room to_client_message
state_participant_leave m ctx =
    to_client (matches_room (state_leave m) ctx) participant_leave (state_leave m)

-- `OnPingMessage`
unfoldable pub on_ping_message : PingMessage → Context → Option (ClientEvent × ClientMessage)
unfolding matches_room matches_socket_to to_client_message
on_ping_message m ctx =
    to_client (matches_room (ping m) ctx && matches_socket_to (ping m) true ctx) ping_event (ping m)

-- `OnPongMessage`
unfoldable pub on_pong_message : PongMessage → Context → Option (ClientEvent × ClientMessage)
unfolding matches_room matches_socket_to to_client_message
on_pong_message m ctx =
    to_client (matches_room (pong m) ctx && matches_socket_to (pong m) true ctx) pong_event (pong m)

-- `OnCustomMessage`; a message without its content is in no room
unfoldable pub on_custom_message :
    CustomClusterMessage → Context → Option (ClientEvent × ClientMessage)
unfolding matches_room matches_socket_to to_client_message
on_custom_message m ctx =
    to_client
      (matches_room (custom_cluster m) ctx && matches_socket_to (custom_cluster m) false ctx)
      (custom_event m.evt) (custom (or_empty_custom m.msg))

-- `OnCustomAckMessage`
unfoldable pub on_custom_ack_message :
    CustomAckMessage → Context → Option (ClientEvent × ClientMessage)
unfolding matches_room matches_socket_to to_client_message
on_custom_ack_message m ctx =
    to_client (matches_room (custom_ack m) ctx && matches_socket_to (custom_ack m) true ctx)
      custom_ack_event (custom_ack m)

-- What the handler that is registered for a message's topic passes on to the client.
unfoldable pub client_event : RoomMessage → Context → Option (ClientEvent × ClientMessage)
unfolding accept_participants state_participant_leave on_ping_message on_pong_message
    on_custom_message on_custom_ack_message
client_event (state_participant m) ctx = accept_participants m ctx
client_event (state_leave m) ctx = state_participant_leave m ctx
client_event (ping m) ctx = on_ping_message m ctx
client_event (pong m) ctx = on_pong_message m ctx
client_event (custom_cluster m) ctx = on_custom_message m ctx
client_event (custom_ack m) ctx = on_custom_ack_message m ctx
client_event (want m) ctx = none
client_event (state m) ctx = none
client_event (select m) ctx = none
client_event (want_participant m) ctx = none
client_event (custom m) ctx = none

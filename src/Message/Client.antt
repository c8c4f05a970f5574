-- ===== src/Message/Client.antt =====
-- proto/message.ext.go: `ToMap` and `ToClientMessage`, the form in which a client sees a message.
pub mod Hidden
use conference_go.Common.{ℕ, String, Bool, true, false, Option, none, some, str_eq, if◌then◌else◌}
use conference_go.Proto.{Router, CustomMessage}
use conference_go.Message.{
  RoomMessage, want, state, select, want_participant, state_participant, state_leave, ping, pong,
  custom, custom_cluster, custom_ack, or_empty_router, get_router, copy_plain,
}

-- The values of a `map[string]any`. `nil_map` is the nil map of the same type.
mutual
  pub data Value : Type 0 where
    text : String → Value
    number : ℕ → Value
    flag : Bool → Value
    nil_map : Value
    object : Fields → Value

  pub data Fields : Type 0 where
    end : Fields
    field : String → Value → Fields → Fields

-- `delete(m, name)`
unfoldable pub delete_field : String → Fields → Fields
delete_field name end = end
delete_field name (field n v fs) =
    let rest = delete_field name fs in if str_eq n name then rest else field n v rest

-- `Router.ToMap`
abbrev pub router_map : Option Router → Value
router_map none = nil_map
router_map (some r) = object (
    field "room" (text r.room) (
      field "nodeFrom" (text r.node_from) (
        field "nodeTo" (text r.node_to)
          (field "socketFrom" (text r.socket_from) (field "socketTo" (text r.socket_to) end)))))

-- `CustomMessage.ToMap`
abbrev pub custom_fields : CustomMessage → Fields
custom_fields m = field "router" (router_map m.router) (
    field "content" (text m.content)
      (field "msgId" (number m.msg_id) (field "ack" (flag m.ack) end)))

abbrev pub custom_map : Option CustomMessage → Value
custom_map none = nil_map
custom_map (some m) = object (custom_fields m)

-- `ToMap`, for the messages that have it
unfoldable pub to_map : RoomMessage → Option Fields
to_map (state_participant m) = some (
    field "router" (router_map m.router) (
      field "userId" (text m.user_id) (
        field "userName" (text m.user_name)
          (field "socketId" (text m.socket_id) (field "joinId" (number m.join_id) end)))))
to_map (state_leave m) = some (
    field "router" (router_map m.router) (
      field "userId" (text m.user_id)
        (field "socketId" (text m.socket_id) (field "joinId" (number m.join_id) end))))
to_map (ping m) = some (field "router" (router_map m.router) (field "msgId" (number m.msg_id) end))
to_map (pong m) = some (field "router" (router_map m.router) (field "msgId" (number m.msg_id) end))
to_map (custom m) = some (custom_fields m)
to_map (custom_cluster m) = some (field "evt" (text m.evt) (field "msg" (custom_map m.msg) end))
to_map (custom_ack m) = some (
    field "router" (router_map m.router) (
      field "msgId" (number m.msg_id)
        (field "content" (text m.content) (field "err" (flag m.err) end))))
to_map _ = none

-- What the client is sent: a map, or a message.
pub data ClientMessage : Type 0 where
  as_map : Fields → ClientMessage
  as_message : RoomMessage → ClientMessage

-- The two deletions, in the map that stands under "router".
abbrev pub strip_value : Value → Value
strip_value (object fs) = object (delete_field "nodeTo" (delete_field "nodeFrom" fs))
strip_value v = v

unfoldable pub strip_router : Fields → Fields
unfolding delete_field
strip_router end = end
strip_router (field n v fs) =
    let rest = strip_router fs in
    if str_eq n "router" then field n (strip_value v) fs else field n v rest

abbrev pub without_nodes : Option Router → Option Router
without_nodes none = none
without_nodes (some r) = some (record r { node_from = ""; node_to = "" })

-- The assignments to `NodeFrom` and `NodeTo` of the copy, for the messages that are copied.
unfoldable pub clear_nodes : RoomMessage → RoomMessage
clear_nodes (want m) = want (record m { router = without_nodes m.router })
clear_nodes (state m) = state (record m { router = without_nodes m.router })
clear_nodes (select m) = select (record m { router = without_nodes m.router })
clear_nodes (want_participant m) = want_participant (record m { router = without_nodes m.router })
clear_nodes m = m

abbrev pub client_form : Option Fields → RoomMessage → ClientMessage
client_form (some fs) m = as_map (strip_router fs)
client_form none m = as_message (clear_nodes (copy_plain m))

unfoldable pub to_client_message : RoomMessage → ClientMessage
unfolding to_map strip_router clear_nodes copy_plain
to_client_message m = client_form (to_map m) m

-- ===== src/Message/Client/Hidden.antt =====
-- A client never sees which nodes a message travelled between.
use conference_go.Common.{String, Option, none, some, str_eq, if◌then◌else◌, ◌≡◌, refl}
use conference_go.Proto.{Router}
use conference_go.Message.{
  RoomMessage, want, state, select, want_participant, state_participant, state_leave, ping, pong,
  custom, custom_cluster, custom_ack, or_empty_router, get_router, copied,
}
use conference_go.Message.Client.{
  Value, text, object, Fields, end, field, ClientMessage, as_map, as_message, to_client_message,
  strip_value, router_map, without_nodes,
}

-- The fields of a router, with the names that they have in a map.
pub data RouterField : Type 0 where
  room node_from node_to socket_from socket_to : RouterField

abbrev pub field_name : RouterField → String
field_name room = "room"
field_name node_from = "nodeFrom"
field_name node_to = "nodeTo"
field_name socket_from = "socketFrom"
field_name socket_to = "socketTo"

abbrev pub router_field : RouterField → Router → String
router_field room r = r.room
router_field node_from r = r.node_from
router_field node_to r = r.node_to
router_field socket_from r = r.socket_from
router_field socket_to r = r.socket_to

abbrev text_of : Value → String
text_of (text s) = s
text_of _ = ""

abbrev text_at : String → Fields → String
text_at name end = ""
text_at name (field n v fs) = if str_eq n name then text_of v else text_at name fs

abbrev text_in : String → Value → String
text_in name (object fs) = text_at name fs
text_in name _ = ""

abbrev text_below : String → Fields → String
text_below name end = ""
text_below name (field n v fs) = if str_eq n "router" then text_in name v else text_below name fs

-- What the client reads as a field of the router; the empty text if there is none.
abbrev pub client_reads : RouterField → ClientMessage → String
client_reads f (as_map fs) = text_below (field_name f) fs
client_reads f (as_message m) = router_field f (or_empty_router (get_router m))

abbrev pub shown : RouterField → String → String
shown node_from s = ""
shown node_to s = ""
shown _ s = s

abbrev pub IsCluster : RoomMessage → Type 0
IsCluster (custom_cluster _) = Unit
IsCluster _ = ⊥

mapped :
    (r : Option Router) (f : RouterField)
    → text_in (field_name f) (strip_value (router_map r))
      ≡ shown f (router_field f (or_empty_router r))
unfolding to_client_message
mapped none room = refl
mapped none node_from = refl
mapped none node_to = refl
mapped none socket_from = refl
mapped none socket_to = refl
mapped (some r) room = refl
mapped (some r) node_from = refl
mapped (some r) node_to = refl
mapped (some r) socket_from = refl
mapped (some r) socket_to = refl

copied_over :
    (r : Option Router) (f : RouterField)
    → router_field f (or_empty_router (without_nodes (copied r)))
      ≡ shown f (router_field f (or_empty_router r))
unfolding to_client_message
copied_over r room = refl
copied_over r node_from = refl
copied_over r node_to = refl
copied_over r socket_from = refl
copied_over r socket_to = refl

-- In the client's form of any message but a cluster message, the fields `nodeFrom` and `nodeTo` of the
-- router are gone or empty, and its other fields are those of the message.
pub client_reads-to_client_message :
    (m : RoomMessage) (f : RouterField)
    → ¬ IsCluster m
    → client_reads f (to_client_message m)
      ≡ shown f (router_field f (or_empty_router (get_router m)))
unfolding to_client_message get_router
client_reads-to_client_message (want m) f h = copied_over m.router f
client_reads-to_client_message (state m) f h = copied_over m.router f
client_reads-to_client_message (select m) f h = copied_over m.router f
client_reads-to_client_message (want_participant m) f h = copied_over m.router f
client_reads-to_client_message (state_participant m) f h = mapped m.router f
client_reads-to_client_message (state_leave m) f h = mapped m.router f
client_reads-to_client_message (ping m) f h = mapped m.router f
client_reads-to_client_message (pong m) f h = mapped m.router f
client_reads-to_client_message (custom m) f h = mapped m.router f
client_reads-to_client_message (custom_cluster m) f h = absurd (h tt)
client_reads-to_client_message (custom_ack m) f h = mapped m.router f

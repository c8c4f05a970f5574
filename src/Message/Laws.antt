-- ===== src/Message/Laws.antt =====
-- Completing and copying messages.
use conference_go.Common.{String, some, str_eq, if◌then◌else◌, ◌≡◌, refl}
use conference_go.Proto.{Router}
use conference_go.Message.{RoomMessage, custom_cluster, or_empty_router, get_router, fix_message}

-- After `FixRouter` a message has a router: it names the sending socket and node, has the given room
-- where it had none, and leaves the rest as it was; a missing router counts as an empty one.
pub get_router-fix_message :
    (m : RoomMessage) (room socket_id node : String)
    → (r : Router) × (get_router (fix_message room socket_id node m) ≡ some r)
      × (r.socket_from ≡ socket_id)
      × (r.node_from ≡ node)
      × (r.socket_to ≡ (or_empty_router (get_router m)).socket_to)
      × (r.node_to ≡ (or_empty_router (get_router m)).node_to)
      × (r.room ≡ (
          if str_eq (or_empty_router (get_router m)).room ""
          then room
          else (or_empty_router (get_router m)).room))
unfolding get_router fix_message
get_router-fix_message (custom_cluster m) room socket_id node =
    (_, refl, refl, refl, refl, refl, refl)
get_router-fix_message m room socket_id node = (_, refl, refl, refl, refl, refl, refl)

-- ===== src/Messager/Emission.antt =====
-- `Emit`: checks, local delivery, and the record that is produced for the other nodes.
pub mod Once
use conference_go.Common.{
  String, Bool, true, false, not, ◌&&◌, Option, none, some, str_eq, if◌then◌else◌, Result, ok,
  panic, ◌>>=◌,
}
use conference_go.Proto.{Router, CustomMessage}
use conference_go.Message.{
  RoomMessage, want, state, select, want_participant, state_participant, state_leave, ping, pong,
  custom, custom_cluster, custom_ack, get_router,
}
use conference_go.Messager.{Boxes, Messager, Topic, topic_of, consume}

-- The `InvalidMessage` errors of `Emit`.
pub data EmitError : Type 0 where
  no_room foreign_node unknown_type : EmitError

-- What becomes of a message. A message that is sent is consumed by this node, and is handed to
-- `proto.Marshal` and to Kafka under its topic, with its room as key; their errors come after that.
pub data Emitted {ℓ} (F : Type ℓ) : Type ℓ where
  rejected : EmitError → Emitted F
  sent : RoomMessage → Topic → String → Boxes F → Emitted F

-- `target.NodeFrom = nodeName`, through the pointer that `GetRouter` returns
abbrev pub from_node : String → Option Router → Option Router
from_node name none = none
from_node name (some r) = some (record r { node_from = name })

abbrev pub custom_from_node : String → Option CustomMessage → Option CustomMessage
custom_from_node name none = none
custom_from_node name (some m) = some (record m { router = from_node name m.router })

unfoldable pub set_node_from : String → RoomMessage → RoomMessage
set_node_from name (want m) = want (record m { router = from_node name m.router })
set_node_from name (state m) = state (record m { router = from_node name m.router })
set_node_from name (select m) = select (record m { router = from_node name m.router })
set_node_from name (want_participant m) =
    want_participant (record m { router = from_node name m.router })
set_node_from name (state_participant m) =
    state_participant (record m { router = from_node name m.router })
set_node_from name (state_leave m) = state_leave (record m { router = from_node name m.router })
set_node_from name (ping m) = ping (record m { router = from_node name m.router })
set_node_from name (pong m) = pong (record m { router = from_node name m.router })
set_node_from name (custom m) = custom (record m { router = from_node name m.router })
set_node_from name (custom_cluster m) =
    custom_cluster (record m { msg = custom_from_node name m.msg })
set_node_from name (custom_ack m) = custom_ack (record m { router = from_node name m.router })

module _ {ℓ} {F : Type ℓ} where
  -- The type switch
  unfoldable pub dispatch : Messager F → Option Topic → RoomMessage → String → Result (Emitted F)
  unfolding consume
  dispatch m none msg key = ok (rejected unknown_type)
  dispatch m (some t) msg key = consume m t msg >>= λ bm. ok (sent msg t key bm)

  unfoldable pub emit_to : Messager F → RoomMessage → Option Router → Result (Emitted F)
  unfolding dispatch set_node_from topic_of
  emit_to m msg none = ok (rejected no_room)
  emit_to m msg (some target) =
      if str_eq target.room ""
      then ok (rejected no_room)
      else if not (str_eq target.node_from "") && not (str_eq target.node_from m.node_name)
      then ok (rejected foreign_node)
      else (let msg' = if str_eq target.node_from "" then set_node_from m.node_name msg else msg in
          dispatch m (topic_of msg') msg' target.room)

  unfoldable pub emit : Messager F → RoomMessage → Result (Emitted F)
  unfolding emit_to get_router
  emit m msg = emit_to m msg (get_router msg)

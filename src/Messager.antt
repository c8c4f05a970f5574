-- ===== src/Messager.antt =====
-- signal/messager.go: the callbacks that the sockets of a node register for rooms, and which of them
-- run when a message arrives from another node or is emitted by this one.
pub mod Registry
pub mod Delivery
pub mod Emission
pub mod Session
pub mod History
use conference_go.Common.{
  String, Bool, true, false, not, ◌&&◌, ◌||◌, List, [], ◌∷◌, Option, none, some, str_eq,
  if◌then◌else◌, Result, ok, panic, Fault, nil_pointer, ◌>>=◌,
}
use conference_go.Proto.{Router}
use conference_go.Message.{
  RoomMessage, want, state, select, want_participant, state_participant, state_leave, ping, pong,
  custom, custom_cluster, custom_ack, get_router,
}
use conference_go.Maps.{AssocMap, insert, erase}
use conference_go.PatternMap.{Children, leaf, Mapper, update_pattern_data, collect_room}

-- One topic, with its mutex and its map of callbacks, for each kind of message of the cluster.
pub data Topic : Type 0 where
  on_state on_want on_select on_want_participant on_state_participant : Topic
  on_state_leave on_ping on_pong on_custom on_custom_ack : Topic

abbrev pub topic_name : Topic → String
topic_name on_state = "cluster_state"
topic_name on_want = "cluster_want"
topic_name on_select = "cluster_select"
topic_name on_want_participant = "cluster_want_participant"
topic_name on_state_participant = "cluster_state_participant"
topic_name on_state_leave = "cluster_state_leave"
topic_name on_ping = "cluster_ping"
topic_name on_pong = "cluster_pong"
topic_name on_custom = "cluster_custom"
topic_name on_custom_ack = "cluster_custom_ack"

-- `map[string]*messagerCallbackBox`: the callbacks by their `funId`.
abbrev pub Boxes {ℓ} : Type ℓ → Type ℓ
Boxes F = AssocMap F

module _ {ℓ} {F : Type ℓ} where
  abbrev pub add_callback : String → F → Mapper (Boxes F)
  add_callback id fun none = some (insert id fun [])
  add_callback id fun (some old) = some (insert id fun old)

  abbrev pub remove_callback : String → Mapper (Boxes F)
  remove_callback id none = none
  remove_callback id (some old) = some (erase id old)

  -- A loop over room patterns. A panic leaves the map as the patterns before it have made it.
  unfoldable pub update_each :
      Mapper (Boxes F) → List String → Children (Boxes F) → Children (Boxes F) × Result (Unit {0})
  update_each mapper [] pm = (pm, ok tt)
  update_each mapper (rp ∷ rps) pm = elim (update_pattern_data rp mapper pm) [
    | ok pm' ↦ update_each mapper rps pm'
    | panic e ↦ (pm, panic e)
  ]

  -- `onMessage`
  unfoldable pub on_message :
      String → F → List String → Children (Boxes F) → Children (Boxes F) × Result (Unit {0})
  unfolding update_each
  on_message id fun rps pm = update_each (add_callback id fun) rps pm

  -- `offMessage`
  unfoldable pub off_message :
      String → List String → Children (Boxes F) → Children (Boxes F) × Result (Unit {0})
  unfolding update_each
  off_message id rps pm = update_each (remove_callback id) rps pm

  -- The inner loop of `consumeMessage`. Go leaves the order of the boxes open; here the last goes first.
  unfoldable pub merge_boxes : Boxes F → Boxes F → Boxes F
  merge_boxes bm [] = bm
  merge_boxes bm ((key, fun) ∷ boxes) = insert key fun (merge_boxes bm boxes)

  unfoldable pub merge_all : Boxes F → List (Boxes F) → Boxes F
  merge_all bm [] = bm
  merge_all bm (boxes ∷ rest) = merge_all (merge_boxes bm boxes) rest

  -- `consumeMessage`: the callbacks to run, each under its `funId`.
  unfoldable pub consume_message : String → Children (Boxes F) → Option Router → Result (Boxes F)
  unfolding merge_boxes merge_all
  consume_message node_name pm none = ok []
  consume_message node_name pm (some target) =
      if str_eq target.room ""
        || (not (str_eq target.node_to "") && not (str_eq target.node_to node_name))
      then ok []
      else (collect_room target.room pm >>= λ found. ok (merge_all [] found))

pub record Messager {ℓ} (F : Type ℓ) : Type ℓ where
  pub node_name : String
  pub callbacks : Topic → Children (Boxes F)

abbrev pub same_topic : Topic → Topic → Bool
same_topic a b = str_eq (topic_name a) (topic_name b)

-- The topic of a message; the type switch of `Emit` has no case for a custom message by itself.
unfoldable pub topic_of : RoomMessage → Option Topic
topic_of (state m) = some on_state
topic_of (want m) = some on_want
topic_of (select m) = some on_select
topic_of (want_participant m) = some on_want_participant
topic_of (state_participant m) = some on_state_participant
topic_of (state_leave m) = some on_state_leave
topic_of (ping m) = some on_ping
topic_of (pong m) = some on_pong
topic_of (custom_cluster m) = some on_custom
topic_of (custom_ack m) = some on_custom_ack
topic_of (custom m) = none

module _ {ℓ} {F : Type ℓ} where
  -- `NewMessager`: whether the cluster is enabled, and the name of the node in its configuration.
  abbrev pub new_messager : Bool → String → Messager F
  new_messager enable name = record {
    node_name = if enable then name else "";
    callbacks = λ t. leaf;
  }

  abbrev pub with_callbacks : Messager F → Topic → Children (Boxes F) → Messager F
  with_callbacks m t pm = record m {
    callbacks = λ t'. if same_topic t t' then pm else m.callbacks t';
  }

  -- `OnState` to `OnCustomAck`
  unfoldable pub on_topic :
      Messager F → Topic → String → F → List String → Messager F × Result (Unit {0})
  unfolding on_message
  on_topic m t id fun rps =
      let (pm, r) = on_message id fun rps (m.callbacks t) in (with_callbacks m t pm, r)

  -- `OffState` to `OffCustomAck`
  unfoldable pub off_topic :
      Messager F → Topic → String → List String → Messager F × Result (Unit {0})
  unfolding off_message
  off_topic m t id rps =
      let (pm, r) = off_message id rps (m.callbacks t) in (with_callbacks m t pm, r)

  -- `consumeState` to `consumeCustomAck`
  unfoldable pub consume : Messager F → Topic → RoomMessage → Result (Boxes F)
  unfolding consume_message get_router
  consume m t msg = consume_message m.node_name (m.callbacks t) (get_router msg)

  -- The router is read after the check for nil, which only logs.
  abbrev pub on_router : Messager F → Topic → RoomMessage → Option Router → Result (Boxes F)
  on_router m t msg none = panic nil_pointer
  on_router m t msg (some router) =
      if str_eq router.node_from m.node_name then ok [] else consume m t msg

  -- `onTopicState` to `onTopicCustomAck`, on what `proto.Unmarshal` makes of the record.
  unfoldable pub on_record : Messager F → Topic → Option RoomMessage → Result (Boxes F)
  unfolding consume
  on_record m t none = ok []
  on_record m t (some msg) = on_router m t msg (get_router msg)

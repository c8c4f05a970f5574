-- ===== src/Context.antt =====
-- signal/model.go: the rooms of a client's session, and what the session sends to the nodes and to the
-- client because of them. `rooms` maps names to values, not to pointers: `JoinRoom` and `LeaveRoom`
-- change a copy of an entry that is there.
pub mod Rights
pub mod Handlers
pub mod Joins
pub mod Announcements
pub mod Gate
use conference_go.Common.{
  ℕ, suc, ◌+◌, ◌==◌, String, Bool, true, false, not, ◌&&◌, ◌||◌, List, [], ◌∷◌, ◌++◌, Option, none,
  some, str_eq, if◌then◌else◌, Result, ok, panic, ◌>>=◌,
}
use conference_go.Maps.{AssocMap, lookup, insert}
use conference_go.Room.{has_star, match_room}
use conference_go.Proto.{Router, WantParticipantMessage, StateParticipantMessage, StateLeaveMessage}
use conference_go.Message.{
  RoomMessage, want, state, select, want_participant, state_participant, state_leave, ping, pong,
  custom, custom_cluster, custom_ack, or_empty_router, empty_router, get_router, get_room,
  fix_message, copy_plain,
}
use conference_go.Message.Client.{ClientMessage, to_client_message}

pub record RoomInfo : Type 0 where
  pub join_id : ℕ
  pub joined : Bool

-- `SignalContext`, as far as its rooms go, with its `AuthInfo`
pub record Context : Type 0 where
  pub id : String
  pub node_name : String
  pub uid : String
  pub uname : String
  pub room_patterns : List String
  pub rooms : AssocMap RoomInfo

-- `newSignalContext`
abbrev pub new_context : String → String → String → String → List String → Context
new_context id node uid uname patterns = record {
  id = id;
  node_name = node;
  uid = uid;
  uname = uname;
  room_patterns = patterns;
  rooms = [];
}

-- `Rooms`
unfoldable pub joined_rooms : AssocMap RoomInfo → List String
joined_rooms [] = []
joined_rooms ((room, info) ∷ rooms) =
    let rest = joined_rooms rooms in if info.joined then room ∷ rest else rest

abbrev pub known_join_id : Option RoomInfo → ℕ
known_join_id none = 0
known_join_id (some info) = if info.joined then info.join_id else 0

-- `JoinId`
unfoldable pub join_id_of_room : String → Context → ℕ
unfolding lookup
join_id_of_room room ctx = known_join_id (lookup room ctx.rooms)

-- The copy of a message that is emitted for a room.
abbrev pub emitted_copy : RoomMessage → Context → String → RoomMessage
emitted_copy msg ctx room = fix_message room ctx.id ctx.node_name (copy_plain msg)

abbrev pub emitted_copies : RoomMessage → Context → List String → List RoomMessage
emitted_copies msg ctx [] = []
emitted_copies msg ctx (room ∷ rooms) = emitted_copy msg ctx room ∷ emitted_copies msg ctx rooms

abbrev emitted_from : RoomMessage → Context → Option Router → List RoomMessage
emitted_from msg ctx none = emitted_copies msg ctx (joined_rooms ctx.rooms)
emitted_from msg ctx (some r) =
    if str_eq r.room ""
    then emitted_copies msg ctx (joined_rooms ctx.rooms)
    else emitted_copy msg ctx r.room ∷ []

-- `clusterEmit`: the messages given to `Messager.Emit`, whose errors are logged only
unfoldable pub cluster_emit : RoomMessage → Context → List RoomMessage
unfolding joined_rooms fix_message copy_plain get_router
cluster_emit msg ctx = emitted_from msg ctx (get_router msg)

-- `hasRoomRight`
unfoldable pub has_room_right : String → List String → Result Bool
unfolding match_room
has_room_right room [] = ok false
has_room_right room (p ∷ ps) =
    let rest = has_room_right room ps in match_room p room >>= λ b. if b then ok true else rest

-- The errors of `JoinRoom`.
pub data JoinError : Type 0 where
  not_provided : JoinError
  no_right : String → JoinError

-- The first room without a right, if there is one.
unfoldable pub first_refused : List String → List String → Result (Option String)
unfolding has_room_right
first_refused [] patterns = ok none
first_refused (room ∷ rooms) patterns =
    let rest = first_refused rooms patterns in
    has_room_right room patterns >>= λ b. if b then rest else ok (some room)

-- The patterns that name a room.
unfoldable pub plain_patterns : List String → List String
plain_patterns [] = []
plain_patterns (p ∷ ps) = let rest = plain_patterns ps in if has_star p then rest else p ∷ rest

-- The entry of a room that is there is copied, and the copy is changed.
abbrev pub entered : String → AssocMap RoomInfo → Option RoomInfo → AssocMap RoomInfo × Bool
entered room rooms none = (insert room (record { join_id = 1; joined = true }) rooms, true)
entered room rooms (some info) = (rooms, not info.joined)

-- The loop of `JoinRoom` under the lock, with the rooms that count as joined anew.
unfoldable pub enter_rooms : List String → AssocMap RoomInfo → AssocMap RoomInfo × List String
unfolding lookup insert
enter_rooms [] rooms = (rooms, [])
enter_rooms (room ∷ names) rooms =
    let (rooms', is_new) = entered room rooms (lookup room rooms) in
    let (after, anew) = enter_rooms names rooms' in (after, if is_new then room ∷ anew else anew)

abbrev pub room_router : String → Router
room_router room = record empty_router { room = room }

-- The message that announces the session in a room.
abbrev pub announcement : Option Router → ℕ → Context → RoomMessage
announcement r join_id ctx = state_participant (record {
  router = r;
  user_id = ctx.uid;
  user_name = ctx.uname;
  socket_id = ctx.id;
  join_id = join_id;
})

unfoldable pub announce_all : List String → Context → List RoomMessage
unfolding join_id_of_room cluster_emit
announce_all [] ctx = []
announce_all (room ∷ rooms) ctx =
    let rest = announce_all rooms ctx in
    if join_id_of_room room ctx == 0
    then rest
    else cluster_emit (announcement (some (room_router room)) (join_id_of_room room ctx) ctx) ctx
      ++ rest

abbrev pub Joined : Type 0
Joined = Context × Option JoinError × List RoomMessage

-- The part of `JoinRoom` behind its checks.
unfoldable pub join_all : List String → Context → Joined
unfolding enter_rooms announce_all
join_all names ctx =
    let (rooms, anew) = enter_rooms names ctx.rooms in
    let ctx' = record ctx { rooms = rooms } in (ctx', none, announce_all anew ctx')

abbrev pub checked_join : List String → Context → Result (Option String) → Result Joined
checked_join names ctx (ok none) = ok (join_all names ctx)
checked_join names ctx (ok (some room)) = ok (ctx, some (no_right room), [])
checked_join names ctx (panic e) = panic e

abbrev pub default_join : List String → Context → Joined
default_join [] ctx = (ctx, some not_provided, [])
default_join (room ∷ rooms) ctx = join_all (room ∷ rooms) ctx

-- `JoinRoom`: the context, the error and the messages emitted
unfoldable pub join_room : List String → Context → Result Joined
unfolding first_refused plain_patterns join_all
join_room [] ctx = ok (default_join (plain_patterns ctx.room_patterns) ctx)
join_room (room ∷ rooms) ctx =
    checked_join (room ∷ rooms) ctx (first_refused (room ∷ rooms) ctx.room_patterns)

abbrev pub left_room : String → Option RoomInfo → AssocMap ℕ → AssocMap ℕ
left_room room none removed = removed
left_room room (some info) removed =
    if info.joined then insert room info.join_id removed else removed

-- The loop of `LeaveRoom` under the lock: the copy of an entry is changed, the map of rooms is not.
unfoldable pub leave_rooms : List String → AssocMap RoomInfo → AssocMap ℕ → AssocMap ℕ
unfolding lookup insert
leave_rooms [] rooms removed = removed
leave_rooms (room ∷ names) rooms removed =
    leave_rooms names rooms (left_room room (lookup room rooms) removed)

unfoldable pub announce_leaves : AssocMap ℕ → Context → List RoomMessage
unfolding cluster_emit
announce_leaves [] ctx = []
announce_leaves ((room, join_id) ∷ removed) ctx =
    let rest = announce_leaves removed ctx in
    cluster_emit
      (state_leave (record {
        router = some (room_router room);
        user_id = ctx.uid;
        socket_id = ctx.id;
        join_id = join_id;
      }))
      ctx
    ++ rest

-- `LeaveRoom`
unfoldable pub leave_room : List String → Context → Context × List RoomMessage
unfolding leave_rooms announce_leaves
leave_room names ctx = (ctx, announce_leaves (leave_rooms names ctx.rooms []) ctx)

-- `StateParticipants`
unfoldable pub state_participants : RoomMessage → Context → List RoomMessage
unfolding get_room join_id_of_room cluster_emit
state_participants msg ctx =
    if str_eq (get_room msg) "" || (join_id_of_room (get_room msg) ctx == 0)
    then []
    else cluster_emit (announcement none (join_id_of_room (get_room msg) ctx) ctx) ctx

-- ===== src/Participants/Box.antt =====
-- client/websocket.go, `ParticipantsBox`: the participants of every room, and the callbacks on joins
-- and leaves. A callback may refuse to be called again.
pub mod Rooms
use conference_go.Common.{
  ℕ, suc, ◌+◌, ◌%◌, ◌==◌, String, Bool, true, false, List, [], ◌∷◌, Option, none, some,
  if◌then◌else◌, ◌≡◌,
}
use conference_go.Maps.{AssocMap, lookup, insert}
use conference_go.Maps.Keyed.{KeyMap, put_key, delete_key}
use conference_go.Participants.{
  Participant, ParticipantKey, Participants, add, remove, clean, find_by_user, no_participants,
}

-- `ParticipantCb`; its pointer may be nil.
abbrev pub ParticipantCb : Type 0
ParticipantCb = Option Participant → Bool

abbrev pub Callbacks : Type 0
Callbacks = KeyMap ℕ ParticipantCb

pub record Box : Type 0 where
  pub participants : AssocMap Participants
  pub next_join_id : ℕ
  pub join_cbs : AssocMap Callbacks
  pub next_leave_id : ℕ
  pub leave_cbs : AssocMap Callbacks
  pub iter : ℕ

abbrev pub new_box : Box
new_box = record {
  participants = [];
  next_join_id = 0;
  join_cbs = [];
  next_leave_id = 0;
  leave_cbs = [];
  iter = 0;
}

-- The participants of a room, none if the room is not known.
abbrev pub known_or_none : Option Participants → Participants
known_or_none none = no_participants
known_or_none (some ps) = ps

abbrev pub room_of : String → Box → Participants
room_of room box = known_or_none (lookup room box.participants)

-- The loop of `clean`.
unfoldable pub clean_rooms : ℕ → AssocMap Participants → AssocMap Participants
unfolding clean
clean_rooms now [] = []
clean_rooms now ((room, ps) ∷ rooms) =
    let rest = clean_rooms now rooms in
    let (ps', is_empty) = clean now ps in if is_empty then rest else (room, ps') ∷ rest

-- `ParticipantsBox.clean`: every tenth time it cleans all the rooms.
unfoldable pub clean_box : ℕ → Box → Box
unfolding clean_rooms
clean_box now box = record box {
  iter = suc box.iter;
  participants =
      if suc box.iter % 10 == 0 then clean_rooms now box.participants else box.participants;
}

-- Each callback is called once, with the participant; those that return false are forgotten.
unfoldable pub run_callbacks : Option Participant → Callbacks → Callbacks
run_callbacks p [] = []
run_callbacks p ((id, cb) ∷ cbs) =
    let rest = run_callbacks p cbs in if cb p then (id, cb) ∷ rest else rest

-- The callbacks of a room, after a run of them.
abbrev pub after_run :
    Option Participant → String → AssocMap Callbacks → Option Callbacks → AssocMap Callbacks
after_run p room cbs none = cbs
after_run p room cbs (some of_room) = insert room (run_callbacks p of_room) cbs

-- `ProcessJoinCbs`
unfoldable pub process_join_cbs : String → Participant → Box → Box
unfolding add lookup insert run_callbacks
process_join_cbs room p box =
    let (ps, added) = add p (room_of room box) in
    let box' = record box { participants = insert room ps box.participants } in
    if added
    then record box' { join_cbs = after_run (some p) room box.join_cbs (lookup room box.join_cbs) }
    else box'

-- `ProcessLeaveCbs`: the callbacks are called with nil when no participant was removed.
unfoldable pub process_leave_cbs : String → ParticipantKey → ℕ → ℕ → Box → Box
unfolding remove lookup insert clean_box run_callbacks
process_leave_cbs room key jid now box =
    let (ps, removed) = remove key jid now (room_of room box) in
    let box' = clean_box now (record box { participants = insert room ps box.participants }) in
    record box' { leave_cbs = after_run removed room box.leave_cbs (lookup room box.leave_cbs) }

-- The callbacks of a room with one more.
abbrev pub with_callback :
    String → ℕ → ParticipantCb → AssocMap Callbacks → Option Callbacks → AssocMap Callbacks
with_callback room id cb cbs none = insert room ((id, cb) ∷ []) cbs
with_callback room id cb cbs (some of_room) =
    insert room (put_key (λ a b. a == b) id cb of_room) cbs

-- `AddJoinCallback`
unfoldable pub add_join_callback : String → ParticipantCb → Box → Box × ℕ
unfolding lookup insert put_key
add_join_callback room cb box = (
  record box {
    next_join_id = suc box.next_join_id;
    join_cbs = with_callback room box.next_join_id cb box.join_cbs (lookup room box.join_cbs);
  },
  box.next_join_id,
)

-- `AddLeaveCallback`
unfoldable pub add_leave_callback : String → ParticipantCb → Box → Box × ℕ
unfolding lookup insert put_key
add_leave_callback room cb box = (
  record box {
    next_leave_id = suc box.next_leave_id;
    leave_cbs = with_callback room box.next_leave_id cb box.leave_cbs (lookup room box.leave_cbs);
  },
  box.next_leave_id,
)

-- The callbacks of a room without one of them.
abbrev pub without_callback :
    String → ℕ → AssocMap Callbacks → Option Callbacks → AssocMap Callbacks
without_callback room id cbs none = cbs
without_callback room id cbs (some of_room) =
    insert room (delete_key (λ a b. a == b) id of_room) cbs

-- `RemoveJoinCallback`
unfoldable pub remove_join_callback : String → ℕ → Box → Box
unfolding lookup insert delete_key
remove_join_callback room id box = record box {
  join_cbs = without_callback room id box.join_cbs (lookup room box.join_cbs);
}

-- `RemoveLeaveCallback`
unfoldable pub remove_leave_callback : String → ℕ → Box → Box
unfolding lookup insert delete_key
remove_leave_callback room id box = record box {
  leave_cbs = without_callback room id box.leave_cbs (lookup room box.leave_cbs);
}

-- `ParticipantsBox.FindOneByUser`
unfoldable pub find_one_by_user : String → String → Box → Option Participant
unfolding find_by_user lookup
find_one_by_user room uid box = find_by_user uid (room_of room box).participants

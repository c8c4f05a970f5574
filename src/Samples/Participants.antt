-- ===== src/Samples/Participants.antt =====
-- client/websocket.go: participants that are announced late.
use mathlib.Core.List.{Permᴰ}
use conference_go.Common.{◌-◌, ltb, List, [], ◌∷◌, none, some, str_eq, if◌then◌else◌, ◌≡◌, refl}
use conference_go.Maps.{AreDistinct}
use conference_go.Maps.Keyed.{find_key, put_key, delete_key}
use conference_go.Participants.{
  Participant, ParticipantKey, key_eq, key_of, find_participant, add, remove, no_participants,
}
use conference_go.Participants.Known.{join_id_of}
use conference_go.Participants.Newest.{
  Event, joined, left, after, newest_join, newest_leave, find_participant-after,
  find_participant-Perm,
}
use conference_go.Participants.Box.{new_box, room_of}
use conference_go.Participants.Box.Rooms.{
  join, process_notice, room_in, applied, process_notice_lem,
}

abbrev ann : Participant
ann = record { id = "u"; name = "Ann"; source_id = "s"; join_id = 2 }

abbrev ann_key : ParticipantKey
ann_key = key_of ann

abbrev late_leave : List Event
late_leave = joined ann ∷ left ann_key 1 0 ∷ []

abbrev early_leave : List Event
early_leave = left ann_key 1 0 ∷ joined ann ∷ []

late_leave_runs : join_id_of (find_participant ann_key (after no_participants late_leave)) ≡ some 2
unfolding after add remove find_key put_key delete_key key_eq
late_leave_runs = refl

find_participant-after_example :
    join_id_of (find_participant ann_key (after no_participants late_leave)) ≡ (
      if ltb (newest_leave ann_key 0 late_leave) (newest_join ann_key 0 late_leave)
      then some (newest_join ann_key 0 late_leave - 1)
      else none)
find_participant-after_example = find_participant-after late_leave ann_key

find_participant-Perm_example :
    join_id_of (find_participant ann_key (after no_participants late_leave))
    ≡ join_id_of (find_participant ann_key (after no_participants early_leave))
find_participant-Perm_example =
    find_participant-Perm late_leave early_leave (Permᴰ.swap refl refl) ann_key

process_notice_lem_example :
    AreDistinct (process_notice new_box (join "r" ann)).participants
    × ((room_of "r" (process_notice new_box (join "r" ann))).participants ≡ (
        if str_eq (room_in (join "r" ann)) "r"
        then (applied (join "r" ann) (room_of (room_in (join "r" ann)) new_box)).participants
        else (room_of "r" new_box).participants))
process_notice_lem_example = process_notice_lem new_box (join "r" ann) "r" tt

-- ===== src/Participants/Box/Rooms.antt =====
-- A message about one room changes the participants of that room alone, and cleaning loses none.
use conference_go.Common.{
  ℕ, suc, ◌%◌, ◌==◌, String, Bool, true, ◌&&◌, List, [], ◌∷◌, Option, none, if◌then◌else◌, ◌≡◌,
  refl, str_eq, str_eq_iff, arith, inl, inr, Bool-cases, sym, ◌∙◌,
}
use conference_go.Maps.{AssocMap, lookup, insert, lookup-insert, AreDistinct, insert-AreDistinct}
use conference_go.Maps.Keyed.{KeyMap}
use conference_go.Participants.{
  Participant, ParticipantKey, Participants, add, remove, clean, is_empty_map, recent_leaves,
}
use conference_go.Participants.Box.{
  Box, known_or_none, room_of, clean_rooms, clean_box, process_join_cbs, process_leave_cbs,
}

-- The participants that a box has in a room.
abbrev members : Option Participants → KeyMap ParticipantKey Participant
members found = (known_or_none found).participants

lookup-clean_rooms_none :
    (now : ℕ) (room : String) (rooms : AssocMap Participants)
    → lookup room rooms ≡ none
    → lookup room (clean_rooms now rooms) ≡ none
unfolding lookup clean_rooms clean
lookup-clean_rooms_none now room [] e = refl
lookup-clean_rooms_none now room ((r, ps) ∷ rooms) e =
    ground (arith, e, lookup-clean_rooms_none now room rooms)

clean_rooms-AreDistinct :
    (now : ℕ) (rooms : AssocMap Participants)
    → AreDistinct rooms
    → AreDistinct (clean_rooms now rooms)
unfolding clean_rooms
clean_rooms-AreDistinct now [] h = tt
clean_rooms-AreDistinct now ((r, ps) ∷ rooms) (h, hs) = elim (Bool-cases (clean now ps).1) [
  | inl k ↦ rw k (clean_rooms-AreDistinct now rooms hs)
  | inr k ↦ rw k (lookup-clean_rooms_none now r rooms h, clean_rooms-AreDistinct now rooms hs)
]

is_empty_map-[] : {A : Type 0} (l : List A) (b : Bool) → (is_empty_map l && b) ≡ true → [] ≡ l
is_empty_map-[] [] b e = refl
is_empty_map-[] (x ∷ l) b e = cc

members-clean :
    (now : ℕ) (room : String) (rooms : AssocMap Participants)
    → AreDistinct rooms
    → members (lookup room (clean_rooms now rooms)) ≡ members (lookup room rooms)
unfolding lookup clean_rooms clean
members-clean now room [] h = refl
members-clean now room ((r, ps) ∷ rooms) (h, hs) =
    elim (Bool-cases (is_empty_map ps.participants && is_empty_map (recent_leaves now ps.leaves))) [
      | inl k ↦ rw k (elim (Bool-cases (str_eq r room)) [
        | inl e ↦
            rw
              (
                e,
                sym (is_empty_map-[] ps.participants _ k),
                lookup-clean_rooms_none now room rooms (ground (arith, h, str_eq_iff r room)),
              )
              refl
        | inr e ↦ rw e (members-clean now room rooms hs)
      ])
      | inr k ↦ rw k (elim (Bool-cases (str_eq r room)) [
        | inl e ↦ rw e refl
        | inr e ↦ rw e (members-clean now room rooms hs)
      ])
    ]

-- A message about a participant of a room, with the time at which it arrives.
pub data Notice : Type 0 where
  join : String → Participant → Notice
  leave : String → ParticipantKey → ℕ → ℕ → Notice

unfoldable pub process_notice : Box → Notice → Box
unfolding process_join_cbs process_leave_cbs
process_notice box (join room p) = process_join_cbs room p box
process_notice box (leave room key jid now) = (process_leave_cbs room key jid now box)

abbrev pub room_in : Notice → String
room_in (join room p) = room
room_in (leave room key jid now) = room

-- What the message means to its room.
abbrev pub applied : Notice → Participants → Participants
applied (join room p) ps = (add p ps).0
applied (leave room key jid now) ps = (remove key jid now ps).0

members-insert :
    (r room : String) (ps : Participants) (rooms : AssocMap Participants)
    → members (lookup r (insert room ps rooms))
      ≡ (if str_eq room r then ps.participants else members (lookup r rooms))
members-insert r room ps rooms =
    rw (lookup-insert r room ps rooms)
      (elim (Bool-cases (str_eq room r)) [ inl e ↦ rw e refl | inr e ↦ rw e refl ])

members-clean_box :
    (now : ℕ) (r : String) (box : Box)
    → AreDistinct box.participants
    → AreDistinct (clean_box now box).participants
      × ((room_of r (clean_box now box)).participants ≡ (room_of r box).participants)
unfolding clean_box
members-clean_box now r box h = elim (Bool-cases (suc box.iter % 10 == 0)) [
  | inl k ↦
      rw k (clean_rooms-AreDistinct now box.participants h, members-clean now r box.participants h)
  | inr k ↦ rw k (h, refl)
]

-- When no room occurs twice, a message keeps it so; it changes the participants of its own room as
-- `Add` or `Remove` does and those of no other room, whether or not the box is cleaned.
pub process_notice_lem :
    (box : Box) (notice : Notice) (r : String)
    → AreDistinct box.participants
    → AreDistinct (process_notice box notice).participants
      × ((room_of r (process_notice box notice)).participants ≡ (
          if str_eq (room_in notice) r
          then (applied notice (room_of (room_in notice) box)).participants
          else (room_of r box).participants))
unfolding process_notice process_join_cbs process_leave_cbs
process_notice_lem box (join room p) r h = elim (Bool-cases (add p (room_of room box)).1) [
  | inl k ↦
      rw k (insert-AreDistinct room _ box.participants h, members-insert r room _ box.participants)
  | inr k ↦
      rw k (insert-AreDistinct room _ box.participants h, members-insert r room _ box.participants)
]
process_notice_lem box (leave room key jid now) r h =
    let box' = record box {
      participants = insert room (remove key jid now (room_of room box)).0 box.participants;
    } in
    let (kept, same) =
      members-clean_box now r box' (insert-AreDistinct room _ box.participants h) in
    (kept, same ∙ members-insert r room _ box.participants)

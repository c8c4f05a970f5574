-- ===== src/PatternMap/Rooms.antt =====
-- `Collect` on a room, as its callers use it.
use conference_go.Common.{String, List, some, ok, ◌≡◌, ◌↔◌, Memᴰ}
use conference_go.Room.{split, check_room}
use conference_go.Room.Matches.{Matches}
use conference_go.Room.Syntax.{split-filled}
use conference_go.PatternMap.{Children, collect_parts, collect_room}
use conference_go.PatternMap.Paths.{data_in}
use conference_go.PatternMap.Collect.{collect_parts_iff}

module _ {ℓ} {T : Type ℓ} where
  pub collect_room-ok :
      (room : String) (inner : Children T)
      → check_room room ≡ ok tt
      → collect_room room inner ≡ ok (collect_parts (split room) inner)
  unfolding collect_room
  collect_room-ok room inner h = rw h

  pub collect_split_iff :
      (room : String) (inner : Children T) (x : T)
      → Memᴰ x (collect_parts (split room) inner)
        ↔ ((ps : List String) × (data_in ps inner ≡ some x) × Matches ps (split room))
  collect_split_iff room inner x =
      let (key, ms, e, _, _) = split-filled room in rw e (collect_parts_iff x key ms inner)

  -- On a room name that `CheckRoom` accepts `Collect` returns, and returns a datum exactly if it is
  -- kept under a pattern that matches the room.
  pub collect_room_iff :
      (room : String) (inner : Children T)
      → check_room room ≡ ok tt
      → (found : List T) × (collect_room room inner ≡ ok found)
        × ((x : T)
            → Memᴰ x found
              ↔ ((ps : List String) × (data_in ps inner ≡ some x) × Matches ps (split room)))
  collect_room_iff room inner h =
      (collect_parts (split room) inner, collect_room-ok room inner h, collect_split_iff room inner)

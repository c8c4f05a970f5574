-- ===== src/Samples/Contexts.antt =====
-- signal/model.go: the rooms of one session.
use mathlib.Core.List.Memᴰ
use conference_go.Common.{
  none, false, str_eq, ap, inl, inr, String, List, [], ◌∷◌, some, ok, ◌≡◌, ◌↔◌, ◌⊎◌, refl, Memᴰ,
  Every,
}
use conference_go.Maps.{lookup}
use conference_go.Proto.{Router}
use conference_go.Message.{RoomMessage, ping}
use conference_go.Message.Client.{ClientMessage}
use conference_go.Room.{check_pattern, check_room}
use conference_go.Context.{Context, new_context, no_right, join_room, join_all}
use conference_go.Context.Handlers.{ClientEvent, client_event}
use conference_go.Context.Announcements.{announced, announced-join_all}
use conference_go.Context.Rights.{HasRight, join_room_lem}
use conference_go.Context.Joins.{
  first_info, AreFirst, Request, join, leave, after_requests, join_all_iff, after_requests_lem,
}
use conference_go.Context.Gate.{IsIn, IsFor, named, client_event_iff}

abbrev patterns : List String
patterns = "a.**" ∷ "b" ∷ []

abbrev session : Context
session = new_context "s" "n1" "u" "Ann" patterns

patterns_accepted : (check_pattern "a.**" ≡ ok tt) × ((check_pattern "b" ≡ ok tt) × Unit {0})
unfolding check_pattern
patterns_accepted = (refl, (refl, tt))

room_accepted : (check_room "a.x" ≡ ok tt) × Unit {0}
unfolding check_room
room_accepted = (refl, tt)

join_room_lem_example :
    ((name : String) × Memᴰ {A = String} name ("a.x" ∷ [])
      × ¬ HasRight patterns name
      × (join_room ("a.x" ∷ []) session ≡ ok (session, some (no_right name), [])))
    ⊎ (Every (HasRight patterns) ("a.x" ∷ [])
        × (join_room ("a.x" ∷ []) session ≡ ok (join_all ("a.x" ∷ []) session)))
join_room_lem_example = join_room_lem "a.x" [] session patterns_accepted room_accepted

no_rooms : AreFirst session.rooms
unfolding lookup
no_rooms x i k = cc

join_all_iff_example :
    IsIn "a.x" (join_all ("a.x" ∷ []) session).0
    ↔ (IsIn "a.x" session ⊎ Memᴰ {A = String} "a.x" ("a.x" ∷ []))
join_all_iff_example = join_all_iff ("a.x" ∷ []) session "a.x" no_rooms

named_rooms : (room : String) → Memᴰ {A = String} room ("a.x" ∷ []) → str_eq room "" ≡ false
named_rooms room m = elim (Memᴰ.cases_cons m) [
  | inl e ↦ ap (λ r. str_eq r "") e
  | inr n ↦ absurd (Memᴰ.not-nil n)
]

announced-join_all_example : Memᴰ (announced session "a.x") (join_all ("a.x" ∷ []) session).2 ↔ (
    (room : String) × (Memᴰ {A = String} room ("a.x" ∷ []) × (lookup room session.rooms ≡ none))
    × (announced session "a.x" ≡ announced (join_all ("a.x" ∷ []) session).0 room))
announced-join_all_example =
    announced-join_all ("a.x" ∷ []) session (announced session "a.x") no_rooms named_rooms

abbrev requests : List Request
requests = join ("a.x" ∷ []) ∷ []

after_requests_lem_example :
    AreFirst (after_requests session requests).rooms
    × ((room : String)
        → IsIn room (after_requests session requests)
        → IsIn room (after_requests (after_requests session requests) (leave ("a.x" ∷ []) ∷ [])))
after_requests_lem_example =
    after_requests_lem "s" "n1" "u" "Ann" patterns requests (leave ("a.x" ∷ []) ∷ [])

abbrev ping_router : Router
ping_router = record {
  room = "a.x";
  node_from = "n2";
  node_to = "";
  socket_from = "z";
  socket_to = "s";
}

abbrev ping_session : RoomMessage
ping_session = ping (record { router = some ping_router; msg_id = 1 })

abbrev joined_session : Context
joined_session = record session { rooms = ("a.x", first_info) ∷ [] }

client_event_iff_example :
    ((x : ClientEvent × ClientMessage) × (client_event ping_session joined_session ≡ some x))
    ↔ IsFor named ping_session joined_session
client_event_iff_example = client_event_iff ping_session named joined_session refl

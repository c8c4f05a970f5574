-- ===== src/Samples/Sessions.antt =====
-- signal/messager.go, from registration to delivery, on small inputs.
use conference_go.Common.{true, ℕ, String, List, [], ◌∷◌, none, some, ok, ◌≡◌, refl, ◌↔◌, Memᴰ}
use conference_go.Room.{split, check_pattern, check_room}
use conference_go.Room.Matches.{Matches}
use conference_go.Proto.{Router}
use conference_go.Message.{RoomMessage, want_participant, get_router}
use conference_go.Maps.{lookup, insert}
use conference_go.PatternMap.{
  Children, child, leaf, node, put, find, remove_data, is_empty, delete, visit, visit_later,
  chain_children, collect, update_pattern_data, collect_parts, collect_room,
}
use conference_go.PatternMap.Paths.{data_in}
use conference_go.PatternMap.Rooms.{collect_room_iff}
use conference_go.Messager.{
  new_messager, Boxes, Messager, on_want_participant, on_topic, consume, merge_all,
}
use conference_go.Messager.Registry.{AreAccepted}
use conference_go.Messager.History.{
  Event, added, removed, after, AreProper, table_of, table_after, table_of-after,
}

-- One callback, for every room whose name starts with `a`.
abbrev registered : Children (Boxes ℕ)
registered = child "a" (node none (child "**" (node (some (("s", 5) ∷ [])) leaf) leaf)) leaf

abbrev pub one_node : Messager ℕ
one_node = record { node_name = "n1"; callbacks = λ t. registered }

abbrev pub room_patterns : List String
room_patterns = "a.**" ∷ "b.*" ∷ []

pub are_accepted : AreAccepted room_patterns
unfolding check_pattern
are_accepted = (refl, (refl, tt))

abbrev to_room : Router
to_room = record {
  room = "b.x";
  node_from = "n2";
  node_to = "n1";
  socket_from = "s";
  socket_to = "";
}

abbrev asked : RoomMessage
asked = want_participant (record { router = some to_room })

has_router : get_router asked ≡ some to_room
unfolding get_router
has_router = refl

accepted_room : check_room "b.x" ≡ ok tt
unfolding check_room
accepted_room = refl

session_runs :
    (consume one_node on_want_participant asked ≡ ok [])
    × (consume
          (on_topic one_node on_want_participant "t" 6 room_patterns).0
          on_want_participant
          asked
        ≡ ok (("t", 6) ∷ []))
unfolding consume on_topic update_pattern_data collect_room check_room collect_parts split
    check_pattern put find remove_data is_empty delete visit visit_later chain_children collect
    lookup insert merge_all
session_runs = (refl, refl)

collect_room_iff_example :
    (found : List (Boxes ℕ)) × (collect_room "b.x" registered ≡ ok found)
    × ((x : Boxes ℕ)
        → Memᴰ x found
          ↔ ((ps : List String) × (data_in ps registered ≡ some x) × Matches ps (split "b.x")))
collect_room_iff_example = collect_room_iff "b.x" registered accepted_room

abbrev calls : List (Event ℕ)
calls =
    added on_want_participant "t" 6 room_patterns
    ∷ removed on_want_participant "t" ("b.*" ∷ [])
    ∷ []

calls_proper : AreProper calls
unfolding check_pattern
calls_proper = (are_accepted, ((refl, tt), tt))

table_of-after_example :
    table_of (after (new_messager true "n1") calls) on_want_participant ("b" ∷ "*" ∷ []) "t"
    ≡ table_after (table_of (new_messager true "n1")) calls on_want_participant ("b" ∷ "*" ∷ []) "t"
table_of-after_example =
    table_of-after (new_messager true "n1") calls on_want_participant ("b" ∷ "*" ∷ []) "t"
      calls_proper

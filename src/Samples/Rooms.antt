-- ===== src/Samples/Rooms.antt =====
-- signal/utils.go and signal/messager.go on small inputs.
use conference_go.Maps.{lookup, insert}
use conference_go.Common.{
  ℕ, String, true, false, List, [], ◌∷◌, none, some, ◌≡◌, refl, ◌↔◌, ok, panic, required, invalid,
  Decides, ne_of_str_eq,
}
use conference_go.Room.{split, check_pattern, check_room, match_room}
use conference_go.Room.Matches.{Matches}
use conference_go.Room.Syntax.{match_room-Decides}
use conference_go.PatternMap.{
  put, find, remove_data, is_empty, delete, visit, visit_later, chain_children, collect, node,
  Children, leaf, child, Mapper, update_pattern_data, collect_parts, collect_room,
}
use conference_go.PatternMap.Update.{Updates, update_pattern_data-Updates}
use conference_go.Proto.{Router}
use conference_go.Message.{RoomMessage, want_participant}
use conference_go.Messager.{
  Boxes, Messager, on_want_participant, consume, on_record, consume_message, merge_all,
}
use conference_go.Messager.Delivery.{Runs, IsRegistered, IsStanding, consume_message_iff}
use conference_go.Messager.Emission.{sent, emit}
use conference_go.Messager.Emission.Once.{emit_once}

-- All that the runs below compute with.
code_of_rooms : Unit {0}
unfolding update_pattern_data collect_room check_room collect_parts split check_pattern match_room
    put find remove_data is_empty delete visit visit_later chain_children collect emit consume
    on_record lookup insert merge_all
code_of_rooms = tt

room_runs :
    (match_room "a.**.b" "a.x.y.b" ≡ ok true)
    × (match_room "a.**.**.*.b" "a.b" ≡ ok false)
    × (match_room "**.b.c.**" "b.c" ≡ ok true)
    × (match_room "a..b" "a" ≡ panic invalid)
    × (match_room "*" "" ≡ panic required)
unfolding match_room
room_runs = (refl, refl, refl, refl, refl)

accepted : check_pattern "a.**.b" ≡ ok tt
unfolding check_pattern
accepted = refl

accepted_room : check_room "a.x.b" ≡ ok tt
unfolding check_room
accepted_room = refl

match_room-Decides_example :
    Decides (Matches (split "a.**.b") (split "a.x.b")) (match_room "a.**.b" "a.x.b")
match_room-Decides_example = match_room-Decides "a.**.b" "a.x.b" accepted accepted_room

-- What `UpdatePatternData` makes of "a.**", "a.*" and "b".
abbrev tree : Children ℕ
tree =
    child "a" (node none (child "**" (node (some 1) leaf) (child "*" (node (some 2) leaf) leaf)))
      (child "b" (node (some 3) leaf) leaf)

abbrev write : ℕ → Mapper ℕ
write n old = some n

updates :
    (update_pattern_data "a.**" (write 1) leaf
      ≡ ok (child "a" (node none (child "**" (node (some 1) leaf) leaf)) leaf))
    × (update_pattern_data "a.*" (λ _. none) tree
        ≡ ok (
            child "a"
              (node none (child "**" (node (some 1) leaf) leaf))
              (child "b" (node (some 3) leaf) leaf)))
unfolding code_of_rooms
updates = (refl, refl)

collects :
    (collect_room "a.x" tree ≡ ok (1 ∷ 2 ∷ []))
    × (collect_room "a.x.y" tree ≡ ok (1 ∷ []))
    × (collect_room "b" tree ≡ ok (3 ∷ []))
unfolding code_of_rooms
collects = (refl, refl, refl)

update_pattern_data-Updates_example :
    (inner : Children ℕ) × (update_pattern_data "a.**.b" (write 9) tree ≡ ok inner)
    × Updates (split "a.**.b") (some 9) tree inner
update_pattern_data-Updates_example = update_pattern_data-Updates "a.**.b" (write 9) tree accepted

-- The callback 5 of the socket "s" stands under "a.**".
abbrev registered : Children (Boxes ℕ)
registered = child "a" (node none (child "**" (node (some (("s", 5) ∷ [])) leaf) leaf)) leaf

abbrev patterns : List String
patterns = "a.**.b" ∷ "c" ∷ []

accepted_patterns : (check_pattern "a.**.b" ≡ ok tt) × (check_pattern "c" ≡ ok tt) × Unit {0}
unfolding check_pattern
accepted_patterns = (refl, refl, tt)

abbrev to_room : Router
to_room = record {
  room = "a.x.b";
  node_from = "n1";
  node_to = "";
  socket_from = "s";
  socket_to = "";
}

consume_message_iff_example :
    (bm : Boxes ℕ) × (consume_message "n2" registered (some to_room) ≡ ok bm)
    × ((j : String) → Runs j bm ↔ IsRegistered registered "a.x.b" j)
    × ((j : String) (fun : ℕ) → lookup j bm ≡ some fun → IsStanding registered "a.x.b" j fun)
consume_message_iff_example = consume_message_iff "n2" registered to_room accepted_room refl

consumed : consume_message "n2" registered (some to_room) ≡ ok (("s", 5) ∷ [])
unfolding code_of_rooms
consumed = refl

abbrev first_node : Messager ℕ
first_node = record { node_name = "n1"; callbacks = λ t. registered }

abbrev second_node : Messager ℕ
second_node = record { node_name = "n2"; callbacks = λ t. registered }

abbrev asked : RoomMessage
asked = want_participant (record { router = some (record to_room { node_from = "" }) })

abbrev asked_on : RoomMessage
asked_on = want_participant (record { router = some to_room })

emitted : emit first_node asked ≡ ok (sent asked_on on_want_participant "a.x.b" (("s", 5) ∷ []))
unfolding code_of_rooms
emitted = refl

emit_once_example :
    (consume first_node on_want_participant asked_on ≡ ok (("s", 5) ∷ []))
    × (on_record first_node on_want_participant (some asked_on) ≡ ok [])
    × (on_record second_node on_want_participant (some asked_on)
        ≡ consume second_node on_want_participant asked_on)
emit_once_example =
    emit_once first_node second_node asked asked_on on_want_participant "a.x.b" (("s", 5) ∷ [])
      emitted (ne_of_str_eq "n2" "n1" refl)

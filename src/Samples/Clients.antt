-- ===== src/Samples/Clients.antt =====
-- client/websocket.go: custom messages and their answers, on small inputs.
use conference_go.Common.{
  ◌≢◌, ne_of_str_eq, arith, ℕ, Bool, Option, some, ok, panic, nil_pointer, if◌then◌else◌, ◌==◌,
  String, true, false, [], ◌∷◌, none, ◌≡◌, refl, inl, Memᴰ,
}
use conference_go.Proto.{CustomMessage, CustomAckMessage}
use conference_go.Message.{custom, custom_ack, fix_router, copy_router}
use conference_go.Message.Client.{to_client_message}
use conference_go.Context.Handlers.{client_event, custom_event, custom_ack_event}
use conference_go.Context.Gate.{IsIn}
use conference_go.Maps.{lookup}
use conference_go.Context.{Context, cluster_emit}
use conference_go.Client.{
  Client, CallResult, send_message, custom_answer, on_custom, on_custom_ack, run_cbs,
}
use conference_go.Client.Pings.{subscribe_ping_msg, unsubscribe_ping_msg}
use conference_go.Client.Answers.{
  delivered, returned, in_cluster, IsReceived, IsAckReceived, answered_by, id_to_come,
  on_custom_ack-send_message,
}

abbrev client : Client
client = record {
  notifiers = [];
  next_custom_msg_id = 4;
  custom_msg_cbs = ("chat", 1 ∷ 2 ∷ []) ∷ [];
  rooms = "hall" ∷ [];
  ping_chs = [];
}

abbrev session_of : String → Context
session_of id = record {
  id = id;
  node_name = "n";
  uid = "u";
  uname = "user";
  room_patterns = "hall" ∷ [];
  rooms = ("hall", record { join_id = 1; joined = true }) ∷ [];
}

IsIn-hall : (id : String) → IsIn "hall" (session_of id)
unfolding lookup
IsIn-hall id = (record { join_id = 1; joined = true }, refl, refl, λ e. omega (arith, e))

abbrev asked : CustomMessage
asked = delivered "hall" (session_of "a") (send_message true "hello" "b" "hall" 9 client).1

abbrev answered : CustomAckMessage
answered = returned "hall" (session_of "b") (custom_answer asked "hi" false)

asked_read : IsReceived asked asked
unfolding send_message to_client_message fix_router copy_router
asked_read = (refl, (refl, refl))

answered_read : IsAckReceived answered answered
unfolding send_message to_client_message fix_router copy_router
answered_read = (refl, (refl, refl))

abbrev hall : String
hall = "hall"

not_empty : hall ≢ ""
not_empty = ne_of_str_eq hall "" refl

on_custom_ack-send_message_example :
    (cluster_emit
        (in_cluster "chat" (send_message true "hello" "b" "hall" 9 client).1)
        (session_of "a")
      ≡ in_cluster "chat" asked ∷ [])
    × (client_event (in_cluster "chat" asked) (session_of "b")
        ≡ some (custom_event "chat", to_client_message (custom asked)))
    × Memᴰ
        (custom_ack answered)
        (cluster_emit (custom_ack (custom_answer asked "hi" false)) (session_of "b"))
    × (client_event (custom_ack answered) (session_of "a")
        ≡ some (custom_ack_event, to_client_message (custom_ack answered)))
    × (on_custom_ack answered (send_message true "hello" "b" "hall" 9 client).0
        ≡ answered_by "hall" "b"
            (id_to_come client)
            9
            (record client { next_custom_msg_id = id_to_come client }))
on_custom_ack-send_message_example =
    on_custom_ack-send_message (session_of "a") (session_of "b") client "hall" "b" "chat" "hello"
      "hi" 9 false asked answered not_empty (IsIn-hall "a") (IsIn-hall "b") (inl refl) asked_read
      answered_read

abbrev chat : CustomMessage
chat = record { router = none; content = "hello"; msg_id = 1; ack = false }

-- The second callback remains, every other one panics.
abbrev call : ℕ → CallResult
call cb = if cb == 2 then ok true else panic nil_pointer

abbrev handles : Option (ℕ → Bool)
handles = some (λ cb. true)

client_runs :
    (run_cbs handles call "chat" client.custom_msg_cbs ≡ ok (("chat", 2 ∷ []) ∷ [], 1 ∷ 2 ∷ []))
    × (run_cbs none call "chat" client.custom_msg_cbs ≡ panic nil_pointer)
    × ((on_custom (λ cb. false) "chat" chat client).0.custom_msg_cbs ≡ [])
    × (unsubscribe_ping_msg "hall" "b" 7 (subscribe_ping_msg "hall" "b" 7 client) ≡ client)
unfolding run_cbs on_custom subscribe_ping_msg unsubscribe_ping_msg
client_runs = (refl, refl, refl, refl)

-- ===== src/Client.antt =====
-- client/websocket.go, `WebsocketSignal`, with the callbacks of signal/signal.go: custom messages that
-- wait for an answer, the rooms that a client knows, and the pings of other sockets. Channels and
-- callbacks are numbers.
pub mod Answers
pub mod Callbacks
pub mod Pings
use conference_go.Common.{
  Result, ok, panic, ◌>>=◌, zero, get_elem?, set, take, length, ℕ, suc, ◌+◌, ◌%◌, ◌^◌, ◌==◌, String,
  Bool, true, false, ◌&&◌, List, [], ◌∷◌, ◌++◌, Option, none, some, str_eq, if◌then◌else◌,
}
use conference_go.Maps.{AssocMap, lookup, insert, erase}
use conference_go.Maps.Keyed.{KeyMap, find_key, put_key, delete_key}
use conference_go.Collection.{
  in_slice, slice_append_no_repeat, slice_remove_by_value, slice_remove_by_values, slice_map_change,
}
use conference_go.Proto.{Router, CustomMessage, CustomAckMessage, PingMessage}
use conference_go.Message.{empty_router, or_empty_router}

pub record AckKey : Type 0 where
  pub room : String
  pub socket_id : String
  pub id : ℕ

abbrev pub ack_key : String → String → ℕ → AckKey
ack_key room socket_id id = record { room = room; socket_id = socket_id; id = id }

abbrev pub ack_key_eq : AckKey → AckKey → Bool
ack_key_eq k l = str_eq k.room l.room && str_eq k.socket_id l.socket_id && (k.id == l.id)

pub record PingKey : Type 0 where
  pub ping_sid : String
  pub ping_room : String

pub record Client : Type 0 where
  pub notifiers : KeyMap AckKey ℕ
  pub next_custom_msg_id : ℕ
  pub custom_msg_cbs : AssocMap (List ℕ)
  pub rooms : List String
  pub ping_chs : KeyMap PingKey (List ℕ)

-- `PushCustomAckMsgCh`, with the channel that it makes
unfoldable pub push_custom_ack_msg_ch : String → String → ℕ → ℕ → Client → Client
unfolding put_key
push_custom_ack_msg_ch room to id ch c = record c {
  notifiers = put_key ack_key_eq (ack_key room to id) ch c.notifiers;
}

abbrev pub popped : Client → AckKey → Option ℕ → Client × Option ℕ → Client × Option ℕ
popped c key none later = later
popped c key (some ch) later =
    (record c { notifiers = delete_key ack_key_eq key c.notifiers }, some ch)

-- `PopCustomAckMsgCh`: an entry for the socket, or else one for any socket
unfoldable pub pop_custom_ack_msg_ch : String → String → ℕ → Client → Client × Option ℕ
unfolding find_key delete_key
pop_custom_ack_msg_ch room from id c =
    let mine = ack_key room from id in
    let any = ack_key room "" id in
    popped c mine (find_key ack_key_eq mine c.notifiers)
      (popped c any (find_key ack_key_eq any c.notifiers) (c, none))

-- `SendMessage` up to its wait, with the channel for the answer
unfoldable pub send_message : Bool → String → String → String → ℕ → Client → Client × CustomMessage
unfolding push_custom_ack_msg_ch
send_message ack content to room ch c =
    let id = (c.next_custom_msg_id + 1) % 2 ^ 32 in
    let c' = record c { next_custom_msg_id = id } in
    (
      if ack then push_custom_ack_msg_ch room to id ch c' else c',
      record {
        router = some (record empty_router { room = room; socket_to = to });
        content = content;
        msg_id = id;
        ack = ack;
      },
    )

-- A callback for custom messages is called with these arguments.
pub record Call : Type 0 where
  pub cb : ℕ
  pub content : String
  pub has_ack : Bool
  pub room : String
  pub from : String
  pub to : String

-- The loop of the handler of custom messages: what it calls, and the callbacks that remain
unfoldable pub call_each : (ℕ → Bool) → CustomMessage → List ℕ → List Call × List ℕ
call_each remains msg [] = ([], [])
call_each remains msg (cb ∷ cbs) =
    let (calls, left) = call_each remains msg cbs in
    let r = or_empty_router msg.router in
    (
      record {
        cb = cb;
        content = msg.content;
        has_ack = msg.ack;
        room = r.room;
        from = r.socket_from;
        to = r.socket_to;
      }
          ∷ calls,
      if remains cb then cb ∷ left else left,
    )

-- Callbacks under an event; none are no entry.
abbrev pub with_cbs : String → List ℕ → AssocMap (List ℕ) → AssocMap (List ℕ)
with_cbs evt [] m = erase evt m
with_cbs evt (cb ∷ cbs) m = insert evt (cb ∷ cbs) m

abbrev pub or_no_cbs : Option (List ℕ) → List ℕ
or_no_cbs none = []
or_no_cbs (some cbs) = cbs

-- The handler of custom messages in `accessSignal`
unfoldable pub on_custom : (ℕ → Bool) → String → CustomMessage → Client → Client × List Call
unfolding call_each lookup insert erase
on_custom remains evt msg c =
    let (calls, left) = call_each remains msg (or_no_cbs (lookup evt c.custom_msg_cbs)) in
    (record c { custom_msg_cbs = with_cbs evt left c.custom_msg_cbs }, calls)

-- The answer that a callback may send, its error as the text that it is encoded to
abbrev pub custom_answer : CustomMessage → String → Bool → CustomAckMessage
custom_answer msg res is_err = record {
  router = some (record empty_router { socket_to = (or_empty_router msg.router).socket_from });
  msg_id = msg.msg_id;
  content = res;
  err = is_err;
}

-- The handler of answers, with the channel that is closed
unfoldable pub on_custom_ack : CustomAckMessage → Client → Client × Option ℕ
unfolding pop_custom_ack_msg_ch
on_custom_ack msg c =
    let r = or_empty_router msg.router in pop_custom_ack_msg_ch r.room r.socket_from msg.msg_id c

-- What `SendMessage` returns for an answer, with the decoding of an error
pub data Answer (E : Type 0) : Type 0 where
  content : String → Answer E
  failed : E → Answer E
  not_decoded : Answer E

abbrev pub decoded_error : {E : Type 0} → Option E → Answer E
decoded_error none = not_decoded
decoded_error (some e) = failed e

abbrev pub answer_of : {E : Type 0} → (String → Option E) → CustomAckMessage → Answer E
answer_of decode m = if m.err then decoded_error (decode m.content) else content m.content

-- `OnMessage`
unfoldable pub on_message_cb : String → ℕ → Client → Client
unfolding lookup insert
on_message_cb evt cb c = record c {
  custom_msg_cbs = insert evt (or_no_cbs (lookup evt c.custom_msg_cbs) ++ cb ∷ []) c.custom_msg_cbs;
}

-- `Join` and `Leave` after the answer of the server, and `IsInRoom`
unfoldable pub join_client : List String → Client → Client
unfolding slice_append_no_repeat
join_client names c = record c { rooms = slice_append_no_repeat str_eq c.rooms names }

unfoldable pub leave_client : List String → Client → Client
unfolding slice_remove_by_values
leave_client names c = record c { rooms = slice_remove_by_values str_eq c.rooms false names }

unfoldable pub is_in_room : String → Client → Bool
unfolding in_slice
is_in_room room c = in_slice c.rooms room str_eq

-- signal/signal.go, `MsgCbs`. A call of a callback gives whether it remains, or panics.
abbrev pub CallResult : Type 0
CallResult = Result Bool

-- `invokeMsgCb`: a panic is handled if there is a callback for it that says so, and the callback that
-- panicked does not remain.
abbrev pub recovered : Option (ℕ → Bool) → ℕ → CallResult → CallResult
recovered panic_cb cb (ok b) = ok b
recovered none cb (panic e) = panic e
recovered (some handles) cb (panic e) = if handles cb then ok false else panic e

abbrev pub invoke_msg_cb : Option (ℕ → Bool) → (ℕ → CallResult) → ℕ → CallResult
invoke_msg_cb panic_cb call cb = recovered panic_cb cb (call cb)

-- What is kept, with what is called
abbrev pub RunResult : Type 0
RunResult = Result (List ℕ × List ℕ)

abbrev pub after_call : ℕ → List ℕ × List ℕ → RunResult
after_call cb (left, calls) = ok (left, cb ∷ calls)

-- The loop of `SliceMapChange` with the mapper of `Run`, which calls
unfoldable pub run_in_place : (ℕ → CallResult) → ℕ → ℕ → ℕ → List ℕ → RunResult
run_in_place invoke zero i pos array = ok (take pos array, [])
run_in_place invoke (suc n) i pos array = elim (get_elem? array i) [
  | none ↦ ok (take pos array, [])
  | some cb ↦ invoke cb >>= λ b.
      (if b
        then run_in_place invoke n (suc i) (suc pos) (set array pos cb)
        else run_in_place invoke n (suc i) pos array)
      >>= after_call cb
]

abbrev pub stored_cbs : String → AssocMap (List ℕ) → List ℕ × List ℕ → AssocMap (List ℕ) × List ℕ
stored_cbs evt m (left, calls) = (with_cbs evt left m, calls)

abbrev pub run_found :
    (ℕ → CallResult)
    → String
    → Option (List ℕ)
    → AssocMap (List ℕ)
    → Result (AssocMap (List ℕ) × List ℕ)
run_found invoke evt none m = ok (m, [])
run_found invoke evt (some cbs) m =
    run_in_place invoke (length cbs) 0 0 cbs >>= λ x. ok (stored_cbs evt m x)

-- `MsgCbs.Run`, with the callbacks that it calls
unfoldable pub run_cbs :
    Option (ℕ → Bool)
    → (ℕ → CallResult)
    → String
    → AssocMap (List ℕ)
    → Result (AssocMap (List ℕ) × List ℕ)
unfolding lookup run_in_place insert erase
run_cbs panic_cb call evt m = run_found (invoke_msg_cb panic_cb call) evt (lookup evt m) m

-- `MsgCbs.AddCallback`
unfoldable pub add_event_callback : String → ℕ → AssocMap (List ℕ) → AssocMap (List ℕ)
unfolding lookup insert
add_event_callback evt cb m = insert evt (or_no_cbs (lookup evt m) ++ cb ∷ []) m

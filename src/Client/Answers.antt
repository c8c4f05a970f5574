-- ===== src/Client/Answers.antt =====
-- A custom message and its answer, from the client that sends it through the servers and back.
use mathlib.Core.List.Memᴰ
use conference_go.Common.{
  ℕ, ◌+◌, ◌%◌, ◌^◌, String, Bool, true, false, List, [], ◌∷◌, Option, none, some, str_eq,
  str_eq_iff, str_ne, ◌≡◌, ◌≢◌, refl, ◌↔◌, ◌∙◌, ◌⊎◌, inl, inr, arith, Bool-cases, Memᴰ, sym, ap,
  subst, some_inj, if◌then◌else◌,
}
use conference_go.Maps.{AssocMap, lookup}
use conference_go.Maps.Keyed.{find_key, put_key, delete_key, find-put_key}
use conference_go.Proto.{Router, CustomMessage, CustomClusterMessage, CustomAckMessage}
use conference_go.Message.{
  RoomMessage, custom, custom_cluster, custom_ack, fix_router, fix_message, copy_router,
  copy_custom, copy_plain, fixed, get_router, or_empty_router, or_empty_custom,
}
use conference_go.Message.Client.{ClientMessage, to_client_message}
use conference_go.Message.Client.Hidden.{
  room, socket_from, client_reads, client_reads-to_client_message,
}
use conference_go.Context.{
  RoomInfo, Context, joined_rooms, emitted_copy, emitted_copies, cluster_emit,
}
use conference_go.Context.Handlers.{
  client_event, custom_event, custom_ack_event, to_client, matches_room, matches_socket_to,
  on_custom_message, on_custom_ack_message,
}
use conference_go.Context.Gate.{IsIn, IsAddressed, named, named_or_all, passes_iff}
use conference_go.Client.{
  AckKey, ack_key, ack_key_eq, Client, push_custom_ack_msg_ch, pop_custom_ack_msg_ch, send_message,
  custom_answer, on_custom_ack,
}

pub ack_key_eq_iff : (k l : AckKey) → (ack_key_eq k l ≡ true) ↔ (k ≡ l)
ack_key_eq_iff k l = ground (arith, str_eq_iff k.room l.room, str_eq_iff k.socket_id l.socket_id)

ack_key_eq_refl : (k : AckKey) → ack_key_eq k k ≡ true
ack_key_eq_refl k = (ack_key_eq_iff k k).1 refl

abbrev asking : AckKey → Client → Option ℕ
asking key c = find_key ack_key_eq key c.notifiers

-- What the answer leaves to the client, and the channel for it
abbrev pub answered_by : String → String → ℕ → ℕ → Client → Client × Option ℕ
answered_by name to id ch c = (
  record c {
    notifiers =
        delete_key ack_key_eq (ack_key name to id)
          (put_key ack_key_eq (ack_key name to id) ch c.notifiers);
  },
  some ch,
)

module _ (name : String) (id ch : ℕ) (c : Client) where
  pop-own :
      (to : String)
      → pop_custom_ack_msg_ch name to id (push_custom_ack_msg_ch name to id ch c)
        ≡ answered_by name to id ch c
  unfolding pop_custom_ack_msg_ch push_custom_ack_msg_ch
  pop-own to =
      let key = ack_key name to id in
      rw (find-put_key ack_key_eq ack_key_eq_iff key key ch c.notifiers, ack_key_eq_refl key) refl

  pop-any :
      (from : String)
      → ack_key_eq (ack_key name "" id) (ack_key name from id) ≡ false
      → asking (ack_key name from id) c ≡ none
      → pop_custom_ack_msg_ch name from id (push_custom_ack_msg_ch name "" id ch c)
        ≡ answered_by name "" id ch c
  unfolding pop_custom_ack_msg_ch push_custom_ack_msg_ch
  pop-any from ne n =
      let any = ack_key name "" id in
      let mine = ack_key name from id in
      rw
        (
          find-put_key ack_key_eq ack_key_eq_iff mine any ch c.notifiers,
          ne,
          n,
          find-put_key ack_key_eq ack_key_eq_iff any any ch c.notifiers,
          ack_key_eq_refl any,
        )
        refl

  pop-same :
      (to from : String)
      → to ≡ from
      → pop_custom_ack_msg_ch name from id (push_custom_ack_msg_ch name to id ch c)
        ≡ answered_by name to id ch c
  pop-same to from e =
      subst
        (λ f.
          pop_custom_ack_msg_ch name f id (push_custom_ack_msg_ch name to id ch c)
          ≡ answered_by name to id ch c)
        e (pop-own to)

  -- The entry that was pushed is popped for the socket it names, and for any if it names none.
  pop-push :
      (to from : String)
      → (to ≡ from) ⊎ ((to ≡ "") × (asking (ack_key name from id) c ≡ none))
      → pop_custom_ack_msg_ch name from id (push_custom_ack_msg_ch name to id ch c)
        ≡ answered_by name to id ch c
  pop-push to from (inl e) = pop-same to from e
  pop-push to from (inr (e, n)) =
      subst
        (λ t.
          pop_custom_ack_msg_ch name from id (push_custom_ack_msg_ch name t id ch c)
          ≡ answered_by name t id ch c)
        (sym e)
        (elim (Bool-cases (ack_key_eq (ack_key name "" id) (ack_key name from id))) [
          | inl k ↦ pop-same "" from (
              ap (λ (x : AckKey). x.socket_id)
                ((ack_key_eq_iff (ack_key name "" id) (ack_key name from id)).0 k))
          | inr k ↦ pop-any from k n
        ])

mem-emitted_copies :
    (msg : RoomMessage) (ctx : Context) (name : String) (rooms : List String)
    → Memᴰ name rooms
    → Memᴰ (emitted_copy msg ctx name) (emitted_copies msg ctx rooms)
mem-emitted_copies msg ctx name [] m = absurd (Memᴰ.not-nil m)
mem-emitted_copies msg ctx name (r ∷ rooms) m = elim (Memᴰ.cases_cons m) [
  | inl e ↦ Memᴰ.head (ap (emitted_copy msg ctx) e)
  | inr m' ↦ Memᴰ.tail (mem-emitted_copies msg ctx name rooms m')
]

-- The number of the next custom message
abbrev pub id_to_come : Client → ℕ
id_to_come c = (c.next_custom_msg_id + 1) % 2 ^ 32

mem-joined_rooms :
    (name : String) (info : RoomInfo) (rooms : AssocMap RoomInfo)
    → lookup name rooms ≡ some info
    → info.joined ≡ true
    → Memᴰ name (joined_rooms rooms)
unfolding lookup joined_rooms
mem-joined_rooms name info [] e j = cc
mem-joined_rooms name info ((key, x) ∷ rooms) e j = elim (Bool-cases (str_eq key name)) [
  | inl k ↦
      let x_joined =
        subst (λ (y : RoomInfo). y.joined ≡ true) (sym (some_inj (rw (k, lookup) at e))) j in
      rw x_joined (Memᴰ.head (sym ((str_eq_iff key name).0 k)))
  | inr k ↦
      let m = mem-joined_rooms name info rooms (rw (k, lookup) at e) j in
      elim (Bool-cases x.joined) [ inl q ↦ rw q (Memᴰ.tail m) | inr q ↦ rw q m ]
]

-- The custom message as the server of its sender hands it on, and the answer as the server of the
-- answering client does, for a room.
abbrev pub delivered : String → Context → CustomMessage → CustomMessage
delivered name a m = record m { router = fixed name a.id a.node_name (some (copy_router m.router)) }

abbrev pub returned : String → Context → CustomAckMessage → CustomAckMessage
returned name b m = record m { router = fixed name b.id b.node_name (some (copy_router m.router)) }

abbrev pub in_cluster : String → CustomMessage → RoomMessage
in_cluster evt m = custom_cluster (record { evt = evt; msg = some m })

-- What a client decodes from what its server sends: the room and the sockets are those that it can read.
abbrev pub IsRead : Option Router → ClientMessage → Type 0
IsRead o x =
    ((or_empty_router o).room ≡ client_reads room x)
    × ((or_empty_router o).socket_from ≡ client_reads socket_from x)

abbrev pub IsReceived : CustomMessage → CustomMessage → Type 0
IsReceived m sent = (m.msg_id ≡ sent.msg_id) × IsRead m.router (to_client_message (custom sent))

abbrev pub IsAckReceived : CustomAckMessage → CustomAckMessage → Type 0
IsAckReceived m sent =
    (m.msg_id ≡ sent.msg_id) × IsRead m.router (to_client_message (custom_ack sent))

own_room : (name : String) → (if str_eq name "" then name else name) ≡ name
own_room name = ground arith

abbrev sent_router : String → Context → String → Router
sent_router name a to = record {
  room = if str_eq name "" then name else name;
  node_from = a.node_name;
  node_to = "";
  socket_from = a.id;
  socket_to = to;
}

on_custom_message-passed :
    (m : CustomClusterMessage) (ctx : Context) (r : Router)
    → get_router (custom_cluster m) ≡ some r
    → r.room ≢ ""
    → IsIn r.room ctx
    → IsAddressed named_or_all r ctx
    → client_event (custom_cluster m) ctx
      ≡ some (custom_event m.evt, to_client_message (custom (or_empty_custom m.msg)))
unfolding client_event on_custom_message matches_room matches_socket_to
on_custom_message-passed m ctx r e n i d =
    ap (λ b. to_client b (custom_event m.evt) (custom (or_empty_custom m.msg)))
      ((passes_iff named_or_all (get_router (custom_cluster m)) ctx).1 (r, e, n, i, d))

on_custom_ack_message-passed :
    (m : CustomAckMessage) (ctx : Context) (r : Router)
    → get_router (custom_ack m) ≡ some r
    → r.room ≢ ""
    → IsIn r.room ctx
    → IsAddressed named r ctx
    → client_event (custom_ack m) ctx ≡ some (custom_ack_event, to_client_message (custom_ack m))
unfolding client_event on_custom_ack_message matches_room matches_socket_to
on_custom_ack_message-passed m ctx r e n i d =
    ap (λ b. to_client b custom_ack_event (custom_ack m))
      ((passes_iff named (get_router (custom_ack m)) ctx).1 (r, e, n, i, d))

-- A custom message to a room, for a socket or for any, that asks for an answer, from a client whose session
-- is in the room: its server emits it to that room, and the server of a session in the room that it is
-- for passes it on to the client. When that client answers what it reads, its server emits the answer
-- for that room among others, and the server of the sender passes it on to the client, which then closes
-- the channel of this message and forgets it. The entry that it had for the answering socket, if any,
-- was under another number.
pub on_custom_ack-send_message :
    (a b : Context) (c : Client) (name to evt content res : String) (ch : ℕ) (is_err : Bool)
    (read : CustomMessage) (answer : CustomAckMessage)
    → name ≢ ""
    → IsIn name a
    → IsIn name b
    → (to ≡ b.id) ⊎ ((to ≡ "") × (asking (ack_key name b.id (id_to_come c)) c ≡ none))
    → IsReceived read (delivered name a (send_message true content to name ch c).1)
    → IsAckReceived answer (returned name b (custom_answer read res is_err))
    → (cluster_emit (in_cluster evt (send_message true content to name ch c).1) a
        ≡ in_cluster evt (delivered name a (send_message true content to name ch c).1) ∷ [])
      × (client_event
            (in_cluster evt (delivered name a (send_message true content to name ch c).1))
            b
          ≡ some (
            custom_event evt,
            to_client_message
                (custom (delivered name a (send_message true content to name ch c).1)),
          ))
      × Memᴰ
          (custom_ack (returned name b (custom_answer read res is_err)))
          (cluster_emit (custom_ack (custom_answer read res is_err)) b)
      × (client_event (custom_ack (returned name b (custom_answer read res is_err))) a
          ≡ some (
            custom_ack_event,
            to_client_message (custom_ack (returned name b (custom_answer read res is_err))),
          ))
      × (on_custom_ack answer (send_message true content to name ch c).0
          ≡ answered_by name to (id_to_come c) ch (record c { next_custom_msg_id = id_to_come c }))
unfolding send_message cluster_emit fix_message copy_plain copy_custom get_router fix_router
    copy_router client_event on_custom_message on_custom_ack_message matches_room matches_socket_to
    on_custom_ack
on_custom_ack-send_message a b c name to evt content res ch is_err read answer ne ia ib h (id, rs)
      (id', ar) =
    let m : CustomMessage = delivered name a (send_message true content to name ch c).1 in
    let r : CustomAckMessage = returned name b (custom_answer read res is_err) in
    let from_a = rs.1 ∙ client_reads-to_client_message (custom m) socket_from (λ x. x) in
    let (in_room, from_b) = ar in
    let (info, e, j, _) = ib in
    (
      rw (str_ne ne) refl,
      on_custom_message-passed (record { evt = evt; msg = some m }) b (sent_router name a to) refl
          (subst (λ n. n ≢ "") (sym (own_room name)) ne)
          (subst (λ n. IsIn n b) (sym (own_room name)) ib) (for_b h),
      mem-emitted_copies (custom_ack (custom_answer read res is_err)) b name (joined_rooms b.rooms)
          (mem-joined_rooms name info b.rooms e j),
      on_custom_ack_message-passed r a
          (record {
            room = name;
            node_from = b.node_name;
            node_to = "";
            socket_from = b.id;
            socket_to = (or_empty_router read.router).socket_from;
          })
          refl ne ia from_a,
      rw
          (
            in_room ∙ client_reads-to_client_message (custom_ack r) room (λ x. x),
            from_b ∙ client_reads-to_client_message (custom_ack r) socket_from (λ x. x),
            id' ∙ id,
          )
          (pop-push name (id_to_come c) ch (record c { next_custom_msg_id = id_to_come c }) to b.id
            h),
    )
  where
    for_b :
        (to ≡ b.id) ⊎ ((to ≡ "") × (asking (ack_key name b.id (id_to_come c)) c ≡ none))
        → (to ≡ "") ⊎ (to ≡ b.id)
    for_b (inl e) = inr e
    for_b (inr (e, _)) = inl e

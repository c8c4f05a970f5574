-- ===== src/Context/Gate.antt =====
-- Which messages of the cluster reach the client of a session.
use conference_go.Common.{
  ◌==◌, String, Bool, true, false, not, ◌&&◌, Option, none, some, str_eq, str_eq_iff, str_ne,
  ne_of_str_eq, if◌then◌else◌, ◌≡◌, ◌≢◌, ◌↔◌, ◌⊎◌, inl, inr, refl, arith, sym, ◌∙◌, subst,
  Bool-cases, true-ne-false, some_inj,
}
use conference_go.Maps.{lookup}
use conference_go.Proto.{Router}
use conference_go.Message.{
  RoomMessage, want, state, select, want_participant, state_participant, state_leave, ping, pong,
  custom, custom_cluster, custom_ack, get_router,
}
use conference_go.Message.Client.{ClientMessage}
use conference_go.Context.{RoomInfo, Context, join_id_of_room, known_join_id}
use conference_go.Context.Handlers.{
  ClientEvent, participant_join, participant_leave, ping_event, pong_event, custom_ack_event,
  custom_event, to_client, matches_room, matches_socket_to, in_joined_room, to_socket, client_event,
}

-- The session is in a room.
abbrev pub IsIn : String → Context → Type 0
IsIn room ctx =
    (info : RoomInfo) × (lookup room ctx.rooms ≡ some info)
    × (info.joined ≡ true)
    × (info.join_id ≢ 0)

-- A message that every session of the room gets, one for the socket it names, and one for that socket
-- or for all if it names none.
pub data Audience : Type 0 where
  everyone named named_or_all : Audience

abbrev pub IsAddressed : Audience → Router → Context → Type 0
IsAddressed everyone r ctx = Unit
IsAddressed named r ctx = r.socket_to ≡ ctx.id
IsAddressed named_or_all r ctx = (r.socket_to ≡ "") ⊎ (r.socket_to ≡ ctx.id)

abbrev pub IsFor : Audience → RoomMessage → Context → Type 0
IsFor audience msg ctx =
    (r : Router) × (get_router msg ≡ some r)
    × (r.room ≢ "")
    × IsIn r.room ctx
    × IsAddressed audience r ctx

known_join_id_iff :
    (o : Option RoomInfo)
    → (not (known_join_id o == 0) ≡ true)
      ↔ ((info : RoomInfo) × (o ≡ some info) × (info.joined ≡ true) × (info.join_id ≢ 0))
known_join_id_iff none = (λ e. cc, λ (info, e, _, _). cc)
known_join_id_iff (some info) = elim (Bool-cases info.joined) [
  | inl k ↦ (
    λ e. (info, refl, k, λ z. ground (arith, e, k, z)),
    λ (i, e, j, n).
        subst (λ (x : RoomInfo). not (known_join_id (some x) == 0) ≡ true) (sym (some_inj e))
          (ground (arith, j, n)),
  )
  | inr k ↦ (
    λ e. absurd (ground (arith, e, k)),
    λ (i, e, j, n).
        absurd (true-ne-false j (subst (λ (x : RoomInfo). x.joined ≡ false) (some_inj e) k)),
  )
]

pub join_id_of_room_iff :
    (room : String) (ctx : Context) → (not (join_id_of_room room ctx == 0) ≡ true) ↔ IsIn room ctx
unfolding join_id_of_room
join_id_of_room_iff room ctx = known_join_id_iff (lookup room ctx.rooms)

-- The session that a message is for, and the event that its handler sends.
abbrev pub audience_of : RoomMessage → Option Audience
audience_of (state_participant m) = some everyone
audience_of (state_leave m) = some everyone
audience_of (ping m) = some named
audience_of (pong m) = some named
audience_of (custom_cluster m) = some named_or_all
audience_of (custom_ack m) = some named
audience_of (want m) = none
audience_of (state m) = none
audience_of (select m) = none
audience_of (want_participant m) = none
audience_of (custom m) = none

abbrev pub addressed : Audience → Option Router → Context → Bool
addressed everyone r ctx = true
addressed named r ctx = to_socket r true ctx
addressed named_or_all r ctx = to_socket r false ctx

addressed_iff :
    (audience : Audience) (r : Router) (ctx : Context)
    → (addressed audience (some r) ctx ≡ true) ↔ IsAddressed audience r ctx
addressed_iff everyone r ctx = (λ e. tt, λ u. refl)
addressed_iff named r ctx = str_eq_iff r.socket_to ctx.id
addressed_iff named_or_all r ctx =
    ground (arith, str_eq_iff r.socket_to "", str_eq_iff r.socket_to ctx.id)

guard_iff :
    (a b c : Bool)
    → (((if a then false else b) && c) ≡ true) ↔ ((a ≡ false) × (b ≡ true) × (c ≡ true))
guard_iff true b c = (λ e. cc, λ (p, q, r). cc)
guard_iff false true true = (λ e. (refl, refl, refl), λ x. refl)
guard_iff false true false = (λ e. cc, λ (p, q, r). cc)
guard_iff false false c = (λ e. cc, λ (p, q, r). cc)

pub passes_iff :
    (audience : Audience) (o : Option Router) (ctx : Context)
    → ((in_joined_room o ctx && addressed audience o ctx) ≡ true)
      ↔ ((r : Router) × (o ≡ some r) × (r.room ≢ "") × IsIn r.room ctx × IsAddressed audience r ctx)
passes_iff audience none ctx = (λ e. cc, λ (r, e, _, _, _). cc)
passes_iff audience (some r) ctx =
    let parts =
      guard_iff (str_eq r.room "") (not (join_id_of_room r.room ctx == 0))
        (addressed audience (some r) ctx) in
    (
      λ e.
          let (a, b, c) = parts.0 e in
          (
            r,
            refl,
            ne_of_str_eq r.room "" a,
            (join_id_of_room_iff r.room ctx).0 b,
            (addressed_iff audience r ctx).0 c,
          ),
      λ (r', e, n, i, d).
          let back = λ (P : Router → Type 0) (p : P r'). subst P (sym (some_inj e)) p in
          parts.1 (
            str_ne (back (λ x. x.room ≢ "") n),
            (join_id_of_room_iff r.room ctx).1 (back (λ x. IsIn x.room ctx) i),
            (addressed_iff audience r ctx).1 (back (λ x. IsAddressed audience x ctx) d),
          ),
    )

-- The client is sent something exactly if the guard holds.
to_client_iff :
    (b : Bool) (ev : ClientEvent) (msg : RoomMessage)
    → ((x : ClientEvent × ClientMessage) × (to_client b ev msg ≡ some x)) ↔ (b ≡ true)
to_client_iff true ev msg = (λ x. refl, λ e. (_, refl))
to_client_iff false ev msg = (λ (x, e). cc, λ e. cc)

module _ (msg : RoomMessage) (ctx : Context) where
  -- A handler whose guard is the test of the audience.
  guarded_iff :
      (audience wanted : Audience) (b : Bool) (ev : ClientEvent) (shown : RoomMessage)
      → some audience ≡ some wanted
      → b ≡ (in_joined_room (get_router msg) ctx && addressed audience (get_router msg) ctx)
      → ((x : ClientEvent × ClientMessage) × (to_client b ev shown ≡ some x)) ↔ IsFor wanted msg ctx
  guarded_iff audience wanted b ev shown h e =
      let sent = to_client_iff b ev shown in
      let passes = passes_iff audience (get_router msg) ctx in
      let same = some_inj h in
      (
        λ x. subst (λ w. IsFor w msg ctx) same (passes.0 (sym e ∙ sent.0 x)),
        λ x. sent.1 (e ∙ passes.1 (subst (λ w. IsFor w msg ctx) (sym same) x)),
      )

and_true : (b : Bool) → b ≡ (b && true)
and_true true = refl
and_true false = refl

-- A message of a topic that a handler passes on reaches the client exactly if it is addressed to a room
-- that the session has joined, and, for a ping, a pong or an acknowledgement, to the session's socket; a
-- custom message may also name no socket.
pub client_event_iff :
    (msg : RoomMessage) (audience : Audience) (ctx : Context)
    → audience_of msg ≡ some audience
    → ((x : ClientEvent × ClientMessage) × (client_event msg ctx ≡ some x)) ↔ IsFor audience msg ctx
unfolding client_event matches_room matches_socket_to
client_event_iff (state_participant m) audience ctx h =
    guarded_iff (state_participant m) ctx everyone audience _ participant_join _ h (and_true _)
client_event_iff (state_leave m) audience ctx h =
    guarded_iff (state_leave m) ctx everyone audience _ participant_leave _ h (and_true _)
client_event_iff (ping m) audience ctx h =
    guarded_iff (ping m) ctx named audience _ ping_event _ h refl
client_event_iff (pong m) audience ctx h =
    guarded_iff (pong m) ctx named audience _ pong_event _ h refl
client_event_iff (custom_cluster m) audience ctx h =
    guarded_iff (custom_cluster m) ctx named_or_all audience _ (custom_event m.evt) _ h refl
client_event_iff (custom_ack m) audience ctx h =
    guarded_iff (custom_ack m) ctx named audience _ custom_ack_event _ h refl
client_event_iff (want m) audience ctx h = cc
client_event_iff (state m) audience ctx h = cc
client_event_iff (select m) audience ctx h = cc
client_event_iff (want_participant m) audience ctx h = cc
client_event_iff (custom m) audience ctx h = cc

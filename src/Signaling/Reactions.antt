-- ===== src/Signaling/Reactions.antt =====
-- signal/model.go, `AcceptTrack`, `SatifySelect`, `SelfClose` and `_emit` of a session.
use conference_go.Common.{
  ℕ, zero, suc, String, Bool, true, false, List, [], ◌∷◌, ◌++◌, Option, none, some, if◌then◌else◌,
  Result, ok, panic, ◌>>=◌, ◌⊎◌, inl, inr,
}
use conference_go.Maps.{AssocMap, lookup, insert}
use conference_go.Proto.{Track, StateMessage, SelectMessage}
use conference_go.Message.{RoomMessage, state, select}
use conference_go.Messager.{
  Messager, Topic, on_state, on_want, on_select, on_want_participant, on_state_participant,
  on_state_leave, on_ping, on_pong, on_custom, on_custom_ack, off_topic,
}
use conference_go.Context.{joined_rooms, leave_room}
use conference_go.Context.Handlers.{matches_room}
use conference_go.Publication.Tracks.{Groups}
use conference_go.Router.{Router}
use conference_go.Transceivers.{Transceiver}
use conference_go.Subscription.{
  Subscription, Peer, SentMessages, accept_state, close_subscription, next_sdp_msg_id,
}
use conference_go.Publisher.{PublishedTrack, Publication, satify_select_track}
use conference_go.Signaling.{Session}

abbrev pub has_messages : SentMessages → Bool
has_messages none = false
has_messages (some m) = true

abbrev pub sent_list : SentMessages → List SentMessages
sent_list none = []
sent_list (some m) = some m ∷ []

-- The loop of `AcceptTrack` over the subscriptions: the counter goes on with what is sent.
unfoldable pub accept_each :
    (Groups → Groups)
    → Peer
    → StateMessage
    → AssocMap Subscription
    → ℕ
    → Router
    → Result (AssocMap Subscription × ℕ × Router × List SentMessages)
unfolding accept_state next_sdp_msg_id
accept_each iteration peer m [] n r = ok ([], n, r, [])
accept_each iteration peer m ((id, sub) ∷ subs) n r =
    accept_state iteration peer (next_sdp_msg_id n) m sub r >>= λ (sub', r', sent).
    accept_each iteration peer m subs (if has_messages sent then next_sdp_msg_id n else n) r'
    >>= λ (rest, n', r'', more). ok ((id, sub') ∷ rest, n', r'', sent_list sent ++ more)

-- `AcceptTrack`
unfoldable pub accept_tracks :
    (Groups → Groups) → Peer → StateMessage → Session → Result (Session × List SentMessages)
unfolding accept_each matches_room
accept_tracks iteration peer m s =
    if matches_room (state m) s.ctx
    then (accept_each iteration peer m s.subscriptions s.sdp_msg_id s.router
        >>= λ (subs, n, r, sent).
            ok (record s { subscriptions = subs; sdp_msg_id = n; router = r }, sent))
    else ok (s, [])

abbrev pub Selected : Type 0
Selected = AssocMap PublishedTrack × Router × ℕ

-- The loop of `Publication.SatifySelect`, with the numbers of the consumers from one on
module _ (trs : List Transceiver) (transport_id : String) (is_closed : Bool) where
  abbrev pub satified :
      String → AssocMap PublishedTrack → Router → ℕ → Option PublishedTrack → Result Selected
  satified id pts r c none = ok (pts, r, c)
  satified id pts r c (some pt) =
      satify_select_track is_closed trs transport_id c pt r >>= λ (pt', r', _).
      ok (insert id pt' pts, r', suc c)

  unfoldable pub satify_each : List Track → Selected → Result Selected
  unfolding satify_select_track lookup insert
  satify_each [] x = ok x
  satify_each (t ∷ ts) (pts, r, c) =
      satified t.global_id pts r c (lookup t.global_id pts) >>= satify_each ts

abbrev pub satify_found :
    List Transceiver → SelectMessage → ℕ → Session → Option Publication → Result Session
satify_found trs m c s none = ok s
satify_found trs m c s (some p) =
    satify_each trs m.transport_id p.is_closed m.tracks (p.tracks, s.router, c) >>= λ (pts, r, _).
    ok (record s {
      publications = insert m.pub_id (record p { tracks = pts }) s.publications;
      router = r;
    })

-- `SatifySelect`
unfoldable pub satify_select : List Transceiver → SelectMessage → ℕ → Session → Result Session
unfolding satify_each matches_room lookup insert
satify_select trs m c s =
    if matches_room (select m) s.ctx
    then satify_found trs m c s (lookup m.pub_id s.publications)
    else ok s

-- The kinds of messages that a session listens to, in the order in which `SelfClose` gives them up
abbrev pub all_topics : List Topic
all_topics =
    on_state ∷ on_want ∷ on_select ∷ on_want_participant ∷ on_state_participant ∷ on_state_leave
    ∷ on_ping ∷ on_pong ∷ on_custom ∷ on_custom_ack ∷ []

abbrev pub then_off :
    {F : Type 0}
    → (Messager F → Result (Messager F))
    → Messager F × Result (Unit {0})
    → Result (Messager F)
then_off rest (m, ok u) = rest m
then_off rest (m, panic e) = panic e

unfoldable pub off_each :
    {F : Type 0} → String → List String → List Topic → Messager F → Result (Messager F)
unfolding off_topic
off_each id rps [] m = ok m
off_each id rps (t ∷ ts) m = then_off (off_each id rps ts) (off_topic m t id rps)

-- The loop of `SelfClose` over the subscriptions
unfoldable pub close_each : AssocMap Subscription → Router → Router
unfolding close_subscription
close_each [] r = r
close_each ((id, sub) ∷ subs) r = close_each subs (close_subscription sub r).1

-- `SelfClose`, of a session that is closed or not, with what it sends
abbrev pub Closed : Type 0 → Type 0
Closed F = Session × Messager F × List RoomMessage

abbrev pub closed_session : {F : Type 0} → Session → Result (Messager F) → Result (Closed F)
closed_session s (panic e) = panic e
closed_session s (ok m) = ok (
  record s { subscriptions = []; publications = []; router = close_each s.subscriptions s.router },
  m,
  (leave_room (joined_rooms s.ctx.rooms) s.ctx).1,
)

unfoldable pub self_close : {F : Type 0} → Bool → Session → Messager F → Result (Closed F)
unfolding off_each close_each joined_rooms leave_room
self_close is_closed s m =
    if is_closed
    then ok (s, m, [])
    else closed_session s (off_each s.ctx.id s.ctx.room_patterns all_topics m)

-- The loop of `_emit`: a message that asks for an answer is sent again after an error.
unfoldable pub emit_again : {E A : Type 0} → (ℕ → E ⊎ A) → ℕ → ℕ → E ⊎ A
emit_again send zero i = send i
emit_again send (suc retries) i = elim (send i) [
  | inl e ↦ emit_again send retries (suc i)
  | inr a ↦ inr a
]

-- `_emit`, with what each round of sending gives
unfoldable pub emit_msg : {E A : Type 0} → Bool → (ℕ → E ⊎ A) → ℕ → E ⊎ A
unfolding emit_again
emit_msg ack send retries = emit_again send (if ack then retries else 0) 0

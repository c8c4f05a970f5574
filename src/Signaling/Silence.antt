-- ===== src/Signaling/Silence.antt =====
-- A closed session runs for no message.
use conference_go.Common.{
  String, false, List, [], ◌∷◌, some, ok, str_eq_refl, ◌≡◌, refl, ◌∙◌, ◌↔◌, sym, ap,
}
use conference_go.Proto.{Router}
use conference_go.Room.{split, check_room}
use conference_go.Room.Matches.{Matches}
use conference_go.Message.{RoomMessage, get_router}
use conference_go.Messager.{
  Boxes, Messager, Topic, on_state, on_want, on_select, on_want_participant, on_state_participant,
  on_state_leave, on_ping, on_pong, on_custom, on_custom_ack, with_callbacks, topic_name,
  off_message, off_topic, consume, consume_message,
}
use conference_go.Messager.Registry.{handler_at, AreAccepted, off_message_lem}
use conference_go.Messager.Delivery.{Runs, IsFor}
use conference_go.Messager.Session.{IsNamed, consume-off_topic_iff}
use conference_go.Context.{leave_room, joined_rooms}
use conference_go.Signaling.{Session}
use conference_go.Signaling.Reactions.{
  then_off, off_each, all_topics, close_each, closed_session, self_close,
}

module _ {F : Type 0} (id : String) (rps : List String) where
  abbrev without : Topic → Messager F → Messager F
  without t m = with_callbacks m t (off_message id rps (m.callbacks t)).0

  abbrev without_each : List Topic → Messager F → Messager F
  without_each [] m = m
  without_each (t ∷ ts) m = without_each ts (without t m)

  off_topic-ok :
      (t : Topic) (m : Messager F) → AreAccepted rps → off_topic m t id rps ≡ (without t m, ok tt)
  unfolding off_topic
  off_topic-ok t m ha = ap (λ r. (without t m, r)) (off_message_lem id rps (m.callbacks t) ha).0

  off_each-ok :
      (ts : List Topic) (m : Messager F)
      → AreAccepted rps
      → off_each id rps ts m ≡ ok (without_each ts m)
  unfolding off_each
  off_each-ok [] m ha = refl
  off_each-ok (t ∷ ts) m ha =
      ap (then_off (off_each id rps ts)) (off_topic-ok t m ha) ∙ off_each-ok ts (without t m) ha

  without_each-callbacks :
      (m : Messager F) (t : Topic)
      → (without_each all_topics m).callbacks t ≡ (off_message id rps (m.callbacks t)).0
  without_each-callbacks m on_state = refl
  without_each-callbacks m on_want = refl
  without_each-callbacks m on_select = refl
  without_each-callbacks m on_want_participant = refl
  without_each-callbacks m on_state_participant = refl
  without_each-callbacks m on_state_leave = refl
  without_each-callbacks m on_ping = refl
  without_each-callbacks m on_pong = refl
  without_each-callbacks m on_custom = refl
  without_each-callbacks m on_custom_ack = refl

  consume-without_each :
      (m : Messager F) (t : Topic) (msg : RoomMessage)
      → consume (without_each all_topics m) t msg ≡ consume (off_topic m t id rps).0 t msg
  unfolding consume off_topic
  consume-without_each m t msg =
      ap (λ pm. consume_message m.node_name pm (get_router msg))
        (without_each-callbacks m t ∙ sym put_back)
    where
      put_back :
          (with_callbacks m t (off_message id rps (m.callbacks t)).0).callbacks t
          ≡ (off_message id rps (m.callbacks t)).0
      put_back = rw (str_eq_refl (topic_name t)) refl

-- A session whose patterns are accepted is closed: it keeps no publication and no subscription. A message
-- of any kind to an accepted room, meant for this node or for all, then runs a `funId` exactly if it
-- stood under a matching pattern, other than that of the session under one of its patterns.
pub self_close-consume :
    {F : Type 0} (s : Session) (m : Messager F)
    → AreAccepted s.ctx.room_patterns
    → (s' : Session) × (m' : Messager F) × (msgs : List RoomMessage) × (self_close false s m
        ≡ ok (s', m', msgs))
      × (s'.subscriptions ≡ [])
      × (s'.publications ≡ [])
      × ((t : Topic) (msg : RoomMessage) (target : Router)
          → get_router msg ≡ some target
          → check_room target.room ≡ ok tt
          → IsFor m.node_name target
          → (bm : Boxes F) × (consume m' t msg ≡ ok bm)
            × ((j : String)
                → Runs j bm ↔ (
                    (ps : List String) × (fun : F) × (handler_at ps j (m.callbacks t) ≡ some fun)
                    × Matches ps (split target.room)
                    × ¬ ((s.ctx.id ≡ j) × IsNamed s.ctx.room_patterns ps))))
unfolding self_close
self_close-consume s m ha = (
  record s { subscriptions = []; publications = []; router = close_each s.subscriptions s.router },
  without_each s.ctx.id s.ctx.room_patterns all_topics m,
  (leave_room (joined_rooms s.ctx.rooms) s.ctx).1,
  ap (closed_session s) (off_each-ok s.ctx.id s.ctx.room_patterns all_topics m ha),
  refl,
  refl,
  λ t msg target e hr hf.
      let (bm, run, runs) =
        consume-off_topic_iff m t s.ctx.id s.ctx.room_patterns msg target ha e hr hf in
      (bm, consume-without_each s.ctx.id s.ctx.room_patterns m t msg ∙ run, runs),
)
